-- ===== src/Session/Registry.antt =====
-- The registry of internal/store/store.go: its commands keep the server sound.
use monster_db.Prelude.{ℕ, zero, suc, ◌≡◌, none, some, [], ◌∷◌, ◌++◌}
use monster_db.Prelude.Bytes.{Bytes, eqb}
use monster_db.Prelude.Text.{ascii}
use monster_db.Prelude.Dict.{Dict, lookup}
use monster_db.KeyCmd.Kept.{
  ping-Keeps, del_cmd-Keeps, set-Keeps, get_cmd-Keeps, ttl-Keeps, expire-Keeps, incr-Keeps,
}
use monster_db.ListCmd.Kept.{rpush-Keeps, lpush-Keeps, llen-Keeps, lrange-Keeps, lpop-Keeps}
use monster_db.SetCmd.Kept.{sadd-Keeps, scard-Keeps, sismember-Keeps, smembers-Keeps, srem-Keeps}
use monster_db.BloomCmd.Kept.{bf_add-Keeps, bf_exists-Keeps, bf_reserve-Keeps}
use monster_db.ZsetCmd.Kept.{zadd-Keeps, zrem-Keeps, zscore-Keeps, zrange-Keeps}
use monster_db.Session.{Handler, Env, registered, table, find}
use monster_db.Session.Sound.{
  KeepsSound, if-FoundSound, FoundSound, FindsSound, on_keys-KeepsSound, multi_cmd-KeepsSound,
  discard-KeepsSound, watch-KeepsSound, exec-KeepsSound,
}

abbrev AllKeepSound : Env → Dict Handler → Type 0
AllKeepSound env [] = Unit {0}
AllKeepSound env ((name, h) ∷ d) = KeepsSound env h × AllKeepSound env d

lookup-FoundSound :
    (env : Env) (d e : Dict Handler) (name : Bytes)
    → AllKeepSound env d
    → lookup name e ≡ none
    → FoundSound env (lookup name (d ++ e))
unfolding lookup
lookup-FoundSound env [] e name all n = rw n tt
lookup-FoundSound env ((j, g) ∷ d) e name all n =
    if-FoundSound env (eqb j name) (some g) (lookup name (d ++ e)) all.0
      (lookup-FoundSound env d e name all.1 n)

registered-AllKeepSound : (env : Env) → AllKeepSound env (registered env)
unfolding registered
registered-AllKeepSound env =
    let keys = on_keys-KeepsSound env in
    (
      keys _ (set-Keeps env.sc),
      (
        keys _ get_cmd-Keeps,
        (
          keys _ ttl-Keeps,
          (
            keys _ del_cmd-Keeps,
            (
              keys _ (expire-Keeps env.sc),
              (
                keys _ (incr-Keeps env.sc),
                (
                  keys _ (rpush-Keeps env.sc),
                  (
                    keys _ (lpush-Keeps env.sc),
                    (
                      keys _ llen-Keeps,
                      (
                        keys _ (lrange-Keeps env.sc),
                        (
                          keys _ (lpop-Keeps env.sc),
                          (
                            keys _ (bf_add-Keeps env.hashing),
                            (
                              keys _ (bf_exists-Keeps env.hashing),
                              (
                                keys _ (bf_reserve-Keeps env.hashing env.sc),
                                (
                                  keys _ (sadd-Keeps env.sc),
                                  (
                                    keys _ scard-Keeps,
                                    (
                                      keys _ (sismember-Keeps env.sc),
                                      (
                                        keys _ smembers-Keeps,
                                        (
                                          keys _ (srem-Keeps env.sc),
                                          (
                                            keys _ (zadd-Keeps env.sc),
                                            (
                                              keys _ zrem-Keeps,
                                              (
                                                keys _ zscore-Keeps,
                                                (
                                                  keys _ (zrange-Keeps env.sc),
                                                  (
                                                    watch-KeepsSound env,
                                                    (
                                                      multi_cmd-KeepsSound env,
                                                      (
                                                        discard-KeepsSound env,
                                                        (keys _ ping-Keeps, tt),
                                                      ),
                                                    ),
                                                  ),
                                                ),
                                              ),
                                            ),
                                          ),
                                        ),
                                      ),
                                    ),
                                  ),
                                ),
                              ),
                            ),
                          ),
                        ),
                      ),
                    ),
                  ),
                ),
              ),
            ),
          ),
        ),
      ),
    )

table-FoundSound :
    (env : Env) (name : Bytes)
    → lookup name env.elsewhere ≡ none
    → FoundSound env (lookup name (table env))
unfolding table
table-FoundSound env name n =
    lookup-FoundSound env (registered env) env.elsewhere name (registered-AllKeepSound env) n

pub find-FindsSound : (n : ℕ) (env : Env) → FindsSound env (find n env)
unfolding find
find-FindsSound zero env name e =
    if-FoundSound env (eqb name (ascii "EXEC")) _ (lookup name (table env)) (λ c args w s. tt)
      (table-FoundSound env name e)
find-FindsSound (suc n) env name e =
    if-FoundSound env (eqb name (ascii "EXEC")) _ (lookup name (table env))
      (exec-KeepsSound env (find n env) (find-FindsSound n env)) (table-FoundSound env name e)
