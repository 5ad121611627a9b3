-- ===== src/Session/Sound.antt =====
-- What every run of the modelled commands of internal/server/redis_cmd.go keeps: the keyspace is
-- consistent, and no client has EXEC or a command that is not modelled in its queue.
use monster_db.Prelude.{
  ℕ, ◌+◌, ◌≡◌, refl, Bool, true, false, not, ◌||◌, Bool-cases, inl, inr, Option, none, some, List,
  [], ◌∷◌, ◌++◌, ◌==◌, if◌then◌else◌, ◌>>=◌,
}
use monster_db.Prelude.Bytes.{Bytes, eqb}
use monster_db.Prelude.Text.{ascii}
use monster_db.Prelude.Dict.{lookup}
use monster_db.Runtime.{Reply, RedisCmd}
use monster_db.Pubsub.{is_nil}
use monster_db.Keyspace.Consistent.{IsConsistent, same-IsConsistent}
use monster_db.Command.{Outcome, Command}
use monster_db.Command.Kept.{IsKept, Keeps}
use monster_db.Session.{
  Conn, World, Handler, Env, with_conn, tell, has_client, touch_watched_keys, touch_all, on_keys,
  multi_cmd, leave_multi, unwatch_all_keys, watch_keys, discard, watch, exec_one, exec_loop, abort,
  exec,
}

module _ (env : Env) where
  -- No EXEC, and no command that is not modelled.
  abbrev pub AllPlain : List RedisCmd → Type 0
  AllPlain [] = Unit {0}
  AllPlain (q ∷ qs) =
      (eqb q.cmd (ascii "EXEC") ≡ false) × (lookup q.cmd env.elsewhere ≡ none) × AllPlain qs

  pub record IsSound (w : World) : Type 0 where
    pub consistent : IsConsistent w.db
    pub plain : (c : ℕ) → AllPlain ((w.conns c).queue)

  -- A panic leaves nothing behind.
  abbrev pub EndsSound : Option World → Type 0
  EndsSound none = Unit {0}
  EndsSound (some w) = IsSound w

  abbrev pub KeepsSound : Handler → Type 0
  KeepsSound h = (c : ℕ) (args : List Bytes) (w : World) → IsSound w → EndsSound (h c args w)

  pub bind-EndsSound :
      (o : Option World) (f : World → Option World)
      → EndsSound o
      → ((w : World) → IsSound w → EndsSound (f w))
      → EndsSound (o >>= f)
  bind-EndsSound none f h k = tt
  bind-EndsSound (some w) f h k = k w h

  pub if-EndsSound :
      (b : Bool) (x y : Option World) → EndsSound x → EndsSound y → EndsSound (if b then x else y)
  if-EndsSound true x y h k = h
  if-EndsSound false x y h k = k

  pub with_conn-IsSound :
      (c : ℕ) (k : Conn) (w : World) → IsSound w → AllPlain k.queue → IsSound (with_conn c k w)
  with_conn-IsSound c k w s p = record {
    consistent = s.consistent;
    plain = λ d. elim (Bool-cases (d == c)) [ inl e ↦ rw e p | inr e ↦ rw e (s.plain d) ];
  }

  pub tell-IsSound : (c : ℕ) (rs : List Reply) (w : World) → IsSound w → IsSound (tell c rs w)
  tell-IsSound c rs w s =
      with_conn-IsSound c (record (w.conns c) { replies = (w.conns c).replies ++ rs }) w s
        (s.plain c)

  touch_all-IsSound : (keys : List Bytes) (w : World) → IsSound w → IsSound (touch_all keys w)
  unfolding touch_all touch_watched_keys
  touch_all-IsSound [] w s = s
  touch_all-IsSound (key ∷ keys) w s = touch_all-IsSound keys _ (record {
    consistent = s.consistent;
    plain = λ d. elim (Bool-cases (has_client d (w.watched key))) [
      | inl e ↦ rw e (s.plain d)
      | inr e ↦ rw e (s.plain d)
    ];
  })

  run_on-EndsSound :
      (c : ℕ) (w : World) (o : Option Outcome)
      → IsKept o
      → IsSound w
      → EndsSound (
          o >>= (λ out. some (
            tell c out.replies
              (touch_all out.db.modified (record w { db = out.db; ticks = w.ticks + 1 })))))
  run_on-EndsSound c w none k s = tt
  run_on-EndsSound c w (some out) k s = tell-IsSound c out.replies _ (
      touch_all-IsSound out.db.modified (record w { db = out.db; ticks = w.ticks + 1 })
        (record { consistent = k; plain = s.plain }))

  pub on_keys-KeepsSound : (cmd : Command) → Keeps cmd → KeepsSound (on_keys env cmd)
  unfolding on_keys
  on_keys-KeepsSound cmd k c args w s =
      run_on-EndsSound c w _
        (k env.host (env.clock w.ticks) args (record (w.db) { modified = [] })
          (same-IsConsistent w.db _ refl refl s.consistent))
        s

  leave_multi-IsSound : (c : ℕ) (w : World) → IsSound w → IsSound (leave_multi c w)
  unfolding leave_multi
  leave_multi-IsSound c w s = with_conn-IsSound c _ w s tt

  unwatch_all_keys-IsSound : (c : ℕ) (w : World) → IsSound w → IsSound (unwatch_all_keys c w)
  unfolding unwatch_all_keys
  unwatch_all_keys-IsSound c w s = record { consistent = s.consistent; plain = s.plain }

  watch_keys-IsSound :
      (c : ℕ) (keys : List Bytes) (w : World) → IsSound w → IsSound (watch_keys c keys w)
  unfolding watch_keys
  watch_keys-IsSound c [] w s = s
  watch_keys-IsSound c (key ∷ keys) w s =
      watch_keys-IsSound c keys _ (record { consistent = s.consistent; plain = s.plain })

  pub multi_cmd-KeepsSound : KeepsSound multi_cmd
  unfolding multi_cmd
  multi_cmd-KeepsSound c args w s = tell-IsSound c _ _ (with_conn-IsSound c _ w s tt)

  pub discard-KeepsSound : KeepsSound discard
  unfolding discard
  discard-KeepsSound c args w s =
      if-EndsSound (not ((w.conns c).multi)) _ _ (tell-IsSound c _ w s)
        (tell-IsSound c _ _ (unwatch_all_keys-IsSound c _ (leave_multi-IsSound c w s)))

  pub watch-KeepsSound : KeepsSound watch
  unfolding watch
  watch-KeepsSound c args w s =
      if-EndsSound ((w.conns c).multi) _ _ (tell-IsSound c _ w s)
        (tell-IsSound c _ _ (watch_keys-IsSound c args w s))

  -- What a lookup of a modelled command gives is sound.
  abbrev pub FoundSound : Option Handler → Type 0
  FoundSound none = Unit {0}
  FoundSound (some h) = KeepsSound h

  abbrev pub FindsSound : (Bytes → Option Handler) → Type 0
  FindsSound look = (name : Bytes) → lookup name env.elsewhere ≡ none → FoundSound (look name)

  pub if-FoundSound :
      (b : Bool) (x y : Option Handler)
      → FoundSound x
      → FoundSound y
      → FoundSound (if b then x else y)
  if-FoundSound true x y h k = h
  if-FoundSound false x y h k = k

  exec_one-EndsSound :
      (o : Option Handler) (q : RedisCmd) (c : ℕ) (w : World)
      → FoundSound o
      → IsSound w
      → EndsSound (exec_one o q c w)
  exec_one-EndsSound none q c w k s = tell-IsSound c _ w s
  exec_one-EndsSound (some h) q c w k s = k c q.args w s

  exec_loop-EndsSound :
      (look : Bytes → Option Handler) (c : ℕ) (qs : List RedisCmd) (w : World)
      → FindsSound look
      → AllPlain qs
      → IsSound w
      → EndsSound (exec_loop look c qs w)
  unfolding exec_loop
  exec_loop-EndsSound look c [] w k p s = s
  exec_loop-EndsSound look c (q ∷ qs) w k p s =
      bind-EndsSound (exec_one (look q.cmd) q c w) (exec_loop look c qs)
        (exec_one-EndsSound (look q.cmd) q c w (k q.cmd p.1) s)
        (λ w' s'. exec_loop-EndsSound look c qs w' k p.2 s')

  abort-IsSound : (c : ℕ) (w : World) → IsSound w → IsSound (abort c w)
  unfolding abort
  abort-IsSound c w s =
      let s' = leave_multi-IsSound c _ (unwatch_all_keys-IsSound c w s) in
      tell-IsSound c _ _ (with_conn-IsSound c _ _ s' (s'.plain c))

  pub exec-KeepsSound : (look : Bytes → Option Handler) → FindsSound look → KeepsSound (exec look)
  unfolding exec
  exec-KeepsSound look k c args w s =
      let conn : Conn = w.conns c in
      if-EndsSound (not conn.multi) _ _ (tell-IsSound c _ w s) (
        if-EndsSound (conn.cas || conn.aborted) _ _ (abort-IsSound c w s) (
          if-EndsSound (is_nil conn.queue) _ _
            (tell-IsSound c _ _ (with_conn-IsSound c _ w s (s.plain c)))
            (bind-EndsSound _ _
              (exec_loop-EndsSound look c conn.queue _ k (s.plain c) (tell-IsSound c _ w s))
              (λ w' s'. unwatch_all_keys-IsSound c _ (leave_multi-IsSound c w' s')))))
