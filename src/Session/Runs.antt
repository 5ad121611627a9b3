-- ===== src/Session/Runs.antt =====
-- The runs of internal/server/redis_cmd.go keep the server sound.
use monster_db.Prelude.{
  ℕ, ◌≡◌, subst, arith, Bool, true, false, not, ◌&&◌, Bool-cases, inl, inr, Option, none, some,
  List, [], ◌∷◌, ◌++◌, if◌then◌else◌, ◌>>=◌,
}
use monster_db.Prelude.Bytes.{Bytes, eqb}
use monster_db.Prelude.Text.{ascii}
use monster_db.Prelude.Dict.{lookup}
use monster_db.ListCmd.{lpop}
use monster_db.ListCmd.Kept.{lpop-Keeps}
use monster_db.Runtime.{Reply, RedisCmd}
use monster_db.Keyspace.{Db, Moment, init, delete_expired_key}
use monster_db.Keyspace.Consistent.{IsConsistent, delete_expired_key-IsConsistent}
use monster_db.Session.{Conn, World, Handler, Env, with_conn, tell, on_keys, find}
use monster_db.Session.Respond.{
  enqueue, replica_of, run_found, is_replicated_cmd, when_subscribed, respond_plain, waits,
  respond_one, respond_loop, respond,
}
use monster_db.Session.Sound.{
  AllPlain, IsSound, EndsSound, FoundSound, FindsSound, bind-EndsSound, if-EndsSound,
  with_conn-IsSound, tell-IsSound, on_keys-KeepsSound,
}
use monster_db.Session.Registry.{find-FindsSound}

module _ (env : Env) where
  -- Every command is modelled, or unknown.
  abbrev pub AllModelled : List RedisCmd → Type 0
  AllModelled [] = Unit {0}
  AllModelled (cmd ∷ cmds) = (lookup cmd.cmd env.elsewhere ≡ none) × AllModelled cmds

  AllPlain-snoc :
      (qs : List RedisCmd) (q : RedisCmd)
      → AllPlain env qs
      → eqb q.cmd (ascii "EXEC") ≡ false
      → lookup q.cmd env.elsewhere ≡ none
      → AllPlain env (qs ++ q ∷ [])
  AllPlain-snoc [] q p e n = (e, n, tt)
  AllPlain-snoc (r ∷ qs) q p e n = (p.0, p.1, AllPlain-snoc qs q p.2 e n)

  enqueue-IsSound :
      (o : Option Handler) (cmd : RedisCmd) (c : ℕ) (w : World)
      → eqb cmd.cmd (ascii "EXEC") ≡ false
      → lookup cmd.cmd env.elsewhere ≡ none
      → IsSound env w
      → IsSound env (enqueue o cmd c w)
  unfolding enqueue
  enqueue-IsSound none cmd c w e n s =
      tell-IsSound env c _ _ (with_conn-IsSound env c _ w s (s.plain c))
  enqueue-IsSound (some h) cmd c w e n s =
      tell-IsSound env c _ _
        (with_conn-IsSound env c _ w s (AllPlain-snoc ((w.conns c).queue) cmd (s.plain c) e n))

  replica_of-EndsSound :
      (args : List Bytes) (c : ℕ) (w : World)
      → IsSound env w
      → EndsSound env (replica_of env args c w)
  replica_of-EndsSound [] c w s = tt
  replica_of-EndsSound (host ∷ []) c w s = tt
  replica_of-EndsSound (host ∷ port ∷ rest) c w s =
      if-EndsSound env (env.add_replica host ((env.sc.parse_int 64 port).0)) _ _
        (tell-IsSound env c _ (record w { is_master = false })
          (record { consistent = s.consistent; plain = s.plain }))
        (tell-IsSound env c _ w s)

  run_found-EndsSound :
      (o : Option Handler) (cmd : RedisCmd) (c : ℕ) (w : World)
      → FoundSound env o
      → IsSound env w
      → EndsSound env (run_found env o cmd c w)
  run_found-EndsSound none cmd c w k s = tell-IsSound env c _ w s
  run_found-EndsSound (some h) cmd c w k s =
      bind-EndsSound env (h c cmd.args w) _ (k c cmd.args w s) (λ w' s'.
        elim (Bool-cases (is_replicated_cmd cmd.cmd && w'.is_master)) [
          | inl e ↦ rw e (record { consistent = s'.consistent; plain = s'.plain })
          | inr e ↦ rw e s'
        ])

  abbrev RoundSound : Option (Bool × World) → Type 0
  RoundSound none = Unit {0}
  RoundSound (some (further, w)) = IsSound env w

  if-RoundSound :
      (b : Bool) (x y : Option (Bool × World))
      → RoundSound x
      → RoundSound y
      → RoundSound (if b then x else y)
  if-RoundSound true x y h k = h
  if-RoundSound false x y h k = k

  go_on-RoundSound : (o : Option World) → EndsSound env o → RoundSound (o >>= (λ w. some (true, w)))
  go_on-RoundSound none h = tt
  go_on-RoundSound (some w) h = h

  respond_plain-RoundSound :
      (found : Option Handler) (cmd : RedisCmd) (c : ℕ) (w : World)
      → FoundSound env found
      → IsSound env w
      → RoundSound (respond_plain env found cmd c w)
  unfolding respond_plain
  respond_plain-RoundSound found cmd c w k s = if-RoundSound ((w.conns c).blocked) _ _ s (
      if-RoundSound ((w.conns c).subscribed && not (when_subscribed cmd.cmd)) _ _
        (tell-IsSound env c _ w s)
        (if-RoundSound (eqb cmd.cmd (ascii "REPLICAOF")) _ _
          (go_on-RoundSound (replica_of env cmd.args c w) (replica_of-EndsSound cmd.args c w s))
          (if-RoundSound (eqb cmd.cmd (ascii "REPLICA")) _ _ (tell-IsSound env c _ w s) (
            go_on-RoundSound (run_found env found cmd c w)
              (run_found-EndsSound found cmd c w k s)))))

  in_multi : (a b c : Bool) → (a && (not b && not c)) ≡ true → b ≡ false
  in_multi a b c h = ground (arith, h)

  respond_one-RoundSound :
      (look : Bytes → Option Handler) (cmd : RedisCmd) (c : ℕ) (w : World)
      → FindsSound env look
      → lookup cmd.cmd env.elsewhere ≡ none
      → IsSound env w
      → RoundSound (respond_one env look cmd c w)
  unfolding respond_one
  respond_one-RoundSound look cmd c w k n s =
      let plain : RoundSound (respond_plain env (look cmd.cmd) cmd c w) =
        respond_plain-RoundSound (look cmd.cmd) cmd c w (k cmd.cmd n) s in
      elim (Bool-cases ((w.conns c).multi && waits cmd.cmd)) [
        | inl e ↦ rw e (
            enqueue-IsSound (look cmd.cmd) cmd c w
              (in_multi ((w.conns c).multi) (eqb cmd.cmd (ascii "EXEC"))
                (eqb cmd.cmd (ascii "DISCARD")) e)
              n s)
        | inr e ↦ rw e plain
      ]

  round-EndsSound :
      (o : Option (Bool × World)) (f : World → Option World)
      → RoundSound o
      → ((w : World) → IsSound env w → EndsSound env (f w))
      → EndsSound env (o >>= (λ r. if r.0 then f r.1 else some r.1))
  round-EndsSound none f h k = tt
  round-EndsSound (some (further, w)) f h k = if-EndsSound env further (f w) (some w) (k w h) h

  respond_loop-EndsSound :
      (look : Bytes → Option Handler) (cmds : List RedisCmd) (c : ℕ) (w : World)
      → FindsSound env look
      → AllModelled cmds
      → IsSound env w
      → EndsSound env (respond_loop env look cmds c w)
  unfolding respond_loop
  respond_loop-EndsSound look [] c w k a s = s
  respond_loop-EndsSound look (cmd ∷ cmds) c w k a s =
      round-EndsSound (respond_one env look cmd c w) (respond_loop env look cmds c)
        (respond_one-RoundSound look cmd c w k a.0 s)
        (λ w' s'. respond_loop-EndsSound look cmds c w' k a.1 s')

-- A server without clients at the start.
unfoldable pub idle : Conn
idle = record {
  multi = false;
  blocked = false;
  subscribed = false;
  cas = false;
  queue = [];
  aborted = false;
  replies = [];
}

unfoldable pub first_world : World
unfolding idle
first_world = record {
  db = init;
  conns = λ c. idle;
  watched = λ key. [];
  pending = [];
  is_master = true;
  ticks = 0;
}

-- What another part of the server does to a client: BlockOn, processKeys and HandleBlockedClients
-- set and clear CLIENT_BLOCKED, Subscribe and Unsubscribe CLIENT_SUB, and replies and messages are
-- appended.
abbrev pub with_bits : ℕ → Bool → Bool → List Reply → World → World
with_bits c blocked subscribed rs w =
    tell c rs (with_conn c (record (w.conns c) { blocked = blocked; subscribed = subscribed }) w)

-- A run from any consistent keyspace: `respond` with modelled commands, the sampling of expired keys
-- by `serverCronHandler`, the LPOP of `processKeys`, what other parts do to a client, and new clients
-- by `NewClient`, in any order.
pub data Reached (env : Env) : World → Type 0 where
  begins : {db : Db} → IsConsistent db → Reached env (record first_world { db = db })
  responds :
      {w w' : World} (cmds : List RedisCmd) (c : ℕ)
      → Reached env w
      → AllModelled env cmds
      → respond env cmds c w ≡ some w'
      → Reached env w'
  expires_keys :
      {w : World} (m : Moment)
      → Reached env w
      → Reached env (record w { db = delete_expired_key m w.db })
  serves :
      {w w' : World} (c : ℕ) (key : Bytes)
      → Reached env w
      → on_keys env (lpop env.sc) c (key ∷ []) w ≡ some w'
      → Reached env w'
  sets_bits :
      {w : World} (c : ℕ) (blocked subscribed : Bool) (rs : List Reply)
      → Reached env w
      → Reached env (with_bits c blocked subscribed rs w)
  connects : {w : World} (c : ℕ) → Reached env w → Reached env (with_conn c idle w)

-- In every run from a consistent keyspace, in which `respond` gets commands that are modelled or
-- unknown, expired keys are sampled, `processKeys` runs LPOP for clients, other parts set and clear
-- CLIENT_BLOCKED and CLIENT_SUB and append replies, and new clients come: the keyspace stays
-- consistent (every key stands once, and only stored keys have an expiry), and no client has EXEC or
-- a command that is not modelled in its queue.
pub Reached-IsSound : (env : Env) {w : World} → Reached env w → IsSound env w
unfolding first_world respond idle
Reached-IsSound env (begins k) = record { consistent = k; plain = λ c. tt }
Reached-IsSound env (responds {w} {w'} cmds c r a e) = subst (EndsSound env) e (
    respond_loop-EndsSound env (find 1 env) cmds c w (find-FindsSound 1 env) a
      (Reached-IsSound env r))
Reached-IsSound env (expires_keys {w} m r) =
    let s = Reached-IsSound env r in
    record { consistent = delete_expired_key-IsConsistent m w.db s.consistent; plain = s.plain }
Reached-IsSound env (serves {w} {w'} c key r e) = subst (EndsSound env) e (
    on_keys-KeepsSound env (lpop env.sc) (lpop-Keeps env.sc) c (key ∷ []) w (Reached-IsSound env r))
Reached-IsSound env (sets_bits {w} c blocked subscribed rs r) =
    let s = Reached-IsSound env r in
    tell-IsSound env c rs _ (with_conn-IsSound env c _ w s (s.plain c))
Reached-IsSound env (connects {w} c r) = with_conn-IsSound env c idle w (Reached-IsSound env r) tt
