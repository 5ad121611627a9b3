-- ===== src/Session/Respond.antt =====
-- `respond` of internal/server/redis_cmd.go: what becomes of the commands that a client has sent.
use monster_db.Prelude.{
  ℕ, Bool, true, false, not, ◌&&◌, ◌||◌, Option, none, some, List, [], ◌∷◌, ◌++◌, if◌then◌else◌,
  ◌>>=◌,
}
use monster_db.Prelude.Bytes.{Bytes, eqb}
use monster_db.Prelude.Text.{ascii}
use monster_db.Runtime.{RedisCmd, error_reply, simple_string}
use monster_db.Session.{World, Handler, Env, with_conn, tell, find}

-- In a transaction: `QueueCommand`, or `AbortMulti` at an unknown name.
unfoldable pub enqueue : Option Handler → RedisCmd → ℕ → World → World
enqueue none cmd c w =
    tell c (error_reply (ascii "ERR unknown command '" ++ (cmd.cmd ++ ascii "'")) ∷ [])
      (with_conn c (record (w.conns c) { aborted = true }) w)
enqueue (some h) cmd c w =
    tell c (simple_string (ascii "QUEUED") ∷ [])
      (with_conn c (record (w.conns c) { queue = (w.conns c).queue ++ cmd ∷ [] }) w)

abbrev pub when_subscribed : Bytes → Bool
when_subscribed name =
    eqb name (ascii "SUBSCRIBE")
    || eqb name (ascii "UNSUBSCRIBE")
    || eqb name (ascii "PSUBSCRIBE")
    || eqb name (ascii "PUNSUBSCRIBE")
    || eqb name (ascii "PING")
    || eqb name (ascii "QUIT")

abbrev pub is_replicated_cmd : Bytes → Bool
is_replicated_cmd name =
    eqb name (ascii "SET")
    || eqb name (ascii "DEL")
    || eqb name (ascii "RPUSH")
    || eqb name (ascii "LPUSH")
    || eqb name (ascii "INCR")

-- A success of `addReplica` sets `MasterFD`; the client that it makes for the master is left out.
abbrev pub replica_of : Env → List Bytes → ℕ → World → Option World
replica_of env [] c w = none
replica_of env (host ∷ []) c w = none
replica_of env (host ∷ port ∷ rest) c w =
    if env.add_replica host ((env.sc.parse_int 64 port).0)
    then some (tell c (simple_string (ascii "OK") ∷ []) (record w { is_master = false }))
    else some (tell c (error_reply (ascii "unable to replicate master") ∷ []) w)

abbrev pub run_found : Env → Option Handler → RedisCmd → ℕ → World → Option World
run_found env none cmd c w = some (tell c (error_reply (ascii "ERR unknown command") ∷ []) w)
run_found env (some h) cmd c w = do
  w' ← h c cmd.args w
  some (
      if is_replicated_cmd cmd.cmd && w'.is_master
      then record w' { pending = w'.pending ++ cmd ∷ [] }
      else w')

-- Outside a transaction, with what `Lookup` gives; false is the return at a blocked client.
unfoldable pub respond_plain : Env → Option Handler → RedisCmd → ℕ → World → Option (Bool × World)
respond_plain env found cmd c w =
    if (w.conns c).blocked
    then some (false, w)
    else if (w.conns c).subscribed && not (when_subscribed cmd.cmd)
    then some (
      true,
      tell c
          (error_reply
              (ascii "ERR only (P)SUBSCRIBE / (P)UNSUBSCRIBE / PING / QUIT allowed in this context")
            ∷ [])
          w,
    )
    else if eqb cmd.cmd (ascii "REPLICAOF")
    then (do w' ← replica_of env cmd.args c w; some (true, w'))
    else if eqb cmd.cmd (ascii "REPLICA")
    then some (true, tell c (simple_string (ascii "OK") ∷ []) w)
    else (do w' ← run_found env found cmd c w; some (true, w'))

-- EXEC and DISCARD do not wait in a transaction.
abbrev pub waits : Bytes → Bool
waits name = not (eqb name (ascii "EXEC")) && not (eqb name (ascii "DISCARD"))

-- One round of the loop.
unfoldable pub respond_one :
    Env → (Bytes → Option Handler) → RedisCmd → ℕ → World → Option (Bool × World)
unfolding enqueue respond_plain
respond_one env look cmd c w =
    if (w.conns c).multi && waits cmd.cmd
    then some (true, enqueue (look cmd.cmd) cmd c w)
    else respond_plain env (look cmd.cmd) cmd c w

unfoldable pub respond_loop :
    Env → (Bytes → Option Handler) → List RedisCmd → ℕ → World → Option World
respond_loop env look [] c w = some w
respond_loop env look (cmd ∷ cmds) c w = do
  (further, w') ← respond_one env look cmd c w
  if further then respond_loop env look cmds c w' else some w'

-- No client has EXEC in its queue, so one level of EXEC is all that there is.
unfoldable pub respond : Env → List RedisCmd → ℕ → World → Option World
unfolding respond_loop find
respond env cmds c w = respond_loop env (find 1 env) cmds c w
