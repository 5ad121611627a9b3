-- ===== src/Session.antt =====
-- internal/server/redis_cmd.go `respond`, internal/store/tx_cmd.go and the watched keys of
-- internal/server/client.go and server.go: which commands run, wait or are refused. A client is its
-- `Fd`.
pub mod Respond
pub mod Queue
pub mod Sound
pub mod Registry
pub mod Runs
pub mod Watched
pub mod Serial
use monster_db.Prelude.{
  ℕ, zero, suc, ◌+◌, Bool, true, false, not, ◌&&◌, ◌||◌, Option, none, some, List, [], ◌∷◌, ◌++◌,
  length, ◌==◌, if◌then◌else◌, ◌>>=◌,
}
use monster_db.Prelude.Int.{ℤ, pos}
use monster_db.Prelude.Bytes.{Bytes, eqb}
use monster_db.Prelude.Text.{ascii}
use monster_db.Prelude.Dict.{Dict, lookup}
use monster_db.Runtime.{
  Reply, RedisCmd, error_reply, null_reply, simple_string, bytes_reply, int_reply,
}
use monster_db.Pubsub.{at_client, at_key, remove_client, is_nil}
use monster_db.Keyspace.{Db, Host, Moment}
use monster_db.Command.{Strconv, Command, crlf}
use monster_db.KeyCmd.{ping, get_cmd, set, del_cmd, ttl, expire, incr}
use monster_db.ListCmd.{llen, lpush, rpush, lrange, lpop}
use monster_db.SetCmd.{sadd, scard, sismember, smembers, srem}
use monster_db.Bloom.{Hashing}
use monster_db.BloomCmd.{bf_add, bf_exists, bf_reserve}
use monster_db.ZsetCmd.{zadd, zrem, zscore, zrange}

-- A client: the four bits of `flag`, its `multistate`, and what has been appended to its buffer.
pub record Conn : Type 0 where
  pub multi : Bool
  pub blocked : Bool
  pub subscribed : Bool
  pub cas : Bool
  pub queue : List RedisCmd
  pub aborted : Bool
  pub replies : List Reply

-- The keyspace, the clients, the map `watchedKeys` with no entry where a list is empty, the
-- commands for the replicas, whether `MasterFD` is -1, and how many commands on keys have run.
pub record World : Type 0 where
  pub db : Db
  pub conns : ℕ → Conn
  pub watched : Bytes → List ℕ
  pub pending : List RedisCmd
  pub is_master : Bool
  pub ticks : ℕ

-- What a command does for a client; `none` is a panic.
abbrev pub Handler : Type 0
Handler = ℕ → List Bytes → World → Option World

-- The moment of every command on keys, whether `addReplica` reaches the master, and the registered commands that are not modelled.
pub record Env : Type 0 where
  pub host : Host
  pub clock : ℕ → Moment
  pub sc : Strconv
  pub hashing : Hashing
  pub add_replica : Bytes → ℤ → Bool
  pub elsewhere : Dict Handler

abbrev pub with_conn : ℕ → Conn → World → World
with_conn c k w = record w { conns = at_client c k w.conns }

abbrev pub tell : ℕ → List Reply → World → World
tell c rs w = with_conn c (record (w.conns c) { replies = (w.conns c).replies ++ rs }) w

abbrev pub has_client : ℕ → List ℕ → Bool
has_client c [] = false
has_client c (d ∷ ds) = if d == c then true else has_client c ds

unfoldable pub touch_watched_keys : Bytes → World → World
touch_watched_keys key w = record w {
  conns =
      λ d. if has_client d (w.watched key) then record (w.conns d) { cas = true } else w.conns d;
}

unfoldable pub touch_all : List Bytes → World → World
unfolding touch_watched_keys
touch_all [] w = w
touch_all (key ∷ keys) w = touch_all keys (touch_watched_keys key w)

-- A command on keys. `SignalModifiedKey` is `TouchWatchedKeys`; no command on keys reads what it
-- writes, so the calls may come behind the command.
unfoldable pub on_keys : Env → Command → Handler
unfolding touch_all
on_keys env cmd c args w = do
  out ← cmd env.host (env.clock w.ticks) args (record (w.db) { modified = [] })
  some (
      tell c out.replies
        (touch_all out.db.modified (record w { db = out.db; ticks = w.ticks + 1 })))

abbrev pub resp_ok : Bytes
resp_ok = b'+' ∷ b'O' ∷ b'K' ∷ crlf

abbrev pub resp_empty_array : Bytes
resp_empty_array = b'*' ∷ b'0' ∷ crlf

unfoldable pub multi_cmd : Handler
multi_cmd c args w = some (
    tell c (bytes_reply resp_ok ∷ [])
      (with_conn c (record (w.conns c) { multi = true; queue = []; aborted = false }) w))

-- `ResetMultiState` and `ClearFlag(MULTI_MODE)`.
unfoldable pub leave_multi : ℕ → World → World
leave_multi c w = with_conn c (record (w.conns c) { multi = false; queue = []; aborted = false }) w

unfoldable pub unwatch_all_keys : ℕ → World → World
unwatch_all_keys c w = record w { watched = λ key. remove_client (w.watched key) c }

unfoldable pub watch_keys : ℕ → List Bytes → World → World
watch_keys c [] w = w
watch_keys c (key ∷ keys) w =
    watch_keys c keys (record w { watched = at_key key (w.watched key ++ c ∷ []) w.watched })

unfoldable pub discard : Handler
unfolding leave_multi unwatch_all_keys
discard c args w =
    if not ((w.conns c).multi)
    then some (tell c (error_reply (ascii "-ERR DISCARD without MULTI" ++ crlf) ∷ []) w)
    else some (tell c (bytes_reply resp_ok ∷ []) (unwatch_all_keys c (leave_multi c w)))

unfoldable pub watch : Handler
unfolding watch_keys
watch c args w =
    if (w.conns c).multi
    then some (tell c (error_reply (ascii "ERR WATCH inside MULTI not allowed") ∷ []) w)
    else some (tell c (bytes_reply resp_ok ∷ []) (watch_keys c args w))

-- The commands of EXEC, with what `Lookup` gives for a name.
abbrev pub exec_one : Option Handler → RedisCmd → ℕ → World → Option World
exec_one none q c w =
    some (tell c (error_reply (ascii "-ERR unknown command '" ++ (q.cmd ++ ascii "'")) ∷ []) w)
exec_one (some h) q c w = h c q.args w

unfoldable pub exec_loop : (Bytes → Option Handler) → ℕ → List RedisCmd → World → Option World
exec_loop look c [] w = some w
exec_loop look c (q ∷ qs) w = do w' ← exec_one (look q.cmd) q c w; exec_loop look c qs w'

-- EXEC at a client whose key was changed, or whose queue is spoiled.
unfoldable pub abort : ℕ → World → World
unfolding leave_multi unwatch_all_keys
abort c w =
    let w' = leave_multi c (unwatch_all_keys c w) in
    tell c (null_reply ∷ []) (with_conn c (record (w'.conns c) { cas = false }) w')

unfoldable pub exec : (Bytes → Option Handler) → Handler
unfolding abort exec_loop
exec look c args w =
    let k = w.conns c in
    if not k.multi
    then some (tell c (error_reply (ascii "-ERR EXEC without MULTI" ++ crlf) ∷ []) w)
    else if k.cas || k.aborted
    then some (abort c w)
    else if is_nil k.queue
    then some
        (tell c (bytes_reply resp_empty_array ∷ []) (with_conn c (record k { multi = false }) w))
    else (do
      w' ← exec_loop look c k.queue (tell c (int_reply (pos (length k.queue)) ∷ []) w)
      some (unwatch_all_keys c (leave_multi c w')))

-- The registry without EXEC and without what is not modelled.
unfoldable pub registered : Env → Dict Handler
registered env =
    (ascii "SET", on_keys env (set env.sc))
    ∷ (ascii "GET", on_keys env get_cmd)
    ∷ (ascii "TTL", on_keys env ttl)
    ∷ (ascii "DEL", on_keys env del_cmd)
    ∷ (ascii "EXPIRE", on_keys env (expire env.sc))
    ∷ (ascii "INCR", on_keys env (incr env.sc))
    ∷ (ascii "RPUSH", on_keys env (rpush env.sc))
    ∷ (ascii "LPUSH", on_keys env (lpush env.sc))
    ∷ (ascii "LLEN", on_keys env llen)
    ∷ (ascii "LRANGE", on_keys env (lrange env.sc))
    ∷ (ascii "LPOP", on_keys env (lpop env.sc))
    ∷ (ascii "BF.ADD", on_keys env (bf_add env.hashing))
    ∷ (ascii "BF.EXISTS", on_keys env (bf_exists env.hashing))
    ∷ (ascii "BF.RESERVE", on_keys env (bf_reserve env.hashing env.sc))
    ∷ (ascii "SADD", on_keys env (sadd env.sc))
    ∷ (ascii "SCARD", on_keys env scard)
    ∷ (ascii "SISMEMBER", on_keys env (sismember env.sc))
    ∷ (ascii "SMEMBERS", on_keys env smembers)
    ∷ (ascii "SREM", on_keys env (srem env.sc))
    ∷ (ascii "ZADD", on_keys env (zadd env.sc))
    ∷ (ascii "ZREM", on_keys env zrem)
    ∷ (ascii "ZSCORE", on_keys env zscore)
    ∷ (ascii "ZRANGE", on_keys env (zrange env.sc))
    ∷ (ascii "WATCH", watch)
    ∷ (ascii "MULTI", multi_cmd)
    ∷ (ascii "DISCARD", discard)
    ∷ (ascii "PING", on_keys env ping)
    ∷ []

-- The registry without EXEC.
unfoldable pub table : Env → Dict Handler
unfolding registered
table env = registered env ++ env.elsewhere

-- `Lookup`. EXEC looks its queued commands up in turn; `fuel` bounds how deep EXEC stands in EXEC.
unfoldable pub find : ℕ → Env → Bytes → Option Handler
unfolding exec table
find zero env name =
    if eqb name (ascii "EXEC") then some (λ c args w. none) else lookup name (table env)
find (suc fuel) env name =
    let within = find fuel env in
    if eqb name (ascii "EXEC") then some (exec within) else lookup name (table env)
