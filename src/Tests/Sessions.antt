-- ===== src/Tests/Sessions.antt =====
-- Clients and transactions of internal/server/redis_cmd.go and internal/store/tx_cmd.go at small
-- worlds.
use monster_db.Prelude.{
  Option, none, ◌≡◌, refl, true, false, some, List, [], ◌∷◌, ◌++◌, length, if◌then◌else◌,
}
use monster_db.Prelude.Int.{pos}
use monster_db.Prelude.Bytes.{Bytes, eqb}
use monster_db.Prelude.Text.{ascii}
use monster_db.Prelude.Dict.{lookup, erase}
use monster_db.Runtime.{Reply, RedisCmd, int_reply}
use monster_db.Keyspace.{del}
use monster_db.Keyspace.Consistent.{init-IsConsistent}
use monster_db.Command.{Outcome}
use monster_db.KeyCmd.{set, del_cmd, del_loop}
use monster_db.Session.{
  Conn, World, Env, has_client, on_keys, exec, find, registered, table, multi_cmd, with_conn, tell,
}
use monster_db.Session.Respond.{respond, respond_loop, respond_one, respond_plain}
use monster_db.Session.Sound.{IsSound}
use monster_db.Session.Runs.{
  first_world, idle, with_bits, begins, responds, sets_bits, Reached-IsSound,
}
use monster_db.Session.Queue.{Waiting, respond-Waiting}
use monster_db.Session.Watched.{GivenUp, exec-GivenUp, hit}
use monster_db.Session.Serial.{Call, Done, in_turn, Names, exec-in_turn}
use monster_db.Tests.Hosts.{
  low_hashing, one_digit, small_host, at_second, three_keys, counter_obj, list_obj, set_obj,
}

abbrev small_env : Env
small_env = record {
  host = small_host;
  clock = at_second;
  sc = one_digit;
  hashing = low_hashing;
  add_replica = λ host port. true;
  elsewhere = (ascii "PUBLISH", λ c args w. none) ∷ [];
}

abbrev cmd_of : Bytes → List Bytes → RedisCmd
cmd_of name args = record { cmd = name; args = args }

-- MULTI of client 4.
abbrev multi_world : World
multi_world =
    tell 4 (Reply.bytes_reply (b'+' ∷ b'O' ∷ b'K' ∷ 13 ∷ 10 ∷ []) ∷ [])
      (with_conn 4 (record idle { multi = true }) first_world)

runs_multi : respond small_env (cmd_of (ascii "MULTI") [] ∷ []) 4 first_world ≡ some multi_world
unfolding respond respond_loop respond_one respond_plain find table registered lookup multi_cmd
    first_world idle
runs_multi = refl

-- MULTI of client 4 and then SET k v of client 5.
abbrev after_respond : Option World → World
after_respond none = first_world
after_respond (some w) = w

abbrev set_k : List RedisCmd
set_k = cmd_of (ascii "SET") ((b'k' ∷ []) ∷ (b'v' ∷ []) ∷ []) ∷ []

unfoldable set_world : World
unfolding respond
set_world = after_respond (respond small_env set_k 5 multi_world)

runs_set : respond small_env set_k 5 multi_world ≡ some set_world
unfolding set_world respond respond_loop respond_one respond_plain find table registered lookup
    on_keys set first_world idle
runs_set = refl

-- Client 6 waits for a list then.
Reached-IsSound_example : IsSound small_env (with_bits 6 true false [] set_world)
unfolding lookup first_world
Reached-IsSound_example = Reached-IsSound small_env (
    sets_bits 6 true false [] (
      responds set_k 5
        (responds (cmd_of (ascii "MULTI") [] ∷ []) 4 (begins init-IsConsistent) (refl, tt)
          runs_multi)
        (refl, tt) runs_set))

-- Client 4 is in a transaction with DEL n queued, and watches l.
abbrev in_transaction : Conn
in_transaction = record {
  multi = true;
  blocked = false;
  subscribed = false;
  cas = false;
  queue = cmd_of (ascii "DEL") ((b'n' ∷ []) ∷ []) ∷ [];
  aborted = false;
  replies = [];
}

unfoldable waiting_world : World
unfolding three_keys
waiting_world = record {
  db = three_keys;
  conns = λ c. in_transaction;
  watched = λ key. if eqb (b'l' ∷ []) key then 4 ∷ [] else [];
  pending = [];
  is_master = true;
  ticks = 0;
}

respond-Waiting_example :
    (w' : World) × (respond small_env
        (cmd_of (ascii "GET") ((b'n' ∷ []) ∷ []) ∷ cmd_of (ascii "NO") [] ∷ [])
        4
        waiting_world
      ≡ some w')
    × Waiting
        (find 1 small_env)
        (cmd_of (ascii "GET") ((b'n' ∷ []) ∷ []) ∷ cmd_of (ascii "NO") [] ∷ [])
        4
        waiting_world
        w'
unfolding waiting_world
respond-Waiting_example =
    respond-Waiting small_env
      (cmd_of (ascii "GET") ((b'n' ∷ []) ∷ []) ∷ cmd_of (ascii "NO") [] ∷ []) 4 waiting_world refl
      (refl, (refl, tt))

-- Client 5 sends DEL l.
abbrev del_outcome : Outcome
del_outcome = record {
  replies = int_reply (pos 1) ∷ [];
  db = record (three_keys) {
    store = (b'n' ∷ [], counter_obj) ∷ (b's' ∷ [], set_obj) ∷ [];
    keys_stat = pos 2;
    modified = (b'l' ∷ []) ∷ [];
  };
}

del_returns :
    del_cmd small_host
      (at_second 0)
      ((b'l' ∷ []) ∷ [])
      (record (waiting_world.db) { modified = [] })
    ≡ some del_outcome
unfolding del_cmd del_loop del three_keys waiting_world lookup erase
del_returns = refl

exec-GivenUp_example :
    (w' : World) × (w'' : World) × (on_keys small_env del_cmd 5 ((b'l' ∷ []) ∷ []) waiting_world
      ≡ some w')
    × (exec (find 0 small_env) 4 [] w' ≡ some w'')
    × (w'.db ≡ del_outcome.db)
    × ((w'.conns 4).replies ≡ (waiting_world.conns 4).replies)
    × GivenUp 4 w' w''
unfolding waiting_world
exec-GivenUp_example =
    exec-GivenUp small_env del_cmd (find 0 small_env) 4 5 (b'l' ∷ []) ((b'l' ∷ []) ∷ []) []
      del_outcome waiting_world refl refl refl del_returns refl

abbrev del_n : Call
del_n = record { command = del_cmd; args = (b'n' ∷ []) ∷ [] }

abbrev n_gone : Done
n_gone = record {
  replies = int_reply (pos 1) ∷ [];
  changed = (b'n' ∷ []) ∷ [];
  db = record (three_keys) {
    store = (b'l' ∷ [], list_obj) ∷ (b's' ∷ [], set_obj) ∷ [];
    keys_stat = pos 2;
    modified = (b'n' ∷ []) ∷ [];
  };
}

del_n-in_turn :
    in_turn small_env (del_n ∷ []) (waiting_world.ticks) (waiting_world.db) ≡ some n_gone
unfolding in_turn del_cmd del_loop del three_keys waiting_world lookup erase
del_n-in_turn = refl

queue-Names : Names small_env (find 0 small_env) ((waiting_world.conns 4).queue) (del_n ∷ [])
unfolding waiting_world find table registered lookup
queue-Names = (refl, refl, tt)

exec-in_turn_example :
    (w' : World) × (exec (find 0 small_env) 4 [] waiting_world ≡ some w')
    × (w'.db ≡ n_gone.db)
    × ((w'.conns 4).replies
        ≡ (waiting_world.conns 4).replies
          ++ int_reply (pos (length ((waiting_world.conns 4).queue))) ∷ n_gone.replies)
    × ((w'.conns 4).multi ≡ false)
    × ((w'.conns 4).queue ≡ [])
    × ((w'.conns 4).cas ≡ hit 4 waiting_world.watched n_gone.changed)
    × ((key : Bytes) → has_client 4 (w'.watched key) ≡ false)
unfolding waiting_world
exec-in_turn_example =
    exec-in_turn small_env (find 0 small_env) 4 [] del_n [] n_gone waiting_world refl refl refl
      queue-Names del_n-in_turn
