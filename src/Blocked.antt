-- ===== src/Blocked.antt =====
-- internal/store/blocking_cmd.go, and `BlockOn`, `processKeys`, `HandleBlockedClients` and `MarkReady`
-- of internal/server/client.go and server.go: clients that wait for a list.
pub mod Served
pub mod Overdue
use monster_db.Prelude.{
  ℕ, ◌*◌, ◌%◌, ◌^◌, Bool, true, false, not, Option, none, some, List, [], ◌∷◌, ◌++◌, if◌then◌else◌,
  ◌>>=◌,
}
use monster_db.Prelude.Int.{ℤ, pos, ltb_ℤ, ◌+ℤ◌, to_word, from_word}
use monster_db.Prelude.Bytes.{Bytes, eqb}
use monster_db.Prelude.Text.{ascii}
use monster_db.Runtime.{Reply, error_reply, null_reply}
use monster_db.Pubsub.{at_client, at_key}
use monster_db.Keyspace.{Db, Host, Moment, is_empty}
use monster_db.Command.{Strconv, err_wrong_args, err_invalid_int}
use monster_db.ListCmd.{lpop}

-- What a client has of this: CLIENT_BLOCKED, `when` in nanoseconds, none at its zero value, and what
-- was appended to its buffer.
pub record Waiter : Type 0 where
  pub blocked : Bool
  pub when : Option ℤ
  pub replies : List Reply

-- The maps `waitingKeys` and `readyKeys`, with no entry where a list is empty.
pub record Blocking : Type 0 where
  pub db : Db
  pub clients : ℕ → Waiter
  pub waiting : Bytes → List ℕ
  pub ready : List Bytes

abbrev pub with_waiter : ℕ → Waiter → Blocking → Blocking
with_waiter c k w = record w { clients = at_client c k w.clients }

-- A positive number of milliseconds from now, on int64, or no limit.
abbrev pub deadline : ℤ → ℤ → Option ℤ
deadline now ms =
    if ltb_ℤ (pos 0) ms
    then some (now +ℤ from_word (2 ^ 64) (to_word (2 ^ 64) ms * 1000000 % 2 ^ 64))
    else none

unfoldable pub block_on : ℤ → ℕ → Bytes → ℤ → Blocking → Blocking
block_on now c key timeout_ms w = record w {
  waiting = at_key key (w.waiting key ++ c ∷ []) w.waiting;
  clients =
      at_client c (record (w.clients c) { blocked = true; when = deadline now timeout_ms })
        w.clients;
}

abbrev pub append : ℕ → List Reply → Blocking → Blocking
append c rs w = with_waiter c (record (w.clients c) { replies = (w.clients c).replies ++ rs }) w

-- LPOP of a key for a client.
unfoldable pub pop_for : Strconv → Host → Moment → ℕ → Bytes → Blocking → Option Blocking
unfolding lpop
pop_for sc host m c key w = do
  out ← lpop sc host m (key ∷ []) w.db
  some (append c out.replies (record w { db = out.db }))

abbrev pub blpop_parsed :
    Strconv → Host → Moment → ℤ → ℕ → Bytes → ℤ × Bool → Blocking → Option Blocking
blpop_parsed sc host m now c key (timeout, ok) w =
    let popped = pop_for sc host m c key w in
    if not ok then some (append c (error_reply err_invalid_int ∷ []) w) else (do
      empty ← is_empty key w.db
      if empty then some (block_on now c key timeout w) else popped)

unfoldable pub blpop : Strconv → Host → Moment → ℤ → ℕ → List Bytes → Blocking → Option Blocking
unfolding block_on pop_for
blpop sc host m now c (key ∷ timeout ∷ []) w =
    blpop_parsed sc host m now c key (sc.parse_int 64 timeout) w
blpop sc host m now c [] w = some (append c (error_reply (err_wrong_args (ascii "blpop")) ∷ []) w)
blpop sc host m now c (a ∷ []) w =
    some (append c (error_reply (err_wrong_args (ascii "blpop")) ∷ []) w)
blpop sc host m now c (a ∷ b ∷ d ∷ rest) w =
    some (append c (error_reply (err_wrong_args (ascii "blpop")) ∷ []) w)

abbrev pub add_key : Bytes → List Bytes → List Bytes
add_key key [] = key ∷ []
add_key key (k ∷ ks) = if eqb k key then k ∷ ks else k ∷ add_key key ks

abbrev pub mark_for : Bytes → List ℕ → Blocking → Blocking
mark_for key [] w = w
mark_for key (c ∷ cs) w = record w { ready = add_key key w.ready }

unfoldable pub mark_ready : Bytes → Blocking → Blocking
mark_ready key w = mark_for key (w.waiting key) w

abbrev pub release : ℕ → Blocking → Blocking
release c w = with_waiter c (record (w.clients c) { blocked = false; when = none }) w

-- One round of `processKeys`, with the clients that wait for the key.
abbrev pub process_key : Strconv → Host → Moment → Bytes → List ℕ → Blocking → Option Blocking
process_key sc host m key [] w = some w
process_key sc host m key (c ∷ cs) w = do
  w' ← pop_for sc host m c key w
  some (release c (record w' { waiting = at_key key cs w'.waiting }))

-- The loop over the ready keys, each of which is deleted, with the moment of every command.
unfoldable pub process_loop :
    Strconv → Host → (Bytes → Moment) → List Bytes → Blocking → Option Blocking
unfolding pop_for
process_loop sc host clock [] w = some (record w { ready = [] })
process_loop sc host clock (key ∷ keys) w = do
  w' ← process_key sc host (clock key) key (w.waiting key) w
  process_loop sc host clock keys w'

unfoldable pub process_keys : Strconv → Host → (Bytes → Moment) → Blocking → Option Blocking
unfolding process_loop
process_keys sc host clock w = process_loop sc host clock w.ready w

abbrev pub overdue : ℤ → Option ℤ → Bool
overdue now none = false
overdue now (some when) = ltb_ℤ when now

-- The loop over the clients of a key: those that stay, and the state.
unfoldable pub expire_waiters : ℤ → List ℕ → Blocking → List ℕ × Blocking
expire_waiters now [] w = ([], w)
expire_waiters now (c ∷ cs) w =
    let late = overdue now (w.clients c).when in
    let w1 : Blocking = if late then append c (null_reply ∷ []) (release c w) else w in
    let (active, w2) = expire_waiters now cs w1 in (if late then active else c ∷ active, w2)

unfoldable pub handle_blocked_clients : ℤ → List Bytes → Blocking → Blocking
unfolding expire_waiters
handle_blocked_clients now [] w = w
handle_blocked_clients now (key ∷ keys) w =
    let (active, w') = expire_waiters now (w.waiting key) w in
    handle_blocked_clients now keys (record w' { waiting = at_key key active w'.waiting })
