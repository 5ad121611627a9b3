-- ===== src/SetCmd.antt =====
-- internal/store/set_cmd.go: SADD, SCARD, SISMEMBER, SMEMBERS and SREM, on the integer sets of the
-- keyspace.
pub mod Members
pub mod Asked
pub mod Kept
use monster_db.Prelude.{
  ℕ, zero, suc, ◌+◌, Bool, true, false, not, ◌&&◌, Option, none, some, List, [], ◌∷◌, ◌++◌, length,
  ◌==◌, if◌then◌else◌, ◌>>=◌,
}
use monster_db.Prelude.Int.{ℤ, pos, negsuc}
use monster_db.Prelude.Bytes.{Bytes}
use monster_db.Prelude.Text.{ascii}
use monster_db.Runtime.{Reply, bytes_reply, int_reply, null_reply, error_reply, int_array}
use monster_db.Intset.{Intset, new_intset, search, holds_at, set, del}
use monster_db.Intset
use monster_db.TypeString.{assert_type}
use monster_db.Keyspace.{
  Obj, Db, Host, Moment, Content, quicklist, intset, zset, bloom_filter, no_content, other_content,
  new_ptr_obj, get, put,
}
use monster_db.Command.{
  Strconv, Outcome, Command, reply, refuse, err_wrong_args, resp_zero, resp_one, reply_first,
}
use monster_db.Keyspace.Behind.{update_content}

abbrev pub obj_type_set : ℕ
obj_type_set = 48

abbrev pub obj_encoding_inset : ℕ
obj_encoding_inset = 4

abbrev pub as_intset : Content → Option Intset
as_intset (intset is) = some is
as_intset no_content = none
as_intset (quicklist ql) = none
as_intset (zset z) = none
as_intset (bloom_filter b) = none
as_intset other_content = none

-- The loop of SADD: arguments that are no 16-bit integers are passed over.
unfoldable pub add_loop : Strconv → List Bytes → ℕ → Intset → Option (ℕ × Intset)
add_loop sc [] count is = some (count, is)
add_loop sc (v ∷ vs) count is = do
  let (n, ok) = sc.parse_int 16 v
  (added, is') ← (if ok then set n is else some (false, is))
  add_loop sc vs (if added then suc count else count) is'

unfoldable pub add_values : Strconv → Bytes → List Bytes → Intset → Db → Option Outcome
unfolding add_loop update_content
add_values sc key args is db = do
  (count, is') ← add_loop sc args 0 is
  reply (int_reply (pos count)) (update_content key (intset is') db)

abbrev pub add_found :
    Strconv → Host → Moment → Bytes → List Bytes → Option Obj × Db → Option Outcome
add_found sc host m key args (none, db) = add_values sc key args new_intset (
    put host m key (new_ptr_obj m (intset new_intset) obj_type_set obj_encoding_inset) (negsuc 0)
      db)
add_found sc host m key args (some obj, db) = do
  is ← as_intset obj.content
  add_values sc key args is db

unfoldable pub sadd : Strconv → Command
sadd sc host m (key ∷ arg ∷ args) db = add_found sc host m key (arg ∷ args) (get m key db)
sadd sc host m [] db = refuse (err_wrong_args (ascii "sadd")) db
sadd sc host m (key ∷ []) db = refuse (err_wrong_args (ascii "sadd")) db

-- SCARD goes on behind its null at another type, to the type assertion.
abbrev pub card_found : Option Obj × Db → Option Outcome
card_found (none, db) = reply null_reply db
card_found (some obj, db) =
    let counted = (do is ← as_intset obj.content; reply (int_reply (pos (Intset.size is))) db) in
    if not (assert_type obj.type_encoding obj_type_set)
    then reply_first null_reply counted
    else counted

unfoldable pub scard : Command
scard host m (key ∷ []) db = card_found (get m key db)
scard host m [] db = refuse (err_wrong_args (ascii "scard")) db
scard host m (a ∷ b ∷ rest) db = refuse (err_wrong_args (ascii "scard")) db

-- SISMEMBER, SMEMBERS and SREM reply null at another type.
abbrev pub set_found : (Intset → Db → Option Outcome) → Option Obj × Db → Option Outcome
set_found act (none, db) = reply null_reply db
set_found act (some obj, db) =
    if not (assert_type obj.type_encoding obj_type_set)
    then reply null_reply db
    else (do is ← as_intset obj.content; act is db)

-- Search, and the test `idx != -1 && is.Get(idx) == value`.
unfoldable pub ask : ℤ → Intset → Db → Option Outcome
unfolding search holds_at
ask value is db = do
  idx ← search value is
  found ← holds_at idx value is
  reply (bytes_reply (if found then resp_one else resp_zero)) db

abbrev pub ask_parsed : ℤ × Bool → Intset → Db → Option Outcome
ask_parsed (value, ok) is db = if not ok then reply (bytes_reply resp_zero) db else ask value is db

-- SISMEMBER goes on behind its error at a wrong number of arguments, and panics at fewer than two,
-- at one only if the key holds a set.
unfoldable pub sismember : Strconv → Command
sismember sc host m [] db = none
sismember sc host m (key ∷ []) db =
    reply_first (error_reply (err_wrong_args (ascii "sismember")))
      (set_found (λ is db'. none) (get m key db))
sismember sc host m (key ∷ arg ∷ []) db =
    set_found (ask_parsed (sc.parse_int 16 arg)) (get m key db)
sismember sc host m (key ∷ arg ∷ a ∷ rest) db =
    reply_first (error_reply (err_wrong_args (ascii "sismember")))
      (set_found (ask_parsed (sc.parse_int 16 arg)) (get m key db))

-- The loop of SMEMBERS: `left` rounds from index `i`.
unfoldable pub members_loop : ℕ → ℕ → Intset → Option (List ℤ)
members_loop zero i is = some []
members_loop (suc left) i is = do
  x ← Intset.get i is
  xs ← members_loop left (i + 1) is
  some (x ∷ xs)

unfoldable pub list_members : Intset → Db → Option Outcome
unfolding members_loop
list_members is db = do xs ← members_loop (Intset.size is) 0 is; reply (int_array xs) db

unfoldable pub smembers : Command
unfolding list_members
smembers host m (key ∷ []) db = set_found list_members (get m key db)
smembers host m [] db = refuse (err_wrong_args (ascii "smembers")) db
smembers host m (a ∷ b ∷ rest) db = refuse (err_wrong_args (ascii "smembers")) db

abbrev pub err_not_integer : Bytes
err_not_integer = ascii "ERR value is not an integer"

unfoldable pub remove_value : Bytes → ℤ × Bool → Intset → Db → Option Outcome
unfolding update_content
remove_value key (value, ok) is db = if not ok then refuse err_not_integer db else (do
  (n, is') ← del value is
  reply (int_reply (pos n)) (update_content key (intset is') db))

unfoldable pub srem : Strconv → Command
unfolding remove_value
srem sc host m (key ∷ arg ∷ []) db =
    set_found (remove_value key (sc.parse_int 16 arg)) (get m key db)
srem sc host m [] db = refuse (err_wrong_args (ascii "srem")) db
srem sc host m (a ∷ []) db = refuse (err_wrong_args (ascii "srem")) db
srem sc host m (a ∷ b ∷ c ∷ rest) db = refuse (err_wrong_args (ascii "srem")) db
