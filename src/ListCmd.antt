-- ===== src/ListCmd.antt =====
-- internal/store/list_cmd.go: LLEN, LPUSH, RPUSH, LRANGE and LPOP, on the quicklists of the keyspace.
pub mod Pushed
pub mod Popped
pub mod Kept
use monster_db.Prelude.{
  ℕ, Bool, true, false, not, Option, none, some, List, [], ◌∷◌, ◌++◌, length, ◌==◌, if◌then◌else◌,
  ◌>>=◌,
}
use monster_db.Prelude.Int.{ℤ, pos, negsuc}
use monster_db.Prelude.Bytes.{Bytes}
use monster_db.Prelude.Text.{ascii}
use monster_db.Prelude.Dict.{lookup, insert}
use monster_db.Runtime.{Reply, bytes_reply, int_reply, null_reply, error_reply}
use monster_db.Listpack.Codec.{Value, int, str}
use monster_db.Quicklist.{
  Quicklist, new_quicklist, add_to_head, add_to_tail, get_elements, remove_elements,
}
use monster_db.TypeString.{is_int, assert_type}
use monster_db.Keyspace.{
  Obj, Db, Host, Moment, Content, quicklist, intset, zset, bloom_filter, no_content, other_content,
  new_ptr_obj, get, put,
}
use monster_db.Keyspace.Behind.{update_content}
use monster_db.Command.{
  Strconv, Outcome, Command, reply, refuse, err_wrong_args, err_wrong_type, resp_zero, reply_first,
}

abbrev pub obj_type_list : ℕ
obj_type_list = 16

abbrev pub obj_encoding_listpack : ℕ
obj_encoding_listpack = 3

-- `obj.Value.(*ds.Quicklist)`, which panics at another type.
abbrev pub as_quicklist : Content → Option Quicklist
as_quicklist (quicklist ql) = some ql
as_quicklist no_content = none
as_quicklist (intset is) = none
as_quicklist (zset z) = none
as_quicklist (bloom_filter b) = none
as_quicklist other_content = none

-- A value is an integer if `isInt` accepts it, with what `Atoi` returns, error or not.
unfoldable pub value_of : Strconv → Bytes → Value
value_of sc arg = if is_int arg then int ((sc.parse_int 64 arg).0) else str arg

unfoldable pub push_loop :
    Strconv → (Value → Quicklist → Option Quicklist) → List Bytes → Quicklist → Option Quicklist
unfolding value_of
push_loop sc add [] ql = some ql
push_loop sc add (arg ∷ args) ql = do ql' ← add (value_of sc arg) ql; push_loop sc add args ql'

-- LPUSH and RPUSH behind their choice of a list: the values go in, a list that was empty is marked
-- as ready, and the reply is the new length.
unfoldable pub push_values :
    Strconv
    → (Value → Quicklist → Option Quicklist)
    → Bytes
    → List Bytes
    → Quicklist
    → Db
    → Option Outcome
unfolding push_loop update_content
push_values sc add key args ql db = do
  ql' ← push_loop sc add args ql
  let db' = update_content key (quicklist ql') db
  reply (int_reply (pos ql'.len))
      (if ql.len == 0 then record db' { ready = db'.ready ++ key ∷ [] } else db')

abbrev pub push_found :
    Strconv
    → (Value → Quicklist → Option Quicklist)
    → Host
    → Moment
    → Bytes
    → List Bytes
    → Option Obj × Db
    → Option Outcome
push_found sc add host m key args (none, db) = do
  ql ← new_quicklist
  push_values sc add key args ql (
      put host m key (new_ptr_obj m (quicklist ql) obj_type_list obj_encoding_listpack) (negsuc 0)
        db)
push_found sc add host m key args (some obj, db) =
    if not (assert_type obj.type_encoding obj_type_list)
    then refuse err_wrong_type db
    else (do ql ← as_quicklist obj.content; push_values sc add key args ql db)

unfoldable pub lpush : Strconv → Command
lpush sc host m (key ∷ arg ∷ args) db =
    push_found sc add_to_head host m key (arg ∷ args) (get m key db)
lpush sc host m [] db = refuse (err_wrong_args (ascii "lpush")) db
lpush sc host m (key ∷ []) db = refuse (err_wrong_args (ascii "lpush")) db

unfoldable pub rpush : Strconv → Command
rpush sc host m (key ∷ arg ∷ args) db =
    push_found sc add_to_tail host m key (arg ∷ args) (get m key db)
rpush sc host m [] db = refuse (err_wrong_args (ascii "rpush")) db
rpush sc host m (key ∷ []) db = refuse (err_wrong_args (ascii "rpush")) db

abbrev pub llen_found : Option Obj × Db → Option Outcome
llen_found (none, db) = reply (bytes_reply resp_zero) db
llen_found (some obj, db) =
    if not (assert_type obj.type_encoding obj_type_list)
    then reply (bytes_reply resp_zero) db
    else (do ql ← as_quicklist obj.content; reply (int_reply (pos ql.len)) db)

-- LLEN goes on behind its error at a wrong number of arguments, and panics if there is none.
unfoldable pub llen : Command
llen host m [] db = none
llen host m (key ∷ []) db = llen_found (get m key db)
llen host m (key ∷ a ∷ rest) db =
    reply_first (error_reply (err_wrong_args (ascii "llen"))) (llen_found (get m key db))

abbrev pub range_found : ℤ → ℤ → Option Obj × Db → Option Outcome
range_found start stop (none, db) = reply null_reply db
range_found start stop (some obj, db) = do
  ql ← as_quicklist obj.content
  replies ← get_elements start stop ql
  some (record { replies = replies; db = db })

unfoldable pub lrange : Strconv → Command
lrange sc host m (key ∷ start ∷ stop ∷ []) db =
    range_found ((sc.parse_int 64 start).0) ((sc.parse_int 64 stop).0) (get m key db)
lrange sc host m [] db = refuse (err_wrong_args (ascii "lrange")) db
lrange sc host m (a ∷ []) db = refuse (err_wrong_args (ascii "lrange")) db
lrange sc host m (a ∷ b ∷ []) db = refuse (err_wrong_args (ascii "lrange")) db
lrange sc host m (a ∷ b ∷ c ∷ d ∷ rest) db = refuse (err_wrong_args (ascii "lrange")) db

abbrev pub pop_found : Bytes → ℤ → Option Obj × Db → Option Outcome
pop_found key count (none, db) = reply null_reply db
pop_found key count (some obj, db) = do
  ql ← as_quicklist obj.content
  (replies, ql') ← remove_elements count ql
  some (record { replies = replies; db = update_content key (quicklist ql') db })

-- The count is 1 unless there are exactly two arguments.
abbrev pub pop_count_of : Strconv → List Bytes → ℤ
pop_count_of sc [] = pos 1
pop_count_of sc (count ∷ []) = (sc.parse_int 64 count).0
pop_count_of sc (a ∷ b ∷ rest) = pos 1

unfoldable pub lpop : Strconv → Command
lpop sc host m [] db = refuse (err_wrong_args (ascii "lpop")) db
lpop sc host m (key ∷ args) db = pop_found key (pop_count_of sc args) (get m key db)
