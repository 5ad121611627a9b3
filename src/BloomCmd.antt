-- ===== src/BloomCmd.antt =====
-- internal/store/bloom_cmd.go: BF.RESERVE, BF.ADD and BF.EXISTS, on the Bloom filters of the
-- keyspace.
pub mod Kept
pub mod Asked
use monster_db.Prelude.{
  ℕ, Bool, true, false, not, Option, none, some, List, [], ◌∷◌, if◌then◌else◌, ◌>>=◌,
}
use monster_db.Prelude.Int.{pos, negsuc}
use monster_db.Prelude.Bytes.{Bytes}
use monster_db.Prelude.Text.{ascii}
use monster_db.Runtime.{int_reply, null_reply, simple_string}
use monster_db.Bloom.{BloomFilter, Hashing, new_bloom_filter, add, exists_key}
use monster_db.TypeString.{assert_type}
use monster_db.Keyspace.{
  Obj, Db, Host, Moment, Content, quicklist, intset, zset, bloom_filter, no_content, other_content,
  new_ptr_obj, get, put,
}
use monster_db.Keyspace.Behind.{update_content}
use monster_db.Command.{Strconv, Outcome, Command, reply, refuse, err_wrong_args, err_wrong_type}

abbrev pub obj_type_bloom_filters : ℕ
obj_type_bloom_filters = 32

abbrev pub obj_encoding_bool_arr : ℕ
obj_encoding_bool_arr = 2

-- The type assertion of the commands; `none` is its panic.
abbrev pub as_bloom_filter : Content → Option BloomFilter
as_bloom_filter (bloom_filter b) = some b
as_bloom_filter no_content = none
as_bloom_filter (quicklist ql) = none
as_bloom_filter (intset is) = none
as_bloom_filter (zset z) = none
as_bloom_filter other_content = none

unfoldable pub ask : Hashing → Bytes → BloomFilter → Db → Option Outcome
unfolding exists_key
ask hs item b db = do
  found ← exists_key hs item b
  reply (int_reply (pos (if found then 1 else 0))) db

abbrev pub ask_found : Hashing → Bytes → Option Obj × Db → Option Outcome
ask_found hs item (none, db) = reply null_reply db
ask_found hs item (some obj, db) =
    if not (assert_type obj.type_encoding obj_type_bloom_filters)
    then refuse err_wrong_type db
    else (do b ← as_bloom_filter obj.content; ask hs item b db)

unfoldable pub bf_exists : Hashing → Command
unfolding ask
bf_exists hs host m (key ∷ item ∷ []) db = ask_found hs item (get m key db)
bf_exists hs host m [] db = refuse (err_wrong_args (ascii "bf.exists")) db
bf_exists hs host m (a ∷ []) db = refuse (err_wrong_args (ascii "bf.exists")) db
bf_exists hs host m (a ∷ b ∷ c ∷ rest) db = refuse (err_wrong_args (ascii "bf.exists")) db

unfoldable pub add_item : Hashing → Bytes → Bytes → BloomFilter → Db → Option Outcome
unfolding add update_content
add_item hs key item b db = do
  b' ← add hs item b
  reply (int_reply (pos 1)) (update_content key (bloom_filter b') db)

-- BF.ADD does not test the type.
abbrev pub add_found : Hashing → Bytes → Bytes → Option Obj × Db → Option Outcome
add_found hs key item (none, db) = reply null_reply db
add_found hs key item (some obj, db) = do b ← as_bloom_filter obj.content; add_item hs key item b db

unfoldable pub bf_add : Hashing → Command
unfolding add_item
bf_add hs host m (key ∷ item ∷ []) db = add_found hs key item (get m key db)
bf_add hs host m [] db = refuse (err_wrong_args (ascii "bf.add")) db
bf_add hs host m (a ∷ []) db = refuse (err_wrong_args (ascii "bf.add")) db
bf_add hs host m (a ∷ b ∷ c ∷ rest) db = refuse (err_wrong_args (ascii "bf.add")) db

-- BF.RESERVE replaces what the key held.
unfoldable pub bf_reserve : Hashing → Strconv → Command
unfolding new_bloom_filter
bf_reserve hs sc host m (key ∷ rate ∷ capacity ∷ rest) db = do
  b ← new_bloom_filter (hs.sizing ((sc.parse_int 64 capacity).0) rate)
  reply (simple_string (ascii "OK")) (
      put host m key (new_ptr_obj m (bloom_filter b) obj_type_bloom_filters obj_encoding_bool_arr)
        (negsuc 0) db)
bf_reserve hs sc host m [] db = refuse (err_wrong_args (ascii "bf.reserve")) db
bf_reserve hs sc host m (a ∷ []) db = refuse (err_wrong_args (ascii "bf.reserve")) db
bf_reserve hs sc host m (a ∷ b ∷ []) db = refuse (err_wrong_args (ascii "bf.reserve")) db
