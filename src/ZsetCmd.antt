-- ===== src/ZsetCmd.antt =====
-- internal/store/zset_cmd.go: ZADD, ZREM, ZSCORE and ZRANGE, on the sorted sets of the keyspace.
pub mod Kept
pub mod Scored
use monster_db.Prelude.{
  ℕ, ◌+◌, Bool, true, false, not, ◌||◌, Option, none, some, List, [], ◌∷◌, if◌then◌else◌, ◌>>=◌,
}
use monster_db.Prelude.Int.{ℤ, pos, negsuc}
use monster_db.Prelude.Bytes.{Bytes}
use monster_db.Prelude.Text.{ascii}
use monster_db.Runtime.{bytes_reply, int_reply, null_reply, str_array}
use monster_db.Skiplist.{random_level, max_lvl}
use monster_db.Zset.{Zset, new_zset, add, search, range}
use monster_db.Zset
use monster_db.TypeString.{assert_type}
use monster_db.Keyspace.{
  Obj, Db, Host, Moment, Content, quicklist, intset, zset, bloom_filter, no_content, other_content,
  new_ptr_obj, get, put,
}
use monster_db.Keyspace.Behind.{update_content}
use monster_db.Command.{
  Strconv, Outcome, Command, reply, refuse, err_wrong_args, err_wrong_type, err_invalid_int,
  resp_one,
}

abbrev pub obj_type_zset : ℕ
obj_type_zset = 64

abbrev pub obj_encoding_skiplist : ℕ
obj_encoding_skiplist = 5

-- The type assertion of the commands; `none` is its panic.
abbrev pub as_zset : Content → Option Zset
as_zset (zset z) = some z
as_zset no_content = none
as_zset (quicklist ql) = none
as_zset (intset is) = none
as_zset (bloom_filter b) = none
as_zset other_content = none

unfoldable pub add_value : Moment → Bytes → ℤ → Bytes → Zset → Db → Option Outcome
unfolding random_level update_content
add_value m key score member z db =
    reply (bytes_reply resp_one)
      (update_content key (zset (add (random_level max_lvl m.risen) member score z)) db)

abbrev pub add_found : Host → Moment → Bytes → ℤ → Bytes → Option Obj × Db → Option Outcome
add_found host m key score member (none, db) = add_value m key score member new_zset (
    put host m key (new_ptr_obj m (zset new_zset) obj_type_zset obj_encoding_skiplist) (negsuc 0)
      db)
add_found host m key score member (some obj, db) =
    if not (assert_type obj.type_encoding obj_type_zset)
    then refuse err_wrong_type db
    else (do z ← as_zset obj.content; add_value m key score member z db)

abbrev pub add_parsed : Host → Moment → Bytes → ℤ × Bool → Bytes → Db → Option Outcome
add_parsed host m key (score, ok) member db =
    if not ok then refuse err_invalid_int db else add_found host m key score member (get m key db)

unfoldable pub zadd : Strconv → Command
unfolding add_value
zadd sc host m (key ∷ score ∷ member ∷ []) db =
    add_parsed host m key (sc.parse_int 64 score) member db
zadd sc host m [] db = refuse (err_wrong_args (ascii "zadd")) db
zadd sc host m (a ∷ []) db = refuse (err_wrong_args (ascii "zadd")) db
zadd sc host m (a ∷ b ∷ []) db = refuse (err_wrong_args (ascii "zadd")) db
zadd sc host m (a ∷ b ∷ c ∷ d ∷ rest) db = refuse (err_wrong_args (ascii "zadd")) db

-- What ZREM, ZSCORE and ZRANGE do with what is found at the key.
abbrev pub zset_found : (Zset → Db → Option Outcome) → Option Obj × Db → Option Outcome
zset_found act (none, db) = reply null_reply db
zset_found act (some obj, db) =
    if not (assert_type obj.type_encoding obj_type_zset)
    then refuse err_wrong_type db
    else (do z ← as_zset obj.content; act z db)

-- The loop of ZREM.
unfoldable pub remove_loop : List Bytes → ℕ → Zset → ℕ × Zset
remove_loop [] count z = (count, z)
remove_loop (member ∷ members) count z =
    let (n, z') = Zset.delete member z in remove_loop members (count + n) z'

unfoldable pub remove_members : Bytes → List Bytes → Zset → Db → Option Outcome
unfolding remove_loop update_content
remove_members key members z db =
    let (count, z') = remove_loop members 0 z in
    reply (int_reply (pos count)) (update_content key (zset z') db)

unfoldable pub zrem : Command
unfolding remove_members
zrem host m (key ∷ member ∷ members) db =
    zset_found (remove_members key (member ∷ members)) (get m key db)
zrem host m [] db = refuse (err_wrong_args (ascii "zrem")) db
zrem host m (key ∷ []) db = refuse (err_wrong_args (ascii "zrem")) db

abbrev pub reply_score : ℤ × Bool → Db → Option Outcome
reply_score (score, exists) db =
    if not exists then reply null_reply db else reply (int_reply score) db

unfoldable pub zscore : Command
unfolding search
zscore host m (key ∷ member ∷ []) db =
    zset_found (λ z db'. reply_score (search member z) db') (get m key db)
zscore host m [] db = refuse (err_wrong_args (ascii "zscore")) db
zscore host m (a ∷ []) db = refuse (err_wrong_args (ascii "zscore")) db
zscore host m (a ∷ b ∷ c ∷ rest) db = refuse (err_wrong_args (ascii "zscore")) db

abbrev pub list_range : ℤ × Bool → ℤ × Bool → Bytes → Moment → Db → Option Outcome
list_range (first, ok1) (last, ok2) key m db =
    if not ok1 || not ok2
    then refuse err_invalid_int db
    else zset_found (λ z db'. reply (str_array (range first last z)) db') (get m key db)

unfoldable pub zrange : Strconv → Command
unfolding range
zrange sc host m (key ∷ first ∷ last ∷ []) db =
    list_range (sc.parse_int 64 first) (sc.parse_int 64 last) key m db
zrange sc host m [] db = refuse (err_wrong_args (ascii "zrange")) db
zrange sc host m (a ∷ []) db = refuse (err_wrong_args (ascii "zrange")) db
zrange sc host m (a ∷ b ∷ []) db = refuse (err_wrong_args (ascii "zrange")) db
zrange sc host m (a ∷ b ∷ c ∷ d ∷ rest) db = refuse (err_wrong_args (ascii "zrange")) db
