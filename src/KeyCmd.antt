-- ===== src/KeyCmd.antt =====
-- internal/store/key_cmd.go: PING, GET, SET, DEL, TTL, EXPIRE and INCR.
pub mod Strings
pub mod Expiry
pub mod Kept
use monster_db.Prelude.{
  ℕ, suc, ◌+◌, ◌-◌, ◌/◌, ◌^◌, Bool, true, false, not, ◌||◌, Option, none, some, List, [], ◌∷◌, ltb,
  if◌then◌else◌,
}
use monster_db.Prelude.Int.{ℤ, pos, negsuc}
use monster_db.Prelude.Bytes.{Bytes, eqb}
use monster_db.Prelude.Text.{ascii}
use monster_db.Prelude.Dict.{insert}
use monster_db.Runtime.{Reply, bytes_reply, int_reply, null_reply, bulk_string, simple_string}
use monster_db.Resp.{int_sum}
use monster_db.TypeString.{
  assert_type, assert_encoding, obj_type_string, obj_encoding_int, deduce_type_encoding,
}
use monster_db.Keyspace.{
  Obj, Db, Host, Moment, new_string_obj, set_expiry, get_expiry, has_expired, get, put, del,
}
use monster_db.Command.{
  Strconv, Outcome, Command, reply, refuse, err_wrong_args, err_invalid_int, resp_zero, resp_one,
  resp_minus_one, resp_minus_two, to_millis,
}

unfoldable pub ping : Command
ping host m [] db = reply (simple_string (ascii "PONG")) db
ping host m (message ∷ []) db = reply (bulk_string message) db
ping host m (a ∷ b ∷ rest) db = refuse (err_wrong_args (ascii "ping")) db

-- The error of `assertType` and `assertEncoding`.
abbrev pub not_permitted : Bytes
not_permitted = ascii "the operation is not permitted on this type"

-- INCR: the object that `Get` finds, or a new one.
abbrev pub counter_of : Host → Moment → Bytes → Option Obj × Db → Obj × Db
counter_of host m key (some obj, db) = (obj, db)
counter_of host m key (none, db) =
    let obj = new_string_obj m (b'0' ∷ []) obj_type_string obj_encoding_int in
    (obj, put host m key obj (negsuc 0) db)

-- INCR behind its read of the object. The stored object is the one that was read, with its string
-- replaced.
unfoldable pub incr_obj : Strconv → Bytes → Obj × Db → Option Outcome
incr_obj sc key (obj, db) =
    if not (assert_type obj.type_encoding obj_type_string)
    then refuse not_permitted db
    else if not (assert_encoding obj.type_encoding obj_encoding_int)
    then refuse not_permitted db
    else let i = int_sum ((sc.parse_int 64 obj.str_val).0) (pos 1) in
      reply (int_reply i)
        (record db { store = insert key (record obj { str_val = sc.format_int i }) db.store })

unfoldable pub incr : Strconv → Command
unfolding incr_obj
incr sc host m (key ∷ []) db = incr_obj sc key (counter_of host m key (get m key db))
incr sc host m [] db = refuse (err_wrong_args (ascii "incr")) db
incr sc host m (a ∷ b ∷ rest) db = refuse (err_wrong_args (ascii "incr")) db

-- EXPIRE behind its `Get`.
abbrev pub expire_found : Moment → Bytes → ℤ → Option Obj × Db → Option Outcome
expire_found m key seconds (none, db) = reply (bytes_reply resp_zero) db
expire_found m key seconds (some obj, db) =
    reply (bytes_reply resp_one) (set_expiry m key (to_millis seconds) db)

unfoldable pub expire : Strconv → Command
expire sc host m (key ∷ arg ∷ rest) db =
    let (seconds, ok) = sc.parse_int 64 arg in
    if not ok then refuse err_invalid_int db else expire_found m key seconds (get m key db)
expire sc host m [] db = refuse (err_wrong_args (ascii "expire")) db
expire sc host m (key ∷ []) db = refuse (err_wrong_args (ascii "expire")) db

-- TTL behind `getExpiry`.
abbrev pub ttl_expiry : Moment → Db → Option ℕ → Option Outcome
ttl_expiry m db none = reply (bytes_reply resp_minus_one) db
ttl_expiry m db (some exp) =
    if ltb exp m.milli
    then reply (bytes_reply resp_minus_two) db
    else reply (int_reply (pos ((exp - m.milli) / 1000))) db

abbrev pub ttl_found : Moment → Bytes → Option Obj × Db → Option Outcome
ttl_found m key (none, db) = reply (bytes_reply resp_minus_two) db
ttl_found m key (some obj, db) = ttl_expiry m db (get_expiry key db)

unfoldable pub ttl : Command
ttl host m (key ∷ []) db = ttl_found m key (get m key db)
ttl host m [] db = refuse (err_wrong_args (ascii "ttl")) db
ttl host m (a ∷ b ∷ rest) db = refuse (err_wrong_args (ascii "ttl")) db

-- The loop of DEL, with the count so far.
unfoldable pub del_loop : List Bytes → ℕ → Db → ℕ × Db
unfolding del
del_loop [] count db = (count, db)
del_loop (key ∷ keys) count db =
    del_loop keys (if (del key db).1 then suc count else count) ((del key db).0)

unfoldable pub del_cmd : Command
unfolding del_loop
del_cmd host m args db = let (count, db') = del_loop args 0 db in reply (int_reply (pos count)) db'

-- What the options of SET come to: a duration in milliseconds, or an error.
pub data Options : Type 0 where
  lasts : ℤ → Options
  rejected : Bytes → Options

abbrev pub is_ex : Bytes → Bool
is_ex s = eqb s (ascii "EX") || eqb s (ascii "ex")

-- The loop over the options from the third argument on.
unfoldable pub set_options : Strconv → List Bytes → ℤ → Options
set_options sc [] duration = lasts duration
set_options sc (option ∷ []) duration = rejected (ascii "ERR syntax error")
set_options sc (option ∷ value ∷ rest) duration =
    let (seconds, ok) = sc.parse_int 64 value in
    let further = set_options sc rest (to_millis seconds) in
    if is_ex option
    then (if ok then further else rejected err_invalid_int)
    else rejected (ascii "ERR syntax error")

abbrev pub set_as : Host → Moment → Bytes → Bytes → Options → Db → Option Outcome
set_as host m key value (rejected message) db = refuse message db
set_as host m key value (lasts duration) db =
    let (type, enc) = deduce_type_encoding value in
    reply (simple_string (ascii "OK"))
      (put host m key (new_string_obj m value type enc) duration db)

unfoldable pub set : Strconv → Command
unfolding set_options
set sc host m (key ∷ value ∷ rest) db = set_as host m key value (set_options sc rest (negsuc 0)) db
set sc host m [] db = refuse (err_wrong_args (ascii "set")) db
set sc host m (key ∷ []) db = refuse (err_wrong_args (ascii "set")) db

-- GET asks once more whether the key has expired.
abbrev pub get_found : Moment → Bytes → Option Obj × Db → Option Outcome
get_found m key (none, db) = reply null_reply db
get_found m key (some obj, db) =
    if has_expired m key db then reply null_reply db else reply (bulk_string obj.str_val) db

unfoldable pub get_cmd : Command
get_cmd host m (key ∷ []) db = get_found m key (get m key db)
get_cmd host m [] db = refuse (err_wrong_args (ascii "get")) db
get_cmd host m (a ∷ b ∷ rest) db = refuse (err_wrong_args (ascii "get")) db
