-- ===== src/KeyCmd/Strings.antt =====
-- SET and GET, and INCR, of internal/store/key_cmd.go.
use monster_db.Prelude.{
  ◌+◌, ◌%◌, ◌^◌, ◌≡◌, refl, ap, ◌∙◌, arith, true, false, Bool-cases, inl, inr, some, List, [], ◌∷◌,
  if◌then◌else◌,
}
use monster_db.Prelude.Int.{ℤ, pos, negsuc, ltb_ℤ, to_word, ◌+ℤ◌, FitsIn}
use monster_db.Prelude.Bytes.{Bytes, eqb}
use monster_db.Prelude.Text.{ascii}
use monster_db.Prelude.Dict.{lookup, insert, lookup-insert, lookup-insert_self}
use monster_db.Runtime.{int_reply, null_reply, bulk_string, simple_string}
use monster_db.Resp.{int_sum}
use monster_db.TypeString.{
  assert_type, assert_encoding, obj_type_string, obj_encoding_int, deduce_type_encoding,
}
use monster_db.Keyspace.{
  Obj, Db, Host, Moment, new_string_obj, touch, has_expired, passed, put, put_obj, del,
}
use monster_db.Keyspace.Consistent.{get_alive, get_expired, with_room, put_obj-lookup}
use monster_db.Command.{Strconv, Outcome}
use monster_db.KeyCmd.{
  lasts, set, set_as, set_options, get_cmd, get_found, incr, incr_obj, counter_of,
}

-- GET on a key that is stored.
get_cmd-stored :
    (host : Host) (m : Moment) (key : Bytes) (obj : Obj) (db : Db)
    → lookup key db.store ≡ some obj
    → (out : Outcome) × (get_cmd host m (key ∷ []) db ≡ some out)
      × (out.replies ≡ (if has_expired m key db then null_reply else bulk_string obj.str_val) ∷ [])
unfolding get_cmd
get_cmd-stored host m key obj db e = elim (Bool-cases (has_expired m key db)) [
  | inl f ↦ (
    record { replies = null_reply ∷ []; db = (del key db).0 },
    ap (get_found m key) (get_expired m key obj db e f),
    rw f refl,
  )
  | inr f ↦
      let db' : Db = record db { store = insert key (touch m obj) db.store } in
      let f' : has_expired m key db' ≡ false = unfold has_expired in f in
      (
        record { replies = bulk_string obj.str_val ∷ []; db = db' },
        ap (get_found m key) (get_alive m key obj db e f) ∙ unfold touch in rw f' refl,
        rw f refl,
      )
]

-- If SET accepts its options with a duration `d` in milliseconds (-1 without EX), it returns, and
-- GET of that key, at any later moment, returns and replies the value unless the expiry has passed,
-- and null if it has. The expiry is the moment of SET plus `d` for a positive `d`; without one the
-- expiry is the one that the key has after the eviction which Put makes first at the key limit: the
-- one that it had before, if nothing is evicted, and none if the key itself was evicted.
pub get_cmd-set :
    (sc : Strconv) (host : Host) (m m' : Moment) (key value : Bytes) (options : List Bytes) (d : ℤ)
    (db : Db)
    → set_options sc options (negsuc 0) ≡ lasts d
    → (out : Outcome) × (out' : Outcome) × (set sc host m (key ∷ value ∷ options) db ≡ some out)
      × (get_cmd host m' (key ∷ []) out.db ≡ some out')
      × (out'.replies
          ≡ (if passed m' (lookup key out.db.expires) then null_reply else bulk_string value) ∷ [])
      × (lookup key out.db.expires ≡ (
          if ltb_ℤ (pos 0) d
          then some ((m.milli + to_word (2 ^ 64) d) % 2 ^ 64)
          else lookup key ((with_room host m db).expires)))
unfolding set put has_expired new_string_obj touch
get_cmd-set sc host m m' key value options d db e =
    let (type, enc) = deduce_type_encoding value in
    let obj : Obj = new_string_obj m value type enc in
    let db' : Db = put_obj m key obj d (with_room host m db) in
    let found = put_obj-lookup m key obj d (with_room host m db) in
    let (out', g, r) = get_cmd-stored host m' key (touch m obj) db' found.0 in
    (
      record { replies = simple_string (ascii "OK") ∷ []; db = db' },
      out',
      ap (λ o. set_as host m key value o db) e,
      g,
      r,
      found.1,
    )

-- What `ParseInt` and `FormatInt` do on the numbers of an int64: one reads what the other prints.
abbrev pub Converts : Strconv → Type 0
Converts sc = (i : ℤ) → FitsIn (2 ^ 63) i → sc.parse_int 64 (sc.format_int i) ≡ (i, true)

-- The key holds a string that is stored as an integer, with the value `i`, and has not expired.
pub record Counts (sc : Strconv) (m : Moment) (db : Db) (key : Bytes) (i : ℤ) : Type 0 where
  pub obj : Obj
  pub found : lookup key db.store ≡ some obj
  pub value : (sc.parse_int 64 obj.str_val).0 ≡ i
  pub is_string : assert_type obj.type_encoding obj_type_string ≡ true
  pub is_integer : assert_encoding obj.type_encoding obj_encoding_int ≡ true
  pub alive : has_expired m key db ≡ false

int_sum_one :
    (i : ℤ) → FitsIn (2 ^ 63) i → FitsIn (2 ^ 63) (i +ℤ pos 1) → int_sum i (pos 1) ≡ i +ℤ pos 1
int_sum_one i h k = ground arith

-- INCR on a key that holds an integer below the largest int64: it returns, replies the next integer,
-- and leaves the key with that integer; all other keys are as before, and no watcher is told.
pub incr-Counts :
    (sc : Strconv) (host : Host) (m : Moment) (key : Bytes) (i : ℤ) (db : Db)
    → Converts sc
    → Counts sc m db key i
    → FitsIn (2 ^ 63) i
    → FitsIn (2 ^ 63) (i +ℤ pos 1)
    → (out : Outcome) × (incr sc host m (key ∷ []) db ≡ some out)
      × (out.replies ≡ int_reply (i +ℤ pos 1) ∷ [])
      × Counts sc m out.db key (i +ℤ pos 1)
      × ((j : Bytes) → eqb key j ≡ false → lookup j out.db.store ≡ lookup j db.store)
      × (out.db.modified ≡ db.modified)
unfolding incr incr_obj has_expired touch
incr-Counts sc host m key i db conv c h k =
    let n : ℤ = i +ℤ pos 1 in
    let next : int_sum ((sc.parse_int 64 (c.obj.str_val)).0) (pos 1) ≡ n =
      ap (λ x. int_sum x (pos 1)) c.value ∙ int_sum_one i h k in
    let read : Obj = touch m c.obj in
    let written : Obj = record read { str_val = sc.format_int n } in
    let db' : Db = record db { store = insert key read db.store } in
    let db'' : Db = record db { store = insert key written db'.store } in
    (
      record { replies = int_reply n ∷ []; db = db'' },
      ap (λ r. incr_obj sc key (counter_of host m key r)) (get_alive m key c.obj db c.found c.alive)
          ∙ rw (c.is_string, c.is_integer, next) refl,
      refl,
      record {
        obj = written;
        found = lookup-insert_self key written db'.store;
        value = ap (λ r. r.0) (conv n k);
        is_string = c.is_string;
        is_integer = c.is_integer;
        alive = c.alive;
      },
      λ j e.
          lookup-insert key j written db'.store
          ∙ rw e (lookup-insert key j read db.store ∙ rw e refl),
      refl,
    )
