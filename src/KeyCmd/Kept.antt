-- ===== src/KeyCmd/Kept.antt =====
-- The commands of internal/store/key_cmd.go keep the invariant of the keyspace.
use monster_db.Prelude.{ℕ, ◌≡◌, refl, ltb, not, Bool-cases, inl, inr, Option, none, some, [], ◌∷◌}
use monster_db.Prelude.Int.{ℤ, negsuc}
use monster_db.Prelude.Bytes.{Bytes}
use monster_db.Prelude.Dict.{lookup}
use monster_db.Keyspace.{Obj, Db, Host, Moment, get, has_expired}
use monster_db.Keyspace.Consistent.{
  IsConsistent, get-IsConsistent, put-IsConsistent, insert-IsConsistent, set_expiry-IsConsistent,
  get_found_stored,
}
use monster_db.TypeString.{assert_type, assert_encoding, obj_type_string, obj_encoding_int}
use monster_db.Command.{Strconv, to_millis}
use monster_db.Command.Kept.{IsKept, Keeps}
use monster_db.KeyCmd.{
  ping, incr, incr_obj, counter_of, expire, expire_found, ttl, ttl_found, ttl_expiry, del_cmd, set,
  set_as, set_options, Options, lasts, rejected, get_cmd, get_found,
}
use monster_db.KeyCmd.Expiry.{del_cmd-removes}

pub ping-Keeps : Keeps ping
unfolding ping
ping-Keeps host m [] db h = h
ping-Keeps host m (a ∷ []) db h = h
ping-Keeps host m (a ∷ b ∷ rest) db h = h

pub del_cmd-Keeps : Keeps del_cmd
del_cmd-Keeps host m args db h =
    let (out, n, e, r, l, g, kept) = del_cmd-removes host m args db h in rw e kept

set_as-IsKept :
    (host : Host) (m : Moment) (key value : Bytes) (o : Options) (db : Db)
    → IsConsistent db
    → IsKept (set_as host m key value o db)
set_as-IsKept host m key value (lasts d) db h = put-IsConsistent host m key _ d db h
set_as-IsKept host m key value (rejected e) db h = h

pub set-Keeps : (sc : Strconv) → Keeps (set sc)
unfolding set
set-Keeps sc host m [] db h = h
set-Keeps sc host m (a ∷ []) db h = h
set-Keeps sc host m (key ∷ value ∷ rest) db h =
    set_as-IsKept host m key value (set_options sc rest (negsuc 0)) db h

get_found-IsKept :
    (m : Moment) (key : Bytes) (r : Option Obj × Db) → IsConsistent r.1 → IsKept (get_found m key r)
get_found-IsKept m key (none, db) h = h
get_found-IsKept m key (some obj, db) h = elim (Bool-cases (has_expired m key db)) [
  | inl e ↦ rw e h
  | inr e ↦ rw e h
]

pub get_cmd-Keeps : Keeps get_cmd
unfolding get_cmd
get_cmd-Keeps host m [] db h = h
get_cmd-Keeps host m (key ∷ []) db h =
    get_found-IsKept m key (get m key db) (get-IsConsistent m key db h)
get_cmd-Keeps host m (a ∷ b ∷ rest) db h = h

ttl_expiry-IsKept :
    (m : Moment) (db : Db) (o : Option ℕ) → IsConsistent db → IsKept (ttl_expiry m db o)
ttl_expiry-IsKept m db none h = h
ttl_expiry-IsKept m db (some exp) h = elim (Bool-cases (ltb exp m.milli)) [
  | inl e ↦ rw e h
  | inr e ↦ rw e h
]

ttl_found-IsKept :
    (m : Moment) (key : Bytes) (r : Option Obj × Db) → IsConsistent r.1 → IsKept (ttl_found m key r)
ttl_found-IsKept m key (none, db) h = h
ttl_found-IsKept m key (some obj, db) h = ttl_expiry-IsKept m db (lookup key db.expires) h

pub ttl-Keeps : Keeps ttl
unfolding ttl
ttl-Keeps host m [] db h = h
ttl-Keeps host m (key ∷ []) db h =
    ttl_found-IsKept m key (get m key db) (get-IsConsistent m key db h)
ttl-Keeps host m (a ∷ b ∷ rest) db h = h

expire_found-IsKept :
    (m : Moment) (key : Bytes) (seconds : ℤ) (r : Option Obj × Db)
    → IsConsistent r.1
    → ((obj : Obj) → r.0 ≡ some obj → lookup key (r.1).store ≡ some obj)
    → IsKept (expire_found m key seconds r)
expire_found-IsKept m key seconds (none, db) h g = h
expire_found-IsKept m key seconds (some obj, db) h g =
    set_expiry-IsConsistent m key (to_millis seconds) db h (g obj refl)

pub expire-Keeps : (sc : Strconv) → Keeps (expire sc)
unfolding expire
expire-Keeps sc host m [] db h = h
expire-Keeps sc host m (key ∷ []) db h = h
expire-Keeps sc host m (key ∷ arg ∷ rest) db h = elim (Bool-cases (not ((sc.parse_int 64 arg).1))) [
  | inl e ↦ rw e h
  | inr e ↦ rw e (
      expire_found-IsKept m key ((sc.parse_int 64 arg).0) (get m key db)
        (get-IsConsistent m key db h) (get_found_stored m key db))
]

counter_of-IsConsistent :
    (host : Host) (m : Moment) (key : Bytes) (r : Option Obj × Db)
    → IsConsistent r.1
    → IsConsistent ((counter_of host m key r).1)
counter_of-IsConsistent host m key (some obj, db) h = h
counter_of-IsConsistent host m key (none, db) h = put-IsConsistent host m key _ (negsuc 0) db h

incr_obj-IsKept :
    (sc : Strconv) (key : Bytes) (r : Obj × Db) → IsConsistent r.1 → IsKept (incr_obj sc key r)
unfolding incr_obj
incr_obj-IsKept sc key (obj, db) h =
    elim (Bool-cases (not (assert_type obj.type_encoding obj_type_string))) [
      | inl e ↦ rw e h
      | inr e ↦ elim (Bool-cases (not (assert_encoding obj.type_encoding obj_encoding_int))) [
        | inl f ↦ rw (e, f) h
        | inr f ↦ rw (e, f) (insert-IsConsistent key _ db h)
      ]
    ]

pub incr-Keeps : (sc : Strconv) → Keeps (incr sc)
unfolding incr
incr-Keeps sc host m [] db h = h
incr-Keeps sc host m (key ∷ []) db h =
    incr_obj-IsKept sc key (counter_of host m key (get m key db))
      (counter_of-IsConsistent host m key (get m key db) (get-IsConsistent m key db h))
incr-Keeps sc host m (a ∷ b ∷ rest) db h = h
