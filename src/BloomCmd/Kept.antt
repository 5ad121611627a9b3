-- ===== src/BloomCmd/Kept.antt =====
-- The commands of internal/store/bloom_cmd.go keep the invariant of the keyspace.
use monster_db.Prelude.{not, Bool-cases, inl, inr, Option, none, some, [], ◌∷◌}
use monster_db.Prelude.Int.{negsuc}
use monster_db.Prelude.Bytes.{Bytes}
use monster_db.Bloom.{BloomFilter, Hashing, new_bloom_filter, add, exists_key}
use monster_db.TypeString.{assert_type}
use monster_db.Keyspace.{Obj, Db, get}
use monster_db.Keyspace.Consistent.{IsConsistent, get-IsConsistent, put-IsConsistent}
use monster_db.Keyspace.Behind.{update_content-IsConsistent}
use monster_db.Command.{Strconv}
use monster_db.Command.Kept.{IsKept, Keeps, bind-IsKept}
use monster_db.BloomCmd.{
  obj_type_bloom_filters, as_bloom_filter, ask, ask_found, bf_exists, add_item, add_found, bf_add,
  bf_reserve,
}

ask-IsKept :
    (hs : Hashing) (item : Bytes) (b : BloomFilter) (db : Db)
    → IsConsistent db
    → IsKept (ask hs item b db)
unfolding ask
ask-IsKept hs item b db h = bind-IsKept (exists_key hs item b) _ λ found e. h

ask_found-IsKept :
    (hs : Hashing) (item : Bytes) (r : Option Obj × Db)
    → IsConsistent r.1
    → IsKept (ask_found hs item r)
ask_found-IsKept hs item (none, db) h = h
ask_found-IsKept hs item (some obj, db) h =
    elim (Bool-cases (not (assert_type obj.type_encoding obj_type_bloom_filters))) [
      | inl e ↦ rw e h
      | inr e ↦ rw e (bind-IsKept (as_bloom_filter obj.content) _ λ b f. ask-IsKept hs item b db h)
    ]

pub bf_exists-Keeps : (hs : Hashing) → Keeps (bf_exists hs)
unfolding bf_exists
bf_exists-Keeps hs host m [] db h = h
bf_exists-Keeps hs host m (a ∷ []) db h = h
bf_exists-Keeps hs host m (key ∷ item ∷ []) db h =
    ask_found-IsKept hs item (get m key db) (get-IsConsistent m key db h)
bf_exists-Keeps hs host m (a ∷ b ∷ c ∷ rest) db h = h

add_item-IsKept :
    (hs : Hashing) (key item : Bytes) (b : BloomFilter) (db : Db)
    → IsConsistent db
    → IsKept (add_item hs key item b db)
unfolding add_item
add_item-IsKept hs key item b db h =
    bind-IsKept (add hs item b) _ λ b' e. update_content-IsConsistent key _ db h

add_found-IsKept :
    (hs : Hashing) (key item : Bytes) (r : Option Obj × Db)
    → IsConsistent r.1
    → IsKept (add_found hs key item r)
add_found-IsKept hs key item (none, db) h = h
add_found-IsKept hs key item (some obj, db) h =
    bind-IsKept (as_bloom_filter obj.content) _ λ b e. add_item-IsKept hs key item b db h

pub bf_add-Keeps : (hs : Hashing) → Keeps (bf_add hs)
unfolding bf_add
bf_add-Keeps hs host m [] db h = h
bf_add-Keeps hs host m (a ∷ []) db h = h
bf_add-Keeps hs host m (key ∷ item ∷ []) db h =
    add_found-IsKept hs key item (get m key db) (get-IsConsistent m key db h)
bf_add-Keeps hs host m (a ∷ b ∷ c ∷ rest) db h = h

pub bf_reserve-Keeps : (hs : Hashing) (sc : Strconv) → Keeps (bf_reserve hs sc)
unfolding bf_reserve
bf_reserve-Keeps hs sc host m [] db h = h
bf_reserve-Keeps hs sc host m (a ∷ []) db h = h
bf_reserve-Keeps hs sc host m (a ∷ b ∷ []) db h = h
bf_reserve-Keeps hs sc host m (key ∷ rate ∷ capacity ∷ rest) db h =
    bind-IsKept (new_bloom_filter (hs.sizing ((sc.parse_int 64 capacity).0) rate)) _
      λ b e. put-IsConsistent host m key _ (negsuc 0) db h
