-- ===== src/Keyspace/Ready.antt =====
-- Evictions and stores of internal/store/store.go leave the keys alone that are marked as ready.
use monster_db.Prelude.{
  ℕ, zero, suc, ◌≡◌, refl, ◌∙◌, Bool-cases, inl, inr, Option, none, some, List, [], ◌∷◌, length,
  leb,
}
use monster_db.Prelude.Int.{ℤ, pos, ltb_ℤ}
use monster_db.Prelude.Bytes.{Bytes}
use monster_db.Prelude.Dict.{lookup, is_some}
use monster_db.Eviction.{pop, PoolItem, EvictionPool}
use monster_db.Keyspace.{
  Obj, Db, Host, Moment, set_expiry, del, populate, del_popped, evict_loop, evict, put_obj, put,
}

pub del-ready : (k : Bytes) (db : Db) → ((del k db).0).ready ≡ db.ready
unfolding del
del-ready k db = elim (Bool-cases (is_some (lookup k db.store))) [
  | inl e ↦ rw e refl
  | inr e ↦ rw e refl
]

populate-ready :
    (host : Host) (left : ℕ) (ks : List Bytes) (db : Db)
    → (populate host left ks db).ready ≡ db.ready
unfolding populate
populate-ready host left [] db = refl
populate-ready host zero (k ∷ ks) db = refl
populate-ready host (suc left) (k ∷ ks) db = populate-ready host left ks _

del_popped-ready :
    (r : Option PoolItem × EvictionPool) (db : Db) → (del_popped r db).ready ≡ db.ready
del_popped-ready (none, p) db = refl
del_popped-ready (some item, p) db = del-ready item.key (record db { e_pool = p })

evict_loop-ready : (left : ℕ) (db : Db) → (evict_loop left db).ready ≡ db.ready
unfolding evict_loop
evict_loop-ready zero db = refl
evict_loop-ready (suc left) db =
    evict_loop-ready left (del_popped (pop db.e_pool) db) ∙ del_popped-ready (pop db.e_pool) db

evict-ready : (host : Host) (m : Moment) (db : Db) → (evict host m db).ready ≡ db.ready
unfolding evict
evict-ready host m db =
    evict_loop-ready host.evict_count (populate host 5 m.visited db)
    ∙ populate-ready host 5 m.visited db

put_obj-ready :
    (m : Moment) (k : Bytes) (obj : Obj) (d : ℤ) (db : Db) → (put_obj m k obj d db).ready ≡ db.ready
unfolding put_obj set_expiry
put_obj-ready m k obj d db = elim (Bool-cases (ltb_ℤ (pos 0) d)) [
  | inl e ↦ rw e refl
  | inr e ↦ rw e refl
]

pub put-ready :
    (host : Host) (m : Moment) (k : Bytes) (obj : Obj) (d : ℤ) (db : Db)
    → (put host m k obj d db).ready ≡ db.ready
unfolding put
put-ready host m k obj d db = elim (Bool-cases (leb host.key_limit (length db.store))) [
  | inl e ↦ rw e (put_obj-ready m k obj d (evict host m db) ∙ evict-ready host m db)
  | inr e ↦ rw e (put_obj-ready m k obj d db)
]
