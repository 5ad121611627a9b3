-- ===== src/Keyspace/Fresh.antt =====
-- A key that was missing and is stored without an expiry, as the commands of lists and sets do.
use monster_db.Prelude.{
  ℕ, zero, suc, ◌≡◌, refl, ap, ◌∙◌, arith, false, Bool-cases, inl, inr, Option, none, some, List,
  [], ◌∷◌, length, leb,
}
use monster_db.Prelude.Int.{negsuc}
use monster_db.Prelude.Bytes.{Bytes}
use monster_db.Prelude.Dict.{lookup}
use monster_db.Eviction.{pop, PoolItem, EvictionPool}
use monster_db.Keyspace.{
  Obj, Db, Host, Moment, touch, has_expired, passed, del, populate, del_popped, evict_loop, evict,
  put,
}
use monster_db.Keyspace.Consistent.{
  IsConsistent, lookup-del, with_room, with_room-IsConsistent, put_obj-lookup,
}

-- An eviction adds no key.
del_absent :
    (k j : Bytes) (db : Db) → lookup j db.store ≡ none → lookup j ((del k db).0).store ≡ none
del_absent k j db h = lookup-del k j db ∙ ground (arith, h)

populate-store :
    (host : Host) (left : ℕ) (ks : List Bytes) (db : Db)
    → (populate host left ks db).store ≡ db.store
unfolding populate
populate-store host left [] db = refl
populate-store host zero (k ∷ ks) db = refl
populate-store host (suc left) (k ∷ ks) db = populate-store host left ks _

del_popped_absent :
    (r : Option PoolItem × EvictionPool) (j : Bytes) (db : Db)
    → lookup j db.store ≡ none
    → lookup j (del_popped r db).store ≡ none
del_popped_absent (none, p) j db h = h
del_popped_absent (some item, p) j db h = del_absent item.key j (record db { e_pool = p }) h

evict_loop_absent :
    (left : ℕ) (j : Bytes) (db : Db)
    → lookup j db.store ≡ none
    → lookup j (evict_loop left db).store ≡ none
unfolding evict_loop
evict_loop_absent zero j db h = h
evict_loop_absent (suc left) j db h =
    evict_loop_absent left j (del_popped (pop db.e_pool) db)
      (del_popped_absent (pop db.e_pool) j db h)

with_room_absent :
    (host : Host) (m : Moment) (j : Bytes) (db : Db)
    → lookup j db.store ≡ none
    → lookup j (with_room host m db).store ≡ none
unfolding evict
with_room_absent host m j db h = elim (Bool-cases (leb host.key_limit (length db.store))) [
  | inl e ↦ rw e (
      evict_loop_absent host.evict_count j (populate host 5 m.visited db)
        (ap (lookup j) (populate-store host 5 m.visited db) ∙ h))
  | inr e ↦ rw e h
]

pub put_fresh :
    (host : Host) (m m' : Moment) (k : Bytes) (obj : Obj) (db : Db)
    → IsConsistent db
    → lookup k db.store ≡ none
    → (lookup k (put host m k obj (negsuc 0) db).store ≡ some (touch m obj))
      × (has_expired m' k (put host m k obj (negsuc 0) db) ≡ false)
unfolding put has_expired
put_fresh host m m' k obj db c h =
    let room : Db = with_room host m db in
    let (found, expires) = put_obj-lookup m k obj (negsuc 0) room in
    let gone : lookup k room.expires ≡ none =
      (with_room-IsConsistent host m db c).expiring k (with_room_absent host m k db h) in
    (found, ap (passed m') (expires ∙ gone))
