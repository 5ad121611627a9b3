-- ===== src/Keyspace/Consistent.antt =====
-- The invariant of the keyspace of internal/store/store.go: every key once, and no expiry without a
-- key.
use monster_db.Prelude.{
  ℕ, zero, suc, ◌+◌, ◌%◌, ◌^◌, ◌≡◌, refl, sym, ap, ◌∙◌, arith, Bool, true, false, Bool-cases,
  Option-cases, inl, inr, Option, none, some, List, [], ◌∷◌, length, leb, if◌then◌else◌,
}
use monster_db.Prelude.Int.{ℤ, pos, ltb_ℤ, to_word}
use monster_db.Prelude.Bytes.{Bytes, eqb, eqb_iff}
use monster_db.Prelude.Dict.{
  lookup, insert, is_some, IsUnique, insert-IsUnique, erase-IsUnique, lookup-insert,
  lookup-insert_self, lookup-erase,
}
use monster_db.Eviction.{pop, PoolItem, EvictionPool}
use monster_db.Keyspace.{
  Obj, Db, Moment, Host, init, touch, set_expiry, has_expired, del, populate, del_popped,
  evict_loop, evict, put_obj, put, got, get, expire_loop, delete_expired_key,
}

pub record IsConsistent (db : Db) : Type 0 where
  pub unique : IsUnique db.store
  pub unique_expires : IsUnique db.expires
  pub expiring : (k : Bytes) → lookup k db.store ≡ none → lookup k db.expires ≡ none

pub init-IsConsistent : IsConsistent init
unfolding init lookup
init-IsConsistent = record { unique = tt; unique_expires = tt; expiring = λ k h. refl }

-- What is found after a deletion.
pub lookup-del :
    (k j : Bytes) (db : Db)
    → lookup j ((del k db).0).store ≡ (if eqb k j then none else lookup j db.store)
unfolding del
lookup-del k j db = elim (Option-cases (lookup k db.store)) [
  | inl e ↦ rw e (ground (arith, eqb_iff k j, e))
  | inr (obj, e) ↦ rw e (lookup-erase k j db.store)
]

pub del-IsConsistent : (k : Bytes) (db : Db) → IsConsistent db → IsConsistent ((del k db).0)
unfolding del
del-IsConsistent k db h = elim (Bool-cases (is_some (lookup k db.store))) [
  | inl e ↦ rw e (record {
    unique = erase-IsUnique k db.store h.unique;
    unique_expires = erase-IsUnique k db.expires h.unique_expires;
    expiring = λ j g.
        ground (arith, lookup-erase k j db.store, lookup-erase k j db.expires, h.expiring j, g);
  })
  | inr e ↦ rw e h
]

-- A key that is stored may be stored again, or given an expiry.
pub insert-IsConsistent :
    (k : Bytes) (obj : Obj) (db : Db)
    → IsConsistent db
    → IsConsistent (record db { store = insert k obj db.store })
insert-IsConsistent k obj db h = record {
  unique = insert-IsUnique k obj db.store h.unique;
  unique_expires = h.unique_expires;
  expiring = λ j g. ground (arith, lookup-insert k j obj db.store, h.expiring j, g);
}

pub set_expiry-IsConsistent :
    (m : Moment) (k : Bytes) (duration : ℤ) {obj : Obj} (db : Db)
    → IsConsistent db
    → lookup k db.store ≡ some obj
    → IsConsistent (set_expiry m k duration db)
unfolding set_expiry
set_expiry-IsConsistent m k duration db h e =
    let v : ℕ = (m.milli + to_word (2 ^ 64) duration) % 2 ^ 64 in
    record {
      unique = h.unique;
      unique_expires = insert-IsUnique k v db.expires h.unique_expires;
      expiring =
          λ j g. ground (arith, lookup-insert k j v db.expires, h.expiring j, eqb_iff k j, e, g);
    }

-- The invariant reads the store and the expiries only.
pub same-IsConsistent :
    (db db' : Db)
    → db'.store ≡ db.store
    → db'.expires ≡ db.expires
    → IsConsistent db
    → IsConsistent db'
same-IsConsistent db db' e f h = record {
  unique = rw e h.unique;
  unique_expires = rw f h.unique_expires;
  expiring = λ k g. ap (lookup k) f ∙ h.expiring k (ap (lookup k) (sym e) ∙ g);
}

pub populate-IsConsistent :
    (host : Host) (left : ℕ) (ks : List Bytes) (db : Db)
    → IsConsistent db
    → IsConsistent (populate host left ks db)
unfolding populate
populate-IsConsistent host left [] db h = h
populate-IsConsistent host zero (k ∷ ks) db h = h
populate-IsConsistent host (suc left) (k ∷ ks) db h =
    populate-IsConsistent host left ks _ (same-IsConsistent db _ refl refl h)

del_popped-IsConsistent :
    (r : Option PoolItem × EvictionPool) (db : Db)
    → IsConsistent db
    → IsConsistent (del_popped r db)
del_popped-IsConsistent (none, p) db h = same-IsConsistent db _ refl refl h
del_popped-IsConsistent (some item, p) db h =
    del-IsConsistent item.key _ (same-IsConsistent db (record db { e_pool = p }) refl refl h)

evict_loop-IsConsistent : (left : ℕ) (db : Db) → IsConsistent db → IsConsistent (evict_loop left db)
unfolding evict_loop
evict_loop-IsConsistent zero db h = h
evict_loop-IsConsistent (suc left) db h =
    evict_loop-IsConsistent left (del_popped (pop db.e_pool) db)
      (del_popped-IsConsistent (pop db.e_pool) db h)

pub evict-IsConsistent :
    (host : Host) (m : Moment) (db : Db) → IsConsistent db → IsConsistent (evict host m db)
unfolding evict
evict-IsConsistent host m db h =
    evict_loop-IsConsistent host.evict_count _ (populate-IsConsistent host 5 m.visited db h)

pub put_obj-IsConsistent :
    (m : Moment) (k : Bytes) (obj : Obj) (duration : ℤ) (db : Db)
    → IsConsistent db
    → IsConsistent (put_obj m k obj duration db)
unfolding put_obj
put_obj-IsConsistent m k obj duration db h =
    let stored : Db = record db { store = insert k (touch m obj) db.store } in
    let c : IsConsistent stored = insert-IsConsistent k (touch m obj) db h in
    let found : lookup k stored.store ≡ some (touch m obj) =
      lookup-insert_self k (touch m obj) db.store in
    elim (Bool-cases (ltb_ℤ (pos 0) duration)) [
      | inl e ↦ rw e (
          same-IsConsistent (set_expiry m k duration stored) _ refl refl
            (set_expiry-IsConsistent m k duration stored c found))
      | inr e ↦ rw e (same-IsConsistent stored _ refl refl c)
    ]

pub put-IsConsistent :
    (host : Host) (m : Moment) (k : Bytes) (obj : Obj) (duration : ℤ) (db : Db)
    → IsConsistent db
    → IsConsistent (put host m k obj duration db)
unfolding put
put-IsConsistent host m k obj duration db h =
    elim (Bool-cases (leb host.key_limit (length db.store))) [
      | inl e ↦
          rw e (
            put_obj-IsConsistent m k obj duration (evict host m db)
              (evict-IsConsistent host m db h))
      | inr e ↦ rw e (put_obj-IsConsistent m k obj duration db h)
    ]

got-IsConsistent :
    (m : Moment) (k : Bytes) (o : Option Obj) (db : Db)
    → IsConsistent db
    → IsConsistent ((got m k o db).1)
got-IsConsistent m k none db h = h
got-IsConsistent m k (some v) db h = elim (Bool-cases (has_expired m k db)) [
  | inl e ↦ rw e (del-IsConsistent k db h)
  | inr e ↦ rw e (insert-IsConsistent k (touch m v) db h)
]

pub get-IsConsistent :
    (m : Moment) (k : Bytes) (db : Db) → IsConsistent db → IsConsistent ((get m k db).1)
unfolding get
get-IsConsistent m k db h = got-IsConsistent m k (lookup k db.store) db h

pub expire_loop-IsConsistent :
    (m : Moment) (left : ℕ) (ks : List Bytes) (db : Db)
    → IsConsistent db
    → IsConsistent (expire_loop m left ks db)
unfolding expire_loop
expire_loop-IsConsistent m left [] db h = h
expire_loop-IsConsistent m zero (k ∷ ks) db h = h
expire_loop-IsConsistent m (suc left) (k ∷ ks) db h = elim (Bool-cases (has_expired m k db)) [
  | inl e ↦ rw e (expire_loop-IsConsistent m left ks ((del k db).0) (del-IsConsistent k db h))
  | inr e ↦ rw e (expire_loop-IsConsistent m (suc left) ks db h)
]

pub delete_expired_key-IsConsistent :
    (m : Moment) (db : Db) → IsConsistent db → IsConsistent (delete_expired_key m db)
unfolding delete_expired_key
delete_expired_key-IsConsistent m db h = expire_loop-IsConsistent m 20 m.visited db h

-- What is found after `get`: nothing is added, and only an expired key is taken away.
pub get_alive :
    (m : Moment) (k : Bytes) (v : Obj) (db : Db)
    → lookup k db.store ≡ some v
    → has_expired m k db ≡ false
    → get m k db ≡ (some (touch m v), record db { store = insert k (touch m v) db.store })
unfolding get
get_alive m k v db e f = ap (λ o. got m k o db) e ∙ rw f refl

pub get_expired :
    (m : Moment) (k : Bytes) (v : Obj) (db : Db)
    → lookup k db.store ≡ some v
    → has_expired m k db ≡ true
    → get m k db ≡ (none, (del k db).0)
unfolding get
get_expired m k v db e f = ap (λ o. got m k o db) e ∙ rw f refl

pub get_absent :
    (m : Moment) (k : Bytes) (db : Db) → lookup k db.store ≡ none → get m k db ≡ (none, db)
unfolding get
get_absent m k db e = ap (λ o. got m k o db) e

-- What `got` comes to behind its test.
abbrev alive_or_gone : Moment → Bytes → Obj → Db → Bool → Option Obj × Db
alive_or_gone m k v db expired =
    if expired
    then (none, (del k db).0)
    else (some (touch m v), record db { store = insert k (touch m v) db.store })

pick_stored :
    (m : Moment) (k : Bytes) (v obj : Obj) (db : Db) (b : Bool)
    → (alive_or_gone m k v db b).0 ≡ some obj
    → lookup k ((alive_or_gone m k v db b).1).store ≡ some obj
pick_stored m k v obj db true g = cc
pick_stored m k v obj db false g = lookup-insert_self k (touch m v) db.store ∙ g

got_stored :
    (m : Moment) (k : Bytes) (o : Option Obj) (obj : Obj) (db : Db)
    → (got m k o db).0 ≡ some obj
    → lookup k ((got m k o db).1).store ≡ some obj
got_stored m k none obj db g = cc
got_stored m k (some v) obj db g = pick_stored m k v obj db (has_expired m k db) g

-- An object that `get` gives is stored.
pub get_found_stored :
    (m : Moment) (k : Bytes) (db : Db) (obj : Obj)
    → (get m k db).0 ≡ some obj
    → lookup k ((get m k db).1).store ≡ some obj
unfolding get
get_found_stored m k db obj h = got_stored m k (lookup k db.store) obj db h

-- The keyspace in which `Put` stores: room is made first if the limit is reached.
abbrev pub with_room : Host → Moment → Db → Db
with_room host m db = if leb host.key_limit (length db.store) then evict host m db else db

pub put_obj-lookup :
    (m : Moment) (k : Bytes) (obj : Obj) (d : ℤ) (db : Db)
    → (lookup k (put_obj m k obj d db).store ≡ some (touch m obj))
      × (lookup k (put_obj m k obj d db).expires ≡ (
          if ltb_ℤ (pos 0) d
          then some ((m.milli + to_word (2 ^ 64) d) % 2 ^ 64)
          else lookup k db.expires))
unfolding put_obj set_expiry
put_obj-lookup m k obj d db = elim (Bool-cases (ltb_ℤ (pos 0) d)) [
  | inl e ↦ rw e (
    lookup-insert_self k (touch m obj) db.store,
    lookup-insert_self k ((m.milli + to_word (2 ^ 64) d) % 2 ^ 64) db.expires,
  )
  | inr e ↦ rw e (lookup-insert_self k (touch m obj) db.store, refl)
]

pub with_room-IsConsistent :
    (host : Host) (m : Moment) (db : Db) → IsConsistent db → IsConsistent (with_room host m db)
with_room-IsConsistent host m db h = elim (Bool-cases (leb host.key_limit (length db.store))) [
  | inl e ↦ rw e (evict-IsConsistent host m db h)
  | inr e ↦ rw e h
]
