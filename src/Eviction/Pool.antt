-- ===== src/Eviction/Pool.antt =====
-- The pool of internal/store/evictionpool.go and its key set.
use monster_db.Prelude.{
  ℕ, ◌+◌, ◌-◌, ◌≤◌, ◌≡◌, refl, sym, subst, ap, ◌∙◌, arith, Bool, true, false, Bool-cases, inl, inr,
  none, some, List, [], ◌∷◌, ◌++◌, length, length-append, ltb, if◌then◌else◌,
}
use monster_db.Prelude.Bytes.{Bytes, eqb}
use monster_db.Prelude.Dict.{lookup, is_some, lookup-insert}
use monster_db.Eviction.{PoolItem, EvictionPool, less, capacity_for, push, push_new, pop, pop_from}

-- `sort.Sort` keeps the number of items, and `append` makes room for what it appends.
abbrev pub KeepsLength : ((PoolItem → PoolItem → Bool) → List PoolItem → List PoolItem) → Type 0
KeepsLength sort = (items : List PoolItem) → length (sort less items) ≡ length items

abbrev pub MakesRoom : (ℕ → ℕ) → Type 0
MakesRoom grow = (n : ℕ) → n ≤ grow n

-- The pool has no bound: a push of a key that is not in the key set adds an item whatever the
-- capacity was, and adds just that key to the key set, since `append` has made room before the
-- length is compared with the capacity.
pub push_unbounded :
    (sort : (PoolItem → PoolItem → Bool) → List PoolItem → List PoolItem) (grow : ℕ → ℕ)
    (key : Bytes) (at : ℕ) (p : EvictionPool)
    → KeepsLength sort
    → MakesRoom grow
    → lookup key p.keyset ≡ none
    → (length (push sort grow key at p).pool ≡ length p.pool + 1)
      × ((j : Bytes)
          → is_some (lookup j (push sort grow key at p).keyset)
            ≡ (if eqb key j then true else is_some (lookup j p.keyset)))
unfolding push push_new
push_unbounded sort grow key at p keeps room h =
    let item : PoolItem = record { key = key; last_accessed_at = at } in
    let pool : List PoolItem = sort less (p.pool ++ item ∷ []) in
    let n : length pool ≡ length p.pool + 1 =
      keeps (p.pool ++ item ∷ []) ∙ length-append p.pool (item ∷ []) in
    let fits : ltb (capacity_for grow p.capacity (length p.pool + 1)) (length pool) ≡ false =
      ground (arith, n, room (length p.pool + 1)) in
    rw (h, fits)
      (
        n,
        λ j.
            ap is_some (lookup-insert key j item p.keyset)
            ∙ elim (Bool-cases (eqb key j)) [ inl e ↦ rw e refl | inr e ↦ rw e refl ],
      )

-- What was popped stays in the key set: a later push of its key, at any time, does nothing.
pub push-pop :
    (sort : (PoolItem → PoolItem → Bool) → List PoolItem → List PoolItem) (grow : ℕ → ℕ) (at : ℕ)
    (item : PoolItem) (rest : List PoolItem) (p : EvictionPool)
    → p.pool ≡ item ∷ rest
    → is_some (lookup item.key p.keyset) ≡ true
    → ((pop p).0 ≡ some item) × (push sort grow item.key at ((pop p).1) ≡ (pop p).1)
unfolding push pop
push-pop sort grow at item rest p e h =
    let popped : pop p ≡ (some item, record p { pool = rest; capacity = p.capacity - 1 }) =
      ap (λ l. pop_from l p) e in
    (
      ap (λ r. r.0) popped,
      subst (λ q. push sort grow item.key at q ≡ q) (ap (λ r. r.1) (sym popped)) (rw h refl),
    )
