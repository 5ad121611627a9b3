-- ===== src/Eviction.antt =====
-- internal/store/evictionpool.go: the keys that may be evicted, the longest unused first.
-- `sort.Sort` and the growth of a slice by `append` are parameters.
pub mod Pool
use monster_db.Prelude.{
  ℕ, zero, suc, ◌+◌, ◌-◌, Bool, true, false, Option, none, some, List, [], ◌∷◌, ◌++◌, length, take,
  drop, get_elem?, ltb, if◌then◌else◌,
}
use monster_db.Prelude.Bytes.{Bytes}
use monster_db.Prelude.Dict.{Dict, lookup, insert, erase, is_some}

pub record PoolItem : Type 0 where
  pub key : Bytes
  pub last_accessed_at : ℕ

-- The slice `pool` with its capacity, and the map `keyset`.
pub record EvictionPool : Type 0 where
  pub pool : List PoolItem
  pub capacity : ℕ
  pub keyset : Dict PoolItem

unfoldable pub new_eviction_pool : ℕ → EvictionPool
new_eviction_pool size = record { pool = []; capacity = size; keyset = [] }

-- `ByIdleTime.Less`; the pool holds no nil item.
abbrev pub less : PoolItem → PoolItem → Bool
less a b = ltb a.last_accessed_at b.last_accessed_at

-- `append` by one element keeps the capacity while there is room; else the runtime chooses one for
-- the new length.
abbrev pub capacity_for : (ℕ → ℕ) → ℕ → ℕ → ℕ
capacity_for grow cap len = if ltb cap len then grow len else cap

abbrev pub forget : Option PoolItem → Dict PoolItem → Dict PoolItem
forget none keys = keys
forget (some evicted) keys = erase evicted.key keys

-- `push` behind its test of the key set.
unfoldable pub push_new :
    ((PoolItem → PoolItem → Bool) → List PoolItem → List PoolItem)
    → (ℕ → ℕ)
    → PoolItem
    → EvictionPool
    → EvictionPool
push_new sort grow item p =
    let pool = sort less (p.pool ++ item ∷ []) in
    let capacity = capacity_for grow p.capacity (length p.pool + 1) in
    let keyset = insert item.key item p.keyset in
    if ltb capacity (length pool)
    then record {
      pool = take (length pool - 1) pool;
      capacity = capacity;
      keyset = forget (get_elem? pool (length pool - 1)) keyset;
    }
    else record { pool = pool; capacity = capacity; keyset = keyset }

unfoldable pub push :
    ((PoolItem → PoolItem → Bool) → List PoolItem → List PoolItem)
    → (ℕ → ℕ)
    → Bytes
    → ℕ
    → EvictionPool
    → EvictionPool
unfolding push_new
push sort grow key last_accessed_at p =
    if is_some (lookup key p.keyset)
    then p
    else push_new sort grow (record { key = key; last_accessed_at = last_accessed_at }) p

-- What `p.pool` holds is the argument: `none` is the nil of an empty pool.
abbrev pub pop_from : List PoolItem → EvictionPool → Option PoolItem × EvictionPool
pop_from [] p = (none, p)
pop_from (item ∷ rest) p = (some item, record p { pool = rest; capacity = p.capacity - 1 })

unfoldable pub pop : EvictionPool → Option PoolItem × EvictionPool
pop p = pop_from p.pool p
