-- ===== src/Tests/Filters.antt =====
-- The Bloom filters of internal/ds/bloom.go and internal/store/bloom_cmd.go at 64 positions.
use native.Mathlib.Nat.{mod-lt}
use monster_db.Prelude.{
  ℕ, ◌+◌, ◌<◌, ◌≡◌, refl, arith, true, false, ◌||◌, some, inl, [], ◌∷◌, length,
}
use monster_db.Prelude.Int.{pos}
use monster_db.Prelude.Bytes.{Bytes}
use monster_db.Prelude.Dict.{lookup}
use monster_db.Runtime.{int_reply}
use monster_db.TypeString.{assert_type}
use monster_db.Bloom.{BloomFilter, hashes, new_bloom_filter, add, exists_key}
use monster_db.Bloom.Marked.{IsFilter, marked, among, all_marked}
use monster_db.Bloom.Kept.{Gives32, Among, add_all, add-marked, exists_key-add_all}
use monster_db.Keyspace.{Obj, Db, has_expired, bloom_filter}
use monster_db.Command.{Outcome}
use monster_db.BloomCmd.{bf_add, bf_exists}
use monster_db.BloomCmd.Asked.{HoldsFilter, bf_exists-bf_add}
use monster_db.Tests.Hosts.{low_hashing, small_host, at_second}

low_hashing-Gives32 : Gives32 low_hashing
low_hashing-Gives32 seed key = mod-lt (length key + seed) (omega arith)

abbrev x : Bytes
x = b'x' ∷ []

-- The filter with the positions 3 and 10.
abbrev some_filter : BloomFilter
some_filter = record { filter = 1032 ∷ []; size = pos 64; k = 2 }

some_filter-IsFilter : IsFilter some_filter 64
some_filter-IsFilter = record {
  size = refl;
  positive = omega arith;
  words = refl;
  rounds = omega arith;
}

add-marked_example :
    (b' : BloomFilter) × (add low_hashing x some_filter ≡ some b')
    × IsFilter b' 64
    × (b'.k ≡ 2)
    × ((p : ℕ)
        → marked p b'.filter
          ≡ (among (hashes low_hashing x) 64 2 0 p || marked p some_filter.filter))
    × (exists_key low_hashing (x) b' ≡ some (all_marked (hashes low_hashing x) 64 b'.k 0 b'.filter))
add-marked_example =
    add-marked low_hashing 64 x x some_filter low_hashing-Gives32 some_filter-IsFilter

exists_key-add_all_example :
    (b : BloomFilter) × (b' : BloomFilter) × (new_bloom_filter (pos 64, 2) ≡ some b)
    × (add_all low_hashing (x ∷ [] ∷ []) b ≡ some b')
    × ((key : Bytes) → Among key (x ∷ [] ∷ []) → exists_key low_hashing key b' ≡ some true)
    × ((key : Bytes) → 0 < 2 → exists_key low_hashing key b ≡ some false)
exists_key-add_all_example =
    exists_key-add_all low_hashing 64 2 (x ∷ [] ∷ []) low_hashing-Gives32 (omega arith)
      (omega arith)

abbrev filter_obj : Obj
filter_obj = record {
  type_encoding = 34;
  str_val = [];
  last_accessed_at = 0;
  content = bloom_filter some_filter;
}

unfoldable filter_key : Db
filter_key = record {
  store = (b'f' ∷ [], filter_obj) ∷ [];
  expires = [];
  e_pool = record { pool = []; capacity = 16; keyset = [] };
  keys_stat = pos 1;
  modified = [];
  ready = [];
}

filter_key-HoldsFilter : HoldsFilter filter_key (b'f' ∷ []) some_filter
unfolding filter_key lookup assert_type
filter_key-HoldsFilter = record { obj = filter_obj; found = refl; is_type = refl; content = refl }

filter_lasts : (n : ℕ) → has_expired (at_second n) (b'f' ∷ []) filter_key ≡ false
unfolding filter_key has_expired lookup
filter_lasts n = refl

bf_exists-bf_add_example :
    (out : Outcome) × (out' : Outcome) × (bf_add low_hashing small_host
        (at_second 5)
        ((b'f' ∷ []) ∷ x ∷ [])
        filter_key
      ≡ some out)
    × (out.replies ≡ int_reply (pos 1) ∷ [])
    × (bf_exists low_hashing small_host (at_second 6) ((b'f' ∷ []) ∷ x ∷ []) out.db ≡ some out')
    × (out'.replies ≡ int_reply (pos 1) ∷ [])
bf_exists-bf_add_example =
    bf_exists-bf_add low_hashing small_host (at_second 5) (at_second 6) (b'f' ∷ []) x x 64
      some_filter filter_key low_hashing-Gives32 some_filter-IsFilter filter_key-HoldsFilter
      (filter_lasts 5) (filter_lasts 6) (inl refl)
