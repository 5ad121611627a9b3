-- ===== src/Keyspace.antt =====
-- internal/store/store.go, expire.go, object.go and eviction.go: the keys, their expiry and their
-- eviction.
pub mod Consistent
pub mod Ready
pub mod Fresh
pub mod Behind
use Prim.Native.Nat.{bit_or}
use monster_db.Prelude.{
  ℕ, zero, suc, ◌+◌, ◌-◌, ◌*◌, ◌%◌, ◌^◌, Bool, true, false, Option, none, some, List, [], ◌∷◌, ◌++◌,
  length, ltb, leb, ◌==◌, if◌then◌else◌,
}
use monster_db.Prelude.Int.{ℤ, pos, negsuc, to_word, ltb_ℤ, ◌+ℤ◌, ◌-ℤ◌}
use monster_db.Prelude.Bytes.{Bytes}
use monster_db.Prelude.Dict.{Dict, lookup, insert, erase, is_some}
use monster_db.Quicklist.{Quicklist}
use monster_db.Quicklist
use monster_db.Intset.{Intset}
use monster_db.Zset.{Zset}
use monster_db.Bloom.{BloomFilter}
use monster_db.Lfu
use monster_db.Eviction.{PoolItem, EvictionPool, new_eviction_pool, push, pop}

-- The field `Value`: nil, or a pointer of one of the types that the commands assert. Every object
-- has a pointer of its own, so what is behind it is part of the object.
pub data Content : Type 0 where
  no_content : Content
  quicklist : Quicklist → Content
  intset : Intset → Content
  zset : Zset → Content
  bloom_filter : BloomFilter → Content
  other_content : Content

pub record Obj : Type 0 where
  pub type_encoding : ℕ
  pub str_val : Bytes
  pub last_accessed_at : ℕ
  pub content : Content

-- The globals of the package. `modified` and `ready` are the keys with which `SignalModifiedKey` and
-- `MarkReady` were called, in order; both are set before the server starts.
pub record Db : Type 0 where
  pub store : Dict Obj
  pub expires : Dict ℕ
  pub e_pool : EvictionPool
  pub keys_stat : ℤ
  pub modified : List Bytes
  pub ready : List Bytes

-- The moment at which a command runs: the clocks in milliseconds, seconds and minutes, whether the
-- random draw of `increment` is below its bound, whether those of `randomLevel` in turn are below
-- theirs, and the keys in the order in which a range over the store visits them.
pub record Moment : Type 0 where
  pub milli : ℕ
  pub second : ℕ
  pub minute : ℕ
  pub drawn : Bool
  pub risen : List Bool
  pub visited : List Bytes

-- `config.KeyLimit`, the number of evictions that is computed from it in floating point, and what
-- the eviction pool takes from the libraries.
pub record Host : Type 0 where
  pub key_limit : ℕ
  pub evict_count : ℕ
  pub sort : (PoolItem → PoolItem → Bool) → List PoolItem → List PoolItem
  pub grow : ℕ → ℕ

unfoldable pub init : Db
unfolding new_eviction_pool
init = record {
  store = [];
  expires = [];
  e_pool = new_eviction_pool 16;
  keys_stat = pos 0;
  modified = [];
  ready = [];
}

abbrev pub get_current_clock : Moment → ℕ
get_current_clock m = m.second % 2 ^ 24

unfoldable pub new_string_obj : Moment → Bytes → ℕ → ℕ → Obj
new_string_obj m value type enc = record {
  type_encoding = bit_or type enc;
  str_val = value;
  last_accessed_at = get_current_clock m;
  content = no_content;
}

unfoldable pub new_ptr_obj : Moment → Content → ℕ → ℕ → Obj
new_ptr_obj m value type enc = record {
  type_encoding = bit_or type enc;
  str_val = [];
  last_accessed_at = get_current_clock m;
  content = value;
}

unfoldable pub touch : Moment → Obj → Obj
touch m obj = record obj { last_accessed_at = Lfu.touch m.minute m.drawn obj.last_accessed_at }

unfoldable pub set_expiry : Moment → Bytes → ℤ → Db → Db
set_expiry m key duration_ms db = record db {
  expires = insert key ((m.milli + to_word (2 ^ 64) duration_ms) % 2 ^ 64) db.expires;
}

abbrev pub get_expiry : Bytes → Db → Option ℕ
get_expiry key db = lookup key db.expires

abbrev pub passed : Moment → Option ℕ → Bool
passed m none = false
passed m (some exp) = leb exp m.milli

unfoldable pub has_expired : Moment → Bytes → Db → Bool
has_expired m key db = passed m (lookup key db.expires)

unfoldable pub del : Bytes → Db → Db × Bool
del k db =
    if is_some (lookup k db.store)
    then (
      record db {
        store = erase k db.store;
        expires = erase k db.expires;
        keys_stat = db.keys_stat -ℤ pos 1;
        modified = db.modified ++ k ∷ [];
      },
      true,
    )
    else (db, false)

abbrev pub stamp_of : Option Obj → ℕ
stamp_of none = 0
stamp_of (some obj) = obj.last_accessed_at

-- The loop of `populateEvictionPool`, with the sample size that is left.
unfoldable pub populate : Host → ℕ → List Bytes → Db → Db
unfolding push
populate host left [] db = db
populate host zero (k ∷ ks) db = db
populate host (suc left) (k ∷ ks) db =
    populate host left ks
      (record db { e_pool = push host.sort host.grow k (stamp_of (lookup k db.store)) db.e_pool })

-- The loop of `evictAllkeysLRU`, with the evictions that are left. A pool that is not empty gives an
-- item.
abbrev pub del_popped : Option PoolItem × EvictionPool → Db → Db
del_popped (none, p) db = record db { e_pool = p }
del_popped (some item, p) db = (del item.key (record db { e_pool = p })).0

unfoldable pub evict_loop : ℕ → Db → Db
unfolding del_popped pop
evict_loop zero db = db
evict_loop (suc left) db = evict_loop left (del_popped (pop db.e_pool) db)

unfoldable pub evict : Host → Moment → Db → Db
unfolding populate evict_loop
evict host m db = evict_loop host.evict_count (populate host 5 m.visited db)

-- `Put` behind its test of the number of keys.
unfoldable pub put_obj : Moment → Bytes → Obj → ℤ → Db → Db
unfolding touch set_expiry
put_obj m k obj duration_ms db =
    let stored = record db { store = insert k (touch m obj) db.store } in
    let timed = if ltb_ℤ (pos 0) duration_ms then set_expiry m k duration_ms stored else stored in
    record timed { modified = timed.modified ++ k ∷ []; keys_stat = timed.keys_stat +ℤ pos 1 }

unfoldable pub put : Host → Moment → Bytes → Obj → ℤ → Db → Db
unfolding evict put_obj
put host m k obj duration_ms db =
    put_obj m k obj duration_ms
      (if leb host.key_limit (length db.store) then evict host m db else db)

-- `Get`: `none` is the result false, with which no caller reads the object.
abbrev pub got : Moment → Bytes → Option Obj → Db → Option Obj × Db
got m k none db = (none, db)
got m k (some v) db =
    if has_expired m k db
    then (none, (del k db).0)
    else (some (touch m v), record db { store = insert k (touch m v) db.store })

unfoldable pub get : Moment → Bytes → Db → Option Obj × Db
get m k db = got m k (lookup k db.store) db

-- The loop of `expireSample`, with the limit that is left.
unfoldable pub expire_loop : Moment → ℕ → List Bytes → Db → Db
unfolding has_expired del
expire_loop m left [] db = db
expire_loop m zero (k ∷ ks) db = db
expire_loop m (suc left) (k ∷ ks) db =
    expire_loop m (if has_expired m k db then left else suc left) ks
      (if has_expired m k db then (del k db).0 else db)

-- `expiredCount` is never raised, so the fraction is 0 and `DeleteExpiredKey` ends after one round.
unfoldable pub delete_expired_key : Moment → Db → Db
unfolding expire_loop
delete_expired_key m db = expire_loop m 20 m.visited db

-- `IsEmpty`; `none` is the panic at an object that is no list.
abbrev pub empty_content : Option Obj → Option Bool
empty_content none = some true
empty_content (some obj) = elim obj.content [
  | quicklist ql ↦ some (Quicklist.size ql == 0)
  | _ ↦ none
]

abbrev pub is_empty : Bytes → Db → Option Bool
is_empty key db = empty_content (lookup key db.store)
