-- ===== src/BloomCmd/Asked.antt =====
-- BF.ADD and BF.EXISTS of internal/store/bloom_cmd.go in turn.
use monster_db.Prelude.{ℕ, ◌≡◌, ◌⊎◌, refl, ap, ◌∙◌, true, false, some, [], ◌∷◌}
use monster_db.Prelude.Int.{pos}
use monster_db.Prelude.Bytes.{Bytes}
use monster_db.Prelude.Dict.{lookup}
use monster_db.Runtime.{int_reply}
use monster_db.Bloom.{BloomFilter, Hashing, exists_key}
use monster_db.Bloom.Marked.{IsFilter}
use monster_db.Bloom.Kept.{Gives32, add-kept}
use monster_db.Keyspace.{Db, Host, Moment, bloom_filter, touch, has_expired, passed, get}
use monster_db.Keyspace.Consistent.{get_alive}
use monster_db.Keyspace.Behind.{Holds, touched, touched-Holds, changed-Holds, update_content}
use monster_db.Command.{Outcome}
use monster_db.BloomCmd.{
  obj_type_bloom_filters, ask, ask_found, bf_exists, add_item, add_found, bf_add,
}

abbrev pub HoldsFilter : Db → Bytes → BloomFilter → Type 0
HoldsFilter db key b = Holds db key obj_type_bloom_filters (bloom_filter b)

add_found-HoldsFilter :
    (hs : Hashing) (m : Moment) (key item : Bytes) (b : BloomFilter) (db : Db)
    (h : HoldsFilter db key b)
    → has_expired m key db ≡ false
    → add_found hs key item (get m key db) ≡ add_item hs key item b (touched m key h.obj db)
unfolding touch
add_found-HoldsFilter hs m key item b db h alive =
    ap (add_found hs key item) (get_alive m key h.obj db h.found alive) ∙ rw h.content refl

ask_found-HoldsFilter :
    (hs : Hashing) (m : Moment) (key item : Bytes) (b : BloomFilter) (db : Db)
    (h : HoldsFilter db key b)
    → has_expired m key db ≡ false
    → ask_found hs item (get m key db) ≡ ask hs item b (touched m key h.obj db)
unfolding touch
ask_found-HoldsFilter hs m key item b db h alive =
    ap (ask_found hs item) (get_alive m key h.obj db h.found alive) ∙ rw (h.is_type, h.content) refl

-- BF.ADD of an item at a key that holds a Bloom filter with a positive size, all its words and at most
-- 2^31 rounds, and BF.EXISTS, at moments when the key has not expired, with hashes of 32 bits: both
-- return, BF.ADD replies 1, and BF.EXISTS replies 1 for this item and for every item
-- that was in the filter.
pub bf_exists-bf_add :
    (hs : Hashing) (host : Host) (m m' : Moment) (key item other : Bytes) (s : ℕ) (b : BloomFilter)
    (db : Db)
    → Gives32 hs
    → IsFilter b s
    → HoldsFilter db key b
    → has_expired m key db ≡ false
    → has_expired m' key db ≡ false
    → (other ≡ item) ⊎ (exists_key hs other b ≡ some true)
    → (out : Outcome) × (out' : Outcome) × (bf_add hs host m (key ∷ item ∷ []) db ≡ some out)
      × (out.replies ≡ int_reply (pos 1) ∷ [])
      × (bf_exists hs host m' (key ∷ other ∷ []) out.db ≡ some out')
      × (out'.replies ≡ int_reply (pos 1) ∷ [])
unfolding bf_add add_item bf_exists ask has_expired
bf_exists-bf_add hs host m m' key item other s b db w f h alive later known =
    let (b', e, there) = add-kept hs s item other b w f known in
    let was = touched m key h.obj db in
    let (holds, expires) =
      changed-Holds key obj_type_bloom_filters (bloom_filter b) (bloom_filter b') was
        (touched-Holds m key obj_type_bloom_filters (bloom_filter b) db h) in
    let db' : Db = update_content key (bloom_filter b') was in
    (
      record { replies = int_reply (pos 1) ∷ []; db = db' },
      record { replies = int_reply (pos 1) ∷ []; db = touched m' key holds.obj db' },
      add_found-HoldsFilter hs m key item b db h alive ∙ rw e refl,
      refl,
      ask_found-HoldsFilter hs m' key other b' db' holds
            (ap (λ x. passed m' (lookup key x)) expires ∙ later)
          ∙ rw there refl,
      refl,
    )
