-- ===== src/Bloom/Kept.antt =====
-- A filter of internal/ds/bloom.go keeps what was added.
use monster_db.Prelude.{
  returned_same, ℕ, zero, suc, ◌+◌, ◌/◌, ◌%◌, ◌^◌, ◌<◌, ◌≤◌, ◌≡◌, ◌⊎◌, refl, sym, ap, ◌∙◌, arith,
  Bool, true, false, ◌&&◌, ◌||◌, inl, inr, Option, some, List, [], ◌∷◌, replicate, length-replicate,
  get_elem?, ◌>>=◌,
}
use monster_db.Prelude.BitTests.{zero-bit_and}
use monster_db.Prelude.Int.{pos}
use monster_db.Prelude.Bytes.{Bytes}
use monster_db.Bloom.{BloomFilter, Hashing, hashes, new_bloom_filter, add, exists_key}
use monster_db.Bloom.Marked.{
  IsFilter, Are32, word_marked, position, marked, among, all_marked, add_loop-marked,
  exists_loop-marked,
}

-- murmur3 gives 32-bit words.
abbrev pub Gives32 : Hashing → Type 0
Gives32 hs = (seed : ℕ) (key : Bytes) → hs.sum32 seed key < 2 ^ 32

hashes-Are32 : (hs : Hashing) (key : Bytes) → Gives32 hs → Are32 (hashes hs key)
unfolding hashes
hashes-Are32 hs key w = (w 0 key, ground (arith, w 12345 key))

-- Add returns, at a filter with a positive size, at most 2^31 rounds and hashes of 32 bits: the
-- positions of the key in its rounds are marked, and all others as before; Exists of any key then
-- returns whether the positions of that key are all marked.
pub add-marked :
    (hs : Hashing) (s : ℕ) (key other : Bytes) (b : BloomFilter)
    → Gives32 hs
    → IsFilter b s
    → (b' : BloomFilter) × (add hs key b ≡ some b')
      × IsFilter b' s
      × (b'.k ≡ b.k)
      × ((p : ℕ) → marked p b'.filter ≡ (among (hashes hs key) s b.k 0 p || marked p b.filter))
      × (exists_key hs other b' ≡ some (all_marked (hashes hs other) s b'.k 0 b'.filter))
unfolding add exists_key
add-marked hs s key other b w f =
    let (b', e, f', same, marks) =
      add_loop-marked (hashes hs key) s b.k 0 b (hashes-Are32 hs key w) f
        (omega (arith, f.rounds)) in
    (
      b',
      e,
      f',
      same,
      marks,
      exists_loop-marked (hashes hs other) s b'.k 0 b' (hashes-Are32 hs other w) f'
          (omega (arith, f'.rounds)),
    )

both_true : (x y : Bool) → (x && y) ≡ true → (x ≡ true) × (y ≡ true)
both_true true true e = (refl, refl)
both_true true false e = cc
both_true false y e = cc

or_true : (x : Bool) → (x || true) ≡ true
or_true true = refl
or_true false = refl

-- What marks more keeps a key.
all_marked_more :
    (h : ℕ × ℕ) (s left i : ℕ) (ws ws' : List ℕ)
    → ((p : ℕ) → marked p ws ≡ true → marked p ws' ≡ true)
    → all_marked h s left i ws ≡ true
    → all_marked h s left i ws' ≡ true
all_marked_more h s zero i ws ws' m e = refl
all_marked_more h s (suc left) i ws ws' m e =
    let (first, later) =
      both_true (marked (position h i s) ws) (all_marked h s left (i + 1) ws) e in
    rw (m (position h i s) first, all_marked_more h s left (i + 1) ws ws' m later) refl

all_marked-among :
    (h : ℕ × ℕ) (s left i : ℕ) (ws : List ℕ)
    → ((p : ℕ) → among h s left i p ≡ true → marked p ws ≡ true)
    → all_marked h s left i ws ≡ true
all_marked-among h s zero i ws m = refl
all_marked-among h s (suc left) i ws m =
    rw
      (
        m (position h i s) (ground arith),
        all_marked-among h s left (i + 1) ws (λ p e. m p (ground (arith, e))),
      )
      refl

-- What was added is there, and what was there stays.
pub add-kept :
    (hs : Hashing) (s : ℕ) (key other : Bytes) (b : BloomFilter)
    → Gives32 hs
    → IsFilter b s
    → (other ≡ key) ⊎ (exists_key hs other b ≡ some true)
    → (b' : BloomFilter) × (add hs key b ≡ some b') × (exists_key hs other b' ≡ some true)
unfolding exists_key
add-kept hs s key other b w f known =
    let (b', e, f', same, marks, there) = add-marked hs s key other b w f in
    (
      b',
      e,
      there
          ∙ ap some (elim known [
            | inl here ↦
                ap (λ x. all_marked (hashes hs x) s b'.k 0 b'.filter) here
                ∙ rw same (
                    all_marked-among (hashes hs key) s b.k 0 b'.filter (λ p a. marks p ∙ rw a refl))
            | inr old ↦
                let was : all_marked (hashes hs other) s b.k 0 b.filter ≡ true = returned_same (
                  sym (
                    exists_loop-marked (hashes hs other) s b.k 0 b (hashes-Are32 hs other w) f
                      (omega (arith, f.rounds)))
                  ∙ old) in
                rw same (
                  all_marked_more (hashes hs other) s b.k 0 b.filter b'.filter
                    (λ p a. marks p ∙ rw a (or_true (among (hashes hs key) s b.k 0 p))) was)
          ]),
    )

-- A client adds keys one by one.
unfoldable pub add_all : Hashing → List Bytes → BloomFilter → Option BloomFilter
add_all hs [] b = some b
add_all hs (key ∷ keys) b = do b' ← add hs key b; add_all hs keys b'

abbrev pub Among : Bytes → List Bytes → Type 0
Among key [] = ⊥
Among key (k ∷ keys) = (key ≡ k) ⊎ Among key keys

add_all-marked :
    (hs : Hashing) (s : ℕ) (keys : List Bytes) (b : BloomFilter)
    → Gives32 hs
    → IsFilter b s
    → (b' : BloomFilter) × (add_all hs keys b ≡ some b')
      × IsFilter b' s
      × (b'.k ≡ b.k)
      × ((p : ℕ) → marked p b.filter ≡ true → marked p b'.filter ≡ true)
      × ((key : Bytes) → Among key keys → all_marked (hashes hs key) s b'.k 0 b'.filter ≡ true)
unfolding add_all
add_all-marked hs s [] b w f = (b, refl, f, refl, λ p e. e, λ key a. absurd a)
add_all-marked hs s (k ∷ keys) b w f =
    let (b1, e1, f1, same1, marks, x) = add-marked hs s k k b w f in
    let (b2, e2, f2, same2, more, all) = add_all-marked hs s keys b1 w f1 in
    (
      b2,
      rw e1 e2,
      f2,
      same2 ∙ same1,
      λ p e. more p (marks p ∙ rw e (or_true (among (hashes hs k) s b.k 0 p))),
      λ key a. elim a [
        | inr later ↦ all key later
        | inl here ↦
            rw (here, same2, same1)
              (all_marked-among (hashes hs k) s b.k 0 b2.filter
                (λ p e. more p (marks p ∙ rw e refl)))
      ],
    )

unmarked_word : (i j n : ℕ) → word_marked i (get_elem? (replicate n 0) j) ≡ false
unmarked_word i j zero = refl
unmarked_word i zero (suc n) = rw (zero-bit_and (2 ^ i)) refl
unmarked_word i (suc j) (suc n) = unmarked_word i j n

unmarked : (p n : ℕ) → marked p (replicate n 0) ≡ false
unmarked p n = unmarked_word (p % 64) (p / 64) n

first_unmarked : (h : ℕ × ℕ) (s k n : ℕ) → 0 < k → all_marked h s k 0 (replicate n 0) ≡ false
first_unmarked h s zero n p = absurd (omega arith)
first_unmarked h s (suc k) n p = rw (unmarked (position h 0 s) n) refl

-- Keys that are added one by one to a new filter with a positive size and at most 2^31 rounds: all
-- of this returns, then Exists of every one of them replies that it is there, and at the new filter
-- Exists of any key replied that it was not, if there is a round at all.
pub exists_key-add_all :
    (hs : Hashing) (s k : ℕ) (keys : List Bytes)
    → Gives32 hs
    → 0 < s
    → k ≤ 2 ^ 31
    → (b : BloomFilter) × (b' : BloomFilter) × (new_bloom_filter (pos s, k) ≡ some b)
      × (add_all hs keys b ≡ some b')
      × ((key : Bytes) → Among key keys → exists_key hs key b' ≡ some true)
      × ((key : Bytes) → 0 < k → exists_key hs key b ≡ some false)
unfolding new_bloom_filter exists_key
exists_key-add_all hs s k keys w p r =
    let b : BloomFilter = record { filter = replicate ((s + 63) / 64) 0; size = pos s; k = k } in
    let f : IsFilter b s = record {
      size = refl;
      positive = p;
      words = length-replicate ((s + 63) / 64) 0;
      rounds = r;
    } in
    let (b', e, f', same, more, all) = add_all-marked hs s keys b w f in
    (
      b,
      b',
      refl,
      e,
      λ key a.
          exists_loop-marked (hashes hs key) s b'.k 0 b' (hashes-Are32 hs key w) f'
            (omega (arith, f'.rounds))
          ∙ ap some (all key a),
      λ key h.
          exists_loop-marked (hashes hs key) s k 0 b (hashes-Are32 hs key w) f (omega (arith, r))
          ∙ ap some (first_unmarked (hashes hs key) s k ((s + 63) / 64) h),
    )
