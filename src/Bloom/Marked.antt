-- ===== src/Bloom/Marked.antt =====
-- The positions that are marked in a filter of internal/ds/bloom.go.
use Prim.Native.Nat.{bit_or}
use native.Mathlib.Nat.{mul-le-mul_left, mod-lt, mod-eq_of_lt}
use monster_db.Prelude.{
  ℕ, zero, suc, ◌+◌, ◌-◌, ◌*◌, ◌/◌, ◌%◌, ◌^◌, ◌<◌, ◌≤◌, ◌≡◌, refl, sym, ap, ◌∙◌, arith, Bool, true,
  false, not, ◌&&◌, ◌||◌, Bool-cases, inl, inr, Option, none, some, List, [], ◌∷◌, length,
  get_elem?, get_elem?-some, ◌==◌, ==_iff,
}
use monster_db.Prelude.BitTests.{clear, clear-bit_or}
use monster_db.Prelude.Int.{pos}
use monster_db.Bloom.{BloomFilter, locate, or_word, add_loop, exists_loop}

-- A filter with a size, all its words, and a number of rounds that no sum of hashes overflows at.
pub record IsFilter (b : BloomFilter) (s : ℕ) : Type 0 where
  pub size : b.size ≡ pos s
  pub positive : 0 < s
  pub words : length b.filter ≡ (s + 63) / 64
  pub rounds : b.k ≤ 2 ^ 31

abbrev pub Are32 : ℕ × ℕ → Type 0
Are32 (h1, h2) = (h1 < 2 ^ 32) × (h2 < 2 ^ 32)

abbrev pub position : ℕ × ℕ → ℕ → ℕ → ℕ
position (h1, h2) i s = (h1 + i * h2) % s

abbrev pub word_marked : ℕ → Option ℕ → Bool
word_marked j none = false
word_marked j (some w) = not (clear j w)

abbrev pub marked : ℕ → List ℕ → Bool
marked p ws = word_marked (p % 64) (get_elem? ws (p / 64))

-- One of the positions of some rounds, and whether they are all marked.
abbrev pub among : ℕ × ℕ → ℕ → ℕ → ℕ → ℕ → Bool
among h s zero i p = false
among h s (suc left) i p = (p == position h i s) || among h s left (i + 1) p

abbrev pub all_marked : ℕ × ℕ → ℕ → ℕ → ℕ → List ℕ → Bool
all_marked h s zero i ws = true
all_marked h s (suc left) i ws = marked (position h i s) ws && all_marked h s left (i + 1) ws

product_bound : (i h : ℕ) → i < 2 ^ 31 → h < 2 ^ 32 → i * h ≤ (2 ^ 31 - 1) * 2 ^ 32
product_bound i h p q = omega (arith, p, mul-le-mul_left {m = h} {n = 2 ^ 32} i (omega (arith, q)))

locate-position :
    (h : ℕ × ℕ) (i s : ℕ)
    → Are32 h
    → i < 2 ^ 31
    → 0 < s
    → locate h i (pos s) ≡ some (position h i s / 64, 2 ^ (position h i s % 64))
unfolding locate
locate-position (h1, h2) i s w p q =
    let bound : i * h2 ≤ (2 ^ 31 - 1) * 2 ^ 32 = product_bound i h2 p w.1 in
    let small : h1 + i * h2 < 2 ^ 63 = omega (arith, bound, w.0) in
    let whole : (h1 + i * h2) % 2 ^ 64 ≡ h1 + i * h2 = mod-eq_of_lt (omega (arith, small)) in
    rw whole (ground (arith, small, q))

-- The words with a union at one of them.
abbrev joined : ℕ → ℕ → List ℕ → List ℕ
joined word mask [] = []
joined zero mask (w ∷ ws) = bit_or w mask ∷ ws
joined (suc word) mask (w ∷ ws) = w ∷ joined word mask ws

or_word-joined :
    (word mask : ℕ) (ws : List ℕ)
    → word < length ws
    → or_word word mask ws ≡ some (joined word mask ws)
unfolding or_word
or_word-joined word mask [] h = absurd (omega arith)
or_word-joined zero mask (w ∷ ws) h = refl
or_word-joined (suc word) mask (w ∷ ws) h = rw (or_word-joined word mask ws (omega arith)) refl

length-joined : (word mask : ℕ) (ws : List ℕ) → length (joined word mask ws) ≡ length ws
length-joined word mask [] = refl
length-joined zero mask (w ∷ ws) = refl
length-joined (suc word) mask (w ∷ ws) = ap suc (length-joined word mask ws)

word_marked-joined :
    (i word q : ℕ) (ws : List ℕ)
    → q < length ws
    → word_marked i (get_elem? (joined q (2 ^ word) ws) q)
      ≡ (word == i) || word_marked i (get_elem? ws q)
word_marked-joined i word q [] h = absurd (omega arith)
word_marked-joined i word zero (w ∷ ws) h = ground (arith, clear-bit_or word i w)
word_marked-joined i word (suc q) (w ∷ ws) h = word_marked-joined i word q ws (omega arith)

joined_elsewhere :
    (mask q r : ℕ) (ws : List ℕ)
    → (q == r) ≡ false
    → get_elem? (joined q mask ws) r ≡ get_elem? ws r
joined_elsewhere mask q r [] h = refl
joined_elsewhere mask zero zero (w ∷ ws) h = cc
joined_elsewhere mask zero (suc r) (w ∷ ws) h = refl
joined_elsewhere mask (suc q) zero (w ∷ ws) h = refl
joined_elsewhere mask (suc q) (suc r) (w ∷ ws) h = joined_elsewhere mask q r ws (ground arith)

-- The union marks one position and leaves the others.
marked-joined :
    (p q : ℕ) (ws : List ℕ)
    → q / 64 < length ws
    → marked p (joined (q / 64) (2 ^ (q % 64)) ws) ≡ (p == q) || marked p ws
marked-joined p q ws h = elim (Bool-cases (q / 64 == p / 64)) [
  | inr e ↦
      let other : (p == q) ≡ false = ground (arith, e) in
      rw (joined_elsewhere (2 ^ (q % 64)) (q / 64) (p / 64) ws e, other) refl
  | inl e ↦
      let same : q / 64 ≡ p / 64 = (==_iff (q / 64) (p / 64)).0 e in
      let bits : (q % 64 == p % 64) ≡ (p == q) = ground (arith, same) in
      ap (λ x. word_marked (p % 64) (get_elem? (joined (q / 64) (2 ^ (q % 64)) ws) x)) (sym same)
      ∙ word_marked-joined (p % 64) (q % 64) (q / 64) ws h
      ∙ ap (λ x. (q % 64 == p % 64) || word_marked (p % 64) (get_elem? ws x)) same
      ∙ ap (λ x. x || marked p ws) bits
]

position-lt : (h : ℕ × ℕ) (i s : ℕ) → 0 < s → position h i s < s
position-lt (h1, h2) i s p = mod-lt (h1 + i * h2) p

word_there : (p s : ℕ) (ws : List ℕ) → p < s → length ws ≡ (s + 63) / 64 → p / 64 < length ws
word_there p s ws h l = omega arith

or_swap : (x y z : Bool) → (x || (y || z)) ≡ ((y || x) || z)
or_swap true true z = refl
or_swap true false z = refl
or_swap false true z = refl
or_swap false false z = refl

pub add_loop-marked :
    (h : ℕ × ℕ) (s left i : ℕ) (b : BloomFilter)
    → Are32 h
    → IsFilter b s
    → i + left ≤ 2 ^ 31
    → (b' : BloomFilter) × (add_loop h left i b ≡ some b')
      × IsFilter b' s
      × (b'.k ≡ b.k)
      × ((p : ℕ) → marked p b'.filter ≡ (among h s left i p || marked p b.filter))
unfolding add_loop
add_loop-marked h s zero i b w f r = (b, refl, f, refl, λ p. refl)
add_loop-marked h s (suc left) i b w f r =
    let q : ℕ = position h i s in
    let there : q / 64 < length b.filter =
      word_there q s b.filter (position-lt h i s f.positive) f.words in
    let here : locate h i b.size ≡ some (q / 64, 2 ^ (q % 64)) =
      ap (locate h i) f.size ∙ locate-position h i s w (omega (arith, r)) f.positive in
    let ws : List ℕ = joined (q / 64) (2 ^ (q % 64)) b.filter in
    let (b', e, f', same_k, marks) =
      add_loop-marked h s left (i + 1) (record b { filter = ws }) w
        (record {
          size = f.size;
          positive = f.positive;
          words = length-joined (q / 64) (2 ^ (q % 64)) b.filter ∙ f.words;
          rounds = f.rounds;
        })
        (omega (arith, r)) in
    (
      b',
      rw (here, or_word-joined (q / 64) (2 ^ (q % 64)) b.filter there) e,
      f',
      same_k,
      λ p.
          marks p
          ∙ ap (λ x. among h s left (i + 1) p || x) (marked-joined p q b.filter there)
          ∙ or_swap (among h s left (i + 1) p) (p == q) (marked p b.filter),
    )

pub exists_loop-marked :
    (h : ℕ × ℕ) (s left i : ℕ) (b : BloomFilter)
    → Are32 h
    → IsFilter b s
    → i + left ≤ 2 ^ 31
    → exists_loop h left i b ≡ some (all_marked h s left i b.filter)
unfolding exists_loop
exists_loop-marked h s zero i b w f r = refl
exists_loop-marked h s (suc left) i b w f r =
    let q : ℕ = position h i s in
    let there : q / 64 < length b.filter =
      word_there q s b.filter (position-lt h i s f.positive) f.words in
    let here : locate h i b.size ≡ some (q / 64, 2 ^ (q % 64)) =
      ap (locate h i) f.size ∙ locate-position h i s w (omega (arith, r)) f.positive in
    let (v, g) = get_elem?-some (q / 64) b.filter there in
    rw (here, g, exists_loop-marked h s left (i + 1) b w f (omega (arith, r))) (ground arith)
