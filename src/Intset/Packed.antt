-- ===== src/Intset/Packed.antt =====
-- The words of internal/ds/intset.go as a list of integers.
use Prim.Native.Nat.{bit_or}
use monster_db.Prelude.{
  ℕ, zero, suc, ◌+◌, ◌*◌, ◌/◌, ◌%◌, ◌^◌, ◌<◌, ◌≤◌, ◌≡◌, ◌↔◌, refl, sym, subst, ◌∙◌, arith, some,
  List, [], ◌∷◌, ◌++◌, length, drop, get_elem?, if◌then◌else◌, append_assoc,
}
use monster_db.Prelude.Int.{
  ℤ, to_word, to_word-lt, from_word, from_word-to_word, FitsIn, leb_ℤ, ◌≤ℤ◌, ◌<ℤ◌,
}
use monster_db.Prelude.Bytes.{Bytes, le_bytes}
use monster_db.Prelude.Bits.{or_low}
use monster_db.Intset.{Intset, get}

abbrev pub word : ℤ → ℕ
word x = to_word (256 ^ 2) x

unfoldable pub pack : List ℤ → Bytes
pack [] = []
pack (x ∷ xs) = le_bytes 2 (word x) ++ pack xs

abbrev pub AllFit : List ℤ → Type 0
AllFit [] = Unit {0}
AllFit (x ∷ xs) = FitsIn 32768 x × AllFit xs

-- All members lie above `x`.
abbrev pub AllAbove : ℤ → List ℤ → Type 0
AllAbove x [] = Unit {0}
AllAbove x (y ∷ ys) = (x <ℤ y) × AllAbove x ys

abbrev pub IsSorted : List ℤ → Type 0
IsSorted [] = Unit {0}
IsSorted (x ∷ xs) = AllAbove x xs × IsSorted xs

-- `is` is well formed and stands for the members `xs` in ascending order.
pub record Represents (is : Intset) (xs : List ℤ) : Type 0 where
  pub content : is.content ≡ pack xs
  pub count : is.count ≡ length xs
  pub sorted : IsSorted xs
  pub fit : AllFit xs

pub pack-append : (xs ys : List ℤ) → pack (xs ++ ys) ≡ pack xs ++ pack ys
unfolding pack
pack-append [] ys = refl
pack-append (x ∷ xs) ys =
    rw (pack-append xs ys) (sym (append_assoc (le_bytes 2 (word x)) (pack xs) (pack ys)))

pub length-pack : (xs : List ℤ) → length (pack xs) ≡ 2 * length xs
unfolding pack le_bytes
length-pack [] = omega arith
length-pack (x ∷ xs) = omega (arith, length-pack xs)

word_bytes :
    (x : ℤ)
    → FitsIn 32768 x
    → from_word (256 ^ 2) (bit_or (word x % 256) (word x / 256 % 256 * 256)) ≡ x
word_bytes x h =
    let w : word x < 65536 = to_word-lt (256 ^ 2) x (omega arith) in
    let e : word x / 256 % 256 * 256 + word x % 256 ≡ word x = omega arith in
    rw (or_low (word x / 256 % 256) (word x % 256) (omega arith) (omega arith), e)
      (from_word-to_word 32768 x h)

module _ (count : ℕ) where
  -- `Get` reads the member at its index.
  pub get-pack :
      (i : ℕ) (xs : List ℤ) {x : ℤ}
      → AllFit xs
      → get_elem? xs i ≡ some x
      → get i (record { count = count; content = pack xs }) ≡ some x
  unfolding get pack le_bytes
  get-pack i [] f e = cc
  get-pack zero (y ∷ xs) {x} f e = rw (word_bytes y f.0) e
  get-pack (suc i) (y ∷ xs) {x} f e =
      let k : suc i * 2 ≡ suc (suc (i * 2)) = omega arith in
      let l : suc (suc (i * 2)) + 1 ≡ suc (suc (i * 2 + 1)) = omega arith in
      rw (k, l) (get-pack i xs f.1 e)

-- How many members are at most `val`.
unfoldable pub rank : ℤ → List ℤ → ℕ
rank val [] = 0
rank val (x ∷ xs) = (if leb_ℤ x val then 1 else 0) + rank val xs

pub rank-le : (val : ℤ) (xs : List ℤ) → rank val xs ≤ length xs
unfolding rank
rank-le val [] = omega arith
rank-le val (x ∷ xs) = ground (arith, rank-le val xs)

pub rank_above : (val x : ℤ) (xs : List ℤ) → AllAbove x xs → val <ℤ x → rank val xs ≡ 0
unfolding rank
rank_above val x [] h p = refl
rank_above val x (y ∷ xs) h p = ground (arith, rank_above val x xs)

pub above-elem :
    (y : ℤ) (i : ℕ) (xs : List ℤ) {x : ℤ} → AllAbove y xs → get_elem? xs i ≡ some x → y <ℤ x
above-elem y i [] h e = absurd (cc)
above-elem y zero (z ∷ xs) {x} h e = let same : z ≡ x = cc in subst (λ t. y <ℤ t) same h.0
above-elem y (suc i) (z ∷ xs) h e = above-elem y i xs h.1 e

-- In a sorted list the members that are at most `val` are those below the rank.
pub get-rank :
    (val : ℤ) (i : ℕ) (xs : List ℤ) {x : ℤ}
    → IsSorted xs
    → get_elem? xs i ≡ some x
    → (x ≤ℤ val) ↔ (i < rank val xs)
unfolding rank
get-rank val i [] s e = absurd (cc)
get-rank val zero (y ∷ xs) {x} s e =
    let same : y ≡ x = cc in
    rw (← same) (λ p. ground arith, λ q. ground (arith, rank_above val y xs s.0))
get-rank val (suc i) (y ∷ xs) {x} s e =
    let ih = get-rank val i xs s.1 e in
    let higher = above-elem y i xs s.0 e in
    (λ p. ground (arith, ih.0 p), λ q. ground (arith, ih.1, rank_above val y xs s.0))

pub pack-around :
    (v : ℤ) (xs ys : List ℤ) → pack (xs ++ v ∷ ys) ≡ pack xs ++ (le_bytes 2 (word v) ++ pack ys)
pack-around v xs ys = pack-append xs (v ∷ ys) ∙ unfold pack in refl

pub drop-pack : (i : ℕ) (xs : List ℤ) → drop (i * 2) (pack xs) ≡ pack (drop i xs)
unfolding pack le_bytes
drop-pack zero xs = refl
drop-pack (suc i) [] = nothing_left (suc i * 2)
  where
    nothing_left : (n : ℕ) → drop {A = ℕ} n [] ≡ []
    nothing_left zero = refl
    nothing_left (suc n) = refl
drop-pack (suc i) (x ∷ xs) =
    let k : suc i * 2 ≡ suc (suc (i * 2)) = omega arith in rw k (drop-pack i xs)
