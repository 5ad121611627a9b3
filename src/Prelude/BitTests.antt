-- ===== src/Prelude/BitTests.antt =====
-- A single bit of a word, tested and set, by the digits of the numbers.
use Prim.Native.Nat.{
  ℕ, zero, suc, ◌+◌, ◌*◌, ◌/◌, ◌%◌, ◌^◌, ◌≤◌, min, max, bit_and, bit_or, digits, bit_and-bitwise,
  bit_or-bitwise,
}
use mathlib.Core.Path.{◌≡◌, refl, sym, ap, ◌∙◌}
use mathlib.Core.Bool.{Bool, false}
use native.Mathlib.Omega.{arith}
use monster_db.Prelude.Tests.{◌==◌, if◌then◌else◌}

abbrev and_digits : ℕ → ℕ → ℕ → ℕ
and_digits n a b = digits (λ b. zero) min n a b

abbrev or_digits : ℕ → ℕ → ℕ → ℕ
or_digits n a b = digits (λ b. b) max n a b

-- Enough fuel for the digits is as good as more.
and_digits_enough : (n m a b : ℕ) → a ≤ n → a ≤ m → and_digits n a b ≡ and_digits m a b
and_digits_enough zero zero a b p q = refl
and_digits_enough zero (suc m) zero b p q = refl
and_digits_enough zero (suc m) (suc a) b p q = absurd (omega arith)
and_digits_enough (suc n) zero zero b p q = refl
and_digits_enough (suc n) zero (suc a) b p q = absurd (omega arith)
and_digits_enough (suc n) (suc m) zero b p q = refl
and_digits_enough (suc n) (suc m) (suc a) b p q =
    omega (arith, and_digits_enough n m (suc a / 2) (b / 2) (omega arith) (omega arith))

or_digits_enough : (n m a b : ℕ) → a ≤ n → a ≤ m → or_digits n a b ≡ or_digits m a b
or_digits_enough zero zero a b p q = refl
or_digits_enough zero (suc m) zero b p q = refl
or_digits_enough zero (suc m) (suc a) b p q = absurd (omega arith)
or_digits_enough (suc n) zero zero b p q = refl
or_digits_enough (suc n) zero (suc a) b p q = absurd (omega arith)
or_digits_enough (suc n) (suc m) zero b p q = refl
or_digits_enough (suc n) (suc m) (suc a) b p q =
    omega (arith, or_digits_enough n m (suc a / 2) (b / 2) (omega arith) (omega arith))

pub zero-bit_and : (b : ℕ) → bit_and 0 b ≡ 0
zero-bit_and b = bit_and-bitwise 0 b

zero-bit_or : (b : ℕ) → bit_or 0 b ≡ b
zero-bit_or b = bit_or-bitwise 0 b

bit_and-halves : (a b : ℕ) → bit_and a b ≡ bit_and (a / 2) (b / 2) * 2 + min (a % 2) (b % 2)
bit_and-halves zero b = omega (arith, zero-bit_and b, zero-bit_and (b / 2))
bit_and-halves (suc a) b = omega (
  arith,
  bit_and-bitwise (suc a) b,
  bit_and-bitwise (suc a / 2) (b / 2),
  and_digits_enough a (suc a / 2) (suc a / 2) (b / 2) (omega arith) (omega arith),
)

bit_or-halves : (a b : ℕ) → bit_or a b ≡ bit_or (a / 2) (b / 2) * 2 + max (a % 2) (b % 2)
bit_or-halves zero b = omega (arith, zero-bit_or b, zero-bit_or (b / 2))
bit_or-halves (suc a) b = omega (
  arith,
  bit_or-bitwise (suc a) b,
  bit_or-bitwise (suc a / 2) (b / 2),
  or_digits_enough a (suc a / 2) (suc a / 2) (b / 2) (omega arith) (omega arith),
)

bit_and-zero_under : (n a : ℕ) → a ≤ n → bit_and a 0 ≡ 0
bit_and-zero_under n zero h = refl
bit_and-zero_under zero (suc a) h = absurd (omega arith)
bit_and-zero_under (suc n) (suc a) h =
    omega (arith, bit_and-halves (suc a) 0, bit_and-zero_under n (suc a / 2) (omega arith))

bit_and-zero : (a : ℕ) → bit_and a 0 ≡ 0
bit_and-zero a = bit_and-zero_under a a (omega arith)

bit_or-zero_under : (n a : ℕ) → a ≤ n → bit_or a 0 ≡ a
bit_or-zero_under n zero h = refl
bit_or-zero_under zero (suc a) h = absurd (omega arith)
bit_or-zero_under (suc n) (suc a) h =
    omega (arith, bit_or-halves (suc a) 0, bit_or-zero_under n (suc a / 2) (omega arith))

bit_or-zero : (a : ℕ) → bit_or a 0 ≡ a
bit_or-zero a = bit_or-zero_under a a (omega arith)

-- Whether the bit of this number is 0.
abbrev pub clear : ℕ → ℕ → Bool
clear j a = bit_and a (2 ^ j) == 0

clear_lowest : (a : ℕ) → bit_and a 1 ≡ a % 2
clear_lowest a = omega (arith, bit_and-halves a 1, bit_and-zero (a / 2))

power_suc : (j : ℕ) → 2 ^ suc j ≡ 2 ^ j * 2
power_suc j = omega arith

power_half : (j : ℕ) → 2 ^ suc j / 2 ≡ 2 ^ j
power_half j = omega (arith, power_suc j)

power_even : (j : ℕ) → 2 ^ suc j % 2 ≡ 0
power_even j = omega (arith, power_suc j)

bit_and-higher : (j a : ℕ) → bit_and a (2 ^ suc j) ≡ bit_and (a / 2) (2 ^ j) * 2
bit_and-higher j a = bit_and-halves a (2 ^ suc j) ∙ rw (power_half j, power_even j) (omega arith)

bit_or-higher :
    (i a : ℕ)
    → (bit_or a (2 ^ suc i) / 2 ≡ bit_or (a / 2) (2 ^ i)) × (bit_or a (2 ^ suc i) % 2 ≡ a % 2)
bit_or-higher i a =
    let halves : bit_or a (2 ^ suc i) ≡ bit_or (a / 2) (2 ^ i) * 2 + a % 2 =
      bit_or-halves a (2 ^ suc i) ∙ rw (power_half i, power_even i) (omega arith) in
    (omega (arith, halves), omega (arith, halves))

bit_or-lowest : (a : ℕ) → (bit_or a 1 / 2 ≡ a / 2) × (bit_or a 1 % 2 ≡ 1)
bit_or-lowest a =
    let halves : bit_or a 1 ≡ a / 2 * 2 + 1 =
      omega (arith, bit_or-halves a 1, bit_or-zero (a / 2)) in
    (omega (arith, halves), omega (arith, halves))

higher_clear : (j a : ℕ) → clear (suc j) a ≡ clear j (a / 2)
higher_clear j a = rw (bit_and-higher j a) (ground arith)

-- A union with one bit sets this bit and leaves the others.
pub clear-bit_or : (i j a : ℕ) → clear j (bit_or a (2 ^ i)) ≡ (if i == j then false else clear j a)
clear-bit_or zero zero a = rw (clear_lowest (bit_or a 1), (bit_or-lowest a).1) refl
clear-bit_or zero (suc j) a =
    higher_clear j (bit_or a 1)
    ∙ ap (clear j) (bit_or-lowest a).0
    ∙ sym (higher_clear j a)
    ∙ ground arith
clear-bit_or (suc i) zero a =
    rw (clear_lowest (bit_or a (2 ^ suc i)), clear_lowest a, (bit_or-higher i a).1) (ground arith)
clear-bit_or (suc i) (suc j) a =
    higher_clear j (bit_or a (2 ^ suc i))
    ∙ ap (clear j) (bit_or-higher i a).0
    ∙ clear-bit_or i j (a / 2)
    ∙ rw (higher_clear j a) (ground arith)
