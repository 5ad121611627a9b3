-- ===== src/Prelude/Int.antt =====
-- Signed integers over the native numbers, and Go's conversions between them and machine words.
use Prim.Native.Nat.{ℕ, suc, ◌+◌, ◌-◌, ◌*◌, ◌/◌, ◌%◌, ◌^◌, ◌≤◌, ◌<◌}
use mathlib.Core.Path.{◌≡◌}
use mathlib.Core.Bool.{Bool}
use native.Mathlib.Omega.{arith}
use native.Mathlib.Nat.{mod-eq_of_lt, mod-lt}
use monster_db.Prelude.Tests.{ltb, leb, ◌==◌, if◌then◌else◌}

-- `negsuc n` is -(n + 1).
pub data ℤ : Type 0 where
  pos : ℕ → ℤ
  negsuc : ℕ → ℤ

abbrev pub pos_part : ℤ → ℕ
pos_part (pos n) = n
pos_part (negsuc n) = 0

abbrev pub neg_part : ℤ → ℕ
neg_part (pos n) = 0
neg_part (negsuc n) = suc n

-- a - b, as an integer.
abbrev pub sub_ℕ : ℕ → ℕ → ℤ
sub_ℕ a b = if leb b a then pos (a - b) else negsuc (b - a - 1)

infixl 65 ◌+ℤ◌ ◌-ℤ◌
abbrev pub ◌+ℤ◌ : ℤ → ℤ → ℤ
a +ℤ b = sub_ℕ (pos_part a + pos_part b) (neg_part a + neg_part b)

abbrev pub ◌-ℤ◌ : ℤ → ℤ → ℤ
a -ℤ b = sub_ℕ (pos_part a + neg_part b) (neg_part a + pos_part b)

infix 50 ◌≤ℤ◌ ◌<ℤ◌
abbrev pub ◌≤ℤ◌ : ℤ → ℤ → Type 0
a ≤ℤ b = pos_part a + neg_part b ≤ pos_part b + neg_part a

abbrev pub ◌<ℤ◌ : ℤ → ℤ → Type 0
a <ℤ b = pos_part a + neg_part b < pos_part b + neg_part a

abbrev pub ltb_ℤ : ℤ → ℤ → Bool
ltb_ℤ a b = ltb (pos_part a + neg_part b) (pos_part b + neg_part a)

abbrev pub leb_ℤ : ℤ → ℤ → Bool
leb_ℤ a b = leb (pos_part a + neg_part b) (pos_part b + neg_part a)

abbrev pub eqb_ℤ : ℤ → ℤ → Bool
eqb_ℤ a b = pos_part a + neg_part b == pos_part b + neg_part a

pub eq_of_parts : (a b : ℤ) → pos_part a + neg_part b ≡ pos_part b + neg_part a → a ≡ b
eq_of_parts a b h = ground arith

-- The conversion of an integer to a word: its residue modulo `m`.
abbrev pub to_word : ℕ → ℤ → ℕ
to_word m (pos n) = n % m
to_word m (negsuc n) = m - 1 - n % m

-- A word read as a two's complement integer.
abbrev pub from_word : ℕ → ℕ → ℤ
from_word m u = if ltb (2 * u) m then pos u else negsuc (m - 1 - u)

-- The int that a sum or difference of ints wraps to.
abbrev pub wrap64 : ℤ → ℤ
wrap64 i = from_word (2 ^ 64) (to_word (2 ^ 64) i)

-- The integers from `-h` up to `h - 1`.
abbrev pub FitsIn : ℕ → ℤ → Type 0
FitsIn h (pos n) = n < h
FitsIn h (negsuc n) = n < h

-- `v >> k`, which rounds down.
abbrev pub shr : ℤ → ℕ → ℤ
shr (pos n) k = pos (n / 2 ^ k)
shr (negsuc n) k = negsuc (n / 2 ^ k)

pub to_word-lt : (m : ℕ) (v : ℤ) → 0 < m → to_word m v < m
to_word-lt m (pos n) h = mod-lt n h
to_word-lt m (negsuc n) h = omega arith

pub from_word-to_word : (h : ℕ) (v : ℤ) → FitsIn h v → from_word (2 * h) (to_word (2 * h) v) ≡ v
from_word-to_word h (pos n) p = ground (arith, mod-eq_of_lt {n = n} {m = 2 * h})
from_word-to_word h (negsuc n) p = ground (arith, mod-eq_of_lt {n = n} {m = 2 * h})
