-- ===== src/Prelude/Bits.antt =====
-- The masks and unions of the source on small numbers, read off tables of all their values.
use Prim.Native.Nat.{ℕ, zero, suc, ◌+◌, ◌*◌, ◌/◌, ◌%◌, ◌<◌, bit_and, bit_or}
use mathlib.Core.Path.{◌≡◌, refl}
use mathlib.Core.Bool.{Bool, true, ◌&&◌}
use native.Mathlib.Omega.{arith}
use monster_db.Prelude.Tests.{◌==◌, ==_iff}

-- A test holds on the numbers under a bound.
table : (ℕ → Bool) → ℕ → Bool
table test zero = true
table test (suc bound) = table test bound && test bound

table_entry : (test : ℕ → Bool) (bound x : ℕ) → x < bound → table test bound ≡ true → test x ≡ true
unfolding table
table_entry test zero x h e = absurd (omega arith)
table_entry test (suc bound) x h e = ground (arith, table_entry test bound x)

and_63_table : table (λ x. bit_and x 63 == x % 64) 256 ≡ true
unfolding table
and_63_table = refl

pub and_63 : (x : ℕ) → x < 256 → bit_and x 63 ≡ x % 64
and_63 x h = (==_iff _ _).0 (table_entry _ 256 x h and_63_table)

and_192_table : table (λ x. bit_and x 192 == x / 64 * 64) 256 ≡ true
unfolding table
and_192_table = refl

pub and_192 : (x : ℕ) → x < 256 → bit_and x 192 ≡ x / 64 * 64
and_192 x h = (==_iff _ _).0 (table_entry _ 256 x h and_192_table)

or_128_table : table (λ x. bit_or 128 x == 128 + x) 128 ≡ true
unfolding table
or_128_table = refl

pub or_128 : (x : ℕ) → x < 128 → bit_or 128 x ≡ 128 + x
or_128 x h = (==_iff _ _).0 (table_entry _ 128 x h or_128_table)

or_64_table : table (λ x. bit_or 64 x == 64 + x) 64 ≡ true
unfolding table
or_64_table = refl

pub or_64 : (x : ℕ) → x < 64 → bit_or 64 x ≡ 64 + x
or_64 x h = (==_iff _ _).0 (table_entry _ 64 x h or_64_table)

-- The union of a high and a low byte, with the high byte first and with the low byte first.
abbrev high_first : ℕ → ℕ → Bool
high_first h l = bit_or (h * 256) l == h * 256 + l

abbrev low_first : ℕ → ℕ → Bool
low_first h l = bit_or l (h * 256) == h * 256 + l

high_bytes : table (λ h. table (high_first h) 256) 256 ≡ true
unfolding table
high_bytes = refl

low_bytes : table (λ h. table (low_first h) 256) 256 ≡ true
unfolding table
low_bytes = refl

pub or_high : (h l : ℕ) → h < 256 → l < 256 → bit_or (h * 256) l ≡ h * 256 + l
or_high h l p q =
    let row = table_entry (λ k. table (high_first k) 256) 256 h p high_bytes in
    (==_iff _ _).0 (table_entry (high_first h) 256 l q row)

pub or_low : (h l : ℕ) → h < 256 → l < 256 → bit_or l (h * 256) ≡ h * 256 + l
or_low h l p q =
    let row = table_entry (λ k. table (low_first k) 256) 256 h p low_bytes in
    (==_iff _ _).0 (table_entry (low_first h) 256 l q row)
