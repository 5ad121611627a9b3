-- ===== src/Prelude/Bytes.antt =====
-- Byte strings as lists of numbers: comparison, little-endian words, and the writes of Go, which
-- panic out of range.
use Prim.Native.Nat.{ℕ, zero, suc, ◌+◌, ◌-◌, ◌*◌, ◌/◌, ◌%◌, ◌^◌, ◌<◌}
use mathlib.Core.Path.{◌≡◌, refl, ap}
use mathlib.Core.Logic.{◌↔◌}
use mathlib.Core.Bool.{Bool, true, false, ◌&&◌, ◌||◌}
use mathlib.Core.List.{List, [], ◌∷◌, ◌++◌, append_assoc, append-nil}
use mathlib.Core.Option.{Option, none, some}
use native.Mathlib.Omega.{arith}
use native.Mathlib.Nat.{pow-suc}
use monster_db.Prelude.Tests.{ltb, leb, ◌==◌, le→leb, if◌then◌else◌}
use monster_db.Prelude.Lists.{
  length, take, drop, length-append, take-append, drop-append, take_all, drop-shift,
}

abbrev pub Bytes : Type 0
Bytes = List ℕ

abbrev pub IsByte : ℕ → Type 0
IsByte b = b < 256

abbrev pub AreBytes : Bytes → Type 0
AreBytes [] = Unit {0}
AreBytes (b ∷ bs) = IsByte b × AreBytes bs

-- `s == t` and `s < t` on strings.
abbrev pub eqb : Bytes → Bytes → Bool
eqb [] [] = true
eqb [] (b ∷ t) = false
eqb (a ∷ s) [] = false
eqb (a ∷ s) (b ∷ t) = (a == b) && eqb s t

abbrev pub before : Bytes → Bytes → Bool
before s [] = false
before [] (b ∷ t) = true
before (a ∷ s) (b ∷ t) = ltb a b || ((a == b) && before s t)

pub eqb_refl : (s : Bytes) → eqb s s ≡ true
eqb_refl [] = refl
eqb_refl (a ∷ s) = ground (arith, eqb_refl s)

pub eqb→eq : (s t : Bytes) → eqb s t ≡ true → s ≡ t
eqb→eq [] [] h = refl
eqb→eq [] (b ∷ t) h = cc
eqb→eq (a ∷ s) [] h = cc
eqb→eq (a ∷ s) (b ∷ t) h = ground (arith, eqb→eq s t)

pub eqb_iff : (s t : Bytes) → (eqb s t ≡ true) ↔ (s ≡ t)
eqb_iff s t = (eqb→eq s t, λ e. rw e (eqb_refl t))

-- The `k` bytes of a word, the lowest first, and the word that they make.
unfoldable pub le_bytes : ℕ → ℕ → Bytes
le_bytes zero v = []
le_bytes (suc k) v = v % 256 ∷ le_bytes k (v / 256)

unfoldable pub le_value : Bytes → ℕ
le_value [] = 0
le_value (b ∷ bs) = b + 256 * le_value bs

pub length-le_bytes : (k v : ℕ) → length (le_bytes k v) ≡ k
unfolding le_bytes
length-le_bytes zero v = refl
length-le_bytes (suc k) v = ap suc (length-le_bytes k (v / 256))

pub le_value-le_bytes : (k v : ℕ) → v < 256 ^ k → le_value (le_bytes k v) ≡ v
unfolding le_bytes le_value
le_value-le_bytes zero v h = omega arith
le_value-le_bytes (suc k) v h =
    let p : 256 ^ suc k ≡ 256 * 256 ^ k = grind (arith, pow-suc) in
    omega (arith, le_value-le_bytes k (v / 256) (omega arith))

pub AreBytes-le_bytes : (k v : ℕ) → AreBytes (le_bytes k v)
unfolding le_bytes
AreBytes-le_bytes zero v = tt
AreBytes-le_bytes (suc k) v = (omega arith, AreBytes-le_bytes k (v / 256))

-- The bytes `src` written over `d` from index `i`; past the end it panics.
unfoldable pub write : ℕ → Bytes → Bytes → Option Bytes
write i src d =
    if leb (i + length src) (length d)
    then some (take i d ++ (src ++ drop (i + length src) d))
    else none

-- Go's `copy(d[i:], src)`: what does not fit is dropped, and `i` past the end panics.
unfoldable pub copy_into : ℕ → Bytes → Bytes → Option Bytes
unfolding write
copy_into i src d = if leb i (length d) then write i (take (length d - i) src) d else none

pub write-append :
    (i : ℕ) (xs src mid ys : Bytes)
    → i ≡ length xs
    → length mid ≡ length src
    → write i src (xs ++ (mid ++ ys)) ≡ some (xs ++ (src ++ ys))
unfolding write
write-append i xs src mid ys e f = rw (
  le→leb (i + length src) (length (xs ++ (mid ++ ys)))
      (omega (arith, length-append xs (mid ++ ys), length-append mid ys)),
  take-append i xs (mid ++ ys) e,
  ← append_assoc xs mid ys,
  drop-append (i + length src) (xs ++ mid) ys (omega (arith, length-append xs mid)),
)

pub copy_into-append :
    (i : ℕ) (xs src mid ys : Bytes)
    → i ≡ length xs
    → length mid ≡ length src
    → copy_into i src (xs ++ (mid ++ ys)) ≡ some (xs ++ (src ++ ys))
unfolding copy_into
copy_into-append i xs src mid ys e f =
    let n : length (xs ++ (mid ++ ys)) ≡ length xs + (length mid + length ys) =
      omega (arith, length-append xs (mid ++ ys), length-append mid ys) in
    rw
      (
        le→leb i (length (xs ++ (mid ++ ys))) (omega arith),
        take_all (length (xs ++ (mid ++ ys)) - i) src (omega arith),
      )
      (write-append i xs src mid ys e f)

-- `d[lo:hi]`. A slice may reach into the capacity in Go; the program slices within the length.
unfoldable pub slice : ℕ → ℕ → Bytes → Option Bytes
slice lo hi d = if leb lo hi && leb hi (length d) then some (take (hi - lo) (drop lo d)) else none

pub slice-shift :
    (lo hi j k : ℕ) (xs ys : Bytes)
    → lo ≡ length xs + j
    → hi ≡ length xs + k
    → slice lo hi (xs ++ ys) ≡ slice j k ys
unfolding slice
slice-shift lo hi j k xs ys e f =
    rw (drop-shift lo j xs ys e)
      (ground (arith, length-append xs ys, ap (λ n. take n (drop j ys)) {x = hi - lo} {y = k - j}))

-- Zeroed memory.
unfoldable pub zeros : ℕ → Bytes
zeros zero = []
zeros (suc n) = 0 ∷ zeros n

pub length-zeros : (n : ℕ) → length (zeros n) ≡ n
unfolding zeros
length-zeros zero = refl
length-zeros (suc n) = ap suc (length-zeros n)

pub slice-middle :
    (lo hi : ℕ) (xs p ys : Bytes)
    → lo ≡ length xs
    → hi ≡ lo + length p
    → slice lo hi (xs ++ (p ++ ys)) ≡ some p
unfolding slice
slice-middle lo hi xs p ys e f =
    rw (drop-append lo xs (p ++ ys) e, take-append (hi - lo) p ys (omega arith))
      (ground (arith, length-append xs (p ++ ys), length-append p ys))

pub pow_pos : (k : ℕ) → 0 < 256 ^ k
pow_pos zero = omega arith
pow_pos (suc k) = grind (arith, pow-suc, pow_pos k)

-- The same writes behind two known parts of the buffer.
pub write-behind :
    (i : ℕ) (xs q src mid ys : Bytes)
    → i ≡ length xs + length q
    → length mid ≡ length src
    → write i src (xs ++ (q ++ (mid ++ ys))) ≡ some (xs ++ (q ++ (src ++ ys)))
write-behind i xs q src mid ys e f =
    rw (← append_assoc xs q (mid ++ ys), ← append_assoc xs q (src ++ ys))
      (write-append i (xs ++ q) src mid ys (omega (arith, length-append xs q)) f)

pub copy_into-behind :
    (i : ℕ) (xs q src mid ys : Bytes)
    → i ≡ length xs + length q
    → length mid ≡ length src
    → copy_into i src (xs ++ (q ++ (mid ++ ys))) ≡ some (xs ++ (q ++ (src ++ ys)))
copy_into-behind i xs q src mid ys e f =
    rw (← append_assoc xs q (mid ++ ys), ← append_assoc xs q (src ++ ys))
      (copy_into-append i (xs ++ q) src mid ys (omega (arith, length-append xs q)) f)

-- `copy` of more bytes than there is room for.
pub copy_into-cut :
    (i : ℕ) (xs src rest mid : Bytes)
    → i ≡ length xs
    → length mid ≡ length src
    → copy_into i (src ++ rest) (xs ++ mid) ≡ some (xs ++ src)
unfolding copy_into
copy_into-cut i xs src rest mid e f =
    let n : length (xs ++ mid) ≡ length xs + length mid = length-append xs mid in
    rw (
      le→leb i (length (xs ++ mid)) (omega arith),
      take-append (length (xs ++ mid) - i) src rest (omega arith),
      ← append-nil mid,
      write-append i xs src mid [] e f,
      append-nil src,
    )
