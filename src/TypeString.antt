-- ===== src/TypeString.antt =====
-- internal/store/type_string.go and internal/store/typeencoding.go: how a string value is stored,
-- and the checks of an object's type and encoding.
pub mod Shape
use Prim.Native.Nat.{bit_and, bit_or}
use monster_db.Prelude.{
  ℕ, ◌+◌, Bool, true, false, not, ◌&&◌, ◌||◌, [], ◌∷◌, length, ltb, leb, ◌==◌, if◌then◌else◌,
}
use monster_db.Prelude.Bytes.{Bytes}

-- The loop of `isInt`.
unfoldable pub all_digits : Bytes → Bool
all_digits [] = true
all_digits (b ∷ rest) =
    let further = all_digits rest in if ltb b b'0' || ltb b'9' b then false else further

unfoldable pub is_int : Bytes → Bool
unfolding all_digits
is_int [] = false
is_int (b ∷ rest) =
    if b == b'-'
    then (if length rest == 0 then false else all_digits rest)
    else all_digits (b ∷ rest)

abbrev pub obj_type_string : ℕ
obj_type_string = 0

abbrev pub obj_encoding_raw : ℕ
obj_encoding_raw = 0

abbrev pub obj_encoding_int : ℕ
obj_encoding_int = 1

abbrev pub obj_encoding_embstr : ℕ
obj_encoding_embstr = 8

unfoldable pub deduce_type_encoding : Bytes → ℕ × ℕ
unfolding is_int
deduce_type_encoding v =
    if is_int v
    then (obj_type_string, obj_encoding_int)
    else if leb (length v) 44
    then (obj_type_string, obj_encoding_embstr)
    else (obj_type_string, obj_encoding_raw)

abbrev pub get_type : ℕ → ℕ
get_type te = bit_and te 0xf0

abbrev pub get_encoding : ℕ → ℕ
get_encoding te = bit_and te 0x0f

-- `true` where the function returns no error.
abbrev pub assert_type : ℕ → ℕ → Bool
assert_type te t = get_type te == t

abbrev pub assert_encoding : ℕ → ℕ → Bool
assert_encoding te t = get_encoding te == t
