-- ===== src/TypeString/Shape.antt =====
-- What `isInt` of internal/store/type_string.go accepts, and the checks of
-- internal/store/typeencoding.go on the object that SET stores.
use Prim.Native.Nat.{bit_or}
use monster_db.Prelude.{
  ℕ, suc, ◌≤◌, ◌≡◌, ◌↔◌, refl, sym, subst, ap, ◌∙◌, arith, true, false, Bool-cases, inl, inr, [],
  ◌∷◌, length, leb, ◌==◌,
}
use monster_db.Prelude.Bytes.{Bytes}
use monster_db.TypeString.{
  all_digits, is_int, deduce_type_encoding, assert_type, assert_encoding, obj_type_string,
  obj_encoding_int,
}

-- A string of decimal digits, and one with at least one digit and a minus sign in front or not.
pub data Digits : Bytes → Type 0 where
  no_digit : Digits []
  digit_and : {b : ℕ} {rest : Bytes} → 48 ≤ b → b ≤ 57 → Digits rest → Digits (b ∷ rest)

pub data IsNumeral : Bytes → Type 0 where
  plain : {b : ℕ} {rest : Bytes} → Digits (b ∷ rest) → IsNumeral (b ∷ rest)
  minus : {b : ℕ} {rest : Bytes} → Digits (b ∷ rest) → IsNumeral (b'-' ∷ b ∷ rest)

all_digits-Digits : (s : Bytes) → all_digits s ≡ true → Digits s
unfolding all_digits
all_digits-Digits [] h = no_digit
all_digits-Digits (b ∷ rest) h =
    digit_and (ground arith) (ground arith) (all_digits-Digits rest (ground arith))

Digits-all_digits : {s : Bytes} → Digits s → all_digits s ≡ true
unfolding all_digits
Digits-all_digits no_digit = refl
Digits-all_digits (digit_and {b} {rest} low high r) = ground (arith, Digits-all_digits r)

is_int-minus : (d : ℕ) (rest : Bytes) → is_int (b'-' ∷ d ∷ rest) ≡ all_digits (d ∷ rest)
unfolding is_int
is_int-minus d rest =
    let some_digit : (suc (length rest) == 0) ≡ false = ground arith in rw some_digit refl

is_int-plain :
    (b : ℕ) (rest : Bytes) → (b == b'-') ≡ false → is_int (b ∷ rest) ≡ all_digits (b ∷ rest)
unfolding is_int
is_int-plain b rest e = rw e refl

minus_alone : is_int (b'-' ∷ []) ≡ false
unfolding is_int
minus_alone = refl

empty_string : is_int [] ≡ false
unfolding is_int
empty_string = refl

is_int-IsNumeral : (s : Bytes) → is_int s ≡ true → IsNumeral s
is_int-IsNumeral [] h = absurd (ground (arith, empty_string, h))
is_int-IsNumeral (b ∷ rest) h = elim (Bool-cases (b == b'-')) [
  | inl e ↦
      let same : b ≡ b'-' = ground arith in
      signed rest same (ap (λ k. is_int (k ∷ rest)) (sym same) ∙ h)
  | inr e ↦ plain (all_digits-Digits (b ∷ rest) (sym (is_int-plain b rest e) ∙ h))
]
  where
    signed : (rest : Bytes) → b ≡ b'-' → is_int (b'-' ∷ rest) ≡ true → IsNumeral (b ∷ rest)
    signed [] same k = absurd (ground (arith, minus_alone, k))
    signed (d ∷ rest) same k =
        subst (λ c. IsNumeral (c ∷ d ∷ rest)) (sym same)
          (minus (all_digits-Digits (d ∷ rest) (sym (is_int-minus d rest) ∙ k)))

IsNumeral-is_int : {s : Bytes} → IsNumeral s → is_int s ≡ true
IsNumeral-is_int (plain {b} {rest} (digit_and low high r)) =
    is_int-plain b rest (ground arith) ∙ Digits-all_digits (digit_and low high r)
IsNumeral-is_int (minus {b} {rest} r) = is_int-minus b rest ∙ Digits-all_digits r

-- `isInt` accepts exactly the decimal numerals: at least one digit, and a minus sign in front or
-- not.
pub is_int_iff : (s : Bytes) → (is_int s ≡ true) ↔ IsNumeral s
is_int_iff s = (is_int-IsNumeral s, IsNumeral-is_int)

-- An object that SET makes from a string passes the check of its type always, and the check that
-- INCR makes of its encoding exactly if the string is a decimal numeral.
pub deduce_type_encoding_iff :
    (v : Bytes)
    → (assert_type
          (bit_or ((deduce_type_encoding v).0) ((deduce_type_encoding v).1))
          obj_type_string
        ≡ true)
      × ((assert_encoding
              (bit_or ((deduce_type_encoding v).0) ((deduce_type_encoding v).1))
              obj_encoding_int
            ≡ true)
          ↔ IsNumeral v)
unfolding deduce_type_encoding
deduce_type_encoding_iff v = elim (Bool-cases (is_int v)) [
  | inl e ↦ rw e (refl, (λ h. is_int-IsNumeral v e, λ r. refl))
  | inr e ↦ elim (Bool-cases (leb (length v) 44)) [
    | inl f ↦ rw (e, f) (refl, (λ h. cc, λ r. absurd (ground (arith, IsNumeral-is_int r, e))))
    | inr f ↦ rw (e, f) (refl, (λ h. cc, λ r. absurd (ground (arith, IsNumeral-is_int r, e))))
  ]
]
