-- ===== src/Tests/Wire.antt =====
-- The protocol of internal/resp/resp.go at small inputs.
use monster_db.Prelude.{
  ◌-◌, leb, ◌&&◌, if◌then◌else◌, ◌≡◌, refl, arith, Option, none, some, List, [], ◌∷◌, ◌++◌, length,
}
use monster_db.Prelude.Int.{ℤ, pos, negsuc}
use monster_db.Prelude.Bytes.{Bytes}
use monster_db.Resp.{
  array, done, decode_one, encode_strings, encode_items, encode_string, encode_array_len,
  length_digits, digits_loop, cr, lf,
}
use monster_db.Resp.Decimal.{length_digits-IsDecimal}
use monster_db.Resp.Command.{texts, Formats, decode_one-encode_strings}

-- Decimal digits for the numbers that have them, in place of `strconv.AppendInt`.
abbrev digits_or_nil : Option Bytes → Bytes
digits_or_nil none = []
digits_or_nil (some ds) = ds

abbrev decimal : ℤ → Bytes
decimal (pos n) = digits_or_nil (length_digits n)
decimal (negsuc n) = []

decimal-Formats : Formats decimal
decimal-Formats n h = let (ds, e, r) = length_digits-IsDecimal n h in rw e r

-- The command GET k on the wire.
abbrev get_k : List Bytes
get_k = (b'G' ∷ b'E' ∷ b'T' ∷ []) ∷ (b'k' ∷ []) ∷ []

abbrev get_k_wire : Bytes
get_k_wire =
    b'*' ∷ b'2' ∷ cr ∷ lf ∷ b'$' ∷ b'3' ∷ cr ∷ lf ∷ b'G' ∷ b'E' ∷ b'T' ∷ cr ∷ lf ∷ b'$' ∷ b'1' ∷ cr
    ∷ lf ∷ b'k' ∷ cr ∷ lf ∷ []

get_k-wire : encode_strings decimal [] get_k ≡ some get_k_wire
unfolding encode_strings encode_items encode_string encode_array_len length_digits digits_loop
get_k-wire = refl

decode_one-encode_strings_example :
    decode_one 2 (get_k_wire ++ b'*' ∷ []) ≡ done (array (texts get_k)) (length get_k_wire)
decode_one-encode_strings_example =
    decode_one-encode_strings decimal decimal-Formats get_k get_k_wire (b'*' ∷ []) 0
      (omega arith, (omega arith, tt)) (omega arith) get_k-wire (omega arith)

-- ASCII letters, in place of `strings.ToUpper`.
abbrev upper_case : Bytes → Bytes
upper_case [] = []
upper_case (b ∷ bs) = (if leb b'a' b && leb b b'z' then b - 32 else b) ∷ upper_case bs
