-- ===== src/Listpack/Strings.antt =====
-- String entries of internal/ds/listpack.go decode to their strings.
use Prim.Native.Nat.{bit_and}
use monster_db.Prelude.{
  ℕ, false, Bool-cases, inl, inr, ◌+◌, ◌/◌, ◌%◌, ◌^◌, ◌<◌, ◌≡◌, refl, ◌∙◌, ap, arith, some, [], ◌∷◌,
  ◌++◌, length, get_elem?, ltb, get_elem?-shift, append_assoc, length-append,
}
use monster_db.Prelude.Bytes.{
  Bytes, le_bytes, slice, slice-middle, le_value-le_bytes, length-le_bytes, le_value,
}
use monster_db.Prelude.Bits.{and_63, or_64}
use monster_db.Listpack.{type_string, string_entry_len}
use monster_db.Listpack.Codec.{encode_string, decode_at_string, wide_length, string_body, sized}
use monster_db.Listpack.LaidOut.{laid_out, length-laid_out, tag-laid_out, rest-laid_out, wide-split}

-- The three forms of a string entry: tag and payload, and the size that is reserved for it.
pub data StringForm (s : Bytes) : Type 0 where
  short :
      length s < 64
      → encode_string s ≡ type_string ∷ length s ∷ s
      → string_entry_len (length s) ≡ 2 + length s
      → StringForm s
  medium :
      length s < 16384
      → encode_string s ≡ type_string ∷ (64 + length s / 256) ∷ length s % 256 ∷ s
      → string_entry_len (length s) ≡ 3 + length s
      → StringForm s
  long :
      encode_string s ≡ type_string ∷ 0x80 ∷ (le_bytes 4 (length s % 256 ^ 4) ++ s)
      → string_entry_len (length s) ≡ 6 + length s
      → StringForm s

pub string_form : (s : Bytes) → StringForm s
unfolding encode_string string_entry_len
string_form s = elim (Bool-cases (ltb (length s) 64)) [
  | inl a ↦ short (ground arith) (rw a (ground (arith, and_63 (length s)))) (rw a)
  | inr a ↦ elim (Bool-cases (ltb (length s) 16384)) [
    | inl b ↦ medium (ground arith) (rw (a, b) (ground (arith, or_64 (length s / 256)))) (rw (a, b))
    | inr b ↦ long (rw (a, b)) (rw (a, b))
  ]
]

module _ (xs : Bytes) (t g : ℕ) (p ys : Bytes) where
  decode_at_string-laid_out :
      (spare : Bytes)
      → decode_at_string (length xs) (record { content = laid_out xs t g p ys; spare = spare })
        ≡ string_body g (length xs + 1) (laid_out xs t g p ys)
  unfolding decode_at_string
  decode_at_string-laid_out spare =
      rw (tag-laid_out xs t g p ys) (ground (arith, length-laid_out xs t g p ys))

  sized-laid_out :
      (n i k : ℕ) (q s : Bytes)
      → p ≡ q ++ s
      → i ≡ length xs + 2 + length q
      → n ≡ length s
      → sized n i k (laid_out xs t g p ys) ≡ some (s, k + length s)
  sized-laid_out n i k q s e l f =
      let r : slice i (i + n) (laid_out xs t g p ys) ≡ some s =
        rest-laid_out xs t g p ys i (i + n) q s e l (omega arith) in
      let m : length p ≡ length q + length s = ap length e ∙ length-append q s in
      let fits : ltb (length (laid_out xs t g p ys)) (i + n) ≡ false =
        ground (arith, length-laid_out xs t g p ys) in
      rw (fits, r) (ground arith)

module _ (xs s ys : Bytes) where
  body-short :
      length s < 64
      → string_body (length s) (length xs + 1) (laid_out xs type_string (length s) s ys)
        ≡ some (s, 2 + length s)
  unfolding string_body
  body-short h = ground (
    arith,
    and_63 (length s),
    sized-laid_out xs type_string (length s) s ys (bit_and (length s) 63) (length xs + 1 + 1) 2 [] s
        refl (omega arith),
  )

  body-medium :
      length s < 16384
      → string_body
          (64 + length s / 256)
          (length xs + 1)
          (laid_out xs type_string (64 + length s / 256) (length s % 256 ∷ s) ys)
        ≡ some (s, 3 + length s)
  unfolding string_body
  body-medium h =
      let g : ℕ = 64 + length s / 256 in
      let d : Bytes = laid_out xs type_string g (length s % 256 ∷ s) ys in
      let c : get_elem? d (length xs + 1 + 1) ≡ some (length s % 256) =
        get_elem?-shift (length xs + 1 + 1) 2 xs (type_string ∷ g ∷ length s % 256 ∷ (s ++ ys))
          (omega arith) in
      ground (
        arith,
        c,
        wide-split g (length s),
        length-laid_out xs type_string g (length s % 256 ∷ s) ys,
        sized-laid_out xs type_string g (length s % 256 ∷ s) ys (wide_length g (length s % 256))
            (length xs + 1 + 2) 3 (length s % 256 ∷ []) s refl (omega arith),
      )

  body-long :
      length s < 256 ^ 4
      → (q : Bytes) → q ≡ le_bytes 4 (length s % 256 ^ 4)
      → string_body 0x80 (length xs + 1) (laid_out xs type_string 0x80 (q ++ s) ys)
        ≡ some (s, 6 + length s)
  unfolding string_body
  body-long h q e =
      let d : Bytes = laid_out xs type_string 0x80 (q ++ s) ys in
      let l : length q ≡ 4 = ap length e ∙ length-le_bytes 4 (length s % 256 ^ 4) in
      let v : le_value q ≡ length s =
        ap le_value e ∙ le_value-le_bytes 4 (length s % 256 ^ 4) (omega arith) ∙ omega arith in
      let w : slice (length xs + 1 + 1) (length xs + 1 + 1 + 4) d ≡ some q =
        rw (append_assoc q s ys, ← append_assoc xs (type_string ∷ 0x80 ∷ []) (q ++ (s ++ ys)))
          (slice-middle (length xs + 1 + 1) (length xs + 1 + 1 + 4) (xs ++ type_string ∷ 0x80 ∷ [])
            q (s ++ ys) (omega (arith, length-append xs (type_string ∷ 0x80 ∷ [])))
            (omega arith)) in
      rw (w, v)
        (ground (
          arith,
          length-laid_out xs type_string 0x80 (q ++ s) ys,
          length-append q s,
          sized-laid_out xs type_string 0x80 (q ++ s) ys (length s) (length xs + 1 + 5) 6 q s refl
              (omega arith) refl,
        ))

-- The bytes of the entry of `s` at the end of `xs` decode to `s` and to the entry's size.
pub decode_at_string-encode_string :
    (s xs ys spare : Bytes)
    → length s < 256 ^ 4
    → decode_at_string
        (length xs)
        (record { content = xs ++ (encode_string s ++ ys); spare = spare })
      ≡ some (s, length (encode_string s))
decode_at_string-encode_string s xs ys spare fits = go (string_form s)
  where
    go :
        StringForm s
        → decode_at_string
            (length xs)
            (record { content = xs ++ (encode_string s ++ ys); spare = spare })
          ≡ some (s, length (encode_string s))
    go (short h f l) = rw f (
        decode_at_string-laid_out xs type_string (length s) s ys spare
        ∙ body-short xs s ys h
        ∙ ground arith)
    go (medium h f l) = rw f (
        decode_at_string-laid_out xs type_string (64 + length s / 256) (length s % 256 ∷ s) ys spare
        ∙ body-medium xs s ys h
        ∙ ground arith)
    go (long f l) = rw (f) (
        decode_at_string-laid_out xs type_string 0x80 (le_bytes 4 (length s % 256 ^ 4) ++ s) ys
          spare
        ∙ body-long xs s ys fits (le_bytes 4 (length s % 256 ^ 4)) refl
        ∙ rw
            (
              length-append (le_bytes 4 (length s % 256 ^ 4)) s,
              length-le_bytes 4 (length s % 256 ^ 4),
            )
            (ground arith))
