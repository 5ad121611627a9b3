-- ===== src/Listpack/Integers.antt =====
-- Integer entries of internal/ds/listpack.go decode to their integers.
use monster_db.Prelude.{
  ℕ, Bool, true, false, Bool-cases, inl, inr, ◌+◌, ◌*◌, ◌/◌, ◌%◌, ◌^◌, ◌<◌, ◌≡◌, refl, ◌∙◌, ap,
  arith, some, [], ◌∷◌, ◌++◌, length, get_elem?, ltb, ◌&&◌, get_elem?-shift,
}
use monster_db.Prelude.Int.{
  ℤ, pos, negsuc, leb_ℤ, ltb_ℤ, to_word, from_word, FitsIn, from_word-to_word, to_word-lt,
}
use monster_db.Prelude.Bytes.{
  Bytes, le_bytes, le_value-le_bytes, length-le_bytes, le_value, pow_pos,
}
use monster_db.Prelude.Bits.{and_192, or_128}
use monster_db.Listpack.{type_int, int_entry_len}
use monster_db.Listpack.Codec.{encode_int, decode_at_int, int_body, signed_at}
use monster_db.Listpack.LaidOut.{
  laid_out, length-laid_out, tag-laid_out, payload-laid_out, wide-split,
}

-- The five forms of an integer entry: tag, payload and the value that they stand for.
pub data IntForm (v : ℤ) : Type 0 where
  tiny :
      (n : ℕ)
      → v ≡ pos n
      → n < 128
      → encode_int v ≡ type_int ∷ n ∷ []
      → int_entry_len v ≡ 2
      → IntForm v
  small :
      (n : ℕ)
      → v ≡ pos n
      → n < 8192
      → encode_int v ≡ type_int ∷ (128 + n / 256) ∷ n % 256 ∷ []
      → int_entry_len v ≡ 3
      → IntForm v
  half :
      FitsIn 32768 v
      → encode_int v ≡ type_int ∷ 0xc0 ∷ le_bytes 2 (to_word 65536 v)
      → int_entry_len v ≡ 4
      → IntForm v
  word :
      FitsIn 2147483648 v
      → encode_int v ≡ type_int ∷ 0xd0 ∷ le_bytes 4 (to_word (256 ^ 4) v)
      → int_entry_len v ≡ 6
      → IntForm v
  full :
      encode_int v ≡ type_int ∷ 0xe0 ∷ le_bytes 8 (to_word (256 ^ 8) v)
      → int_entry_len v ≡ 10
      → IntForm v

abbrev pub is_tiny : ℤ → Bool
is_tiny v = leb_ℤ (pos 0) v && ltb_ℤ v (pos 128)

abbrev pub is_small : ℤ → Bool
is_small v = leb_ℤ (pos 0) v && ltb_ℤ v (pos 8192)

abbrev pub is_half : ℤ → Bool
is_half v = leb_ℤ (negsuc 32767) v && leb_ℤ v (pos 32767)

abbrev pub is_word : ℤ → Bool
is_word v = leb_ℤ (negsuc 2147483647) v && leb_ℤ v (pos 2147483647)

is_small-bounds : (v : ℤ) → is_small v ≡ true → (n : ℕ) × (v ≡ pos n) × (n < 8192)
is_small-bounds (pos n) h = (n, refl, ground arith)
is_small-bounds (negsuc n) h = absurd (ground arith)

is_tiny-bounds : (v : ℤ) → is_tiny v ≡ true → (n : ℕ) × (v ≡ pos n) × (n < 128)
is_tiny-bounds (pos n) h = (n, refl, ground arith)
is_tiny-bounds (negsuc n) h = absurd (ground arith)

is_half-bounds : (v : ℤ) → is_half v ≡ true → FitsIn 32768 v
is_half-bounds (pos n) h = ground arith
is_half-bounds (negsuc n) h = ground arith

is_word-bounds : (v : ℤ) → is_word v ≡ true → FitsIn 2147483648 v
is_word-bounds (pos n) h = ground arith
is_word-bounds (negsuc n) h = ground arith

pub int_form : (v : ℤ) → IntForm v
unfolding encode_int int_entry_len
int_form v = elim (Bool-cases (is_tiny v)) [
  | inl a ↦ let (n, e, h) = is_tiny-bounds v a in tiny n e h (rw a (rw e (ground arith))) (rw a)
  | inr a ↦ elim (Bool-cases (is_small v)) [
    | inl b ↦
        let (n, e, h) = is_small-bounds v b in
        small n e h (rw (a, b) (rw e (ground (arith, or_128 (n / 256 % 256))))) (rw (a, b))
    | inr b ↦ elim (Bool-cases (is_half v)) [
      | inl c ↦ half (is_half-bounds v c) (rw (a, b, c)) (rw (a, b, c))
      | inr c ↦ elim (Bool-cases (is_word v)) [
        | inl d ↦ word (is_word-bounds v d) (rw (a, b, c, d)) (rw (a, b, c, d))
        | inr d ↦ full (rw (a, b, c, d)) (rw (a, b, c, d))
      ]
    ]
  ]
]

module _ (xs : Bytes) (t g : ℕ) (p ys : Bytes) where
  decode_at_int-laid_out :
      (spare : Bytes)
      → decode_at_int (length xs) (record { content = (laid_out xs t g p ys); spare = spare })
        ≡ int_body g (length xs + 1) (laid_out xs t g p ys)
  unfolding decode_at_int
  decode_at_int-laid_out spare =
      rw ((tag-laid_out xs t g p ys)) (ground (arith, (length-laid_out xs t g p ys)))

  -- A signed word of `k` bytes reads back, if `v` fits.
  signed_at-laid_out :
      (k h size : ℕ) (v : ℤ)
      → 2 * h ≡ 256 ^ k
      → FitsIn h v
      → p ≡ le_bytes k (to_word (256 ^ k) v)
      → signed_at k (length xs + 1 + 1) (laid_out xs t g p ys) size ≡ some (v, size)
  signed_at-laid_out k h size v e fits q =
      let n : length p ≡ k = ap length q ∙ length-le_bytes k (to_word (256 ^ k) v) in
      let w : le_value p ≡ to_word (256 ^ k) v =
        ap le_value q
        ∙ le_value-le_bytes k (to_word (256 ^ k) v) (to_word-lt (256 ^ k) v (pow_pos k)) in
      let r : from_word (256 ^ k) (to_word (256 ^ k) v) ≡ v =
        rw (← e) (from_word-to_word h v fits) in
      let not_short : ltb (length (laid_out xs t g p ys)) (length xs + 1 + 1 + k) ≡ false =
        ground (arith, (length-laid_out xs t g p ys)) in
      rw (
        not_short,
        payload-laid_out xs t g p ys (length xs + 1 + 1) (length xs + 1 + 1 + k) (omega arith)
            (omega arith),
        w,
        r,
      )

  int_body-small :
      (n : ℕ)
      → n < 8192
      → g ≡ 128 + n / 256
      → p ≡ n % 256 ∷ []
      → int_body g (length xs + 1) (laid_out xs t g p ys) ≡ some (pos n, 3)
  unfolding int_body
  int_body-small n h e q =
      let c : get_elem? (laid_out xs t g p ys) (length xs + 1 + 1) ≡ some (n % 256) =
        get_elem?-shift (length xs + 1 + 1) 2 xs (t ∷ g ∷ (p ++ ys)) (omega arith) ∙ rw q in
      ground (arith, and_192 g, wide-split g n, (length-laid_out xs t g p ys), c, ap length q)

-- The bytes of the entry of `v` at the end of `xs` decode to `v` and to the entry's size.
pub decode_at_int-encode_int :
    (v : ℤ) (xs ys spare : Bytes)
    → FitsIn (2 ^ 63) v
    → decode_at_int (length xs) (record { content = xs ++ (encode_int v ++ ys); spare = spare })
      ≡ some (v, length (encode_int v))
decode_at_int-encode_int v xs ys spare fits = go (int_form v)
  where
    go :
        IntForm v
        → decode_at_int (length xs) (record { content = xs ++ (encode_int v ++ ys); spare = spare })
          ≡ some (v, length (encode_int v))
    go (tiny n e h f l) =
        rw (f, e)
          (decode_at_int-laid_out xs type_int n [] ys spare ∙ unfold int_body in ground arith)
    go (small n e h f l) =
        rw (f, e)
          (decode_at_int-laid_out xs type_int (128 + n / 256) (n % 256 ∷ []) ys spare
            ∙ int_body-small xs type_int (128 + n / 256) (n % 256 ∷ []) ys n h refl refl)
    go (half h f l) = rw f (
        decode_at_int-laid_out xs type_int 0xc0 (le_bytes 2 (to_word 65536 v)) ys spare
        ∙ unfold int_body in
          rw (length-le_bytes) (
            signed_at-laid_out xs type_int 0xc0 (le_bytes 2 (to_word 65536 v)) ys 2 32768 4 v refl h
              refl))
    go (word h f l) = rw f (
        decode_at_int-laid_out xs type_int 0xd0 (le_bytes 4 (to_word (256 ^ 4) v)) ys spare
        ∙ unfold int_body in
          rw (length-le_bytes) (
            signed_at-laid_out xs type_int 0xd0 (le_bytes 4 (to_word (256 ^ 4) v)) ys 4 2147483648 6
              v refl h refl))
    go (full f l) = rw f (
        decode_at_int-laid_out xs type_int 0xe0 (le_bytes 8 (to_word (256 ^ 8) v)) ys spare
        ∙ unfold int_body in
          rw (length-le_bytes) (
            signed_at-laid_out xs type_int 0xe0 (le_bytes 8 (to_word (256 ^ 8) v)) ys 8 (2 ^ 63) 10
              v refl fits refl))
