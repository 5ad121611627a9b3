-- ===== src/Listpack/Fill.antt =====
-- The writes of `AddInt` and `AddString` of internal/ds/listpack.go, into a gap of the entry's size,
-- leave there the entry that `encodeInt` or `encodeString` builds.
use Prim.Native.Nat.{bit_and, bit_or}
use monster_db.Prelude.{
  ℕ, Bool-cases, inl, inr, ◌+◌, ◌^◌, ◌≡◌, refl, sym, ◌∙◌, ap, arith, Option, some, [], ◌∷◌, ◌++◌,
  length, ltb, ◌>>=◌, length-append, take, drop, take-append-drop, length-take, length-drop,
  append_assoc,
}
use monster_db.Prelude.Int.{ℤ, pos, to_word, shr}
use monster_db.Prelude.Bytes.{
  Bytes, le_bytes, length-le_bytes, write, write-append, write-behind, copy_into, copy_into-behind,
}
use monster_db.Listpack.{
  type_int, type_string, byte, int_entry_len, string_entry_len, write_int, write_string,
}
use monster_db.Listpack.Codec.{encode_int, encode_string}
use monster_db.Listpack.Integers.{is_tiny, is_small, is_half, is_word}

module _ (xs ys : Bytes) (t g : ℕ) where
  -- Type byte and tag.
  fill_two :
      (mid : Bytes)
      → length mid ≡ 2
      → (do d ← write (length xs) (t ∷ []) (xs ++ (mid ++ ys)); write (length xs + 1) (g ∷ []) d)
        ≡ some (xs ++ (t ∷ g ∷ ys))
  fill_two [] h = absurd (omega arith)
  fill_two (a ∷ []) h = absurd (omega arith)
  fill_two (a ∷ b ∷ c ∷ m) h = absurd (omega arith)
  fill_two (a ∷ b ∷ []) h =
      rw (write-append (length xs) xs (t ∷ []) (a ∷ []) (b ∷ ys) refl refl)
        (write-behind (length xs + 1) xs (t ∷ []) (g ∷ []) (b ∷ []) ys refl refl)

  -- Type byte, tag and the rest, which `k` writes.
  fill_rest :
      (mid p : Bytes) (k : Bytes → Option Bytes)
      → length mid ≡ 2 + length p
      → ((m : Bytes)
          → length m ≡ length p
          → k (xs ++ (t ∷ g ∷ (m ++ ys))) ≡ some (xs ++ (t ∷ g ∷ (p ++ ys))))
      → (do
        d ← write (length xs) (t ∷ []) (xs ++ (mid ++ ys))
        d' ← write (length xs + 1) (g ∷ []) d
        k d')
        ≡ some (xs ++ (t ∷ g ∷ (p ++ ys)))
  fill_rest [] p k h f = absurd (omega arith)
  fill_rest (a ∷ []) p k h f = absurd (omega arith)
  fill_rest (a ∷ b ∷ m) p k h f =
      rw
        (
          write-append (length xs) xs (t ∷ []) (a ∷ []) (b ∷ (m ++ ys)) refl refl,
          write-behind (length xs + 1) xs (t ∷ []) (g ∷ []) (b ∷ []) (m ++ ys) refl refl,
        )
        (f m (omega arith))

  fill_write :
      (p m : Bytes)
      → length m ≡ length p
      → write (length xs + 2) p (xs ++ (t ∷ g ∷ (m ++ ys))) ≡ some (xs ++ (t ∷ g ∷ (p ++ ys)))
  fill_write p m e = write-behind (length xs + 2) xs (t ∷ g ∷ []) p m ys refl e

  fill_copy :
      (p m : Bytes)
      → length m ≡ length p
      → copy_into (length xs + 2) p (xs ++ (t ∷ g ∷ (m ++ ys))) ≡ some (xs ++ (t ∷ g ∷ (p ++ ys)))
  fill_copy p m e = copy_into-behind (length xs + 2) xs (t ∷ g ∷ []) p m ys refl e

  -- A written part `q` and a copied part `s`.
  fill_both :
      (q s m : Bytes) (j : ℕ)
      → length m ≡ length q + length s
      → j ≡ length xs + 2 + length q
      → (do d ← write (length xs + 2) q (xs ++ (t ∷ g ∷ (m ++ ys))); copy_into j s d)
        ≡ some (xs ++ (t ∷ g ∷ ((q ++ s) ++ ys)))
  fill_both q s m j e f =
      let a : Bytes = take (length q) m in
      let b : Bytes = drop (length q) m in
      let al : length a ≡ length q = omega (arith, length-take (length q) m) in
      let bl : length b ≡ length s = omega (arith, length-drop (length q) m) in
      let split : xs ++ (t ∷ g ∷ (m ++ ys)) ≡ xs ++ (t ∷ g ∷ (a ++ (b ++ ys))) =
        ap (λ r. xs ++ (t ∷ g ∷ r))
          (ap (λ r. r ++ ys) (sym (take-append-drop (length q) m)) ∙ append_assoc a b ys) in
      rw
        (
          split,
          write-behind (length xs + 2) xs (t ∷ g ∷ []) q a (b ++ ys) refl al,
          append_assoc q s ys,
        )
        (copy_into-behind j xs (t ∷ g ∷ q) s b ys (omega arith) bl)

module _ (xs ys mid : Bytes) where
  -- Into a gap of `entryLen` bytes `AddInt` writes the entry of its integer.
  pub write_int-fill :
      (v : ℤ)
      → length mid ≡ int_entry_len v
      → (do
        d ← write (length xs) (type_int ∷ []) (xs ++ (mid ++ ys))
        write_int (int_entry_len v) (length xs) v d)
        ≡ some (xs ++ (encode_int v ++ ys))
  unfolding int_entry_len write_int encode_int
  write_int-fill v = elim (Bool-cases (is_tiny v)) [
    | inl a ↦ rw a (λ h. fill_two xs ys type_int (byte v) mid h)
    | inr a ↦ elim (Bool-cases (is_small v)) [
      | inl b ↦
          rw (a, b)
            (λ h.
              fill_rest xs ys type_int (bit_or 0x80 (byte (shr v 8))) mid (byte v ∷ []) _ h
                (fill_write xs ys type_int (bit_or 0x80 (byte (shr v 8))) (byte v ∷ [])))
      | inr b ↦ elim (Bool-cases (is_half v)) [
        | inl c ↦ rw (a, b, c) (λ h. wide 2 0xc0 v h)
        | inr c ↦ elim (Bool-cases (is_word v)) [
          | inl d ↦ rw (a, b, c, d) (λ h. wide 4 0xd0 v h)
          | inr d ↦ rw (a, b, c, d) (λ h. wide 8 0xe0 v h)
        ]
      ]
    ]
  ]
    where
      wide :
          (k g : ℕ) (v : ℤ)
          → length mid ≡ 2 + k
          → (do
            d ← write (length xs) (type_int ∷ []) (xs ++ (mid ++ ys))
            d' ← write (length xs + 1) (g ∷ []) d
            write (length xs + 2) (le_bytes k (to_word (256 ^ k) v)) d')
            ≡ some (xs ++ (type_int ∷ g ∷ (le_bytes k (to_word (256 ^ k) v) ++ ys)))
      wide k g v h =
          fill_rest xs ys type_int g mid (le_bytes k (to_word (256 ^ k) v)) _
            (omega (arith, length-le_bytes k (to_word (256 ^ k) v)))
            (fill_write xs ys type_int g (le_bytes k (to_word (256 ^ k) v)))

  -- Into a gap of `entryLen` bytes `AddString` writes the entry of its string.
  pub write_string-fill :
      (s : Bytes)
      → length mid ≡ string_entry_len (length s)
      → (do
        d ← write (length xs) (type_string ∷ []) (xs ++ (mid ++ ys))
        write_string (length xs) s d)
        ≡ some (xs ++ (encode_string s ++ ys))
  unfolding string_entry_len write_string encode_string
  write_string-fill s = elim (Bool-cases (ltb (length s) 64)) [
    | inl a ↦ rw a (λ h.
        fill_rest xs ys type_string (byte (pos (bit_and (length s) 0x3f))) mid s _ h
          (fill_copy xs ys type_string (byte (pos (bit_and (length s) 0x3f))) s))
    | inr a ↦ elim (Bool-cases (ltb (length s) 16384)) [
      | inl b ↦
          rw (a, b)
            (λ h.
              fill_rest xs ys type_string (bit_or 0x40 (byte (shr (pos (length s)) 8))) mid
                (byte (pos (length s)) ∷ s) _ (omega arith)
                (λ m e.
                  fill_both xs ys type_string (bit_or 0x40 (byte (shr (pos (length s)) 8)))
                    (byte (pos (length s)) ∷ []) s m (length xs + 3) (omega arith) (omega arith)))
      | inr b ↦ rw (a, b) (λ h. long h)
    ]
  ]
    where
      q : Bytes
      q = le_bytes 4 (to_word (256 ^ 4) (pos (length s)))

      ql : length q ≡ 4
      ql = length-le_bytes 4 (to_word (256 ^ 4) (pos (length s)))

      long :
          length mid ≡ 6 + length s
          → (do
            d ← write (length xs) (type_string ∷ []) (xs ++ (mid ++ ys))
            d' ← write (length xs + 1) (0x80 ∷ []) d
            d'' ← write (length xs + 2) q d'
            copy_into (length xs + 6) s d'')
            ≡ some (xs ++ (type_string ∷ 0x80 ∷ ((q ++ s) ++ ys)))
      long h =
          fill_rest xs ys type_string 0x80 mid (q ++ s) _ (omega (arith, length-append q s, ql))
            (λ m e.
              fill_both xs ys type_string 0x80 q s m (length xs + 6)
                (omega (arith, length-append q s, ql)) (omega (arith, ql)))
