-- ===== src/Listpack/LaidOut.antt =====
-- The entries of internal/ds/listpack.go as a decoder meets them inside a buffer.
use monster_db.Prelude.{
  ℕ, ◌+◌, ◌/◌, ◌%◌, ◌<◌, ◌≡◌, arith, some, [], ◌∷◌, ◌++◌, length, get_elem?, get_elem?-shift,
  append_assoc, length-append,
}
use monster_db.Prelude.Bytes.{Bytes, slice, slice-middle}
use monster_db.Prelude.Bits.{and_63, or_high}
use monster_db.Listpack.Codec.{wide_length}

-- A thirteen-bit length or value, written in two bytes and read back.
pub wide-split : (t n : ℕ) → n < 16384 → t < 256 → t % 64 ≡ n / 256 → wide_length t (n % 256) ≡ n
unfolding wide_length
wide-split t n h p e =
    rw (and_63 t p, e, or_high (n / 256) (n % 256) (omega arith) (omega arith)) (omega arith)

-- An entry with tag `g` and payload `p` behind `xs`, as its decoder meets it.
module _ (xs : Bytes) (t g : ℕ) (p ys : Bytes) where
  abbrev pub laid_out : Bytes
  laid_out = xs ++ (t ∷ g ∷ (p ++ ys))

  pub length-laid_out : length laid_out ≡ length xs + 2 + length p + length ys
  length-laid_out = omega (arith, length-append xs (t ∷ g ∷ (p ++ ys)), length-append p ys)

  pub type-laid_out : get_elem? laid_out (length xs) ≡ some t
  type-laid_out = get_elem?-shift (length xs) 0 xs (t ∷ g ∷ (p ++ ys)) (omega arith)

  pub tag-laid_out : get_elem? laid_out (length xs + 1) ≡ some g
  tag-laid_out = get_elem?-shift (length xs + 1) 1 xs (t ∷ g ∷ (p ++ ys)) (omega arith)

  pub payload-laid_out :
      (lo hi : ℕ) → lo ≡ length xs + 2 → hi ≡ lo + length p → slice lo hi laid_out ≡ some p
  payload-laid_out lo hi e f =
      rw (← append_assoc xs (t ∷ g ∷ []) (p ++ ys)) (
        slice-middle lo hi (xs ++ t ∷ g ∷ []) p ys (omega (arith, length-append xs (t ∷ g ∷ []))) f)

  -- The last `n` bytes of the payload.
  pub rest-laid_out :
      (lo hi : ℕ) (q s : Bytes)
      → p ≡ q ++ s
      → lo ≡ length xs + 2 + length q
      → hi ≡ lo + length s
      → slice lo hi laid_out ≡ some s
  rest-laid_out lo hi q s e l h =
      rw (e, append_assoc q s ys, ← append_assoc xs (t ∷ g ∷ q) (s ++ ys))
        (slice-middle lo hi (xs ++ t ∷ g ∷ q) s ys (omega (arith, length-append xs (t ∷ g ∷ q))) h)
