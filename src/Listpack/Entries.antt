-- ===== src/Listpack/Entries.antt =====
-- A listpack of internal/ds/listpack.go as a list of values: header, entries, end marker.
use monster_db.Prelude.{
  ℕ, Bool, ◌+◌, ◌%◌, ◌^◌, ◌≡◌, refl, sym, ◌∙◌, ap, arith, Option, none, some, List, [], ◌∷◌, ◌++◌,
  length, if◌then◌else◌, ◌>>=◌, append_assoc, length-append,
}
use monster_db.Prelude.Int.{pos}
use monster_db.Prelude.Bytes.{
  Bytes, le_bytes, length-le_bytes, le_value-le_bytes, write, write-append, slice-middle,
}
use monster_db.Listpack.{
  Listpack, end_byte, tail, set_meta, set_total_len, elements, total_len, set_elements, add_int,
  add_string, int_entry_len, string_entry_len, write_int, write_string, type_int, type_string,
}
use monster_db.Listpack.Codec.{Value, int, str, encode_int, encode_string}
use monster_db.Listpack.Insert.{grow-gap}
use monster_db.Listpack.Fill.{write_int-fill, write_string-fill}

abbrev pub encode : Value → Bytes
encode (int v) = encode_int v
encode (str s) = encode_string s

-- `add` of internal/ds/quicklist.go.
unfoldable pub add : Value → Bool → Listpack → Option Listpack
add (int v) prepend lp = add_int v prepend lp
add (str s) prepend lp = add_string s prepend lp

-- The entries of a list, one behind the other.
unfoldable pub body : List Value → Bytes
body [] = []
body (v ∷ vs) = encode v ++ body vs

pub body-append : (vs ws : List Value) → body (vs ++ ws) ≡ body vs ++ body ws
unfolding body
body-append [] ws = refl
body-append (v ∷ vs) ws = rw (body-append vs ws) (sym (append_assoc (encode v) (body vs) (body ws)))

-- A buffer whose header fields are `total` and `count`.
unfoldable pub packed : ℕ → ℕ → Bytes → Bytes
packed total count rest = le_bytes 4 (total % 256 ^ 4) ++ (le_bytes 2 (count % 256 ^ 2) ++ rest)

-- The buffer that holds `vs`.
abbrev pub Holds : Listpack → List Value → Type 0
Holds lp vs = lp.content ≡ packed (length (body vs) + 7) (length vs) (body vs ++ end_byte ∷ [])

pub length-packed : (t c : ℕ) (rest : Bytes) → length (packed t c rest) ≡ 6 + length rest
unfolding packed
length-packed t c rest = omega (
  arith,
  length-append (le_bytes 4 (t % 256 ^ 4)) (le_bytes 2 (c % 256 ^ 2) ++ rest),
  length-append (le_bytes 2 (c % 256 ^ 2)) rest,
  length-le_bytes 4 (t % 256 ^ 4),
  length-le_bytes 2 (c % 256 ^ 2),
)

module _ (t c : ℕ) (rest spare : Bytes) where
  abbrev lp : Listpack
  lp = record { content = packed t c rest; spare = spare }

  pub total_len-packed : total_len lp ≡ some (t % 256 ^ 4)
  unfolding total_len packed
  total_len-packed =
      rw
        (slice-middle 0 4 [] (le_bytes 4 (t % 256 ^ 4)) (le_bytes 2 (c % 256 ^ 2) ++ rest) refl
          (omega (arith, length-le_bytes 4 (t % 256 ^ 4))))
        (ap some (le_value-le_bytes 4 (t % 256 ^ 4) (omega arith)))

  pub elements-packed : elements lp ≡ some (c % 256 ^ 2)
  unfolding elements packed
  elements-packed =
      rw
        (slice-middle 4 6 (le_bytes 4 (t % 256 ^ 4)) (le_bytes 2 (c % 256 ^ 2)) rest
          (sym (length-le_bytes 4 (t % 256 ^ 4))) (omega (arith, length-le_bytes 2 (c % 256 ^ 2))))
        (ap some (le_value-le_bytes 2 (c % 256 ^ 2) (omega arith)))

  pub set_total_len-packed :
      (n : ℕ) → set_total_len n lp ≡ some (record { content = packed n c rest; spare = spare })
  unfolding set_total_len packed
  set_total_len-packed n = rw (
      write-append 0 [] (le_bytes 4 (n % 256 ^ 4)) (le_bytes 4 (t % 256 ^ 4))
        (le_bytes 2 (c % 256 ^ 2) ++ rest) refl
        (length-le_bytes 4 (t % 256 ^ 4) ∙ sym (length-le_bytes 4 (n % 256 ^ 4))))

  pub set_elements-packed :
      (n : ℕ) → set_elements (pos n) lp ≡ some (record { content = packed t n rest; spare = spare })
  unfolding set_elements packed
  set_elements-packed n = rw (
      write-append 4 (le_bytes 4 (t % 256 ^ 4)) (le_bytes 2 (n % 256 ^ 2))
        (le_bytes 2 (c % 256 ^ 2)) rest (sym (length-le_bytes 4 (t % 256 ^ 4)))
        (length-le_bytes 2 (c % 256 ^ 2) ∙ sym (length-le_bytes 2 (n % 256 ^ 2))))

pub header : ℕ → ℕ → Bytes
header t c = le_bytes 4 (t % 256 ^ 4) ++ le_bytes 2 (c % 256 ^ 2)

pub packed-header : (t c : ℕ) (rest : Bytes) → packed t c rest ≡ header t c ++ rest
unfolding packed header
packed-header t c rest =
    sym (append_assoc (le_bytes 4 (t % 256 ^ 4)) (le_bytes 2 (c % 256 ^ 2)) rest)

pub length-header : (t c : ℕ) → length (header t c) ≡ 6
length-header t c =
    omega
      (arith, length-packed t c [], length-append (header t c) [], ap length (packed-header t c []))

pub packed-count :
    (t c n : ℕ) (rest : Bytes) → packed t (c % 256 ^ 2 + n) rest ≡ packed t (c + n) rest
unfolding packed
packed-count t c n rest =
    ap (λ k. le_bytes 4 (t % 256 ^ 4) ++ (le_bytes 2 k ++ rest)) {x = (c % 256 ^ 2 + n) % 256 ^ 2}
      {y = (c + n) % 256 ^ 2} (omega arith)

pub set_meta-packed :
    (t c n : ℕ) (rest spare : Bytes)
    → set_meta n (record { content = packed t c rest; spare = spare })
      ≡ some (record { content = packed (6 + length rest) (c + n) rest; spare = spare })
unfolding set_meta
set_meta-packed t c n rest spare = rw (
  length-packed t c rest,
  set_total_len-packed t c rest spare (6 + length rest),
  elements-packed (6 + length rest) c rest spare,
  set_elements-packed (6 + length rest) c rest spare (c % 256 ^ 2 + n),
  packed-count (6 + length rest) c n rest,
)

bind-some {ℓ} :
    {A B C : Type ℓ} (m : Option A) (f : A → Option B) (g : B → Option C) {b : B}
    → (m >>= f) ≡ some b
    → (m >>= λ x. f x >>= g) ≡ g b
bind-some none f g h = cc
bind-some (some a) f g h = rw h

-- `AddInt` and `AddString` put an entry at their position, and renew the header.
pub add-put :
    (v : Value) (prepend : Bool) (lp : Listpack) (xs ys : Bytes)
    → lp.content ≡ xs ++ ys
    → (if prepend then 6 else tail lp) ≡ length xs
    → (spare : Bytes) × (add v prepend lp
        ≡ set_meta 1 (record { content = xs ++ (encode v ++ ys); spare = spare }))
unfolding add add_int add_string
add-put (int v) prepend lp xs ys e at =
    let (mid, sp, len, g) = grow-gap (int_entry_len v) xs ys lp e in
    (
      sp,
      rw (at, g)
          (bind-some (write (length xs) (type_int ∷ []) (xs ++ (mid ++ ys)))
            (write_int (int_entry_len v) (length xs) v)
            (λ d. set_meta 1 (record { content = d; spare = sp }))
            (write_int-fill xs ys mid v len)),
    )
add-put (str s) prepend lp xs ys e at =
    let (mid, sp, len, g) = grow-gap (string_entry_len (length s)) xs ys lp e in
    (
      sp,
      rw (at, g)
          (bind-some (write (length xs) (type_string ∷ []) (xs ++ (mid ++ ys)))
            (write_string (length xs) s) (λ d. set_meta 1 (record { content = d; spare = sp }))
            (write_string-fill xs ys mid s len)),
    )
