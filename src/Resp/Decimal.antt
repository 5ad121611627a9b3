-- ===== src/Resp/Decimal.antt =====
-- The decimal lengths of internal/resp/resp.go: what `EncodeString` writes, `readLength` reads.
use monster_db.Prelude.{
  ℕ, zero, suc, ◌+◌, ◌*◌, ◌/◌, ◌%◌, ◌^◌, ◌<◌, ◌≤◌, ◌≡◌, refl, sym, ◌∙◌, ap, arith, false,
  Bool-cases, inl, inr, some, [], ◌∷◌, ◌++◌, length, ◌==◌, append_assoc, append-nil, length-append,
  dec_lt,
}
use native.Mathlib.Nat.{pow-suc}
use monster_db.Prelude.Int.{pos}
use monster_db.Prelude.Bytes.{Bytes}
use monster_db.Resp.{
  done, length_loop, read_length, digits_loop, length_digits, shift_in, word_mod, cr, lf,
}

-- `ds` are the decimal digits of `n`, with no leading zero.
pub data IsDecimal : ℕ → Bytes → Type 0 where
  last_digit : {n : ℕ} {ds : Bytes} → n < 10 → ds ≡ (48 + n) ∷ [] → IsDecimal n ds
  more_digits :
      {n : ℕ} {front ds : Bytes}
      → 10 ≤ n
      → IsDecimal (n / 10) front
      → ds ≡ front ++ (48 + n % 10) ∷ []
      → IsDecimal n ds

-- A digit is read into the value.
length_loop-digit :
    (v at d : ℕ) (rest : Bytes)
    → d < 10
    → v * 10 + d < word_mod
    → length_loop v at ((48 + d) ∷ rest) ≡ length_loop (v * 10 + d) (at + 1) rest
unfolding length_loop
length_loop-digit v at d rest h f =
    let e : shift_in v (48 + d) ≡ v * 10 + d = omega arith in
    let n : (48 + d == cr) ≡ false = ground arith in rw (n, e)

-- `readLength` reads digits to their number.
pub length_loop-IsDecimal :
    {n : ℕ} {ds : Bytes}
    → IsDecimal n ds
    → n < 2 ^ 63
    → (at : ℕ) (rest : Bytes) → length_loop 0 at (ds ++ rest) ≡ length_loop n (at + length ds) rest
length_loop-IsDecimal (last_digit {n} {ds} h e) f at rest = rw e (
    length_loop-digit 0 at n rest h (omega arith)
    ∙ ap (λ k. length_loop k (at + 1) rest) {x = 0 * 10 + n} {y = n} (omega arith))
length_loop-IsDecimal (more_digits {n} {front} {ds} h r e) f at rest =
    rw (e, append_assoc front ((48 + n % 10) ∷ []) rest)
      (length_loop-IsDecimal r (omega arith) at ((48 + n % 10) ∷ rest)
        ∙ length_loop-digit (n / 10) (at + length front) (n % 10) rest (omega arith) (omega arith)
        ∙ ap (λ k. length_loop k (at + length front + 1) rest) {x = n / 10 * 10 + n % 10} {y = n}
            (omega arith)
        ∙ ap (λ k. length_loop n k rest) {x = at + length front + 1}
            {y = at + length (front ++ (48 + n % 10) ∷ [])}
            (omega (arith, length-append front ((48 + n % 10) ∷ []))))

-- What the loop of `EncodeString` leaves in its buffer.
digits_end : (room : ℕ) (tail : Bytes) → digits_loop room 0 tail ≡ some tail
unfolding digits_loop
digits_end zero tail = refl
digits_end (suc room) tail = refl

digits_step :
    (room x : ℕ) (tail : Bytes)
    → digits_loop (suc room) (suc x) tail ≡ digits_loop room (suc x / 10) ((48 + suc x % 10) ∷ tail)
unfolding digits_loop
digits_step room x tail = refl

digits_loop-IsDecimal :
    (room x : ℕ) (tail : Bytes)
    → 0 < x
    → x < 10 ^ room
    → (ds : Bytes) × (digits_loop room x tail ≡ some (ds ++ tail)) × IsDecimal x ds
digits_loop-IsDecimal room zero tail p h = absurd (omega arith)
digits_loop-IsDecimal zero (suc x) tail p h = absurd (omega arith)
digits_loop-IsDecimal (suc room) (suc x) tail p h = elim (dec_lt (suc x) 10) [
  | yes small ↦
      let none_left : suc x / 10 ≡ 0 = omega arith in
      let all_of_it : suc x % 10 ≡ suc x = omega arith in
      (
        (48 + suc x) ∷ [],
        rw (digits_step, none_left, all_of_it) (digits_end room ((48 + suc x) ∷ tail)),
        last_digit small refl,
      )
  | no big ↦
      let p : 10 ^ suc room ≡ 10 * 10 ^ room = grind (arith, pow-suc) in
      let (ds, e, r) =
        digits_loop-IsDecimal room (suc x / 10) ((48 + suc x % 10) ∷ tail) (omega arith)
          (omega arith) in
      (
        ds ++ (48 + suc x % 10) ∷ [],
        digits_step room x tail ∙ e ∙ ap some (sym (append_assoc ds ((48 + suc x % 10) ∷ []) tail)),
        more_digits (omega arith) r refl,
      )
]

-- For every length of an int the digits fit the buffer of 20 bytes.
pub length_digits-IsDecimal :
    (n : ℕ) → n < 2 ^ 63 → (ds : Bytes) × (length_digits n ≡ some ds) × IsDecimal n ds
unfolding length_digits
length_digits-IsDecimal n h = elim (Bool-cases (n == 0)) [
  | inl z ↦ (b'0' ∷ [], rw z, last_digit (ground arith) (ap (λ k. k ∷ []) (ground arith)))
  | inr s ↦
      let (ds, e, r) = digits_loop-IsDecimal 20 n [] (ground arith) (omega arith) in
      (ds, rw s (e ∙ ap some (append-nil ds)), r)
]

-- A length in decimal and its line end are read back, whatever follows.
pub read_length-IsDecimal :
    (n : ℕ) (ds rest : Bytes)
    → IsDecimal n ds
    → n < 2 ^ 63
    → read_length (ds ++ cr ∷ lf ∷ rest) ≡ done (pos n) (length ds + 2)
unfolding read_length
read_length-IsDecimal n ds rest r h =
    let e : length_loop 0 0 (ds ++ cr ∷ lf ∷ rest) ≡ done n (length ds + 2) =
      length_loop-IsDecimal r h 0 (cr ∷ lf ∷ rest)
      ∙ unfold length_loop in
        ap (done n) {x = 0 + length ds + 2} {y = length ds + 2} (omega arith) in
    rw e (ground arith)
