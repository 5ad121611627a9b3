-- ===== src/Resp/Command.antt =====
-- Arrays of bulk strings, the form of every command in internal/resp/resp.go: what the encoder
-- writes, the decoder reads, whatever bytes follow.
use monster_db.Prelude.{
  ℕ, suc, ◌+◌, ◌^◌, ◌<◌, ◌≡◌, refl, sym, subst, ◌∙◌, ap, arith, false, some, List, [], ◌∷◌, ◌++◌,
  length, drop, leb, append_assoc, append-nil, length-append, drop-append,
}
use monster_db.Prelude.Int.{ℤ, pos, ltb_ℤ}
use monster_db.Prelude.Bytes.{Bytes, slice, slice-middle}
use monster_db.Resp.{
  Datum, text, array, Data, nil, cons, Decoded, done, and_then, read_bulk_string, bulk, int_sum,
  decode_one, read_array, read_elems, encode_string, encode_items, encode_strings, encode_array_len,
  cr, lf,
}
use monster_db.Resp.Decimal.{IsDecimal, length_digits-IsDecimal, read_length-IsDecimal}

-- Strings on the wire, one bulk string behind the other.
pub data Bulks : List Bytes → Bytes → Type 0 where
  no_bulk : {w : Bytes} → w ≡ [] → Bulks [] w
  one_bulk :
      {v : Bytes} {vs : List Bytes} {ds w' w : Bytes}
      → IsDecimal (length v) ds
      → Bulks vs w'
      → w ≡ b'$' ∷ (ds ++ cr ∷ lf ∷ (v ++ cr ∷ lf ∷ w'))
      → Bulks (v ∷ vs) w

-- The lengths of strings are ints.
abbrev pub AllInt : List Bytes → Type 0
AllInt [] = Unit {0}
AllInt (v ∷ vs) = (length v < 2 ^ 63) × AllInt vs

pub encode_items-Bulks :
    (format_int : ℤ → Bytes) (vs : List Bytes) (buf : Bytes)
    → AllInt vs
    → (w : Bytes) × (encode_items format_int buf vs ≡ some (buf ++ w)) × Bulks vs w
unfolding encode_items encode_string
encode_items-Bulks format_int [] buf h = ([], rw (append-nil buf), no_bulk refl)
encode_items-Bulks format_int (v ∷ vs) buf h =
    let (ds, e, r) = length_digits-IsDecimal (length v) h.0 in
    let item : Bytes = b'$' ∷ (ds ++ cr ∷ lf ∷ (v ++ cr ∷ lf ∷ [])) in
    let (w', f, rest) = encode_items-Bulks format_int vs (buf ++ item) h.1 in
    let joined : item ++ w' ≡ b'$' ∷ (ds ++ cr ∷ lf ∷ (v ++ cr ∷ lf ∷ w')) =
      ap (λ t. b'$' ∷ t)
        (append_assoc ds (cr ∷ lf ∷ (v ++ cr ∷ lf ∷ [])) w'
          ∙ ap (λ t. ds ++ cr ∷ lf ∷ t) (append_assoc v (cr ∷ lf ∷ []) w')) in
    (item ++ w', rw e (f ∙ ap some (append_assoc buf item w')), one_bulk r rest joined)

-- A sum of small ints does not wrap.
int_sum_small : (a b : ℕ) → a + b < 2 ^ 63 → int_sum (pos a) (pos b) ≡ pos (a + b)
int_sum_small a b h = ground arith

module _ (v ds tail : Bytes) (digits : IsDecimal (length v) ds) where
  abbrev wire : Bytes
  wire = b'$' ∷ (ds ++ cr ∷ lf ∷ (v ++ cr ∷ lf ∷ tail))

  length-wire : length wire ≡ 1 + (length ds + 2) + length v + 2 + length tail
  length-wire =
      omega (
        arith,
        length-append ds (cr ∷ lf ∷ (v ++ cr ∷ lf ∷ tail)),
        length-append v (cr ∷ lf ∷ tail),
      )

  slice-wire : slice (1 + (length ds + 2)) (1 + (length ds + 2) + length v) wire ≡ some v
  slice-wire = rw (sym (append_assoc ds (cr ∷ lf ∷ []) (v ++ cr ∷ lf ∷ tail))) (
      slice-middle (1 + (length ds + 2)) (1 + (length ds + 2) + length v)
        (b'$' ∷ (ds ++ cr ∷ lf ∷ [])) v (cr ∷ lf ∷ tail)
        (omega (arith, length-append ds (cr ∷ lf ∷ []))) refl)

  bulk-wire :
      bulk (1 + (length ds + 2)) (pos (length v)) wire ≡ done v (1 + (length ds + 2) + length v + 2)
  bulk-wire = rw (bulk, slice-wire) refl

  read_bulk_string-wire :
      length wire < 2 ^ 63 → read_bulk_string wire ≡ done v (1 + (length ds + 2) + length v + 2)
  unfolding read_bulk_string
  read_bulk_string-wire h =
      let at : ℕ = 1 + (length ds + 2) in
      let small : at + length v + 2 < 2 ^ 63 = omega (arith, length-wire) in
      let fits : ltb_ℤ (pos (length wire)) (pos (at + length v + 2)) ≡ false =
        ground (arith, length-wire) in
      rw (
        read_length-IsDecimal (length v) ds (v ++ cr ∷ lf ∷ tail) digits (omega arith),
        int_sum_small at (length v) (omega arith),
        int_sum_small (at + length v) 2 small,
        fits,
        bulk-wire,
      )

  pub decode_one-wire :
      (fuel : ℕ)
      → length wire < 2 ^ 63
      → decode_one (suc fuel) wire ≡ done (text v) (1 + (length ds + 2) + length v + 2)
  unfolding decode_one
  decode_one-wire fuel h = rw (read_bulk_string-wire h)

-- The strings as the decoder returns them.
abbrev pub texts : List Bytes → Data
texts [] = nil
texts (v ∷ vs) = cons (text v) (texts vs)

read_elems-step :
    (f : Bytes → Decoded Datum) (bs : Bytes) (count at : ℕ) (v : Datum) (n : ℕ)
    → at < length bs
    → f (drop at bs) ≡ done v n
    → read_elems f bs (suc count) at
      ≡ and_then (read_elems f bs count (at + n)) (λ vs end. done (cons v vs) end)
unfolding read_elems
read_elems-step f bs count at v n h e =
    let inside : leb (length bs) at ≡ false = ground arith in rw (inside, e)

read_elems-Bulks :
    (fuel : ℕ) {vs : List Bytes} {w : Bytes}
    → Bulks vs w
    → (before rest : Bytes) → length (before ++ (w ++ rest)) < 2 ^ 63
    → read_elems (decode_one (suc fuel)) (before ++ (w ++ rest)) (length vs) (length before)
      ≡ done (texts vs) (length before + length w)
read_elems-Bulks fuel (no_bulk {w} e) before rest h =
    rw e
      (unfold read_elems in ap (done nil) {x = length before} {y = length before + 0} (omega arith))
read_elems-Bulks fuel (one_bulk {v} {vs} {ds} {w'} {w} digits r e) before rest h =
    let front : Bytes = b'$' ∷ (ds ++ cr ∷ lf ∷ (v ++ cr ∷ lf ∷ [])) in
    let n : ℕ = 1 + (length ds + 2) + length v + 2 in
    let size : length front ≡ n =
      omega
        (arith, length-append ds (cr ∷ lf ∷ (v ++ cr ∷ lf ∷ [])), length-append v (cr ∷ lf ∷ [])) in
    let split : w ++ rest ≡ b'$' ∷ (ds ++ cr ∷ lf ∷ (v ++ cr ∷ lf ∷ (w' ++ rest))) = rw e (
      ap (λ t. b'$' ∷ t)
        (append_assoc ds (cr ∷ lf ∷ (v ++ cr ∷ lf ∷ w')) rest
          ∙ ap (λ t. ds ++ cr ∷ lf ∷ t) (append_assoc v (cr ∷ lf ∷ w') rest))) in
    let joined : front ++ (w' ++ rest) ≡ w ++ rest =
      ap (λ t. b'$' ∷ t)
        (append_assoc ds (cr ∷ lf ∷ (v ++ cr ∷ lf ∷ [])) (w' ++ rest)
          ∙ ap (λ t. ds ++ cr ∷ lf ∷ t) (append_assoc v (cr ∷ lf ∷ []) (w' ++ rest)))
      ∙ sym split in
    let total : length (before ++ (w ++ rest)) ≡ length before + length (w ++ rest) =
      length-append before (w ++ rest) in
    let wide : length (w ++ rest) ≡ n + length (w' ++ rest) =
      ap length (sym joined)
      ∙ length-append front (w' ++ rest)
      ∙ ap (λ k. k + length (w' ++ rest)) size in
    let one : decode_one (suc fuel) (drop (length before) (before ++ (w ++ rest)))
        ≡ done (text v) n =
      ap (decode_one (suc fuel)) (drop-append (length before) before (w ++ rest) refl ∙ split)
      ∙ decode_one-wire v ds (w' ++ rest) digits fuel
          (subst (λ t. length t < 2 ^ 63) split (omega arith)) in
    let again : (before ++ front) ++ (w' ++ rest) ≡ before ++ (w ++ rest) =
      append_assoc before front (w' ++ rest) ∙ ap (λ t. before ++ t) joined in
    let further =
      read_elems-Bulks fuel r (before ++ front) rest
        (subst (λ t. length t < 2 ^ 63) (sym again) h) in
    let moved : length (before ++ front) ≡ length before + n =
      length-append before front ∙ ap (λ k. length before + k) size in
    let end : length (before ++ front) + length w' ≡ length before + length w =
      omega (arith, moved, wide, length-append w rest, length-append w' rest) in
    read_elems-step (decode_one (suc fuel)) (before ++ (w ++ rest)) (length vs) (length before)
      (text v) n (omega arith) one
    ∙ ap (λ o. and_then o (λ vs end. done (cons (text v) vs) end))
        (ap (λ k. read_elems (decode_one (suc fuel)) (before ++ (w ++ rest)) (length vs) k)
            (sym moved)
          ∙ ap (λ b. read_elems (decode_one (suc fuel)) b (length vs) (length (before ++ front)))
              (sym again)
          ∙ further)
    ∙ ap (done (cons (text v) (texts vs))) end

read_array-head :
    (f : Bytes → Decoded Datum) (n : ℕ) (ds tail : Bytes)
    → IsDecimal n ds
    → n < 2 ^ 63
    → read_array f (b'*' ∷ (ds ++ cr ∷ lf ∷ tail))
      ≡ and_then
          (read_elems f (b'*' ∷ (ds ++ cr ∷ lf ∷ tail)) n (1 + (length ds + 2)))
          (λ vs end. done (array vs) end)
unfolding read_array
read_array-head f n ds tail r h = rw (read_length-IsDecimal n ds tail r h)

decode_one-array :
    (fuel : ℕ) (rest : Bytes)
    → decode_one (suc fuel) (b'*' ∷ rest) ≡ read_array (decode_one fuel) (b'*' ∷ rest)
unfolding decode_one
decode_one-array fuel rest = refl

-- `strconv.AppendInt` appends decimal digits for an int that is not negative.
abbrev pub Formats : (ℤ → Bytes) → Type 0
Formats format_int = (n : ℕ) → n < 2 ^ 63 → IsDecimal n (format_int (pos n))

-- What `Encode` writes for strings, and what `DecodeOne` makes of it.
encode_strings-wire :
    (format_int : ℤ → Bytes)
    → Formats format_int
    → (vs : List Bytes) → AllInt vs
    → length vs < 2 ^ 63
    → (fuel : ℕ) (rest : Bytes)
    → (w : Bytes) × (encode_strings format_int [] vs ≡ some w)
      × (length (w ++ rest) < 2 ^ 63
          → decode_one (suc (suc fuel)) (w ++ rest) ≡ done (array (texts vs)) (length w))
unfolding encode_strings
encode_strings-wire format_int formats vs small few fuel rest =
    let ds : Bytes = format_int (pos (length vs)) in
    let head : Bytes = b'*' ∷ (ds ++ cr ∷ lf ∷ []) in
    let digits : IsDecimal (length vs) ds = formats (length vs) few in
    let (w', e, r) = encode_items-Bulks format_int vs head small in
    let size : length head ≡ 1 + (length ds + 2) = omega (arith, length-append ds (cr ∷ lf ∷ [])) in
    let split : (head ++ w') ++ rest ≡ head ++ (w' ++ rest) = append_assoc head w' rest in
    let flat : head ++ (w' ++ rest) ≡ b'*' ∷ (ds ++ cr ∷ lf ∷ (w' ++ rest)) =
      ap (λ t. b'*' ∷ t) (append_assoc ds (cr ∷ lf ∷ []) (w' ++ rest)) in
    (
      head ++ w',
      e,
      λ h.
          let items = read_elems-Bulks fuel r head rest (subst (λ t. length t < 2 ^ 63) split h) in
          let f = decode_one (suc fuel) in
          let all : Bytes = head ++ (w' ++ rest) in
          let head_of_array = read_array-head f (length vs) ds (w' ++ rest) digits few in
          ap (decode_one (suc (suc fuel))) (split ∙ flat)
          ∙ decode_one-array (suc fuel) (ds ++ cr ∷ lf ∷ (w' ++ rest))
          ∙ head_of_array
          ∙ ap
              (λ b.
                and_then (read_elems f b (length vs) (1 + (length ds + 2)))
                  (λ vs end. done (array vs) end))
              (sym flat)
          ∙ ap (λ k. and_then (read_elems f all (length vs) k) (λ vs end. done (array vs) end))
              (sym size)
          ∙ ap (λ o. and_then o (λ vs end. done (array vs) end)) items
          ∙ ap (done (array (texts vs))) (sym (length-append head w')),
    )

-- If `Encode` writes an array of strings whose lengths are ints, and `strconv.AppendInt` writes
-- decimal digits, then `DecodeOne` gives the strings back and the number of bytes that were written,
-- whatever bytes follow, as long as the length of all the data is an int.
pub decode_one-encode_strings :
    (format_int : ℤ → Bytes)
    → Formats format_int
    → (vs : List Bytes) (w rest : Bytes) (fuel : ℕ) → AllInt vs
    → length vs < 2 ^ 63
    → encode_strings format_int [] vs ≡ some w
    → length (w ++ rest) < 2 ^ 63
    → decode_one (suc (suc fuel)) (w ++ rest) ≡ done (array (texts vs)) (length w)
decode_one-encode_strings format_int formats vs w rest fuel small few e h =
    let (w', e', decodes) = encode_strings-wire format_int formats vs small few fuel rest in
    let same : w' ≡ w = cc in
    subst (λ t. decode_one (suc (suc fuel)) (t ++ rest) ≡ done (array (texts vs)) (length t)) same
      (decodes (rw same h))

-- `Encode` does not panic on an array of strings whose lengths are ints.
pub encode_strings_total :
    (format_int : ℤ → Bytes) (vs : List Bytes)
    → AllInt vs
    → (w : Bytes) × (encode_strings format_int [] vs ≡ some w)
unfolding encode_strings encode_array_len
encode_strings_total format_int vs small =
    let (w, e, r) =
      encode_items-Bulks format_int vs (b'*' ∷ (format_int (pos (length vs)) ++ cr ∷ lf ∷ []))
        small in
    (b'*' ∷ (format_int (pos (length vs)) ++ cr ∷ lf ∷ []) ++ w, e)
