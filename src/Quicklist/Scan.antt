-- ===== src/Quicklist/Scan.antt =====
-- The loops of internal/ds/quicklist.go over the entries of one node meet its values in order.
use monster_db.Prelude.{
  ℕ, zero, suc, true, false, ◌+◌, ◌<◌, ◌≤◌, ◌≡◌, refl, ◌∙◌, ap, arith, some, List, [], ◌∷◌, ◌++◌,
  length, take, drop, get_elem?, length-append, append_assoc, get_elem?-append,
}
use monster_db.Prelude.Bytes.{Bytes}
use monster_db.Listpack.{Listpack, type_int, type_string, end_byte}
use monster_db.Listpack.Codec.{
  Value, int, str, encode_int, encode_string, decode_at_int, decode_at_string,
}
use monster_db.Listpack.Integers.{decode_at_int-encode_int}
use monster_db.Listpack.Strings.{decode_at_string-encode_string}
use monster_db.Listpack.Entries.{encode, body}
use monster_db.Listpack.Laws.{length-encode_pos}
use monster_db.Quicklist.{entry_at, decoded, more, take_entries}
use monster_db.Quicklist.Nodes.{Fits, AllFit}

-- The type byte of a value.
abbrev kind : Value → ℕ
kind (int i) = type_int
kind (str s) = type_string

encode-kind : (v : Value) → encode v ≡ kind v ∷ drop 1 (encode v)
unfolding encode_int encode_string
encode-kind (int v) = ground arith
encode-kind (str s) = ground arith

first_byte :
    (v : Value) (lp : Listpack) (xs ys : Bytes)
    → lp.content ≡ xs ++ (encode v ++ ys)
    → get_elem? lp.content (length xs) ≡ some (kind v)
first_byte v lp xs ys e =
    rw (e, encode-kind v) (get_elem?-append (length xs) xs (kind v) (drop 1 (encode v) ++ ys) refl)

-- The switch on the type byte decodes the entry that stands at its position.
pub entry_at-encode :
    (v : Value) (lp : Listpack) (xs ys : Bytes)
    → lp.content ≡ xs ++ (encode v ++ ys)
    → Fits v
    → entry_at (length xs) lp ≡ some (decoded v (length (encode v)))
unfolding entry_at
entry_at-encode (int i) lp xs ys e f =
    let d : decode_at_int (length xs) lp ≡ some (i, length (encode_int i)) =
      ap (λ c. decode_at_int (length xs) (record { content = c; spare = lp.spare })) e
      ∙ decode_at_int-encode_int i xs ys lp.spare f in
    rw (first_byte (int i) lp xs ys e, d) (ground (arith, length-encode_pos (int i)))
entry_at-encode (str s) lp xs ys e f =
    let d : decode_at_string (length xs) lp ≡ some (s, length (encode_string s)) =
      ap (λ c. decode_at_string (length xs) (record { content = c; spare = lp.spare })) e
      ∙ decode_at_string-encode_string s xs ys lp.spare (omega arith) in
    rw (first_byte (str s) lp xs ys e, d) (ground (arith, length-encode_pos (str s)))

pub more-encode :
    (v : Value) (lp : Listpack) (xs ys : Bytes)
    → lp.content ≡ xs ++ (encode v ++ ys)
    → more (length xs) lp ≡ some true
unfolding more
more-encode (int i) lp xs ys e = rw (first_byte (int i) lp xs ys e) (
    ground (
      arith,
      ap length e,
      length-append xs (encode (int i) ++ ys),
      length-append (encode (int i)) ys,
      length-encode_pos (int i),
    ))
more-encode (str s) lp xs ys e = rw (first_byte (str s) lp xs ys e) (
    ground (
      arith,
      ap length e,
      length-append xs (encode (str s) ++ ys),
      length-append (encode (str s)) ys,
      length-encode_pos (str s),
    ))

pub more-end :
    (lp : Listpack) (xs : Bytes)
    → lp.content ≡ xs ++ end_byte ∷ []
    → more (length xs) lp ≡ some false
unfolding more
more-end lp xs e =
    let b : get_elem? lp.content (length xs) ≡ some end_byte =
      rw e (get_elem?-append (length xs) xs end_byte [] refl) in
    rw b (ground (arith, ap length e, length-append xs (end_byte ∷ [])))

-- One entry further.
pub step_on :
    (v : Value) (xs ys bs : Bytes)
    → bs ≡ xs ++ ((encode v ++ ys) ++ end_byte ∷ [])
    → bs ≡ (xs ++ encode v) ++ (ys ++ end_byte ∷ [])
step_on v xs ys bs e =
    rw
      (
        append_assoc xs (encode v) (ys ++ end_byte ∷ []),
        ← append_assoc (encode v) ys (end_byte ∷ []),
      )
      e

pub entries_fuel : (vs : List Value) → length vs ≤ length (body vs)
unfolding body
entries_fuel [] = omega arith
entries_fuel (v ∷ vs) =
    omega (arith, length-append (encode v) (body vs), length-encode_pos v, entries_fuel vs)

-- The inner loop of `RemoveElements` takes the first `left` values of a node.
pub take_entries-body :
    (fuel left at : ℕ) (vs : List Value) (lp : Listpack) (xs : Bytes)
    → at ≡ length xs
    → lp.content ≡ xs ++ (body vs ++ end_byte ∷ [])
    → AllFit vs
    → length vs < fuel
    → take_entries fuel left at lp
      ≡ some (record {
        values = take left vs;
        total_size = length (body (take left vs));
        returned = false;
      })
unfolding take_entries body
take_entries-body zero left at vs lp xs h e f p = absurd (omega arith)
take_entries-body (suc fuel) zero at vs lp xs h e f p = refl
take_entries-body (suc fuel) (suc left) at [] lp xs h e f p = rw (h, more-end lp xs e)
take_entries-body (suc fuel) (suc left) at (v ∷ vs) lp xs h e f p =
    let whole : lp.content ≡ xs ++ (encode v ++ (body vs ++ end_byte ∷ [])) =
      e ∙ ap (λ r. xs ++ r) (append_assoc (encode v) (body vs) (end_byte ∷ [])) in
    let go : more at lp ≡ some true = rw h (more-encode v lp xs (body vs ++ end_byte ∷ []) whole) in
    let this : entry_at at lp ≡ some (decoded v (length (encode v))) =
      rw h (entry_at-encode v lp xs (body vs ++ end_byte ∷ []) whole f.0) in
    rw (
      go,
      this,
      take_entries-body fuel left (at + length (encode v)) vs lp (xs ++ encode v)
          (omega (arith, length-append xs (encode v))) (step_on v xs (body vs) lp.content e) f.1
          (omega arith),
      length-append (encode v) (body (take left vs)),
    )
