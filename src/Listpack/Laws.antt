-- ===== src/Listpack/Laws.antt =====
-- What the operations of internal/ds/listpack.go do to the list of values that a listpack holds.
use monster_db.Prelude.{
  ℕ, suc, true, false, ◌+◌, ◌-◌, ◌%◌, ◌^◌, ◌<◌, ◌≡◌, refl, sym, ◌∙◌, ap, arith, some, List, [], ◌∷◌,
  ◌++◌, length, take, drop, ltb, leb, ◌==◌, ◌||◌, append_assoc, append-nil, length-append,
  length-take, take-append, drop-append, take-append-drop,
}
use monster_db.Prelude.Bytes.{Bytes, copy_into, copy_into-append}
use monster_db.Listpack.{Listpack, end_byte, tail, elements, is_empty, remove}
use monster_db.Listpack.Codec.{Value, int, str, encode_int, encode_string}
use monster_db.Listpack.Entries.{
  encode, add, body, body-append, packed, packed-header, header, length-header, length-packed,
  Holds, add-put, set_meta-packed, elements-packed,
}

pub packed-eq : (t u c d : ℕ) (r q : Bytes) → t ≡ u → c ≡ d → r ≡ q → packed t c r ≡ packed u d q
packed-eq t u c d r q e f g = rw (e, f, g)

body-snoc : (v : Value) (vs : List Value) → body (vs ++ v ∷ []) ≡ body vs ++ encode v
unfolding body
body-snoc v vs = body-append vs (v ∷ []) ∙ ap (λ r. body vs ++ r) (append-nil (encode v))

pub length-encode_pos : (v : Value) → 0 < length (encode v)
unfolding encode_int encode_string
length-encode_pos (int v) = ground arith
length-encode_pos (str s) = ground arith

-- `AddInt` and `AddString` at the tail: no panic, and the value is behind the others.
pub add_tail-Holds :
    (v : Value) (vs : List Value) (lp : Listpack)
    → Holds lp vs
    → (lp' : Listpack) × (add v false lp ≡ some lp') × Holds lp' (vs ++ v ∷ [])
unfolding tail
add_tail-Holds v vs lp h =
    let t : ℕ = length (body vs) + 7 in
    let xs : Bytes = header t (length vs) ++ body vs in
    let e : lp.content ≡ xs ++ end_byte ∷ [] =
      h
      ∙ packed-header t (length vs) (body vs ++ end_byte ∷ [])
      ∙ sym (append_assoc (header t (length vs)) (body vs) (end_byte ∷ [])) in
    let at : length lp.content - 1 ≡ length xs =
      omega (arith, ap length e, length-append xs (end_byte ∷ [])) in
    let (sp, put) = add-put v false lp xs (end_byte ∷ []) e at in
    let rest : Bytes = body vs ++ (encode v ++ end_byte ∷ []) in
    let form : xs ++ (encode v ++ end_byte ∷ []) ≡ packed t (length vs) rest =
      append_assoc (header t (length vs)) (body vs) (encode v ++ end_byte ∷ [])
      ∙ sym (packed-header t (length vs) rest) in
    (
      record { content = packed (6 + length rest) (length vs + 1) rest; spare = sp },
      put ∙ rw form (set_meta-packed t (length vs) 1 rest sp),
      packed-eq (6 + length rest) (length (body (vs ++ v ∷ [])) + 7) (length vs + 1)
          (length (vs ++ v ∷ [])) rest (body (vs ++ v ∷ []) ++ end_byte ∷ [])
          (omega (
            arith,
            ap length (body-snoc v vs),
            length-append (body vs) (encode v),
            length-append (body vs) (encode v ++ end_byte ∷ []),
            length-append (encode v) (end_byte ∷ []),
          ))
          (omega (arith, length-append vs (v ∷ [])))
          (rw (body-snoc v vs) (sym (append_assoc (body vs) (encode v) (end_byte ∷ [])))),
    )

-- At the head: no panic, and the value is in front of the others.
pub add_head-Holds :
    (v : Value) (vs : List Value) (lp : Listpack)
    → Holds lp vs
    → (lp' : Listpack) × (add v true lp ≡ some lp') × Holds lp' (v ∷ vs)
unfolding body
add_head-Holds v vs lp h =
    let t : ℕ = length (body vs) + 7 in
    let ys : Bytes = body vs ++ end_byte ∷ [] in
    let (sp, put) =
      add-put v true lp (header t (length vs)) ys (h ∙ packed-header t (length vs) ys)
        (sym (length-header t (length vs))) in
    let rest : Bytes = encode v ++ ys in
    (
      record { content = packed (6 + length rest) (length vs + 1) rest; spare = sp },
      put ∙ rw (sym (packed-header t (length vs) rest)) (set_meta-packed t (length vs) 1 rest sp),
      packed-eq (6 + length rest) (length (encode v ++ body vs) + 7) (length vs + 1)
          (suc (length vs)) rest ((encode v ++ body vs) ++ end_byte ∷ [])
          (omega (
            arith,
            length-append (encode v) (body vs),
            length-append (encode v) ys,
            length-append (body vs) (end_byte ∷ []),
          ))
          (omega arith) (sym (append_assoc (encode v) (body vs) (end_byte ∷ []))),
    )

-- `IsEmpty`, while the counter has not wrapped.
pub is_empty-Holds :
    (vs : List Value) (lp : Listpack)
    → length vs < 256 ^ 2
    → Holds lp vs
    → is_empty lp ≡ some (length vs == 0)
unfolding is_empty body
is_empty-Holds [] lp n h = rw (h, length-packed 7 0 (end_byte ∷ []))
is_empty-Holds (v ∷ vs) lp n h =
    let r : Bytes = (encode v ++ body vs) ++ end_byte ∷ [] in
    let t : ℕ = length (encode v ++ body vs) + 7 in
    let big : leb (6 + length r) 7 ≡ false = ground (
      arith,
      length-encode_pos v,
      length-append (encode v) (body vs),
      length-append (encode v ++ body vs) (end_byte ∷ []),
    ) in
    let k : elements lp ≡ some (suc (length vs) % 256 ^ 2) =
      ap (λ c. elements (record { content = c; spare = lp.spare })) h
      ∙ elements-packed t (suc (length vs)) r lp.spare in
    rw (k, h, length-packed t (suc (length vs)) r, big) (ground arith)

-- `remove` of the bytes behind a prefix.
pub remove-cut :
    (xs us ys : Bytes) (lp : Listpack)
    → lp.content ≡ xs ++ (us ++ ys)
    → 0 < length us
    → 0 < length ys
    → (spare : Bytes) × (remove (length xs) (length us) lp
        ≡ some (record { content = xs ++ ys; spare = spare }))
unfolding remove
remove-cut xs us ys lp e p q =
    let len : length lp.content ≡ length xs + (length us + length ys) =
      ap length e ∙ length-append xs (us ++ ys) ∙ ap (λ n. length xs + n) (length-append us ys) in
    let w : Bytes = us ++ ys in
    let wl : length w ≡ length us + length ys = length-append us ys in
    let guard : (leb (length lp.content) (length xs) || (length us == 0)) ≡ false = ground arith in
    let whole : ltb (length lp.content) (length xs + length us) ≡ false = ground arith in
    let behind : drop (length xs + length us) lp.content ≡ ys =
      rw (e, ← append_assoc xs us ys)
        (drop-append (length xs + length us) (xs ++ us) ys (omega (arith, length-append xs us))) in
    let parts : lp.content ≡ xs ++ (take (length ys) w ++ drop (length ys) w) =
      e ∙ ap (λ r. xs ++ r) (sym (take-append-drop (length ys) w)) in
    let moved : copy_into (length xs) ys lp.content ≡ some (xs ++ (ys ++ drop (length ys) w)) =
      ap (copy_into (length xs) ys) parts
      ∙ copy_into-append (length xs) xs ys (take (length ys) w) (drop (length ys) w) refl
          (omega (arith, length-take (length ys) w)) in
    let kept : take (length lp.content - length us) (xs ++ (ys ++ drop (length ys) w)) ≡ xs ++ ys =
      rw (← append_assoc xs ys (drop (length ys) w)) (
        take-append (length lp.content - length us) (xs ++ ys) (drop (length ys) w)
          (omega (arith, length-append xs ys))) in
    (
      drop (length lp.content - length us) (xs ++ (ys ++ drop (length ys) w)) ++ lp.spare,
      rw (guard, whole, behind, moved, kept),
    )
