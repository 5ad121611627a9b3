-- ===== src/Listpack/Insert.antt =====
-- `grow`, `AddInt` and `AddString` of internal/ds/listpack.go put the entry that `encodeInt` or
-- `encodeString` builds between what stands before and behind it.
use monster_db.Prelude.{
  ℕ, true, Bool-cases, inl, inr, ◌+◌, ◌-◌, ◌*◌, ◌≤◌, ◌≡◌, refl, sym, ◌∙◌, ap, arith, some, [], ◌++◌,
  length, take, drop, ltb, leb, append_assoc, append-nil, length-append, length-take, length-drop,
  take-append, drop-append, take-append-drop,
}
use monster_db.Prelude.Bytes.{
  Bytes, copy_into, copy_into-append, copy_into-behind, zeros, length-zeros,
}
use monster_db.Listpack.{Listpack, grow}

-- A buffer whose bytes behind `xs` are free takes `ys` at its end.
pub open_gap :
    (n : ℕ) (xs ys w : Bytes)
    → length w ≡ n + length ys
    → copy_into (length xs + n) ys (xs ++ w) ≡ some (xs ++ (take n w ++ ys))
open_gap n xs ys w e =
    let b : Bytes = drop n w in
    let split : xs ++ w ≡ xs ++ (take n w ++ (b ++ [])) =
      rw (append-nil b) (ap (λ t. xs ++ t) (sym (take-append-drop n w))) in
    rw split (
      copy_into-behind (length xs + n) xs (take n w) ys b [] (omega (arith, length-take n w))
        (omega (arith, length-drop n w))
      ∙ rw (append-nil ys))

fill_front :
    (xs z : Bytes) → length xs ≤ length z → copy_into 0 xs z ≡ some (xs ++ drop (length xs) z)
fill_front xs z h =
    ap (copy_into 0 xs) (sym (take-append-drop (length xs) z))
    ∙ copy_into-append 0 [] xs (take (length xs) z) (drop (length xs) z) refl
        (omega (arith, length-take (length xs) z))

-- `grow` keeps what stands before and behind the gap.
pub grow-gap :
    (n : ℕ) (xs ys : Bytes) (lp : Listpack)
    → lp.content ≡ xs ++ ys
    → (mid : Bytes) × (spare : Bytes) × (length mid ≡ n)
      × (grow (length xs) n lp ≡ some (record { content = xs ++ (mid ++ ys); spare = spare }))
unfolding grow
grow-gap n xs ys lp e =
    let len : length lp.content ≡ length xs + length ys = rw e (length-append xs ys) in
    let before : take (length xs) lp.content ≡ xs = rw e (take-append (length xs) xs ys refl) in
    let behind : drop (length xs) lp.content ≡ ys = rw e (drop-append (length xs) xs ys refl) in
    let inside : leb (length xs) (length lp.content) ≡ true = ground arith in
    elim (Bool-cases (ltb (length lp.content + length lp.spare) (length lp.content + n))) [
      | inl realloc ↦
          let z : Bytes = zeros (length lp.content + n) in
          let w : Bytes = drop (length xs) z in
          let zl : length z ≡ length lp.content + n = length-zeros (length lp.content + n) in
          let copied : copy_into 0 xs z ≡ some (xs ++ w) = fill_front xs z (omega arith) in
          let moved : copy_into (length xs + n) ys (xs ++ w) ≡ some (xs ++ (take n w ++ ys)) =
            open_gap n xs ys w (omega (arith, length-drop (length xs) z)) in
          (
            take n w,
            zeros ((length lp.content + n) * 2 - (length lp.content + n)),
            omega (arith, length-take n w, length-drop (length xs) z),
            rw (inside, realloc, before, behind, copied, moved),
          )
      | inr room ↦
          let w : Bytes = ys ++ take n lp.spare in
          let d : lp.content ++ take n lp.spare ≡ xs ++ w =
            rw (e, append_assoc xs ys (take n lp.spare)) in
          let fits : n ≤ length lp.spare = ground arith in
          let wl : length w ≡ n + length ys =
            omega (arith, length-append ys (take n lp.spare), length-take n lp.spare) in
          let moved : copy_into (length xs + n) ys (xs ++ w) ≡ some (xs ++ (take n w ++ ys)) =
            open_gap n xs ys w wl in
          (
            take n w,
            drop n lp.spare,
            omega (arith, length-take n w),
            rw (inside, room, behind, d, moved),
          )
    ]
