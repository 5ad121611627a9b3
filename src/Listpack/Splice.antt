-- ===== src/Listpack/Splice.antt =====
-- `insert`, `append` and `prepend` of internal/ds/listpack.go, which put a finished entry into the
-- content.
use monster_db.Prelude.{
  ℕ, zero, suc, true, false, Bool, if◌then◌else◌, Bool-cases, inl, inr, ◌+◌, ◌-◌, ◌*◌, ◌≤◌, ◌≡◌,
  refl, sym, ◌∙◌, ap, arith, Option, none, some, [], ◌∷◌, ◌++◌, ◌>>=◌, length, take, drop, ltb, leb,
  append_assoc, length-append, length-take, drop-append, take-append-drop,
}
use monster_db.Prelude.Bytes.{Bytes, copy_into, copy_into-append, zeros, length-zeros}
use monster_db.Listpack.{Listpack, set_meta, header_size}
use monster_db.Listpack.Insert.{open_gap}

unfoldable pub insert : ℕ → Bytes → Listpack → Option Listpack
unfolding set_meta
insert at entry lp =
    let old_len = length lp.content in
    let new_len = old_len + length entry in
    if ltb (old_len + length lp.spare) new_len
    then (do
      d ← copy_into 0 lp.content (zeros new_len)
      d' ← copy_into at entry d
      set_meta 1 (record { content = d'; spare = zeros (new_len * 2 - new_len) }))
    else if leb at old_len
    then (do
      d ←
          copy_into (at + length entry) (drop at lp.content)
            (lp.content ++ take (length entry) lp.spare)
      d' ← copy_into at entry d
      set_meta 1 (record { content = d'; spare = drop (length entry) lp.spare }))
    else none

unfoldable pub append : Bytes → Listpack → Option Listpack
unfolding insert
append entry lp = insert (length lp.content - 1) entry lp

unfoldable pub prepend : Bytes → Listpack → Option Listpack
unfolding insert
prepend entry lp = insert header_size entry lp

-- There is room for the entry in the capacity of the slice.
abbrev pub has_room : Bytes → Listpack → Bool
has_room entry lp = leb (length entry) (length lp.spare)

-- What stands behind an entry that is inserted in front of `ys`.
abbrev pub behind : Bytes → Bytes → Listpack → Bytes
behind entry ys lp =
    if has_room entry lp then ys else drop (length entry) (ys ++ zeros (length entry))

zeros_sum : (a b : ℕ) → zeros (a + b) ≡ zeros a ++ zeros b
unfolding zeros
zeros_sum zero b = ap zeros {x = 0 + b} {y = b} (omega arith)
zeros_sum (suc a) b =
    ap zeros {x = suc a + b} {y = suc (a + b)} (omega arith) ∙ ap (λ t. 0 ∷ t) (zeros_sum a b)

-- `insert` puts the entry at its place, in front of what stood there, if the slice has room for it.
-- If it has not, the entry overwrites as many bytes as it has, and zeros fill the end.
pub insert-behind :
    (xs ys entry : Bytes) (lp : Listpack)
    → lp.content ≡ xs ++ ys
    → (spare : Bytes) × (insert (length xs) entry lp
        ≡ set_meta 1 (record { content = xs ++ (entry ++ behind entry ys lp); spare = spare }))
unfolding insert
insert-behind xs ys entry lp e =
    let n : ℕ = length entry in
    let len : length lp.content ≡ length xs + length ys = rw e (length-append xs ys) in
    elim (Bool-cases (has_room entry lp)) [
      | inl room ↦
          let fits : ltb (length lp.content + length lp.spare) (length lp.content + n) ≡ false =
            ground arith in
          let inside : leb (length xs) (length lp.content) ≡ true = ground arith in
          let w : Bytes = ys ++ take n lp.spare in
          let old : drop (length xs) lp.content ≡ ys = rw e (drop-append (length xs) xs ys refl) in
          let d : lp.content ++ take n lp.spare ≡ xs ++ w =
            rw (e, append_assoc xs ys (take n lp.spare)) in
          let enough : n ≤ length lp.spare = ground arith in
          let wl : length w ≡ n + length ys =
            omega (arith, length-append ys (take n lp.spare), length-take n lp.spare) in
          let moved : copy_into (length xs + n) ys (xs ++ w) ≡ some (xs ++ (take n w ++ ys)) =
            open_gap n xs ys w wl in
          let put : copy_into (length xs) entry (xs ++ (take n w ++ ys))
              ≡ some (xs ++ (entry ++ ys)) =
            copy_into-append (length xs) xs entry (take n w) ys refl
              (omega (arith, length-take n w)) in
          (drop n lp.spare, rw (fits, inside, old, d, moved, put, room) refl)
      | inr tight ↦
          let full : ltb (length lp.content + length lp.spare) (length lp.content + n) ≡ true =
            ground arith in
          let c : Bytes = lp.content in
          let w : Bytes = ys ++ zeros n in
          let copied : copy_into 0 c (zeros (length c + n)) ≡ some (xs ++ w) =
            ap (copy_into 0 c) (zeros_sum (length c) n)
            ∙ copy_into-append 0 [] c (zeros (length c)) (zeros n) refl (length-zeros (length c))
            ∙ ap some (ap (λ t. t ++ zeros n) e ∙ append_assoc xs ys (zeros n)) in
          let put : copy_into (length xs) entry (xs ++ w) ≡ some (xs ++ (entry ++ drop n w)) =
            ap (λ t. copy_into (length xs) entry (xs ++ t)) (sym (take-append-drop n w))
            ∙ copy_into-append (length xs) xs entry (take n w) (drop n w) refl
                (omega (arith, length-take n w, length-append ys (zeros n), length-zeros n)) in
          (zeros ((length c + n) * 2 - (length c + n)), rw (full, copied, put, tight) refl)
    ]
