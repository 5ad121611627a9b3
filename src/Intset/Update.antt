-- ===== src/Intset/Update.antt =====
-- `Set` and `Del` of internal/ds/intset.go against insertion and removal in a sorted list.
use monster_db.Prelude.{
  ℕ, zero, suc, ◌+◌, ◌-◌, ◌*◌, ◌≤◌, ◌≡◌, refl, sym, ◌∙◌, ap, arith, not, Bool-cases, inl, inr, some,
  List, [], ◌∷◌, ◌++◌, length, take, drop, get_elem?-some, take-append, drop-append,
  take-append-drop, length-append, length-take, length-drop, append_assoc, if◌then◌else◌,
}
use monster_db.Prelude.Int.{ℤ, FitsIn}
use monster_db.Prelude.Bytes.{
  Bytes, le_bytes, length-le_bytes, write-append, copy_into, copy_into-append, copy_into-cut,
}
use monster_db.Intset.{Intset, set, del, holds_at, next_of}
use monster_db.Intset.Packed.{
  Represents, pack, pack-append, pack-around, drop-pack, length-pack, word, rank, rank-le,
}
use monster_db.Intset.Search.{search-rank, get-Represents, index_before}
use monster_db.Intset.Kept.{
  IsSorted-insert, AllFit-insert, IsSorted-without, AllFit-without, length-insert, length-without,
}
use monster_db.Intset.Members.{
  contains, insert, without, insert-rank, without-rank, contains-rank, rank_zero, rank_pos,
}

next_of-index_before : (n : ℕ) → next_of (index_before n) ≡ n
next_of-index_before zero = refl
next_of-index_before (suc n) = omega arith

-- The words behind the place of insertion move up by two bytes.
two_up :
    (i : ℕ) (a b : Bytes)
    → length a ≡ i
    → (g : Bytes) × (length g ≡ 2)
      × (copy_into (i + 2) (b ++ 0 ∷ 0 ∷ []) (a ++ (b ++ 0 ∷ 0 ∷ [])) ≡ some (a ++ (g ++ b)))
two_up i a b e =
    let w : Bytes = b ++ 0 ∷ 0 ∷ [] in
    let wl : length w ≡ length b + 2 = length-append b (0 ∷ 0 ∷ []) in
    let g : Bytes = take 2 w in
    let gl : length g ≡ 2 = omega (arith, length-take 2 w) in
    let split : a ++ w ≡ (a ++ g) ++ drop 2 w =
      ap (λ t. a ++ t) (sym (take-append-drop 2 w)) ∙ sym (append_assoc a g (drop 2 w)) in
    (
      g,
      gl,
      rw (split, ← append_assoc a g b)
          (copy_into-cut (i + 2) (a ++ g) b (0 ∷ 0 ∷ []) (drop 2 w)
            (omega (arith, length-append a g)) (omega (arith, length-drop 2 w))),
    )

cut_two :
    (c front rest : Bytes)
    → c ≡ front ++ rest
    → length c ≡ length front + 2
    → take (length c - 2) c ≡ front
cut_two c front rest e l =
    ap (take (length c - 2)) e ∙ take-append (length c - 2) front rest (omega arith)

module _ (val : ℤ) (xs : List ℤ) (is : Intset) (r : Represents is xs) where
  -- The test behind `Search` tells membership.
  pub holds_at-contains : holds_at (index_before (rank val xs)) val is ≡ some (contains val xs)
  holds_at-contains = by_rank (rank val xs) refl
    where
      by_rank :
          (n : ℕ) → rank val xs ≡ n → holds_at (index_before n) val is ≡ some (contains val xs)
      by_rank zero e = rw (rank_zero val xs e) (unfold holds_at in refl)
      by_rank (suc k) e =
          let (x, at) = get_elem?-some k xs (omega (arith, rank-le val xs)) in
          rw (contains-rank val k xs r.sorted e at)
            (unfold holds_at in rw (get-Represents val xs is r k at))

  -- `Set` returns on every well-formed set: it reports whether the member is new, and the set then
  -- has the member and all the others, in order.
  pub set-insert :
      FitsIn 32768 val
      → (is' : Intset) × (set val is ≡ some (not (contains val xs), is'))
        × Represents is' (if contains val xs then xs else insert val xs)
  unfolding set
  set-insert fits = elim (Bool-cases (contains val xs)) [
    | inl old ↦ (is, rw (search-rank val xs is r, holds_at-contains, old), rw old r)
    | inr new ↦
        let n : ℕ = rank val xs in
        let a : Bytes = pack (take n xs) in
        let b : Bytes = pack (drop n xs) in
        let al : length a ≡ n * 2 =
          omega (arith, length-pack (take n xs), length-take n xs, rank-le val xs) in
        let parts : is.content ≡ a ++ b =
          r.content ∙ ap pack (sym (take-append-drop n xs)) ∙ pack-append (take n xs) (drop n xs) in
        let longer : is.content ++ 0 ∷ 0 ∷ [] ≡ a ++ (b ++ 0 ∷ 0 ∷ []) =
          rw parts (append_assoc a b (0 ∷ 0 ∷ [])) in
        let behind : drop (n * 2) (a ++ (b ++ 0 ∷ 0 ∷ [])) ≡ b ++ 0 ∷ 0 ∷ [] =
          drop-append (n * 2) a (b ++ 0 ∷ 0 ∷ []) (sym al) in
        let (g, gl, moved) = two_up (n * 2) a b al in
        let written =
          write-append (n * 2) a (le_bytes 2 (word val)) g b (sym al)
            (gl ∙ sym (length-le_bytes 2 (word val))) in
        (
          record { count = is.count + 1; content = a ++ (le_bytes 2 (word val) ++ b) },
          rw (
            search-rank val xs is r,
            holds_at-contains,
            new,
            next_of-index_before n,
            longer,
            behind,
            moved,
            written,
          ),
          rw new (record {
            content =
                sym
                  (ap pack (insert-rank val xs r.sorted) ∙ pack-around val (take n xs) (drop n xs));
            count = omega (arith, r.count, length-insert val xs);
            sorted = IsSorted-insert val xs r.sorted new;
            fit = AllFit-insert val xs r.fit fits;
          }),
        )
  ]

  -- `Del` returns on every well-formed set: it reports whether the member was there, and the set
  -- then has all the others, in order.
  pub del-without :
      (is' : Intset) × (del val is ≡ some ((if contains val xs then 1 else 0), is'))
      × Represents is' (if contains val xs then without val xs else xs)
  unfolding del
  del-without = elim (Bool-cases (contains val xs)) [
    | inr new ↦ (is, rw (search-rank val xs is r, holds_at-contains, new), rw new r)
    | inl old ↦
        let (m, e) = rank_pos val xs old in
        let a : Bytes = pack (take m xs) in
        let d : Bytes = pack (drop m xs) in
        let b : Bytes = pack (drop (suc m) xs) in
        let inside : suc m ≤ length xs = omega (arith, rank-le val xs) in
        let al : length a ≡ m * 2 = omega (arith, length-pack (take m xs), length-take m xs) in
        let dl : length d ≡ length b + 2 = omega (
          arith,
          length-pack (drop m xs),
          length-drop m xs,
          length-pack (drop (suc m) xs),
          length-drop (suc m) xs,
        ) in
        let at : (next_of (index_before (rank val xs)) - 1) * 2 ≡ m * 2 =
          omega (arith, next_of-index_before (rank val xs)) in
        let parts : is.content ≡ a ++ d =
          r.content ∙ ap pack (sym (take-append-drop m xs)) ∙ pack-append (take m xs) (drop m xs) in
        let behind : drop (m * 2 + 2) is.content ≡ b =
          ap (drop (m * 2 + 2)) r.content
          ∙ ap (λ k. drop k (pack xs)) {x = m * 2 + 2} {y = suc m * 2} (omega arith)
          ∙ drop-pack (suc m) xs in
        let w : Bytes = drop (length b) d in
        let split : is.content ≡ a ++ (take (length b) d ++ w) =
          parts ∙ ap (λ t. a ++ t) (sym (take-append-drop (length b) d)) in
        let moved : copy_into (m * 2) b is.content ≡ some (a ++ (b ++ w)) =
          ap (copy_into (m * 2) b) split
          ∙ copy_into-append (m * 2) a b (take (length b) d) w (sym al)
              (omega (arith, length-take (length b) d)) in
        let wl : length (a ++ (b ++ w)) ≡ length (a ++ b) + 2 = omega (
          arith,
          length-append a (b ++ w),
          length-append b w,
          length-append a b,
          length-drop (length b) d,
        ) in
        let cut : take (length (a ++ (b ++ w)) - 2) (a ++ (b ++ w)) ≡ a ++ b =
          cut_two (a ++ (b ++ w)) (a ++ b) w (sym (append_assoc a b w)) wl in
        let at_rank : take (rank val xs - 1) xs ++ drop (rank val xs) xs
            ≡ take m xs ++ drop (suc m) xs =
          rw e (ap (λ k. take k xs ++ drop (suc m) xs) {x = suc m - 1} {y = m} (omega arith)) in
        (
          record { count = is.count - 1; content = a ++ b },
          rw (search-rank val xs is r, holds_at-contains, old, at, behind, moved, cut),
          rw old (record {
            content = sym (
                ap pack (without-rank val xs r.sorted old ∙ at_rank)
                ∙ pack-append (take m xs) (drop (suc m) xs));
            count = omega (arith, r.count, length-without val xs old);
            sorted = IsSorted-without val xs r.sorted;
            fit = AllFit-without val xs r.fit;
          }),
        )
  ]
