-- ===== src/Intset/Members.antt =====
-- The members of a sorted list: insertion, removal and membership by recursion, and the same at the
-- rank.
use monster_db.Prelude.{
  ℕ, zero, suc, ◌-◌, ◌≡◌, refl, subst, ◌∙◌, ap, arith, Bool, true, false, Bool-cases, inl, inr,
  ◌||◌, some, List, [], ◌∷◌, ◌++◌, take, drop, get_elem?, if◌then◌else◌,
}
use monster_db.Prelude.Int.{ℤ, leb_ℤ, eqb_ℤ, ◌≤ℤ◌}
use monster_db.Intset.Packed.{AllAbove, IsSorted, rank, rank_above, above-elem, get-rank}

unfoldable pub contains : ℤ → List ℤ → Bool
contains val [] = false
contains val (x ∷ xs) = eqb_ℤ x val || contains val xs

unfoldable pub insert : ℤ → List ℤ → List ℤ
insert val [] = val ∷ []
insert val (x ∷ xs) = if leb_ℤ x val then x ∷ insert val xs else val ∷ x ∷ xs

unfoldable pub without : ℤ → List ℤ → List ℤ
without val [] = []
without val (x ∷ xs) = if eqb_ℤ x val then xs else x ∷ without val xs

contains_above : (val x : ℤ) (xs : List ℤ) → AllAbove x xs → val ≤ℤ x → contains val xs ≡ false
unfolding contains
contains_above val x [] h p = refl
contains_above val x (y ∷ xs) h p = ground (arith, contains_above val x xs)

pub rank_zero : (val : ℤ) (xs : List ℤ) → rank val xs ≡ 0 → contains val xs ≡ false
unfolding rank contains
rank_zero val [] e = refl
rank_zero val (x ∷ xs) e = ground (arith, rank_zero val xs)

rank-low : (val x : ℤ) (xs : List ℤ) → leb_ℤ x val ≡ true → rank val (x ∷ xs) ≡ suc (rank val xs)
unfolding rank
rank-low val x xs h = ground arith

rank-high : (val x : ℤ) (xs : List ℤ) → AllAbove x xs → leb_ℤ x val ≡ false → rank val (x ∷ xs) ≡ 0
unfolding rank
rank-high val x xs s h = ground (arith, rank_above val x xs s)

rank-suc :
    (val x : ℤ) (xs : List ℤ) (k : ℕ)
    → AllAbove x xs
    → rank val (x ∷ xs) ≡ suc k
    → (leb_ℤ x val ≡ true) × (rank val xs ≡ k)
rank-suc val x xs k s e = elim (Bool-cases (leb_ℤ x val)) [
  | inl low ↦ (low, omega (arith, rank-low val x xs low))
  | inr high ↦ absurd (omega (arith, rank-high val x xs s high))
]

-- The last member that is at most `val` tells whether `val` is a member.
pub contains-rank :
    (val : ℤ) (k : ℕ) (xs : List ℤ) {x : ℤ}
    → IsSorted xs
    → rank val xs ≡ suc k
    → get_elem? xs k ≡ some x
    → contains val xs ≡ eqb_ℤ x val
unfolding contains
contains-rank val k [] s e f = absurd (cc)
contains-rank val zero (y ∷ xs) {x} s e f =
    let same : y ≡ x = cc in
    subst (λ t. (eqb_ℤ y val || contains val xs) ≡ eqb_ℤ t val) same
      (ground (arith, rank_zero val xs (rank-suc val y xs 0 s.0 e).1))
contains-rank val (suc k) (y ∷ xs) {x} s e f =
    let (low, r) = rank-suc val y xs (suc k) s.0 e in
    let ih : contains val xs ≡ eqb_ℤ x val = contains-rank val k xs s.1 r f in
    let higher = above-elem y k xs s.0 f in
    let under = (get-rank val k xs s.1 f).1 (omega arith) in rw ih (ground arith)

pub insert-rank :
    (val : ℤ) (xs : List ℤ)
    → IsSorted xs
    → insert val xs ≡ take (rank val xs) xs ++ val ∷ drop (rank val xs) xs
unfolding insert
insert-rank val [] s = unfold rank in refl
insert-rank val (y ∷ xs) s = elim (Bool-cases (leb_ℤ y val)) [
  | inl low ↦ rw (rank-low val y xs low, low) (ap (λ t. y ∷ t) (insert-rank val xs s.1))
  | inr high ↦ rw (rank-high val y xs s.0 high, high)
]

rank_equal : (val x : ℤ) (xs : List ℤ) → AllAbove x xs → eqb_ℤ x val ≡ true → rank val xs ≡ 0
unfolding rank
rank_equal val x [] s h = refl
rank_equal val x (y ∷ xs) s h = ground (arith, rank_equal val x xs)

pub rank_pos : (val : ℤ) (xs : List ℤ) → contains val xs ≡ true → (m : ℕ) × (rank val xs ≡ suc m)
unfolding rank
rank_pos val xs h = (rank val xs - 1, ground (arith, rank_zero val xs))

pub without-rank :
    (val : ℤ) (xs : List ℤ)
    → IsSorted xs
    → contains val xs ≡ true
    → without val xs ≡ take (rank val xs - 1) xs ++ drop (rank val xs) xs
unfolding without contains
without-rank val [] s c = cc
without-rank val (y ∷ xs) s c = elim (Bool-cases (eqb_ℤ y val)) [
  | inl here ↦
      let one : rank val (y ∷ xs) ≡ 1 =
        rank-low val y xs (ground arith) ∙ ap suc (rank_equal val y xs s.0 here) in
      rw (one, here)
  | inr there ↦
      let deep : contains val xs ≡ true = ground arith in
      let low : leb_ℤ y val ≡ true = ground (arith, contains_above val y xs) in
      let (m, r) = rank_pos val xs deep in
      let ih : without val xs ≡ take m xs ++ drop (suc m) xs =
        without-rank val xs s.1 deep
        ∙ rw r (ap (λ k. take k xs ++ drop (suc m) xs) {x = suc m - 1} {y = m} (omega arith)) in
      rw (rank-low val y xs low, r, there, ih)
        (ap (λ k. take k (y ∷ xs) ++ drop (suc m) xs) {x = suc m} {y = suc (suc m) - 1}
          (omega arith))
]
