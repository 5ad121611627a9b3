-- ===== src/Intset/Kept.antt =====
-- Insertion and removal keep a list of int16 in ascending order.
use monster_db.Prelude.{
  ◌+◌, ◌-◌, ◌<◌, ◌≡◌, arith, true, false, Bool-cases, inl, inr, List, [], ◌∷◌, length,
}
use monster_db.Prelude.Int.{ℤ, leb_ℤ, eqb_ℤ, ◌<ℤ◌, FitsIn}
use monster_db.Intset.Packed.{AllFit, AllAbove, IsSorted}
use monster_db.Intset.Members.{contains, insert, without}

AllAbove-insert : (val x : ℤ) (xs : List ℤ) → AllAbove x xs → x <ℤ val → AllAbove x (insert val xs)
unfolding insert
AllAbove-insert val x [] h p = (p, tt)
AllAbove-insert val x (y ∷ xs) h p = elim (Bool-cases (leb_ℤ y val)) [
  | inl low ↦ rw low (h.0, AllAbove-insert val x xs h.1 p)
  | inr high ↦ rw high (p, h)
]

AllAbove-trans : (x y : ℤ) (xs : List ℤ) → x <ℤ y → AllAbove y xs → AllAbove x xs
AllAbove-trans x y [] p h = tt
AllAbove-trans x y (z ∷ xs) p h = (omega arith, AllAbove-trans x y xs p h.1)

pub IsSorted-insert :
    (val : ℤ) (xs : List ℤ) → IsSorted xs → contains val xs ≡ false → IsSorted (insert val xs)
unfolding insert contains
IsSorted-insert val [] s c = (tt, tt)
IsSorted-insert val (y ∷ xs) s c = elim (Bool-cases (leb_ℤ y val)) [
  | inl low ↦
      rw low
        (AllAbove-insert val y xs s.0 (ground arith), IsSorted-insert val xs s.1 (ground arith))
  | inr high ↦ rw high ((ground arith, AllAbove-trans val y xs (ground arith) s.0), s)
]

pub AllFit-insert : (val : ℤ) (xs : List ℤ) → AllFit xs → FitsIn 32768 val → AllFit (insert val xs)
unfolding insert
AllFit-insert val [] h f = (f, tt)
AllFit-insert val (y ∷ xs) h f = elim (Bool-cases (leb_ℤ y val)) [
  | inl low ↦ rw low (h.0, AllFit-insert val xs h.1 f)
  | inr high ↦ rw high (f, h)
]

AllAbove-without : (val x : ℤ) (xs : List ℤ) → AllAbove x xs → AllAbove x (without val xs)
unfolding without
AllAbove-without val x [] h = tt
AllAbove-without val x (y ∷ xs) h = elim (Bool-cases (eqb_ℤ y val)) [
  | inl here ↦ rw here h.1
  | inr there ↦ rw there (h.0, AllAbove-without val x xs h.1)
]

pub IsSorted-without : (val : ℤ) (xs : List ℤ) → IsSorted xs → IsSorted (without val xs)
unfolding without
IsSorted-without val [] s = tt
IsSorted-without val (y ∷ xs) s = elim (Bool-cases (eqb_ℤ y val)) [
  | inl here ↦ rw here s.1
  | inr there ↦ rw there (AllAbove-without val y xs s.0, IsSorted-without val xs s.1)
]

pub AllFit-without : (val : ℤ) (xs : List ℤ) → AllFit xs → AllFit (without val xs)
unfolding without
AllFit-without val [] h = tt
AllFit-without val (y ∷ xs) h = elim (Bool-cases (eqb_ℤ y val)) [
  | inl here ↦ rw here h.1
  | inr there ↦ rw there (h.0, AllFit-without val xs h.1)
]

pub length-insert : (val : ℤ) (xs : List ℤ) → length (insert val xs) ≡ length xs + 1
unfolding insert
length-insert val [] = omega arith
length-insert val (y ∷ xs) = ground (arith, length-insert val xs)

length_pos : (val : ℤ) (xs : List ℤ) → contains val xs ≡ true → 0 < length xs
unfolding contains
length_pos val [] h = cc
length_pos val (x ∷ xs) h = omega arith

pub length-without :
    (val : ℤ) (xs : List ℤ) → contains val xs ≡ true → length (without val xs) ≡ length xs - 1
unfolding without contains
length-without val [] h = cc
length-without val (y ∷ xs) h = elim (Bool-cases (eqb_ℤ y val)) [
  | inl here ↦ rw here (omega arith)
  | inr there ↦ ground (arith, length-without val xs, length_pos val xs)
]
