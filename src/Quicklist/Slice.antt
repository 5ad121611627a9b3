-- ===== src/Quicklist/Slice.antt =====
-- `GetElements` of internal/ds/quicklist.go between two indices that are not negative: the slice
-- that it appends, and when the header in front of it is right.
use Prim.Native.Nat.{min}
use monster_db.Prelude.{
  ℕ, zero, suc, Bool-cases, inl, inr, ◌+◌, ◌-◌, ◌<◌, ◌≤◌, ◌≡◌, ◌^◌, refl, sym, ◌∙◌, ap, arith, some,
  List, [], ◌∷◌, length, take, drop, map, leb, length-take, length-drop,
}
use monster_db.Prelude.Int.{ℤ, pos, wrap64, ◌-ℤ◌, ◌+ℤ◌, ◌<ℤ◌}
use monster_db.Runtime.{Reply, array_len}
use monster_db.Listpack.Codec.{Value}
use monster_db.Quicklist.{Quicklist, get_elements, reply_of}
use monster_db.Quicklist.Nodes.{Represents}
use monster_db.Quicklist.Range.{range_from, range_from-past, get_elements-range_from}

take_nil : (n : ℕ) → take {A = Value} n [] ≡ []
take_nil zero = refl
take_nil (suc n) = refl

drop_nil : (n : ℕ) → drop {A = Value} n [] ≡ []
drop_nil zero = refl
drop_nil (suc n) = refl

range_from-take :
    (s b index : ℕ) (vs : List Value)
    → s ≤ index
    → range_from (pos s) (pos b) index vs ≡ take (b + 1 - index) vs
unfolding range_from
range_from-take s b index [] h = sym (take_nil (b + 1 - index))
range_from-take s b index (v ∷ vs) h = elim (Bool-cases (leb index b)) [
  | inl on ↦
      let n : b + 1 - index ≡ suc (b + 1 - (index + 1)) = ground arith in
      rw (n, range_from-take s b (index + 1) vs (omega arith)) (ground arith)
  | inr off ↦
      let n : b + 1 - index ≡ 0 = ground arith in
      rw (n, range_from-past (pos s) (pos b) (index + 1) vs (ground arith)) (ground arith)
]

range_from-skip :
    (s b index : ℕ) (v : Value) (vs : List Value)
    → index < s
    → range_from (pos s) (pos b) index (v ∷ vs) ≡ range_from (pos s) (pos b) (index + 1) vs
unfolding range_from
range_from-skip s b index v vs h = ground arith

range_from-drop :
    (d b index : ℕ) (vs : List Value)
    → range_from (pos (index + d)) (pos b) index vs ≡ take (b + 1 - (index + d)) (drop d vs)
unfolding range_from
range_from-drop zero b index vs =
    rw (range_from-take (index + 0) b index vs (omega arith))
      (ap (λ k. take k vs) {x = b + 1 - index} {y = b + 1 - (index + 0)} (omega arith))
range_from-drop (suc d) b index [] = sym (take_nil (b + 1 - (index + suc d)))
range_from-drop (suc d) b index (v ∷ vs) =
    let e : index + suc d ≡ index + 1 + d = omega arith in
    range_from-skip (index + suc d) b index v vs (omega arith)
    ∙ ap (λ k. range_from (pos k) (pos b) (index + 1) vs) e
    ∙ range_from-drop d b (index + 1) vs
    ∙ ap (λ k. take (b + 1 - k) (drop d vs)) (sym e)

-- On a well-formed list with values in it and indices that are not negative, `GetElements` announces
-- `b - a + 1` values, which wraps as an int, and appends the slice from index `a` to index `b`, as far as it exists.
pub get_elements_slice :
    (a b : ℕ) (vs : List Value) (ql : Quicklist)
    → Represents ql vs
    → 0 < length vs
    → get_elements (pos a) (pos b) ql
      ≡ some (
          array_len (wrap64 (pos b -ℤ pos a +ℤ pos 1))
          ∷ map reply_of (take (b + 1 - a) (drop a vs)))
get_elements_slice a b vs ql r p =
    let s : range_from (pos a) (pos b) 0 vs ≡ take (b + 1 - a) (drop a vs) =
      ap (λ k. range_from (pos k) (pos b) 0 vs) {x = a} {y = 0 + a} (omega arith)
      ∙ range_from-drop a b 0 vs
      ∙ ap (λ k. take k (drop a vs)) {x = b + 1 - (0 + a)} {y = b + 1 - a} (omega arith) in
    rw (← s) (get_elements-range_from (pos a) (pos b) vs ql r p)

length-map : (vs : List Value) → length (map reply_of vs) ≡ length vs
length-map [] = refl
length-map (v ∷ vs) = ap suc (length-map vs)

-- A range that starts inside a well-formed list and does not end before its start, at indices below
-- 2^63 - 1: if it ends inside the list, the number that `GetElements` announces is the number of
-- replies that follow; if it ends past the end, it announces more than it appends.
pub get_elements_count :
    (a b : ℕ) (vs : List Value) (ql : Quicklist)
    → Represents ql vs
    → a ≤ b
    → b < 2 ^ 63 - 1
    → a < length vs
    → (n : ℤ) × (replies : List Reply) × (get_elements (pos a) (pos b) ql
        ≡ some (array_len n ∷ replies))
      × (b < length vs → n ≡ pos (length replies))
      × (length vs ≤ b → pos (length replies) <ℤ n)
get_elements_count a b vs ql r h bound p =
    let slice : List Value = take (b + 1 - a) (drop a vs) in
    let n : length slice ≡ min (b + 1 - a) (length vs - a) =
      omega (arith, length-take (b + 1 - a) (drop a vs), length-drop a vs) in
    let m : length (map reply_of slice) ≡ length slice = length-map slice in
    let announced : wrap64 (pos b -ℤ pos a +ℤ pos 1) ≡ pos (b + 1 - a) = ground arith in
    (
      pos (b + 1 - a),
      map reply_of slice,
      get_elements_slice a b vs ql r (omega arith) ∙ rw announced refl,
      λ q. ap pos (omega (arith, n, m, q)),
      λ q. omega (arith, n, m, q),
    )
