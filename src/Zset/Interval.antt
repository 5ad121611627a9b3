-- ===== src/Zset/Interval.antt =====
-- `Range` of internal/store/zset.go is a slice of the members in the order of the list.
use monster_db.Prelude.{
  ℕ, zero, suc, ◌+◌, ◌-◌, ◌≡◌, refl, ap, ◌∙◌, arith, Bool-cases, inl, inr, [], ◌∷◌, map, take, drop,
}
use monster_db.Prelude.Int.{ℤ, pos, negsuc, ltb_ℤ, leb_ℤ}
use monster_db.Skiplist.{SkiplistNode, Chain, chain_at, skip_to, take_to, zrange}
use monster_db.Zset.{Zset, range}

-- The first index of a range, and the first behind it: a negative one stands for no index.
abbrev pub first_index : ℤ → ℕ
first_index (pos a) = a
first_index (negsuc a) = 0

abbrev pub end_index : ℤ → ℕ
end_index (pos b) = b + 1
end_index (negsuc b) = 0

take_empty : (k : ℕ) → (the_chain : Chain) → the_chain ≡ [] → the_chain ≡ take k the_chain
take_empty zero c e = e
take_empty (suc k) c e = rw e refl

take_to-take : (last : ℤ) (i : ℕ) (c : Chain) → take_to last i c ≡ take (end_index last - i) c
unfolding take_to
take_to-take last i [] = take_empty (end_index last - i) [] refl
take_to-take last i (n ∷ c) = elim (Bool-cases (leb_ℤ (pos i) last)) [
  | inl e ↦
      let more : end_index last - i ≡ suc (end_index last - suc i) = ground (arith, e) in
      rw (e, more) (ap (λ x. n ∷ x) (take_to-take last (suc i) c))
  | inr e ↦ let no_more : end_index last - i ≡ 0 = ground (arith, e) in rw (e, no_more) refl
]

nothing : (k j : ℕ) → [] ≡ take k (drop {A = SkiplistNode} j [])
nothing zero zero = refl
nothing (suc k) zero = refl
nothing zero (suc j) = refl
nothing (suc k) (suc j) = refl

skip_to-drop :
    (first : ℤ) (i : ℕ) (c : Chain) (last : ℤ)
    → (let (rest, index) = skip_to first i c in take_to last index rest)
      ≡ take (end_index last - (i + (first_index first - i))) (drop (first_index first - i) c)
unfolding skip_to
skip_to-drop first i [] last =
    unfold take_to in
    nothing (end_index last - (i + (first_index first - i))) (first_index first - i)
skip_to-drop first i (n ∷ c) last = elim (Bool-cases (ltb_ℤ (pos i) first)) [
  | inl e ↦
      let more : first_index first - i ≡ suc (first_index first - suc i) = ground (arith, e) in
      rw (e, more)
        (skip_to-drop first (suc i) c last
          ∙ ap (λ k. take (end_index last - k) (drop (first_index first - suc i) c))
              {x = suc i + (first_index first - suc i)} {y = i + suc (first_index first - suc i)}
              (omega arith))
  | inr e ↦
      let no_more : first_index first - i ≡ 0 = ground (arith, e) in
      rw (e, no_more)
        (take_to-take last i (n ∷ c)
          ∙ ap (λ k. take (end_index last - k) (n ∷ c)) {x = i} {y = i + 0} (omega arith))
]

-- Range gives the members of the lowest level from the first index up to the last, both counted from
-- 0; a negative first index stands for the start, and at a negative last index nothing is given.
pub range-take :
    (first last : ℤ) (z : Zset)
    → range first last z
      ≡ map
          (λ n. n.member)
          (take
            (end_index last - first_index first)
            (drop (first_index first) (chain_at 0 z.list.forward)))
unfolding range zrange
range-take first last z =
    let c : Chain = chain_at 0 z.list.forward in
    ap (map (λ n. n.member)) (
      skip_to-drop first 0 c last
      ∙ ap (λ k. take (end_index last - (0 + k)) (drop k c)) {x = first_index first - 0}
          {y = first_index first} (omega arith)
      ∙ ap (λ k. take (end_index last - k) (drop (first_index first) c)) {x = 0 + first_index first}
          {y = first_index first} (omega arith))
