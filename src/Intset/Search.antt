-- ===== src/Intset/Search.antt =====
-- `Search` of internal/ds/intset.go finds the last member that is at most its argument.
use native.Mathlib.Numerals.{add-one}
use monster_db.Prelude.{
  ℕ, zero, suc, ◌+◌, ◌-◌, ◌/◌, ◌<◌, ◌≤◌, ◌≡◌, ◌∙◌, ap, arith, Bool-cases, inl, inr, Option, none,
  some, List, length, get_elem?, ltb, ◌>>=◌, if◌then◌else◌, get_elem?-some,
}
use monster_db.Prelude.Int.{ℤ, leb_ℤ}
use monster_db.Intset.{Intset, get, search, search_loop}
use monster_db.Intset.Packed.{Represents, rank, rank-le, get-pack, get-rank}

-- The index in front of `n`; -1 is `none`.
abbrev pub index_before : ℕ → Option ℕ
index_before zero = none
index_before (suc n) = some n

module _ (val : ℤ) (xs : List ℤ) (is : Intset) (r : Represents is xs) where
  -- `Get` inside the set.
  pub get-Represents : (i : ℕ) {x : ℤ} → get_elem? xs i ≡ some x → get i is ≡ some x
  get-Represents i e =
      ap (λ c. get i (record { count = is.count; content = c })) r.content
      ∙ get-pack is.count i xs r.fit e

  -- The loop with this fuel ends at the rank.
  abbrev Ends : ℕ → Type 0
  Ends fuel =
      (l next : ℕ)
      → l ≤ rank val xs
      → rank val xs ≤ next
      → next ≤ length xs
      → next < l + fuel
      → search_loop fuel val is l next (index_before l) ≡ some (index_before (rank val xs))

  search_round :
      (fuel l next m : ℕ) (x : ℤ)
      → Ends fuel
      → l ≤ rank val xs
      → rank val xs ≤ next
      → next ≤ length xs
      → next < l + suc fuel
      → get_elem? xs m ≡ some x
      → l ≤ m
      → m < next
      → (do
        y ← get m is
        let low = leb_ℤ y val
        search_loop fuel val is
            (if low then m + 1 else l)
            (if low then next else m)
            (if low then some m else index_before l))
        ≡ some (index_before (rank val xs))
  search_round fuel l next m x further p q h f e from to =
      let cut = get-rank val m xs r.sorted e in
      elim (Bool-cases (leb_ℤ x val)) [
        | inl low ↦
            rw (get-Represents m e, low)
              (ap (search_loop fuel val is (m + 1) next) {x = some m} {y = index_before (m + 1)}
                  (rw add-one)
                ∙ further (m + 1) next (ground (arith, cut.0)) q h (omega arith))
        | inr high ↦
            rw (get-Represents m e, high)
              (further l m p (ground (arith, cut.1)) (omega arith) (omega arith))
      ]

  search_loop-rank : (fuel : ℕ) → Ends fuel
  unfolding search_loop
  search_loop-rank zero l next p q h f = absurd (omega arith)
  search_loop-rank (suc fuel) l next p q h f = elim (Bool-cases (ltb l next)) [
    | inr out ↦ rw out (ap (λ k. some (index_before k)) {x = l} {y = rank val xs} (ground arith))
    | inl on ↦
        let (x, e) = get_elem?-some ((l + next - 1) / 2) xs (ground arith) in
        rw on (
          search_round fuel l next ((l + next - 1) / 2) x (search_loop-rank fuel) p q h f e
            (ground arith) (ground arith))
  ]

  -- `Search` returns on every well-formed set, and its result is the index in front of the first
  -- member above `val`, or -1 if all are above.
  pub search-rank : search val is ≡ some (index_before (rank val xs))
  unfolding search
  search-rank =
      search_loop-rank (suc is.count) 0 is.count (omega arith)
        (omega (arith, r.count, rank-le val xs)) (omega (arith, r.count)) (omega arith)
