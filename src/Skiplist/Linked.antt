-- ===== src/Skiplist/Linked.antt =====
-- What is well formed in internal/ds/skiplist.go: every level is in the order of the scores, and
-- leads through nodes of the level below it.
use monster_db.Prelude.{
  ℕ, zero, suc, ◌+◌, ◌<◌, ◌≤◌, ◌≡◌, refl, ap, arith, Bool, none, List, [], ◌∷◌, map, length, take,
  drop, replicate,
}
use monster_db.Prelude.Int.{ℤ, ◌≤ℤ◌}
use monster_db.Skiplist.{
  SkiplistNode, Chain, Skiplist, new_skiplist, below_score, skip, link, change_after,
}
use monster_db.Skiplist.Walk.{
  In, ComeFirst, IsUnique, Nested, AllChains, change_place, change_after-skip,
}

abbrev pub IsSorted : Chain → Type 0
IsSorted [] = Unit {0}
IsSorted (n ∷ c) = ((m : SkiplistNode) → In m c → n.score ≤ℤ m.score) × IsSorted c

abbrev pub AllBelow : ℕ → Chain → Type 0
AllBelow k [] = Unit {0}
AllBelow k (n ∷ c) = (n.id < k) × AllBelow k c

abbrev pub IsBlank : Chain → Type 0
IsBlank c = c ≡ []

pub record IsSkiplist (sl : Skiplist) : Type 0 where
  pub levels : length sl.forward ≡ 17
  pub level : sl.level ≤ 16
  pub above : AllChains IsBlank (drop (sl.level + 1) sl.forward)
  pub sorted : AllChains IsSorted sl.forward
  pub unique : AllChains IsUnique sl.forward
  pub nested : Nested sl.forward
  pub old : AllChains (AllBelow sl.next_id) sl.forward

AllChains-replicate {ℓ} : (P : Chain → Type ℓ) (k : ℕ) → P [] → AllChains P (replicate k [])
AllChains-replicate P zero h = tt
AllChains-replicate P (suc k) h = (h, AllChains-replicate P k h)

Nested-replicate : (k : ℕ) → Nested (replicate k [])
Nested-replicate zero = tt
Nested-replicate (suc zero) = tt
Nested-replicate (suc (suc k)) = (λ n h. h, Nested-replicate (suc k))

pub new_skiplist-IsSkiplist : IsSkiplist new_skiplist
unfolding new_skiplist
new_skiplist-IsSkiplist = record {
  levels = refl;
  level = omega arith;
  above = AllChains-replicate IsBlank 16 refl;
  sorted = AllChains-replicate IsSorted 17 tt;
  unique = AllChains-replicate IsUnique 17 tt;
  nested = Nested-replicate 17;
  old = AllChains-replicate (AllBelow 0) 17 tt;
}

pub IsSorted-ComeFirst : (s : ℤ) (c : Chain) → IsSorted c → ComeFirst (below_score s) c
IsSorted-ComeFirst s [] h = tt
IsSorted-ComeFirst s (n ∷ c) h = (λ m i e. ground (arith, h.0 m i), IsSorted-ComeFirst s c h.1)

pub AllChains-map {ℓ κ} :
    {P : Chain → Type ℓ} {Q : Chain → Type κ} (cs : List Chain)
    → ((c : Chain) → P c → Q c)
    → AllChains P cs
    → AllChains Q cs
AllChains-map [] f h = tt
AllChains-map (c ∷ cs) f h = (f c h.0, AllChains-map cs f h.1)

pub AllChains-take {ℓ} :
    (P : Chain → Type ℓ) (k : ℕ) (cs : List Chain) → AllChains P cs → AllChains P (take k cs)
AllChains-take P zero cs h = tt
AllChains-take P (suc k) [] h = tt
AllChains-take P (suc k) (c ∷ cs) h = (h.0, AllChains-take P k cs h.1)

pub Nested-take : (k : ℕ) (cs : List Chain) → Nested cs → Nested (take k cs)
Nested-take zero cs h = tt
Nested-take (suc k) [] h = tt
Nested-take (suc zero) (c ∷ []) h = tt
Nested-take (suc (suc k)) (c ∷ []) h = tt
Nested-take (suc zero) (c ∷ d ∷ cs) h = tt
Nested-take (suc (suc k)) (c ∷ d ∷ cs) h = (h.0, Nested-take (suc k) (d ∷ cs) h.1)

-- A node placed in front of the first that fails the test.
abbrev pub place : (SkiplistNode → Bool) → SkiplistNode → Chain → Chain
place less n = change_place (λ rest. n ∷ rest) less

-- A node placed at the lowest `k` levels.
abbrev pub place_levels : ℕ → (SkiplistNode → Bool) → SkiplistNode → List Chain → List Chain
place_levels zero less n cs = cs
place_levels (suc k) less n [] = []
place_levels (suc k) less n (c ∷ cs) = place less n c ∷ place_levels k less n cs

-- The updates of a walk along each of the lowest `l` levels, with nothing above them.
pub link-place :
    (k l : ℕ) (less : SkiplistNode → Bool) (n : SkiplistNode) (cs : List Chain)
    → AllChains IsUnique cs
    → AllChains IsBlank (drop l cs)
    → link k n (map (skip less none) (take l cs)) cs ≡ place_levels k less n cs
unfolding link
link-place zero l less n cs u b = refl
link-place (suc k) zero less n [] u b = refl
link-place (suc k) (suc l) less n [] u b = refl
link-place (suc k) zero less n (c ∷ cs) u b =
    rw b.0 (unfold change_after in ap (λ x. (n ∷ []) ∷ x) (link-place k zero less n cs u.1 b.1))
link-place (suc k) (suc l) less n (c ∷ cs) u b =
    rw (change_after-skip (λ rest. n ∷ rest) less c u.0, link-place k l less n cs u.1 b) refl
