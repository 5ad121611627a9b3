-- ===== src/Skiplist/Walk.antt =====
-- A walk of internal/ds/skiplist.go from the highest level down ends, at every level, where a walk
-- along this level alone ends.
use monster_db.Prelude.{
  ℕ, ◌≡◌, ◌⊎◌, refl, sym, ap, subst, ◌∙◌, arith, Bool, true, false, Bool-cases, inl, inr, Option,
  none, some, List, [], ◌∷◌, map, ◌==◌, ==_iff, if◌then◌else◌,
}
use monster_db.Skiplist.{SkiplistNode, Chain, after, skip, start, updates, change_after}

-- A node is in a chain.
abbrev pub In : SkiplistNode → Chain → Type 0
In n [] = ⊥
In n (m ∷ c) = (n ≡ m) ⊎ In n c

-- The nodes that pass a test come first.
abbrev pub ComeFirst : (SkiplistNode → Bool) → Chain → Type 0
ComeFirst less [] = Unit {0}
ComeFirst less (n ∷ c) =
    ((m : SkiplistNode) → In m c → less m ≡ true → less n ≡ true) × ComeFirst less c

-- No number stands twice.
abbrev pub AllOther : ℕ → Chain → Type 0
AllOther i [] = Unit {0}
AllOther i (n ∷ c) = ((n.id == i) ≡ false) × AllOther i c

abbrev pub IsUnique : Chain → Type 0
IsUnique [] = Unit {0}
IsUnique (n ∷ c) = AllOther n.id c × IsUnique c

-- Every chain has only nodes of the chain below it.
abbrev pub Within : Chain → Chain → Type 0
Within upper lower = (n : SkiplistNode) → In n upper → In n lower

abbrev pub Nested : List Chain → Type 0
Nested [] = Unit {0}
Nested (c ∷ []) = Unit {0}
Nested (c ∷ d ∷ cs) = Within d c × Nested (d ∷ cs)

abbrev pub AllChains {ℓ} : (Chain → Type ℓ) → List Chain → Type ℓ
AllChains P [] = Unit
AllChains P (c ∷ cs) = P c × AllChains P cs

-- A node with this number stands among the first that pass the test.
abbrev LiesFirst : (SkiplistNode → Bool) → ℕ → Chain → Type 0
LiesFirst less i [] = ⊥
LiesFirst less i (n ∷ c) = (less n ≡ true) × ((n.id ≡ i) ⊎ LiesFirst less i c)

ComeFirst-LiesFirst :
    (less : SkiplistNode → Bool) (m : SkiplistNode) (c : Chain)
    → ComeFirst less c
    → In m c
    → less m ≡ true
    → LiesFirst less m.id c
ComeFirst-LiesFirst less m [] f h p = h
ComeFirst-LiesFirst less m (n ∷ c) f (inl e) p =
    (subst (λ x. less x ≡ true) e p, inl (ap (λ x. x.id) (sym e)))
ComeFirst-LiesFirst less m (n ∷ c) f (inr h) p =
    (f.0 m h p, inr (ComeFirst-LiesFirst less m c f.1 h p))

-- Where a walk ends that gets anywhere does not depend on where it begins.
skip_anywhere :
    (less : SkiplistNode → Bool) (i : ℕ) (c : Chain) (a b : Option ℕ)
    → LiesFirst less i c
    → skip less a c ≡ skip less b c
unfolding skip
skip_anywhere less i [] a b h = absurd h
skip_anywhere less i (n ∷ c) a b h = rw h.0 refl

skip-after :
    (less : SkiplistNode → Bool) (i : ℕ) (c : Chain)
    → LiesFirst less i c
    → skip less (some i) (after (some i) c) ≡ skip less none c
unfolding skip after
skip-after less i [] h = absurd h
skip-after less i (n ∷ c) (p, h) = elim (Bool-cases (n.id == i)) [
  | inl e ↦ rw (e, p) (ap (λ k. skip less (some k) c) (sym ((==_iff n.id i).0 e)))
  | inr e ↦ elim h [
    | inl same ↦ cc (e, (==_iff n.id i).1 same)
    | inr deeper ↦
        rw (e, p) (skip-after less i c deeper ∙ skip_anywhere less i c none (some n.id) deeper)
  ]
]

-- A walk ends where it began, or at a node that passes the test.
pub skip-ends :
    (less : SkiplistNode → Bool) (a : Option ℕ) (c : Chain)
    → (skip less a c ≡ a)
      ⊎ ((n : SkiplistNode) × In n c × (less n ≡ true) × (skip less a c ≡ some n.id))
unfolding skip
skip-ends less a [] = inl refl
skip-ends less a (n ∷ c) = elim (Bool-cases (less n)) [
  | inr e ↦ inl (rw e refl)
  | inl e ↦ elim (skip-ends less (some n.id) c) [
    | inl f ↦ inr (n, inl refl, e, rw e f)
    | inr (m, h, p, f) ↦ inr (m, inr h, p, rw e f)
  ]
]

skip-updates :
    (less : SkiplistNode → Bool) (c : Chain) (cs : List Chain)
    → ComeFirst less c
    → Nested (c ∷ cs)
    → skip less (start (map (skip less none) cs)) (after (start (map (skip less none) cs)) c)
      ≡ skip less none c
skip-updates less c [] f n = unfold after in refl
skip-updates less c (d ∷ cs) f n = elim (skip-ends less none d) [
  | inl e ↦ rw e (unfold after in refl)
  | inr (m, h, p, e) ↦ rw e (skip-after less m.id c (ComeFirst-LiesFirst less m c f (n.0 m h) p))
]

Nested-tail : (c : Chain) (cs : List Chain) → Nested (c ∷ cs) → Nested cs
Nested-tail c [] n = tt
Nested-tail c (d ∷ cs) n = n.1

pub updates-skip :
    (less : SkiplistNode → Bool) (cs : List Chain)
    → AllChains (ComeFirst less) cs
    → Nested cs
    → updates less cs ≡ map (skip less none) cs
unfolding updates
updates-skip less [] f n = refl
updates-skip less (c ∷ cs) f n =
    rw (updates-skip less cs f.1 (Nested-tail c cs n), skip-updates less c cs f.0 n) refl

-- A change from the first node on that fails the test.
abbrev pub change_place : (Chain → Chain) → (SkiplistNode → Bool) → Chain → Chain
change_place f less [] = f []
change_place f less (m ∷ c) = if less m then m ∷ change_place f less c else f (m ∷ c)

abbrev pub rest : (SkiplistNode → Bool) → Chain → Chain
rest less [] = []
rest less (m ∷ c) = if less m then rest less c else m ∷ c

pub In-AllOther :
    (i : ℕ) (m : SkiplistNode) (c : Chain) → AllOther i c → In m c → (m.id == i) ≡ false
In-AllOther i m [] o h = absurd h
In-AllOther i m (n ∷ c) o (inl e) = subst (λ x. (x.id == i) ≡ false) (sym e) o.0
In-AllOther i m (n ∷ c) o (inr h) = In-AllOther i m c o.1 h

other_way : (i j : ℕ) → (j == i) ≡ false → (i == j) ≡ false
other_way i j h = ground arith

pub same_id : (i : ℕ) → (i == i) ≡ true
same_id i = ground arith

module _ (f : Chain → Chain) (less : SkiplistNode → Bool) where
  change_after-deeper :
      (m k : SkiplistNode) (c : Chain)
      → AllOther m.id (k ∷ c)
      → change_after f (skip less (some k.id) c) (m ∷ k ∷ c)
        ≡ m ∷ change_after f (skip less (some k.id) c) (k ∷ c)
  change_after-deeper m k c o = elim (skip-ends less (some k.id) c) [
    | inl e ↦ rw e (unfold change_after in rw (other_way m.id k.id o.0) refl)
    | inr (j, h, p, e) ↦
        rw e (unfold change_after in rw (other_way m.id j.id (In-AllOther m.id j c o.1 h)) refl)
  ]

  change_after-behind :
      (m : SkiplistNode) (c : Chain)
      → AllOther m.id c
      → IsUnique c
      → change_after f (skip less (some m.id) c) (m ∷ c) ≡ m ∷ change_place f less c
  change_after-behind m [] o u = unfold skip in unfold change_after in rw (same_id m.id) refl
  change_after-behind m (k ∷ c) o u = elim (Bool-cases (less k)) [
    | inl e ↦
        let step : skip less (some m.id) (k ∷ c) ≡ skip less (some k.id) c =
          unfold skip in rw e refl in
        rw (step, e)
          (change_after-deeper m k c o ∙ ap (λ x. m ∷ x) (change_after-behind k c u.0 u.1))
    | inr e ↦
        let step : skip less (some m.id) (k ∷ c) ≡ some m.id = unfold skip in rw e refl in
        rw (step, e) (unfold change_after in rw (same_id m.id) refl)
  ]

  pub change_after-skip :
      (c : Chain) → IsUnique c → change_after f (skip less none c) c ≡ change_place f less c
  change_after-skip [] u = unfold skip in unfold change_after in refl
  change_after-skip (m ∷ c) u = elim (Bool-cases (less m)) [
    | inl e ↦
        let step : skip less none (m ∷ c) ≡ skip less (some m.id) c = unfold skip in rw e refl in
        rw (step, e) (change_after-behind m c u.0 u.1)
    | inr e ↦
        let step : skip less none (m ∷ c) ≡ none = unfold skip in rw e refl in
        rw (step, e) (unfold change_after in refl)
  ]

after-deeper :
    (less : SkiplistNode → Bool) (m k : SkiplistNode) (c : Chain)
    → AllOther m.id (k ∷ c)
    → after (skip less (some k.id) c) (m ∷ k ∷ c) ≡ after (skip less (some k.id) c) (k ∷ c)
after-deeper less m k c o = elim (skip-ends less (some k.id) c) [
  | inl e ↦ rw e (unfold after in rw (other_way m.id k.id o.0) refl)
  | inr (j, h, p, e) ↦
      rw e (unfold after in rw (other_way m.id j.id (In-AllOther m.id j c o.1 h)) refl)
]

after-behind :
    (less : SkiplistNode → Bool) (m : SkiplistNode) (c : Chain)
    → AllOther m.id c
    → IsUnique c
    → after (skip less (some m.id) c) (m ∷ c) ≡ rest less c
after-behind less m [] o u = unfold skip in unfold after in rw (same_id m.id) refl
after-behind less m (k ∷ c) o u = elim (Bool-cases (less k)) [
  | inl e ↦
      let step : skip less (some m.id) (k ∷ c) ≡ skip less (some k.id) c =
        unfold skip in rw e refl in
      rw (step, e) (after-deeper less m k c o ∙ after-behind less k c u.0 u.1)
  | inr e ↦
      let step : skip less (some m.id) (k ∷ c) ≡ some m.id = unfold skip in rw e refl in
      rw (step, e) (unfold after in rw (same_id m.id) refl)
]

pub after-skip :
    (less : SkiplistNode → Bool) (c : Chain) → IsUnique c → after (skip less none c) c ≡ rest less c
after-skip less [] u = unfold skip in unfold after in refl
after-skip less (m ∷ c) u = elim (Bool-cases (less m)) [
  | inl e ↦
      let step : skip less none (m ∷ c) ≡ skip less (some m.id) c = unfold skip in rw e refl in
      rw (step, e) (after-behind less m c u.0 u.1)
  | inr e ↦
      let step : skip less none (m ∷ c) ≡ none = unfold skip in rw e refl in
      rw (step, e) (unfold after in refl)
]
