-- ===== src/Skiplist/Unlink.antt =====
-- The loop of `Delete` of internal/ds/skiplist.go that takes a node out of the levels.
use monster_db.Prelude.{
  ℕ, zero, suc, ◌≡◌, refl, sym, ap, subst, ◌∙◌, arith, true, false, Bool-cases, inl, inr, none,
  List, [], ◌∷◌, map, take, drop, ◌==◌,
}
use monster_db.Prelude.Int.{ltb_ℤ, eqb_ℤ, ◌≤ℤ◌}
use monster_db.Skiplist.{SkiplistNode, Chain, precedes, is_node, skip, drop_first, unlink}
use monster_db.Skiplist.Walk.{
  In, IsUnique, AllChains, change_place, change_after-skip, In-AllOther, same_id,
}
use monster_db.Skiplist.Linked.{IsSorted, IsBlank}
use monster_db.Skiplist.Remove.{remove, remove_absent}
use monster_db.Skiplist.Find.{not_node, same_score}

-- Two nodes of a chain with one number are one.
pub In-same : (c : Chain) (n m : SkiplistNode) → IsUnique c → In n c → In m c → n.id ≡ m.id → n ≡ m
In-same [] n m u i j e = absurd i
In-same (k ∷ c) n m u (inl f) (inl g) e = f ∙ sym g
In-same (k ∷ c) n m u (inl f) (inr j) e =
    absurd (cc (In-AllOther k.id m c u.0 j, same_id k.id, sym e ∙ ap (λ x. x.id) f))
In-same (k ∷ c) n m u (inr i) (inl g) e =
    absurd (cc (In-AllOther k.id n c u.0 i, same_id k.id, e ∙ ap (λ x. x.id) g))
In-same (k ∷ c) n m u (inr i) (inr j) e = In-same c n m u.1 i j e

-- Every node of the score is this one, in the chain and all it stands within.
abbrev pub OnlyAt : SkiplistNode → Chain → Type 0
OnlyAt n c =
    (k : SkiplistNode) → In k c → (k.score ≡ n.score → k ≡ n) × ((k.id == n.id) ≡ true → k ≡ n)

greater_gone :
    (n k : SkiplistNode) (c : Chain)
    → OnlyAt n (k ∷ c)
    → IsSorted (k ∷ c)
    → ltb_ℤ k.score n.score ≡ false
    → (k.id == n.id) ≡ false
    → (m : SkiplistNode) → In m c
    → (m.id == n.id) ≡ false
greater_gone n k c o s e f m i = elim (Bool-cases (m.id == n.id)) [
  | inr g ↦ g
  | inl g ↦
      let same : m ≡ n = (o m (inr i)).1 g in
      let order : k.score ≤ℤ n.score = subst (λ x. k.score ≤ℤ x.score) same (s.0 m i) in
      let tied : eqb_ℤ k.score n.score ≡ true = ground (arith, e, order) in
      let one : k ≡ n = (o k (inl refl)).0 (same_score k n.score tied) in
      absurd (cc (f, ap (λ x. x.id == n.id) one, same_id n.id))
]

-- Taken out behind the walk is taken out.
change_place-drop_first :
    (n : SkiplistNode) (c : Chain)
    → OnlyAt n c
    → IsSorted c
    → is_node n.member n.score n ≡ true
    → change_place (drop_first n.id) (precedes n.member n.score) c ≡ remove n.id c
change_place-drop_first n [] o s w = refl
change_place-drop_first n (k ∷ c) o s w = elim (Bool-cases (precedes n.member n.score k)) [
  | inl e ↦ elim (Bool-cases (k.id == n.id)) [
    | inl f ↦
        let same : k ≡ n = (o k (inl refl)).1 f in
        absurd (cc (w, not_node n.member n.score k e, ap (is_node n.member n.score) same))
    | inr f ↦ rw (e, f) (ap (λ x. k ∷ x) (change_place-drop_first n c (λ m i. o m (inr i)) s.1 w))
  ]
  | inr e ↦ elim (Bool-cases (k.id == n.id)) [
    | inl f ↦ rw (e, f) refl
    | inr f ↦
        let high : ltb_ℤ k.score n.score ≡ false = ground (arith, e) in
        rw (e, f) (ap (λ x. k ∷ x) (sym (remove_absent n.id c (greater_gone n k c o s high f))))
  ]
]

-- The loop over the levels, with nothing above the lowest `l`.
pub unlink-remove :
    (l : ℕ) (n : SkiplistNode) (cs : List Chain)
    → AllChains (OnlyAt n) cs
    → AllChains IsSorted cs
    → AllChains IsUnique cs
    → is_node n.member n.score n ≡ true
    → AllChains IsBlank (drop l cs)
    → unlink n.id (map (skip (precedes n.member n.score) none) (take l cs)) cs
      ≡ map (remove n.id) cs
unfolding unlink
unlink-remove zero n [] o s u w b = refl
unlink-remove zero n (c ∷ cs) o s u w b =
    rw b.0 (ap (λ x. [] ∷ x) (unlink-remove zero n cs o.1 s.1 u.1 w b.1))
unlink-remove (suc l) n [] o s u w b = refl
unlink-remove (suc l) n (c ∷ cs) o s u w b =
    rw
      (
        change_after-skip (drop_first n.id) (precedes n.member n.score) c u.0,
        change_place-drop_first n c o.0 s.0 w,
        unlink-remove l n cs o.1 s.1 u.1 w b,
      )
      refl
