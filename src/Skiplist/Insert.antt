-- ===== src/Skiplist/Insert.antt =====
-- `Insert` of internal/ds/skiplist.go.
use monster_db.Prelude.{
  ℕ, zero, suc, ◌+◌, ◌≤◌, ◌≡◌, ◌⊎◌, refl, sym, ap, subst, ◌∙◌, arith, Bool, false, Bool-cases, inl,
  inr, none, List, [], ◌∷◌, map, length, take, drop, ltb, ◌==◌, if◌then◌else◌,
}
use monster_db.Prelude.Int.{ℤ}
use monster_db.Prelude.Bytes.{Bytes}
use monster_db.Skiplist.{
  SkiplistNode, Chain, Skiplist, below_score, skip, updates, chain_at, insert,
}
use monster_db.Skiplist.Walk.{In, AllOther, IsUnique, Nested, AllChains, updates-skip}
use monster_db.Skiplist.Linked.{
  IsSorted, AllBelow, IsBlank, IsSkiplist, IsSorted-ComeFirst, AllChains-map, AllChains-take,
  Nested-take, place, place_levels, link-place,
}

pub In-place :
    (less : SkiplistNode → Bool) (n m : SkiplistNode) (c : Chain)
    → In m (place less n c)
    → (m ≡ n) ⊎ In m c
In-place less n m [] h = h
In-place less n m (k ∷ c) h = elim (Bool-cases (less k)) [
  | inr e ↦ rw e at h
  | inl e ↦ elim (rw e at h) [
    | inl f ↦ inr (inl f)
    | inr g ↦ elim (In-place less n m c g) [ inl f ↦ inl f | inr i ↦ inr (inr i) ]
  ]
]

pub place-In :
    (less : SkiplistNode → Bool) (n m : SkiplistNode) (c : Chain)
    → (m ≡ n) ⊎ In m c
    → In m (place less n c)
place-In less n m [] h = h
place-In less n m (k ∷ c) h = elim (Bool-cases (less k)) [
  | inr e ↦ rw e h
  | inl e ↦ rw e (elim h [
    | inl f ↦ inr (place-In less n m c (inl f))
    | inr (inl f) ↦ inl f
    | inr (inr i) ↦ inr (place-In less n m c (inr i))
  ])
]

place-IsSorted :
    (n : SkiplistNode) (c : Chain) → IsSorted c → IsSorted (place (below_score n.score) n c)
place-IsSorted n [] h = (λ m i. absurd i, tt)
place-IsSorted n (k ∷ c) h = elim (Bool-cases (below_score n.score k)) [
  | inl e ↦ rw e (
    λ m i. elim (In-place (below_score n.score) n m c i) [
      | inl f ↦ rw f (ground (arith, e))
      | inr j ↦ h.0 m j
    ],
    place-IsSorted n c h.1,
  )
  | inr e ↦
      rw e
        (λ m i. elim i [ inl f ↦ rw f (ground (arith, e)) | inr j ↦ ground (arith, e, h.0 m j) ], h)
]

place-AllOther :
    (less : SkiplistNode → Bool) (n : SkiplistNode) (i : ℕ) (c : Chain)
    → (n.id == i) ≡ false
    → AllOther i c
    → AllOther i (place less n c)
place-AllOther less n i [] e h = (e, tt)
place-AllOther less n i (k ∷ c) e h = elim (Bool-cases (less k)) [
  | inl f ↦ rw f (h.0, place-AllOther less n i c e h.1)
  | inr f ↦ rw f (e, h)
]

AllBelow-AllOther : (i : ℕ) (c : Chain) → AllBelow i c → AllOther i c
AllBelow-AllOther i [] h = tt
AllBelow-AllOther i (k ∷ c) h = (ground arith, AllBelow-AllOther i c h.1)

place-IsUnique :
    (less : SkiplistNode → Bool) (n : SkiplistNode) (c : Chain)
    → AllBelow n.id c
    → IsUnique c
    → IsUnique (place less n c)
place-IsUnique less n [] b u = (tt, tt)
place-IsUnique less n (k ∷ c) b u = elim (Bool-cases (less k)) [
  | inl f ↦ rw f (place-AllOther less n k.id c (ground arith) u.0, place-IsUnique less n c b.1 u.1)
  | inr f ↦ rw f (AllBelow-AllOther n.id (k ∷ c) b, u)
]

AllBelow-suc : (i : ℕ) (c : Chain) → AllBelow i c → AllBelow (i + 1) c
AllBelow-suc i [] h = tt
AllBelow-suc i (k ∷ c) h = (omega arith, AllBelow-suc i c h.1)

place-AllBelow :
    (less : SkiplistNode → Bool) (n : SkiplistNode) (c : Chain)
    → AllBelow n.id c
    → AllBelow (n.id + 1) (place less n c)
place-AllBelow less n [] h = (omega arith, tt)
place-AllBelow less n (k ∷ c) h = elim (Bool-cases (less k)) [
  | inl f ↦ rw f (omega arith, place-AllBelow less n c h.1)
  | inr f ↦ rw f (omega arith, AllBelow-suc n.id (k ∷ c) h)
]

-- What holds of a chain and of a chain with the node holds of all levels.
place_levels-AllChains {ℓ κ} :
    (P : Chain → Type ℓ) (Q : Chain → Type κ) (k : ℕ) (less : SkiplistNode → Bool)
    (n : SkiplistNode) (cs : List Chain)
    → ((c : Chain) → P c → Q c)
    → ((c : Chain) → P c → Q (place less n c))
    → AllChains P cs
    → AllChains Q (place_levels k less n cs)
place_levels-AllChains P Q zero less n cs f g h = AllChains-map cs f h
place_levels-AllChains P Q (suc k) less n [] f g h = tt
place_levels-AllChains P Q (suc k) less n (c ∷ cs) f g h =
    (g c h.0, place_levels-AllChains P Q k less n cs f g h.1)

AllChains-both {ℓ κ} :
    (P : Chain → Type ℓ) (Q : Chain → Type κ) (cs : List Chain)
    → AllChains P cs
    → AllChains Q cs
    → AllChains (λ c. P c × Q c) cs
AllChains-both P Q [] g h = tt
AllChains-both P Q (c ∷ cs) g h = ((g.0, h.0), AllChains-both P Q cs g.1 h.1)

place_levels-Nested :
    (k : ℕ) (less : SkiplistNode → Bool) (n : SkiplistNode) (cs : List Chain)
    → Nested cs
    → Nested (place_levels k less n cs)
place_levels-Nested zero less n cs h = h
place_levels-Nested (suc k) less n [] h = tt
place_levels-Nested (suc zero) less n (c ∷ []) h = tt
place_levels-Nested (suc (suc k)) less n (c ∷ []) h = tt
place_levels-Nested (suc zero) less n (c ∷ d ∷ cs) h =
    (λ m i. place-In less n m c (inr (h.0 m i)), h.1)
place_levels-Nested (suc (suc k)) less n (c ∷ d ∷ cs) h = (
  λ m i.
      place-In less n m c (elim (In-place less n m d i) [ inl e ↦ inl e | inr j ↦ inr (h.0 m j) ]),
  place_levels-Nested (suc k) less n (d ∷ cs) h.1,
)

length-place_levels :
    (k : ℕ) (less : SkiplistNode → Bool) (n : SkiplistNode) (cs : List Chain)
    → length (place_levels k less n cs) ≡ length cs
length-place_levels zero less n cs = refl
length-place_levels (suc k) less n [] = refl
length-place_levels (suc k) less n (c ∷ cs) = ap suc (length-place_levels k less n cs)

drop-place_levels :
    (k a : ℕ) (less : SkiplistNode → Bool) (n : SkiplistNode) (cs : List Chain)
    → k ≤ a
    → drop a (place_levels k less n cs) ≡ drop a cs
drop-place_levels zero a less n cs h = refl
drop-place_levels (suc k) zero less n cs h = absurd (omega arith)
drop-place_levels (suc k) (suc a) less n [] h = refl
drop-place_levels (suc k) (suc a) less n (c ∷ cs) h = drop-place_levels k a less n cs (omega arith)

drop-IsBlank :
    (b a : ℕ) (cs : List Chain)
    → b ≤ a
    → AllChains IsBlank (drop b cs)
    → AllChains IsBlank (drop a cs)
drop-IsBlank zero zero cs h e = e
drop-IsBlank zero (suc a) [] h e = tt
drop-IsBlank zero (suc a) (c ∷ cs) h e = drop-IsBlank zero a cs (omega arith) e.1
drop-IsBlank (suc b) zero cs h e = absurd (omega arith)
drop-IsBlank (suc b) (suc a) [] h e = tt
drop-IsBlank (suc b) (suc a) (c ∷ cs) h e = drop-IsBlank b a cs (omega arith) e

chain_at-place_levels :
    (k : ℕ) (less : SkiplistNode → Bool) (n : SkiplistNode) (cs : List Chain)
    → length cs ≡ 17
    → chain_at 0 (place_levels (k + 1) less n cs) ≡ place less n (chain_at 0 cs)
chain_at-place_levels k less n [] h = absurd (omega arith)
chain_at-place_levels k less n (c ∷ cs) h = ground arith

forward-insert :
    (lvl : ℕ) (member : Bytes) (score : ℤ) (sl : Skiplist)
    → IsSkiplist sl
    → ((insert lvl member score sl).1).forward
      ≡ place_levels
          (lvl + 1)
          (below_score score)
          (record { id = sl.next_id; member = member; score = score })
          sl.forward
unfolding insert
forward-insert lvl member score sl h =
    let less = below_score score in
    let low : List Chain = take (sl.level + 1) sl.forward in
    let walked : updates less low ≡ map (skip less none) low =
      updates-skip less low
        (AllChains-map low (IsSorted-ComeFirst score)
          (AllChains-take IsSorted (sl.level + 1) sl.forward h.sorted))
        (Nested-take (sl.level + 1) sl.forward h.nested) in
    rw walked (
      link-place (lvl + 1) (sl.level + 1) less
        (record { id = sl.next_id; member = member; score = score }) sl.forward h.unique h.above)

-- Insert, at any height up to the greatest: the skip list stays well formed, the lowest level has
-- the new node in front of the first whose score is not smaller, and so have all levels up to the
-- node's height, while those above are as before.
pub insert-IsSkiplist :
    (lvl : ℕ) (member : Bytes) (score : ℤ) (sl : Skiplist)
    → IsSkiplist sl
    → lvl ≤ 16
    → IsSkiplist ((insert lvl member score sl).1)
      × (((insert lvl member score sl).1).forward
          ≡ place_levels (lvl + 1) (below_score score) ((insert lvl member score sl).0) sl.forward)
      × (chain_at 0 (((insert lvl member score sl).1).forward)
          ≡ place (below_score score) ((insert lvl member score sl).0) (chain_at 0 sl.forward))
unfolding insert
insert-IsSkiplist lvl member score sl h bound =
    let n : SkiplistNode = record { id = sl.next_id; member = member; score = score } in
    let less = below_score score in
    let placed : List Chain = place_levels (lvl + 1) less n sl.forward in
    let e = forward-insert lvl member score sl h in
    let level' : ℕ = if ltb sl.level lvl then lvl else sl.level in
    let higher : sl.level ≤ level' = ground arith in
    let covers : lvl + 1 ≤ level' + 1 = ground arith in
    (
      record {
        levels = ap length e ∙ length-place_levels (lvl + 1) less n sl.forward ∙ h.levels;
        level = ground (arith, h.level);
        above =
            subst (λ cs. AllChains IsBlank (drop (level' + 1) cs)) (sym e)
              (subst (AllChains IsBlank)
                (sym (drop-place_levels (lvl + 1) (level' + 1) less n sl.forward covers))
                (drop-IsBlank (sl.level + 1) (level' + 1) sl.forward (omega (arith, higher))
                  h.above));
        sorted = subst (AllChains IsSorted) (sym e) (
            place_levels-AllChains IsSorted IsSorted (lvl + 1) less n sl.forward (λ c s. s)
              (place-IsSorted n) h.sorted);
        unique = subst (AllChains IsUnique) (sym e) (
            place_levels-AllChains (λ c. AllBelow sl.next_id c × IsUnique c) IsUnique (lvl + 1) less
              n sl.forward (λ c u. u.1) (λ c u. place-IsUnique less n c u.0 u.1)
              (AllChains-both (AllBelow sl.next_id) IsUnique sl.forward h.old h.unique));
        nested = subst Nested (sym e) (place_levels-Nested (lvl + 1) less n sl.forward h.nested);
        old = subst (AllChains (AllBelow (sl.next_id + 1))) (sym e) (
            place_levels-AllChains (AllBelow sl.next_id) (AllBelow (sl.next_id + 1)) (lvl + 1) less
              n sl.forward (AllBelow-suc sl.next_id) (place-AllBelow less n) h.old);
      },
      e,
      ap (chain_at 0) e ∙ chain_at-place_levels lvl less n sl.forward h.levels,
    )
