-- ===== src/Skiplist/Find.antt =====
-- `Search` of internal/ds/skiplist.go.
use monster_db.Prelude.{
  ℕ, suc, ◌+◌, ◌≡◌, ◌⊎◌, refl, sym, ap, ◌∙◌, arith, true, false, Bool-cases, inl, inr, Option, none,
  some, List, [], ◌∷◌, map, length, take, if◌then◌else◌,
}
use monster_db.Prelude.Int.{ℤ, ltb_ℤ, eqb_ℤ, ◌≤ℤ◌, eq_of_parts}
use monster_db.Prelude.Bytes.{Bytes, eqb, eqb→eq}
use monster_db.Skiplist.{
  SkiplistNode, Chain, Skiplist, ltb_bytes, precedes, is_node, after, skip, start, updates,
  chain_at, first_of, matching, search,
}
use monster_db.Skiplist.Walk.{
  In, ComeFirst, IsUnique, Within, Nested, AllChains, rest, updates-skip, after-skip,
}
use monster_db.Skiplist.Linked.{IsSorted, IsSkiplist, AllChains-map, AllChains-take, Nested-take}

-- The first node with a member and a score.
abbrev pub find_node : Bytes → ℤ → Chain → Option SkiplistNode
find_node member score [] = none
find_node member score (n ∷ c) = if is_node member score n then some n else find_node member score c

-- All nodes with the score have the same member.
abbrev pub TieFree : ℤ → Chain → Type 0
TieFree score c =
    (n m : SkiplistNode) → In n c → In m c → n.score ≡ score → m.score ≡ score → n.member ≡ m.member

-- Only one node has the score.
abbrev pub OneAt : ℤ → Chain → Type 0
OneAt score c = (n m : SkiplistNode) → In n c → In m c → n.score ≡ score → m.score ≡ score → n ≡ m

pub OneAt-TieFree : (score : ℤ) (c : Chain) → OneAt score c → TieFree score c
OneAt-TieFree score c o = λ n m i j e f. ap (λ x. x.member) (o n m i j e f)

pub ltb_bytes_irrefl : (s : Bytes) → ltb_bytes s s ≡ false
unfolding ltb_bytes
ltb_bytes_irrefl [] = refl
ltb_bytes_irrefl (a ∷ s) = ground (arith, ltb_bytes_irrefl s)

pub same_score : (n : SkiplistNode) (score : ℤ) → eqb_ℤ n.score score ≡ true → n.score ≡ score
same_score n score e = eq_of_parts n.score score (ground (arith, e))

abbrev Precedes : Bytes → ℤ → SkiplistNode → Type 0
Precedes member score n =
    (ltb_ℤ n.score score ≡ true)
    ⊎ ((ltb_ℤ n.score score ≡ false)
        × (eqb_ℤ n.score score ≡ true)
        × (ltb_bytes n.member member ≡ true))

precedes-cases :
    (member : Bytes) (score : ℤ) (n : SkiplistNode)
    → precedes member score n ≡ true
    → Precedes member score n
precedes-cases member score n e = elim (Bool-cases (ltb_ℤ n.score score)) [
  | inl f ↦ inl f
  | inr f ↦ inr (f, ground (arith, e, f), ground (arith, e, f))
]

not_below : (a s : ℤ) → ltb_ℤ a s ≡ false → a ≤ℤ s → eqb_ℤ a s ≡ true
not_below a s e f = ground (arith, e, f)

TieFree-tail : (score : ℤ) (n : SkiplistNode) (c : Chain) → TieFree score (n ∷ c) → TieFree score c
TieFree-tail score n c t = λ a b i j. t a b (inr i) (inr j)

TieFree-ComeFirst :
    (member : Bytes) (score : ℤ) (c : Chain)
    → TieFree score c
    → IsSorted c
    → ComeFirst (precedes member score) c
TieFree-ComeFirst member score [] t s = tt
TieFree-ComeFirst member score (n ∷ c) t s = (
  λ m i e. elim (precedes-cases member score m e) [
    | inl below ↦ ground (arith, below, s.0 m i)
    | inr (f, same, less) ↦ elim (Bool-cases (ltb_ℤ n.score score)) [
      | inl g ↦ rw g refl
      | inr g ↦
          let tied : eqb_ℤ n.score score ≡ true = ground (arith, g, same, f, s.0 m i) in
          let both : n.member ≡ m.member =
            t n m (inl refl) (inr i) (same_score n score tied) (same_score m score same) in
          rw (g, tied, both, less) refl
    ]
  ],
  TieFree-ComeFirst member score c (TieFree-tail score n c t) s.1,
)

pub not_node :
    (member : Bytes) (score : ℤ) (n : SkiplistNode)
    → precedes member score n ≡ true
    → is_node member score n ≡ false
not_node member score n e = elim (Bool-cases (is_node member score n)) [
  | inr f ↦ f
  | inl f ↦
      let same : n.member ≡ member = eqb→eq n.member member (ground (arith, f)) in
      let score_same : eqb_ℤ n.score score ≡ true = ground (arith, f) in
      let less : precedes member score n ≡ ltb_bytes n.member member = ground (arith, score_same) in
      absurd (cc (e, less, ap (λ x. ltb_bytes x member) same, ltb_bytes_irrefl member))
]

none_found :
    (member : Bytes) (score : ℤ) (c : Chain)
    → ((m : SkiplistNode) → In m c → is_node member score m ≡ false)
    → find_node member score c ≡ none
none_found member score [] h = refl
none_found member score (n ∷ c) h =
    rw (h n (inl refl)) (none_found member score c (λ m i. h m (inr i)))

-- Behind a node that is not in front of the place and is not looked for, nothing is found.
none_behind :
    (member : Bytes) (score : ℤ) (n m : SkiplistNode) (c : Chain)
    → TieFree score (n ∷ c)
    → IsSorted (n ∷ c)
    → precedes member score n ≡ false
    → is_node member score n ≡ false
    → In m c
    → is_node member score m ≡ false
none_behind member score n m c t s e f i = elim (Bool-cases (is_node member score m)) [
  | inr g ↦ g
  | inl g ↦
      let same : eqb_ℤ m.score score ≡ true = ground (arith, g) in
      let tied : eqb_ℤ n.score score ≡ true = ground (arith, e, same, s.0 m i) in
      let both : n.member ≡ m.member =
        t n m (inl refl) (inr i) (same_score n score tied) (same_score m score same) in
      let found : eqb n.member member ≡ true = ap (λ x. eqb x member) both ∙ ground (arith, g) in
      absurd (ground (arith, found, tied, f))
]

matching-find_node :
    (member : Bytes) (score : ℤ) (c : Chain)
    → TieFree score c
    → IsSorted c
    → matching member score (first_of (rest (precedes member score) c)) ≡ find_node member score c
matching-find_node member score [] t s = refl
matching-find_node member score (n ∷ c) t s = elim (Bool-cases (precedes member score n)) [
  | inl e ↦
      rw (e, not_node member score n e)
        (matching-find_node member score c (TieFree-tail score n c t) s.1)
  | inr e ↦ elim (Bool-cases (is_node member score n)) [
    | inl f ↦ rw (e, f) refl
    | inr f ↦
        rw (e, f)
          (sym (none_found member score c (λ m i. none_behind member score n m c t s e f i)))
  ]
]

Within-TieFree : (score : ℤ) (c d : Chain) → Within d c → TieFree score c → TieFree score d
Within-TieFree score c d w t = λ n m i j. t n m (w n i) (w m j)

-- Every level leads through nodes of the lowest.
pub Nested-Within :
    (c : Chain) (cs : List Chain) → Nested (c ∷ cs) → AllChains (λ d. Within d c) (c ∷ cs)
Nested-Within c [] n = (λ m i. i, tt)
Nested-Within c (d ∷ cs) n =
    (λ m i. i, AllChains-map (d ∷ cs) (λ e w m i. n.0 m (w m i)) (Nested-Within d cs n.1))

levels-ComeFirst :
    (member : Bytes) (score : ℤ) (c : Chain) (cs : List Chain)
    → TieFree score c
    → AllChains (λ d. Within d c) cs
    → AllChains IsSorted cs
    → AllChains (ComeFirst (precedes member score)) cs
levels-ComeFirst member score c [] t w s = tt
levels-ComeFirst member score c (d ∷ cs) t w s = (
  TieFree-ComeFirst member score d (Within-TieFree score c d w.0 t) s.0,
  levels-ComeFirst member score c cs t w.1 s.1,
)

-- The walk of `Search` and `Delete`.
pub walk-precedes :
    (member : Bytes) (score : ℤ) (level : ℕ) (c : Chain) (cs : List Chain)
    → TieFree score c
    → AllChains IsSorted (c ∷ cs)
    → Nested (c ∷ cs)
    → updates (precedes member score) (take (level + 1) (c ∷ cs))
      ≡ map (skip (precedes member score) none) (take (level + 1) (c ∷ cs))
walk-precedes member score level c cs t s n =
    updates-skip (precedes member score) (take (level + 1) (c ∷ cs))
      (AllChains-take (ComeFirst (precedes member score)) (level + 1) (c ∷ cs)
        (levels-ComeFirst member score c (c ∷ cs) t (Nested-Within c cs n) s))
      (Nested-take (level + 1) (c ∷ cs) n)

unfoldable pub found_node : Bytes → ℤ → ℕ → List Chain → Option SkiplistNode
found_node member score level cs = matching member score (
    first_of
      (after (start (updates (precedes member score) (take (level + 1) cs))) (chain_at 0 cs)))

-- A walk whose test the levels are in order for leads to where the lowest level goes over.
pub found_node-rest :
    (member : Bytes) (score : ℤ) (level : ℕ) (cs : List Chain)
    → length cs ≡ 17
    → AllChains (ComeFirst (precedes member score)) cs
    → AllChains IsUnique cs
    → Nested cs
    → found_node member score level cs
      ≡ matching member score (first_of (rest (precedes member score) (chain_at 0 cs)))
unfolding found_node
found_node-rest member score level [] l f u n = absurd (omega arith)
found_node-rest member score level (c ∷ cs) l f u n =
    let less = precedes member score in
    rw
      (updates-skip less (take (level + 1) (c ∷ cs))
        (AllChains-take (ComeFirst less) (level + 1) (c ∷ cs) f)
        (Nested-take (level + 1) (c ∷ cs) n))
      (ap
          (λ k.
            matching member score
              (first_of (after (start (map (skip less none) (take k (c ∷ cs)))) c)))
          {x = level + 1} {y = suc level} (omega arith)
        ∙ ap (λ d. matching member score (first_of d)) (after-skip less c u.0))

TieFree-levels :
    (member : Bytes) (score : ℤ) (cs : List Chain)
    → TieFree score (chain_at 0 cs)
    → AllChains IsSorted cs
    → Nested cs
    → AllChains (ComeFirst (precedes member score)) cs
TieFree-levels member score [] t s n = tt
TieFree-levels member score (c ∷ cs) t s n =
    levels-ComeFirst member score c (c ∷ cs) t (Nested-Within c cs n) s

pub first_chain {ℓ} :
    (P : Chain → Type ℓ) (cs : List Chain) → P [] → AllChains P cs → P (chain_at 0 cs)
first_chain P [] e h = e
first_chain P (c ∷ cs) e h = h.0

pub found_node-find_node :
    (member : Bytes) (score : ℤ) (level : ℕ) (cs : List Chain)
    → length cs ≡ 17
    → TieFree score (chain_at 0 cs)
    → AllChains IsSorted cs
    → AllChains IsUnique cs
    → Nested cs
    → found_node member score level cs ≡ find_node member score (chain_at 0 cs)
found_node-find_node member score level cs l t s u n =
    found_node-rest member score level cs l (TieFree-levels member score cs t s n) u n
    ∙ matching-find_node member score (chain_at 0 cs) t (first_chain IsSorted cs tt s)

-- Search for a member and a score, where all nodes with the score have one member, gives the first
-- node of the lowest level with both, and nothing if there is none.
pub search-find_node :
    (member : Bytes) (score : ℤ) (sl : Skiplist)
    → IsSkiplist sl
    → TieFree score (chain_at 0 sl.forward)
    → search member score sl ≡ find_node member score (chain_at 0 sl.forward)
unfolding search found_node
search-find_node member score sl h t =
    found_node-find_node member score sl.level sl.forward h.levels t h.sorted h.unique h.nested
