-- ===== src/Skiplist/Tied.antt =====
-- Members with one score in internal/ds/skiplist.go: `Insert` goes by the score alone, `Search` and
-- `Delete` by the score and the member.
use monster_db.Prelude.{
  ℕ, ◌+◌, ◌≤◌, ◌≡◌, refl, sym, ap, subst, ◌∙◌, arith, true, false, Bool-cases, inl, inr, none, some,
  List, [], ◌∷◌, take,
}
use monster_db.Prelude.Int.{ℤ, ltb_ℤ, eqb_ℤ}
use monster_db.Prelude.Bytes.{Bytes, eqb→eq}
use monster_db.Skiplist.{
  SkiplistNode, Chain, Skiplist, ltb_bytes, below_score, precedes, is_node, updates, chain_at,
  first_of, matching, delete_found, insert, delete, search,
}
use monster_db.Skiplist.Walk.{In, ComeFirst, Within, Nested, AllChains, rest}
use monster_db.Skiplist.Linked.{IsSorted, IsSkiplist, place}
use monster_db.Skiplist.Insert.{insert-IsSkiplist, In-place, place-In}
use monster_db.Skiplist.Find.{
  ltb_bytes_irrefl, same_score, found_node, found_node-rest, Nested-Within,
}

ltb_bytes_asym : (s t : Bytes) → ltb_bytes s t ≡ true → ltb_bytes t s ≡ false
unfolding ltb_bytes
ltb_bytes_asym [] [] h = refl
ltb_bytes_asym [] (b ∷ t) h = refl
ltb_bytes_asym (a ∷ s) [] h = cc
ltb_bytes_asym (a ∷ s) (b ∷ t) h = ground (arith, h, ltb_bytes_asym s t)

-- The walk goes by the scores at every node of a chain.
abbrev ByScore : Bytes → ℤ → Chain → Type 0
ByScore member score c = (n : SkiplistNode) → In n c → precedes member score n ≡ ltb_ℤ n.score score

ByScore-ComeFirst :
    (member : Bytes) (score : ℤ) (c : Chain)
    → ByScore member score c
    → IsSorted c
    → ComeFirst (precedes member score) c
ByScore-ComeFirst member score [] b s = tt
ByScore-ComeFirst member score (n ∷ c) b s = (
  λ m i e.
      let below : ltb_ℤ m.score score ≡ true = sym (b m (inr i)) ∙ e in
      b n (inl refl) ∙ ground (arith, below, s.0 m i),
  ByScore-ComeFirst member score c (λ m i. b m (inr i)) s.1,
)

levels-ByScore :
    (member : Bytes) (score : ℤ) (c : Chain) (cs : List Chain)
    → ByScore member score c
    → AllChains (λ d. Within d c) cs
    → AllChains IsSorted cs
    → AllChains (ComeFirst (precedes member score)) cs
levels-ByScore member score c [] b w s = tt
levels-ByScore member score c (d ∷ cs) b w s = (
  ByScore-ComeFirst member score d (λ n i. b n (w.0 n i)) s.0,
  levels-ByScore member score c cs b w.1 s.1,
)

all_levels :
    (member : Bytes) (score : ℤ) (cs : List Chain)
    → ByScore member score (chain_at 0 cs)
    → Nested cs
    → AllChains IsSorted cs
    → AllChains (ComeFirst (precedes member score)) cs
all_levels member score [] b n s = tt
all_levels member score (c ∷ cs) b n s =
    levels-ByScore member score c (c ∷ cs) b (Nested-Within c cs n) s

-- Where all members with the score are not in front of the member, the walk goes by the scores.
by_score :
    (member : Bytes) (score : ℤ) (n : SkiplistNode)
    → (n.score ≡ score → ltb_bytes n.member member ≡ false)
    → precedes member score n ≡ ltb_ℤ n.score score
by_score member score n h = elim (Bool-cases (eqb_ℤ n.score score)) [
  | inr e ↦ rw e (ground arith)
  | inl e ↦ rw (e, h (same_score n score e)) (ground arith)
]

rest-place :
    (member : Bytes) (score : ℤ) (new : SkiplistNode) (c : Chain)
    → ByScore member score c
    → precedes member score new ≡ false
    → first_of (rest (precedes member score) (place (below_score score) new c)) ≡ some new
rest-place member score new [] b f = rw f refl
rest-place member score new (n ∷ c) b f = elim (Bool-cases (ltb_ℤ n.score score)) [
  | inl e ↦
      let passes : precedes member score n ≡ true = b n (inl refl) ∙ e in
      rw (e, passes) (rest-place member score new c (λ m i. b m (inr i)) f)
  | inr e ↦ rw (e, f) refl
]

-- The first node that the walk reaches has another member.
tied_nothing :
    (member : Bytes) (score : ℤ) (new : SkiplistNode) (sl : Skiplist) (c : Chain)
    → IsSkiplist sl
    → chain_at 0 sl.forward ≡ place (below_score score) new c
    → ByScore member score c
    → precedes member score new ≡ false
    → (new.member ≡ member → ⊥)
    → found_node member score sl.level sl.forward ≡ none
tied_nothing member score new sl c h e b f other =
    let not_below : ltb_ℤ new.score score ≡ false = ground (arith, f) in
    let all : ByScore member score (chain_at 0 sl.forward) = λ n i.
      elim (In-place (below_score score) new n c (subst (In n) e i)) [
        | inl same ↦
            subst (λ x. precedes member score x ≡ ltb_ℤ x.score score) (sym same)
              (f ∙ sym not_below)
        | inr j ↦ b n j
      ] in
    found_node-rest member score sl.level sl.forward h.levels
      (all_levels member score sl.forward all h.nested h.sorted) h.unique h.nested
    ∙ ap (λ d. matching member score (first_of (rest (precedes member score) d))) e
    ∙ ap (matching member score) (rest-place member score new c b f)
    ∙ elim (Bool-cases (is_node member score new)) [
      | inl w ↦ absurd (other (eqb→eq new.member member (ground (arith, w))))
      | inr w ↦ rw w refl
    ]

deletes_nothing :
    (member : Bytes) (score : ℤ) (sl : Skiplist)
    → found_node member score sl.level sl.forward ≡ none
    → delete member score sl ≡ sl
unfolding delete found_node
deletes_nothing member score sl e =
    ap (λ o. delete_found (updates (precedes member score) (take (sl.level + 1) sl.forward)) o sl) e

-- Insert of a member with a score that only one smaller member has, if any: Search no longer gives
-- the smaller member, and Delete of it changes nothing, though its node is still in the list.
pub search-tied :
    (lvl : ℕ) (small great : Bytes) (score : ℤ) (sl : Skiplist)
    → IsSkiplist sl
    → lvl ≤ 16
    → ltb_bytes small great ≡ true
    → ((n : SkiplistNode) → In n (chain_at 0 sl.forward) → n.score ≡ score → n.member ≡ small)
    → (search small score ((insert lvl great score sl).1) ≡ none)
      × (delete small score ((insert lvl great score sl).1) ≡ (insert lvl great score sl).1)
      × ((n : SkiplistNode)
          → In n (chain_at 0 sl.forward)
          → In n (chain_at 0 ((insert lvl great score sl).1).forward))
search-tied lvl small great score sl h bound less only =
    let sl' : Skiplist = (insert lvl great score sl).1 in
    let new : SkiplistNode = (insert lvl great score sl).0 in
    let new_member : new.member ≡ great = unfold insert in refl in
    let new_score : new.score ≡ score = unfold insert in refl in
    let (s, e, placed) = insert-IsSkiplist lvl great score sl h bound in
    let smaller : ltb_bytes new.member small ≡ false =
      rw new_member (ltb_bytes_asym small great less) in
    let behind : precedes small score new ≡ false =
      by_score small score new (λ f. smaller) ∙ rw new_score (ground arith) in
    let old : ByScore small score (chain_at 0 sl.forward) =
      λ n i. by_score small score n (λ f. rw (only n i f) (ltb_bytes_irrefl small)) in
    let nothing : found_node small score sl'.level sl'.forward ≡ none =
      tied_nothing small score new sl' (chain_at 0 sl.forward) s placed old behind
        (λ f. cc (less, ap (ltb_bytes small) (sym new_member ∙ f), ltb_bytes_irrefl small)) in
    (
      unfold search in unfold found_node in nothing,
      deletes_nothing small score sl' nothing,
      λ n i.
          subst (In n) (sym placed)
            (place-In (below_score score) new n (chain_at 0 sl.forward) (inr i)),
    )
