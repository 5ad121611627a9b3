-- ===== src/Zset/Ordered.antt =====
-- What holds of a sorted set of internal/store/zset.go while its members have different scores.
use monster_db.Prelude.{
  ℕ, ◌≤◌, ◌≡◌, ◌⊎◌, refl, sym, ap, subst, ◌∙◌, panics_not, returned_same, arith, ◌≢◌, ==_iff, true,
  false, Bool-cases, Option-cases, inl, inr, Option, none, some, List, [], ◌∷◌, map, ◌==◌,
}
use monster_db.Prelude.Int.{ℤ}
use monster_db.Prelude.Bytes.{Bytes, eqb, eqb→eq, eqb_refl, eqb_iff}
use monster_db.Prelude.Dict
use monster_db.Prelude.Dict.{Dict, lookup, lookup-insert, lookup-insert_self}
use monster_db.Skiplist.{SkiplistNode, Chain, Skiplist, chain_at, below_score, is_node}
use monster_db.Skiplist.Walk.{In, IsUnique, same_id}
use monster_db.Skiplist.Linked.{IsSkiplist}
use monster_db.Skiplist.Insert.{insert-IsSkiplist, In-place, place-In}
use monster_db.Skiplist.Remove.{remove, remove-In, In-remove, gone}
use monster_db.Skiplist.Unlink.{In-same}
use monster_db.Skiplist.Delete.{delete-IsSkiplist, without, find_node-In}
use monster_db.Skiplist.Find.{find_node, first_chain}
use monster_db.Skiplist
use monster_db.Zset.{Zset, delete, add, search, score_of}

pub record IsZset (z : Zset) : Type 0 where
  pub list : IsSkiplist z.list
  pub apart :
      (n m : SkiplistNode)
      → In n (chain_at 0 z.list.forward)
      → In m (chain_at 0 z.list.forward)
      → n.score ≡ m.score
      → n ≡ m
  pub mapped :
      (n : SkiplistNode) → In n (chain_at 0 z.list.forward) → lookup n.member z.dict ≡ some n

find_node-none :
    (member : Bytes) (score : ℤ) (c : Chain) (n : SkiplistNode)
    → find_node member score c ≡ none
    → In n c
    → n.member ≡ member
    → n.score ≡ score
    → ⊥
find_node-none member score [] n e i f g = i
find_node-none member score (k ∷ c) n e i f g = elim (Bool-cases (is_node member score k)) [
  | inl w ↦ panics_not (sym (rw w at e))
  | inr w ↦ elim i [
    | inl same ↦
        let found : is_node member score n ≡ true = rw (f, g, eqb_refl member) (ground arith) in
        cc (found, w, ap (is_node member score) same)
    | inr j ↦ find_node-none member score c n (rw w at e) j f g
  ]
]

-- What is left when a member is taken out.
record Deleted (member : Bytes) (c : Chain) (left : Skiplist) : Type 0 where
  pub list : IsSkiplist left
  pub kept :
      (n : SkiplistNode) → In n (chain_at 0 left.forward) → In n c × (eqb n.member member ≡ false)
  pub others :
      (n : SkiplistNode) → In n c → eqb n.member member ≡ false → In n (chain_at 0 left.forward)

chain_at-remove :
    (i : ℕ) (cs : List Chain) → chain_at 0 (map (remove i) cs) ≡ remove i (chain_at 0 cs)
chain_at-remove i [] = refl
chain_at-remove i (c ∷ cs) = refl

other_member : (member k : Bytes) → (k ≡ member → ⊥) → eqb k member ≡ false
other_member member k h = elim (Bool-cases (eqb k member)) [
  | inl e ↦ absurd (h (eqb→eq k member e))
  | inr e ↦ e
]

differs : (member : Bytes) (k : Bytes) → eqb k member ≡ false → k ≡ member → ⊥
differs member k f e = cc (f, ap (λ x. eqb x member) e, eqb_refl member)

Deleted-none :
    (member : Bytes) (z : Zset)
    → IsZset z
    → lookup member z.dict ≡ none
    → Deleted member (chain_at 0 z.list.forward) z.list
Deleted-none member z h e = record {
  list = h.list;
  kept = λ n i. (
    i,
    other_member member n.member
        (λ f. panics_not (sym e ∙ sym (ap (λ x. lookup x z.dict) f) ∙ h.mapped n i)),
  );
  others = λ n i f. i;
}

module _ (member : Bytes) (z : Zset) (h : IsZset z) (found : SkiplistNode)
    (e : lookup member z.dict ≡ some found) where
  only_found : (n : SkiplistNode) → In n (chain_at 0 z.list.forward) → n.member ≡ member → n ≡ found
  only_found n i f = returned_same (sym (h.mapped n i) ∙ ap (λ x. lookup x z.dict) f ∙ e)

  Deleted-without :
      (o : Option SkiplistNode)
      → find_node member found.score (chain_at 0 z.list.forward) ≡ o
      → IsSkiplist (without o z.list)
      → Deleted member (chain_at 0 z.list.forward) (without o z.list)
  Deleted-without none g s = record {
    list = s;
    kept = λ n i. (
      i,
      other_member member n.member (λ f.
          let same : n ≡ found = only_found n i f in
          find_node-none member found.score (chain_at 0 z.list.forward) n g i f
            (ap (λ x. x.score) same)),
    );
    others = λ n i f. i;
  }
  Deleted-without (some k) g s =
      let c : Chain = chain_at 0 z.list.forward in
      let (i, w) = find_node-In member found.score c k g in
      let k_member : k.member ≡ member = eqb→eq k.member member (ground (arith, w)) in
      record {
        list = s;
        kept = λ n j.
            let j' : In n (remove k.id c) = subst (In n) (chain_at-remove k.id z.list.forward) j in
            let j'' : In n c = remove-In k.id n c j' in
            (
              j'',
              other_member member n.member (λ f.
                  let same : n ≡ k = only_found n j'' f ∙ sym (only_found k i k_member) in
                  cc (
                    gone k.id n c (first_chain IsUnique z.list.forward tt h.list.unique) j',
                    ap (λ x. x.id == k.id) same,
                    same_id k.id,
                  )),
            );
        others = λ n j f. subst (In n) (sym (chain_at-remove k.id z.list.forward)) (
            In-remove k.id n c j (elim (Bool-cases (n.id == k.id)) [
              | inr d ↦ d
              | inl d ↦
                  let same : n ≡ k =
                    In-same c n k (first_chain IsUnique z.list.forward tt h.list.unique) j i
                      ((==_iff n.id k.id).0 d) in
                  absurd (differs member n.member f (ap (λ x. x.member) same ∙ k_member))
            ]));
      }

delete-Deleted :
    (member : Bytes) (z : Zset)
    → IsZset z
    → Deleted member (chain_at 0 z.list.forward) ((delete member z).1).list
      × (((delete member z).1).dict ≡ z.dict)
unfolding delete
delete-Deleted member z h = elim (Option-cases (lookup member z.dict)) [
  | inl e ↦ rw e (Deleted-none member z h e, refl)
  | inr (found, e) ↦
      let c : Chain = chain_at 0 z.list.forward in
      let (d, s) =
        delete-IsSkiplist member found.score z.list h.list
          (λ n m i j f g. h.apart n m i j (f ∙ sym g)) in
      rw e (
        subst (Deleted member c) (sym d) (
            Deleted-without member z h found e (find_node member found.score c) refl
              (subst IsSkiplist d s)),
        refl,
      )
]

no_tie :
    (member : Bytes) (score : ℤ) (z : Zset)
    → IsZset z
    → (left : Skiplist) → Deleted member (chain_at 0 z.list.forward) left
    → ((n : SkiplistNode) → In n (chain_at 0 z.list.forward) → n.score ≡ score → n.member ≡ member)
    → (n : SkiplistNode) → In n (chain_at 0 left.forward)
    → n.score ≡ score
    → ⊥
no_tie member score z h left d free n i f =
    let (j, g) = d.kept n i in differs member n.member g (free n j f)

-- One node more, with a score of its own.
still_apart :
    (new : SkiplistNode) (c c' : Chain)
    → ((n : SkiplistNode) → In n c' → (n ≡ new) ⊎ In n c)
    → ((n : SkiplistNode) → In n c → n.score ≡ new.score → ⊥)
    → ((n m : SkiplistNode) → In n c → In m c → n.score ≡ m.score → n ≡ m)
    → (n m : SkiplistNode) → In n c'
    → In m c'
    → n.score ≡ m.score
    → n ≡ m
still_apart new c c' split own apart n m i j f = elim (split n i) [
  | inl a ↦ elim (split m j) [
    | inl b ↦ a ∙ sym b
    | inr b ↦ absurd (own m b (sym f ∙ ap (λ x. x.score) a))
  ]
  | inr a ↦ elim (split m j) [
    | inl b ↦ absurd (own n a (f ∙ ap (λ x. x.score) b))
    | inr b ↦ apart n m a b f
  ]
]

lookup_other :
    (member k : Bytes) (n : SkiplistNode) (d : Dict SkiplistNode)
    → eqb k member ≡ false
    → lookup k (Dict.insert member n d) ≡ lookup k d
lookup_other member k n d e =
    lookup-insert member k n d ∙ ground (arith, e, eqb_iff member k, eqb_iff k member)

-- Add, at any height up to the greatest, of a member with a score that no other member has: the
-- levels stay well formed, every member of the list has one node, the one that the map gives, all
-- scores stay different, a node with the member and the new score is in the list, Search gives this
-- score, and the nodes of the others are as before.
pub add-IsZset :
    (lvl : ℕ) (member : Bytes) (score : ℤ) (z : Zset)
    → IsZset z
    → lvl ≤ 16
    → ((n : SkiplistNode) → In n (chain_at 0 z.list.forward) → n.score ≡ score → n.member ≡ member)
    → IsZset (add lvl member score z)
      × (search member (add lvl member score z) ≡ (score, true))
      × ((new : SkiplistNode) × In new (chain_at 0 (add lvl member score z).list.forward)
          × (new.member ≡ member)
          × (new.score ≡ score))
      × ((n : SkiplistNode)
          → In n (chain_at 0 (add lvl member score z).list.forward)
          → (n.member ≡ member) ⊎ In n (chain_at 0 z.list.forward))
      × ((n : SkiplistNode)
          → In n (chain_at 0 z.list.forward)
          → n.member ≢ member
          → In n (chain_at 0 (add lvl member score z).list.forward))
unfolding add search
add-IsZset lvl member score z h bound free =
    let (d, same_dict) = delete-Deleted member z h in
    let left : Skiplist = ((delete member z).1).list in
    let (s, e, placed) = insert-IsSkiplist lvl member score left d.list bound in
    let new : SkiplistNode = (Skiplist.insert lvl member score left).0 in
    let c' : Chain = chain_at 0 left.forward in
    let list' : Skiplist = (Skiplist.insert lvl member score left).1 in
    let new_member : new.member ≡ member = unfold Skiplist.insert in refl in
    let new_score : new.score ≡ score = unfold Skiplist.insert in refl in
    let split : (n : SkiplistNode) → In n (chain_at 0 list'.forward) → (n ≡ new) ⊎ In n c' =
      λ n i. In-place (below_score score) new n c' (subst (In n) placed i) in
    (
      record {
        list = s;
        apart =
            still_apart new c' (chain_at 0 list'.forward) split
              (λ n i f. no_tie member score z h left d free n i (f ∙ new_score))
              (λ n m i j f. h.apart n m (d.kept n i).0 (d.kept m j).0 f);
        mapped = λ n i. elim (split n i) [
          | inl a ↦
              ap (λ x. lookup x (Dict.insert member new ((delete member z).1).dict))
                (ap (λ x. x.member) a ∙ new_member)
              ∙ lookup-insert_self member new ((delete member z).1).dict
              ∙ ap some (sym a)
          | inr a ↦
              lookup_other member n.member new ((delete member z).1).dict (d.kept n a).1
              ∙ ap (lookup n.member) same_dict
              ∙ h.mapped n (d.kept n a).0
        ];
      },
      ap score_of (lookup-insert_self member new ((delete member z).1).dict)
          ∙ ap (λ x. (x, true)) new_score,
      (
        new,
        subst (In new) (sym placed) (place-In (below_score score) new new c' (inl refl)),
        new_member,
        new_score,
      ),
      λ n i. elim (split n i) [
        | inl a ↦ inl (ap (λ x. x.member) a ∙ new_member)
        | inr a ↦ inr (d.kept n a).0
      ],
      λ n i f. subst (In n) (sym placed) (
          place-In (below_score score) new n c'
            (inr (d.others n i (other_member member n.member f)))),
    )
