-- ===== src/Skiplist/Delete.antt =====
-- `Delete` of internal/ds/skiplist.go.
use monster_db.Prelude.{
  panics_not, returned_same, ℕ, zero, suc, ◌+◌, ◌≤◌, ◌≡◌, ◌⊎◌, refl, sym, ap, subst, ◌∙◌, arith,
  true, Bool-cases, Option-cases, inl, inr, Option, none, some, List, [], ◌∷◌, map, length, take,
  drop, ==_iff,
}
use monster_db.Prelude.Int.{ℤ}
use monster_db.Prelude.Bytes.{Bytes, eqb→eq}
use monster_db.Skiplist.{
  SkiplistNode, Chain, Skiplist, precedes, is_node, updates, chain_at, first_of, unlink,
  lower_level, delete_found, delete,
}
use monster_db.Skiplist.Walk.{In, IsUnique, Within, Nested, AllChains}
use monster_db.Skiplist.Linked.{IsSorted, AllBelow, IsBlank, IsSkiplist}
use monster_db.Skiplist.Remove.{
  remove, remove-IsUnique, remove-IsSorted, remove-AllBelow, AllChains-remove, remove-Nested,
  drop-remove, remove-IsBlank,
}
use monster_db.Skiplist.Find.{
  find_node, OneAt, OneAt-TieFree, Nested-Within, walk-precedes, found_node, found_node-find_node,
  same_score,
}
use monster_db.Skiplist.Unlink.{In-same, OnlyAt, unlink-remove}

pub find_node-In :
    (member : Bytes) (score : ℤ) (c : Chain) (n : SkiplistNode)
    → find_node member score c ≡ some n
    → In n c × (is_node member score n ≡ true)
find_node-In member score [] n e = absurd (panics_not e)
find_node-In member score (k ∷ c) n e = elim (Bool-cases (is_node member score k)) [
  | inl f ↦
      let same : k ≡ n = returned_same (rw f at e) in
      (inl (sym same), ap (is_node member score) (sym same) ∙ f)
  | inr f ↦ let (i, w) = find_node-In member score c n (rw f at e) in (inr i, w)
]

chain_at-IsBlank :
    (k : ℕ) (cs : List Chain)
    → first_of (chain_at k cs) ≡ none
    → AllChains IsBlank (drop (suc k) cs)
    → AllChains IsBlank (drop k cs)
chain_at-IsBlank zero [] e b = tt
chain_at-IsBlank zero ([] ∷ cs) e b = (refl, b)
chain_at-IsBlank zero ((n ∷ c) ∷ cs) e b = absurd (panics_not (sym e))
chain_at-IsBlank (suc k) [] e b = tt
chain_at-IsBlank (suc k) (c ∷ cs) e b = chain_at-IsBlank k cs e b

Chain-cases : (c : Chain) → (c ≡ []) ⊎ ((n : SkiplistNode) × (d : Chain) × (c ≡ n ∷ d))
Chain-cases [] = inl refl
Chain-cases (n ∷ c) = inr (n, c, refl)

lower_level_lem :
    (l : ℕ) (cs : List Chain)
    → AllChains IsBlank (drop (suc l) cs)
    → (lower_level l cs ≤ l) × AllChains IsBlank (drop (suc (lower_level l cs)) cs)
unfolding lower_level
lower_level_lem zero cs b = (omega arith, b)
lower_level_lem (suc l) cs b = elim (Chain-cases (chain_at (suc l) cs)) [
  | inl e ↦
      let (low, blank) = lower_level_lem l cs (chain_at-IsBlank (suc l) cs (ap first_of e) b) in
      rw (lower_level, e) (omega (arith, low), blank)
  | inr (n, d, e) ↦ rw (lower_level, e) (omega arith, b)
]

-- The skip list without a node, if there is one.
abbrev pub without : Option SkiplistNode → Skiplist → Skiplist
without none sl = sl
without (some n) sl =
    let forward = map (remove n.id) sl.forward in
    record sl { forward = forward; level = lower_level sl.level forward }

levels-OnlyAt :
    (n : SkiplistNode) (c : Chain) (cs : List Chain)
    → IsUnique c
    → In n c
    → OneAt n.score c
    → AllChains (λ d. Within d c) cs
    → AllChains (OnlyAt n) cs
levels-OnlyAt n c [] u i o w = tt
levels-OnlyAt n c (d ∷ cs) u i o w = (
  λ k j. (λ e. o k n (w.0 k j) i e refl, λ e. In-same c k n u (w.0 k j) i ((==_iff k.id n.id).0 e)),
  levels-OnlyAt n c cs u i o w.1,
)

unlinked :
    (n : SkiplistNode) (level : ℕ) (cs : List Chain)
    → OneAt n.score (chain_at 0 cs)
    → In n (chain_at 0 cs)
    → is_node n.member n.score n ≡ true
    → AllChains IsSorted cs
    → AllChains IsUnique cs
    → Nested cs
    → AllChains IsBlank (drop (level + 1) cs)
    → unlink n.id (updates (precedes n.member n.score) (take (level + 1) cs)) cs
      ≡ map (remove n.id) cs
unlinked n level [] o i w s u d b = absurd i
unlinked n level (c ∷ cs) o i w s u d b =
    rw (walk-precedes n.member n.score level c cs (OneAt-TieFree n.score c o) s d) (
      unlink-remove (level + 1) n (c ∷ cs)
        (levels-OnlyAt n c (c ∷ cs) u.0 i o (Nested-Within c cs d)) s u w b)

length-removed : (i : ℕ) (cs : List Chain) → length (map (remove i) cs) ≡ length cs
length-removed i [] = refl
length-removed i (c ∷ cs) = ap suc (length-removed i cs)

without-IsSkiplist :
    (o : Option SkiplistNode) (sl : Skiplist) → IsSkiplist sl → IsSkiplist (without o sl)
without-IsSkiplist none sl h = h
without-IsSkiplist (some n) sl h =
    let cs : List Chain = map (remove n.id) sl.forward in
    let blank : AllChains IsBlank (drop (suc sl.level) cs) =
      subst (AllChains IsBlank) (sym (drop-remove n.id (suc sl.level) sl.forward)) (
        AllChains-remove IsBlank n.id (drop (suc sl.level) sl.forward) (remove-IsBlank n.id) (
          subst (λ k. AllChains IsBlank (drop k sl.forward)) {x = sl.level + 1} {y = suc sl.level}
            (omega arith) h.above)) in
    let lower = lower_level_lem sl.level cs blank in
    record {
      levels = length-removed n.id sl.forward ∙ h.levels;
      level = omega (arith, lower.0, h.level);
      above =
          subst (λ k. AllChains IsBlank (drop k cs)) {x = suc (lower_level sl.level cs)}
            {y = lower_level sl.level cs + 1} (omega arith) lower.1;
      sorted = AllChains-remove IsSorted n.id sl.forward (remove-IsSorted n.id) h.sorted;
      unique = AllChains-remove IsUnique n.id sl.forward (remove-IsUnique n.id) h.unique;
      nested = remove-Nested n.id sl.forward h.unique h.nested;
      old =
          AllChains-remove (AllBelow sl.next_id) n.id sl.forward (remove-AllBelow n.id sl.next_id)
            h.old;
    }

delete_found-without :
    (member : Bytes) (score : ℤ) (sl : Skiplist)
    → IsSkiplist sl
    → OneAt score (chain_at 0 sl.forward)
    → delete_found
        (updates (precedes member score) (take (sl.level + 1) sl.forward))
        (find_node member score (chain_at 0 sl.forward))
        sl
      ≡ without (find_node member score (chain_at 0 sl.forward)) sl
delete_found-without member score sl h o =
    elim (Option-cases (find_node member score (chain_at 0 sl.forward))) [
      | inl e ↦ rw e refl
      | inr (n, e) ↦
          let (i, w) = find_node-In member score (chain_at 0 sl.forward) n e in
          let m_same : n.member ≡ member = eqb→eq n.member member (ground (arith, w)) in
          let s_same : n.score ≡ score = same_score n score (ground (arith, w)) in
          let chains : unlink n.id
                (updates (precedes member score) (take (sl.level + 1) sl.forward)) sl.forward
              ≡ map (remove n.id) sl.forward =
            subst
              (λ x.
                unlink n.id (updates (precedes x score) (take (sl.level + 1) sl.forward)) sl.forward
                ≡ map (remove n.id) sl.forward)
              m_same
              (subst
                (λ x.
                  unlink n.id (updates (precedes n.member x) (take (sl.level + 1) sl.forward))
                    sl.forward
                  ≡ map (remove n.id) sl.forward)
                s_same
                (unlinked n sl.level sl.forward
                  (subst (λ x. OneAt x (chain_at 0 sl.forward)) (sym s_same) o) i
                  (cc
                    (w, ap (λ x. is_node x score n) m_same, ap (λ x. is_node n.member x n) s_same))
                  h.sorted h.unique h.nested h.above)) in
          rw e (ap (λ cs. record sl { forward = cs; level = lower_level sl.level cs }) chains)
    ]

-- Delete of a member and a score, where at most one node has the score: all levels are as before
-- but for the node with both, if there is one, the level in use is lowered past the empty ones,
-- and the skip list stays well formed.
pub delete-IsSkiplist :
    (member : Bytes) (score : ℤ) (sl : Skiplist)
    → IsSkiplist sl
    → OneAt score (chain_at 0 sl.forward)
    → (delete member score sl ≡ without (find_node member score (chain_at 0 sl.forward)) sl)
      × IsSkiplist (delete member score sl)
unfolding delete found_node
delete-IsSkiplist member score sl h o =
    let c : Chain = chain_at 0 sl.forward in
    let found : found_node member score sl.level sl.forward ≡ find_node member score c =
      found_node-find_node member score sl.level sl.forward h.levels (OneAt-TieFree score c o)
        h.sorted h.unique h.nested in
    let e : delete member score sl ≡ without (find_node member score c) sl =
      ap (λ x. delete_found (updates (precedes member score) (take (sl.level + 1) sl.forward)) x sl)
        found
      ∙ delete_found-without member score sl h o in
    (e, subst IsSkiplist (sym e) (without-IsSkiplist (find_node member score c) sl h))
