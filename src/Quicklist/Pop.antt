-- ===== src/Quicklist/Pop.antt =====
-- `RemoveElements` of internal/ds/quicklist.go takes a prefix of the list that the chain stands for.
use monster_db.Prelude.{
  ℕ, zero, suc, true, false, Bool-cases, inl, inr, ◌+◌, ◌-◌, ◌^◌, ◌%◌, ◌<◌, ◌≤◌, ◌≡◌, refl, sym,
  subst, ◌∙◌, ap, arith, some, List, [], ◌∷◌, ◌++◌, length, take, drop, map, ◌==◌, if◌then◌else◌,
  length-append, length-take, length-drop, append_assoc, take-append-drop, take-cross, drop-cross,
  nil_of_length,
}
use monster_db.Prelude.Int.{ℤ, pos, sub_ℕ, leb_ℤ, ltb_ℤ, pos_part, ◌<ℤ◌}
use monster_db.Prelude.Bytes.{Bytes}
use monster_db.Runtime.{array_len}
use monster_db.Listpack.{Listpack, end_byte, header_size, remove, is_empty}
use monster_db.Listpack.Codec.{Value}
use monster_db.Listpack.Entries.{
  encode, body, body-append, packed, packed-header, header, length-header, Holds, length-packed,
  elements-packed, set_elements-packed, set_total_len-packed,
}
use monster_db.Listpack.Laws.{remove-cut, is_empty-Holds, length-encode_pos, packed-eq}
use monster_db.Quicklist.{
  Quicklist, shrink, pop_nodes, remove_elements, reply_of, take_entries, no_nodes,
}
use monster_db.Quicklist.Nodes.{IsNode, AllFit, AllHold, flat, Represents}
use monster_db.Quicklist.Scan.{take_entries-body, entries_fuel}

AllFit-suffix : (us ws : List Value) → AllFit (us ++ ws) → AllFit ws
AllFit-suffix [] ws h = h
AllFit-suffix (u ∷ us) ws h = AllFit-suffix us ws h.1

IsNode-suffix : (us ws : List Value) → IsNode (us ++ ws) → IsNode ws
IsNode-suffix us ws node = record {
  few = omega (arith, node.few, length-append us ws);
  total =
      omega (arith, node.total, ap length (body-append us ws), length-append (body us) (body ws));
  fit = AllFit-suffix us ws node.fit;
}

-- The cut of a node's first values, with its header renewed.
shrink-Holds :
    (us ws : List Value) (lp : Listpack)
    → Holds lp (us ++ ws)
    → length (us ++ ws) ≤ 4096
    → 0 < length (body us)
    → (lp' : Listpack) × (shrink (length (body us)) (length us) lp ≡ some lp') × Holds lp' ws
unfolding shrink
shrink-Holds us ws lp h few p =
    let c : ℕ = length (us ++ ws) in
    let t : ℕ = length (body (us ++ ws)) + 7 in
    let rest : Bytes = body ws ++ end_byte ∷ [] in
    let whole : lp.content ≡ header t c ++ (body us ++ rest) =
      h
      ∙ packed-header t c (body (us ++ ws) ++ end_byte ∷ [])
      ∙ ap (λ r. header t c ++ r)
          (ap (λ r. r ++ end_byte ∷ []) (body-append us ws)
            ∙ append_assoc (body us) (body ws) (end_byte ∷ [])) in
    let (sp, cut) =
      remove-cut (header t c) (body us) rest lp whole p
        (omega (arith, length-append (body ws) (end_byte ∷ []))) in
    let removed : remove 6 (length (body us)) lp
        ≡ some (record { content = packed t c rest; spare = sp }) =
      rw (packed-header t c rest) (rw (length-header t c) at cut) in
    let count : sub_ℕ (c % 256 ^ 2) (length us) ≡ pos (length ws) =
      ground (arith, length-append us ws) in
    (
      record { content = packed (6 + length rest) (length ws) rest; spare = sp },
      rw (
        removed,
        elements-packed t c rest sp,
        count,
        set_elements-packed t c rest sp (length ws),
        length-packed t (length ws) rest,
        set_total_len-packed t (length ws) rest sp (6 + length rest),
      ),
      packed-eq (6 + length rest) (length (body ws) + 7) (length ws) (length ws) rest rest
          (omega (arith, length-append (body ws) (end_byte ∷ []))) refl refl,
    )

body_pos : (v : Value) (vs : List Value) → 0 < length (body (v ∷ vs))
unfolding body
body_pos v vs = omega (arith, length-encode_pos v, length-append (encode v) (body vs))

nothing_taken : (length (body []) == 0) ≡ true
unfolding body
nothing_taken = refl

to_go : (n : ℕ) → (suc n == 0) ≡ false
to_go n = ground arith

less : (n : ℕ) → suc n - 0 ≡ suc n
less n = omega arith

-- The inner loop of `RemoveElements` on a node, with its fuel.
scanned :
    (left : ℕ) (vs : List Value) (lp : Listpack)
    → Holds lp vs
    → AllFit vs
    → take_entries (suc (length lp.content)) left header_size lp
      ≡ some (record {
        values = take left vs;
        total_size = length (body (take left vs));
        returned = false;
      })
scanned left vs lp h fit =
    let t : ℕ = length (body vs) + 7 in
    let tail : Bytes = body vs ++ end_byte ∷ [] in
    take_entries-body (suc (length lp.content)) left 6 vs lp (header t (length vs))
      (sym (length-header t (length vs))) (h ∙ packed-header t (length vs) tail) fit
      (omega (
        arith,
        ap length h,
        length-packed t (length vs) tail,
        length-append (body vs) (end_byte ∷ []),
        entries_fuel vs,
      ))

-- What `pop_nodes` leaves of a chain that stands for `vs`.
record PopsPrefix (left : ℕ) (nodes : List Listpack) (vs : List Value) : Type 0 where
  kept : List Listpack
  parts : List (List Value)
  returns :
      pop_nodes left nodes
      ≡ some (record { values = take left vs; nodes = kept; gone = length (take left vs) })
  hold : AllHold kept parts
  all : flat parts ≡ drop left vs

pop_nodes-PopsPrefix :
    (left : ℕ) (nodes : List Listpack) (vss : List (List Value))
    → AllHold nodes vss
    → PopsPrefix left nodes (flat vss)
unfolding pop_nodes
pop_nodes-PopsPrefix left [] (vs ∷ vss) h = elim h [ ]
pop_nodes-PopsPrefix left (lp ∷ rest) [] h = elim h [ ]
pop_nodes-PopsPrefix zero [] [] h = record {
  kept = [];
  parts = [];
  returns = refl;
  hold = tt;
  all = refl;
}
pop_nodes-PopsPrefix (suc left) [] [] h = record {
  kept = [];
  parts = [];
  returns = refl;
  hold = tt;
  all = refl;
}
pop_nodes-PopsPrefix zero (lp ∷ rest) (vs ∷ vss) h = record {
  kept = lp ∷ rest;
  parts = vs ∷ vss;
  returns = refl;
  hold = h;
  all = refl;
}
pop_nodes-PopsPrefix (suc left) (lp ∷ rest) ([] ∷ vss) (holds, node, t) =
    let r = pop_nodes-PopsPrefix (suc left) rest vss t in
    record {
      kept = r.kept;
      parts = r.parts;
      returns =
          rw
            (
              to_go left,
              scanned (suc left) [] lp holds node.fit,
              nothing_taken,
              is_empty-Holds [] lp (omega arith) holds,
              less left,
              r.returns,
            )
            (ground arith);
      hold = r.hold;
      all = r.all;
    }
pop_nodes-PopsPrefix (suc left) (lp ∷ rest) ((v ∷ vs) ∷ vss) (holds, node, t) =
    let us : List Value = v ∷ take left vs in
    let ws : List Value = drop left vs in
    let split : us ++ ws ≡ v ∷ vs = ap (λ r. v ∷ r) (take-append-drop left vs) in
    let (lp', cut, holds') =
      shrink-Holds us ws lp (subst (Holds lp) (sym split) holds)
        (subst (λ r. length r ≤ 4096) (sym split) node.few) (body_pos v (take left vs)) in
    let empty : is_empty lp' ≡ some (length ws == 0) =
      is_empty-Holds ws lp' (omega (arith, node.few, length-drop left vs)) holds' in
    let r = pop_nodes-PopsPrefix (suc left - length us) rest vss t in
    let node' : IsNode ws = IsNode-suffix us ws (subst IsNode (sym split) node) in
    let some_taken : (length (body us) == 0) ≡ false = ground (arith, body_pos v (take left vs)) in
    let joined : us ++ take (suc left - length us) (flat vss)
        ≡ take (suc left) ((v ∷ vs) ++ flat vss) =
      sym (take-cross (suc left) (v ∷ vs) (flat vss)) in
    let dropped : ws ++ drop (suc left - length us) (flat vss)
        ≡ drop (suc left) ((v ∷ vs) ++ flat vss) =
      sym (drop-cross (suc left) (v ∷ vs) (flat vss)) in
    let gone : length us + length (take (suc left - length us) (flat vss))
        ≡ length (take (suc left) ((v ∷ vs) ++ flat vss)) =
      sym (length-append us (take (suc left - length us) (flat vss))) ∙ ap length joined in
    elim (Bool-cases (length ws == 0)) [
      | inl gone_node ↦ record {
        kept = r.kept;
        parts = r.parts;
        returns = rw (
          to_go left,
          scanned (suc left) (v ∷ vs) lp holds node.fit,
          some_taken,
          cut,
          empty,
          gone_node,
          r.returns,
          joined,
          gone,
        );
        hold = r.hold;
        all =
            r.all
            ∙ ap (λ z. z ++ drop (suc left - length us) (flat vss))
                (sym (nil_of_length ws (ground arith)))
            ∙ dropped;
      }
      | inr kept_node ↦ record {
        kept = lp' ∷ r.kept;
        parts = ws ∷ r.parts;
        returns = rw (
          to_go left,
          scanned (suc left) (v ∷ vs) lp holds node.fit,
          some_taken,
          cut,
          empty,
          kept_node,
          r.returns,
          joined,
          gone,
        );
        hold = (holds', node', r.hold);
        all = rw r.all dropped;
      }
    ]

pub no_nodes-flat :
    (nodes : List Listpack) (vss : List (List Value))
    → AllHold nodes vss
    → 0 < length (flat vss)
    → no_nodes nodes ≡ false
no_nodes-flat [] [] h p = absurd (omega arith)
no_nodes-flat [] (vs ∷ vss) h p = elim h [ ]
no_nodes-flat (lp ∷ rest) vss h p = refl

-- How many values a list of `len` values gives for a count: all of them at most.
abbrev pub pop_count : ℤ → ℕ → ℕ
pop_count count len = if ltb_ℤ (pos len) count then len else pos_part count

-- `RemoveElements` returns, announces and appends the first `n` values of `vs`, and leaves a
-- well-formed list of the others.
pub record TakesFront (count : ℤ) (ql : Quicklist) (n : ℕ) (vs : List Value) : Type 0 where
  pub rest : Quicklist
  pub returns : remove_elements count ql ≡ some (array_len (pos n) ∷ map reply_of (take n vs), rest)
  pub enough : length (take n vs) ≡ n
  pub left : Represents rest (drop n vs)

takes_front :
    (count : ℤ) (vs : List Value) (ql : Quicklist)
    → Represents ql vs
    → 0 < length vs
    → pos 0 <ℤ count
    → TakesFront count ql (pop_count count ql.len) vs
unfolding remove_elements
takes_front count vs ql r some_in p =
    let n : ℕ = pop_count count ql.len in
    let g = subst (PopsPrefix n ql.nodes) r.all (pop_nodes-PopsPrefix n ql.nodes r.parts r.hold) in
    let chain : no_nodes ql.nodes ≡ false =
      no_nodes-flat ql.nodes r.parts r.hold (rw r.all some_in) in
    let filled : (ql.len == 0) ≡ false = ground arith in
    let asked : leb_ℤ count (pos 0) ≡ false = ground arith in
    let bounded : n ≤ length vs = ground arith in
    record {
      rest = record { nodes = g.kept; len = ql.len - length (take n vs) };
      returns = rw (chain, filled, asked, g.returns);
      enough = omega (arith, length-take n vs);
      left = record {
        parts = g.parts;
        hold = g.hold;
        all = g.all;
        counted = omega (arith, r.counted, length-drop n vs, length-take n vs);
      };
    }

-- On a well-formed list with values in it, `RemoveElements` with a positive count takes that many
-- values, or all of them, from the front: it returns, announces and appends just these in order,
-- and leaves a well-formed list of the others.
pub remove_elements-TakesFront :
    (count : ℤ) (vs : List Value) (ql : Quicklist)
    → Represents ql vs
    → 0 < length vs
    → pos 0 <ℤ count
    → TakesFront count ql (pop_count count (length vs)) vs
remove_elements-TakesFront count vs ql r some_in p =
    subst (λ k. TakesFront count ql (pop_count count k) vs) r.counted
      (takes_front count vs ql r some_in p)
