-- ===== src/Quicklist/Add.antt =====
-- `AddToTail` and `AddToHead` of internal/ds/quicklist.go on the list that the chain stands for.
use monster_db.Prelude.{
  Bool-cases, inl, inr, ◌+◌, ◌≡◌, refl, sym, ◌∙◌, ap, arith, Option, some, List, [], ◌∷◌, ◌++◌,
  length, ltb, leb, length-append, append_assoc, append-nil,
}
use monster_db.Listpack.{Listpack, max_listpack_bytes}
use monster_db.Listpack.Codec.{Value}
use monster_db.Listpack.Entries.{body}
use monster_db.Listpack.Laws.{add_tail-Holds, add_head-Holds}
use monster_db.Quicklist.{
  Quicklist, add_last, add_first, ensure_node, add_to_tail, add_to_head, new_quicklist, estimated,
}
use monster_db.Quicklist.Nodes.{
  Fits, AllHold, flat, Represents, new_listpack-Holds, IsNode-nil, IsNode-cons, IsNode-snoc,
  total_len-Holds, single-IsNode,
}

-- The chain behind an insertion of `v`: what `added` gives, and that it stands for `vs`.
pub record Grown (added : Option (List Listpack)) (vs : List Value) : Type 0 where
  pub nodes : List Listpack
  pub parts : List (List Value)
  pub returns : added ≡ some nodes
  pub hold : AllHold nodes parts
  pub all : flat parts ≡ vs

module _ (v : Value) (fits : Fits v) where
  add_last-Grown :
      (lp : Listpack) (rest : List Listpack) (vss : List (List Value))
      → AllHold (lp ∷ rest) vss
      → Grown (add_last v (lp ∷ rest)) (flat vss ++ v ∷ [])
  unfolding add_last
  add_last-Grown lp rest [] h = elim h [ ]
  add_last-Grown lp [] (vs ∷ us ∷ vss) h = absurd h.2
  add_last-Grown lp [] (vs ∷ []) (holds, node, t) =
      elim (Bool-cases (ltb max_listpack_bytes (length (body vs) + 7 + estimated))) [
        | inl full ↦
            let (fresh, made, blank) = new_listpack-Holds in
            let (lp', added, holds') = add_tail-Holds v [] fresh blank in
            record {
              nodes = lp ∷ lp' ∷ [];
              parts = vs ∷ (v ∷ []) ∷ [];
              returns = rw (total_len-Holds vs lp holds node, full, made, added);
              hold = (holds, node, (holds', single-IsNode v fits, tt));
              all = rw (append-nil vs);
            }
        | inr room ↦
            let (lp', added, holds') = add_tail-Holds v vs lp holds in
            record {
              nodes = lp' ∷ [];
              parts = (vs ++ v ∷ []) ∷ [];
              returns = rw (total_len-Holds vs lp holds node, room, added);
              hold = (holds', IsNode-snoc v vs node fits (ground arith), tt);
              all = rw (append-nil vs, append-nil (vs ++ v ∷ []));
            }
      ]
  add_last-Grown lp (next ∷ rest) (vs ∷ vss) (holds, node, t) =
      let r = add_last-Grown next rest vss t in
      record {
        nodes = lp ∷ r.nodes;
        parts = vs ∷ r.parts;
        returns = rw r.returns;
        hold = (holds, node, r.hold);
        all = rw r.all (sym (append_assoc vs (flat vss) (v ∷ [])));
      }

  add_first-Grown :
      (lp : Listpack) (rest : List Listpack) (vss : List (List Value))
      → AllHold (lp ∷ rest) vss
      → Grown (add_first v (lp ∷ rest)) (v ∷ flat vss)
  unfolding add_first
  add_first-Grown lp rest [] h = elim h [ ]
  add_first-Grown lp rest (vs ∷ vss) (holds, node, t) =
      elim (Bool-cases (leb max_listpack_bytes (length (body vs) + 7 + estimated))) [
        | inl full ↦
            let (fresh, made, blank) = new_listpack-Holds in
            let (lp', added, holds') = add_head-Holds v [] fresh blank in
            record {
              nodes = lp' ∷ lp ∷ rest;
              parts = (v ∷ []) ∷ vs ∷ vss;
              returns = rw (total_len-Holds vs lp holds node, full, made, added);
              hold = (holds', single-IsNode v fits, (holds, node, t));
              all = refl;
            }
        | inr room ↦
            let (lp', added, holds') = add_head-Holds v vs lp holds in
            record {
              nodes = lp' ∷ rest;
              parts = (v ∷ vs) ∷ vss;
              returns = rw (total_len-Holds vs lp holds node, room, added);
              hold = (holds', IsNode-cons v vs node fits (ground arith), t);
              all = refl;
            }
      ]

ensure_node-Grown :
    (nodes : List Listpack) (vss : List (List Value))
    → AllHold nodes vss
    → (lp : Listpack) × (rest : List Listpack) × (parts : List (List Value)) × (ensure_node nodes
        ≡ some (lp ∷ rest))
      × AllHold (lp ∷ rest) parts
      × (flat parts ≡ flat vss)
unfolding ensure_node
ensure_node-Grown [] [] h =
    let (fresh, made, blank) = new_listpack-Holds in
    (fresh, [], [] ∷ [], rw made, (blank, IsNode-nil, tt), refl)
ensure_node-Grown [] (vs ∷ vss) h = elim h [ ]
ensure_node-Grown (lp ∷ rest) vss h = (lp, rest, vss, refl, h, refl)

-- `NewQuicklist` returns a list that stands for the empty sequence.
pub new_quicklist-Represents : (ql : Quicklist) × (new_quicklist ≡ some ql) × Represents ql []
unfolding new_quicklist
new_quicklist-Represents =
    let (fresh, made, blank) = new_listpack-Holds in
    (
      record { nodes = fresh ∷ []; len = 0 },
      rw made,
      record { parts = [] ∷ []; hold = (blank, IsNode-nil, tt); all = refl; counted = refl },
    )

-- `AddToTail` of a value that is an int64 or a string shorter than 2^31 bytes returns on every
-- well-formed list, whether or not it splits the last node, and the value is behind all others.
pub add_to_tail-Represents :
    (v : Value) (vs : List Value) (ql : Quicklist)
    → Represents ql vs
    → Fits v
    → (ql' : Quicklist) × (add_to_tail v ql ≡ some ql') × Represents ql' (vs ++ v ∷ [])
unfolding add_to_tail
add_to_tail-Represents v vs ql r fits =
    let (lp, rest, parts, made, hold, same) = ensure_node-Grown ql.nodes r.parts r.hold in
    let g = add_last-Grown v fits lp rest parts hold in
    (
      record { nodes = g.nodes; len = ql.len + 1 },
      rw (made, g.returns),
      record {
        parts = g.parts;
        hold = g.hold;
        all = g.all ∙ ap (λ us. us ++ v ∷ []) (same ∙ r.all);
        counted = omega (arith, r.counted, length-append vs (v ∷ []));
      },
    )

-- `AddToHead` likewise, with the value in front of all others.
pub add_to_head-Represents :
    (v : Value) (vs : List Value) (ql : Quicklist)
    → Represents ql vs
    → Fits v
    → (ql' : Quicklist) × (add_to_head v ql ≡ some ql') × Represents ql' (v ∷ vs)
unfolding add_to_head
add_to_head-Represents v vs ql r fits =
    let (lp, rest, parts, made, hold, same) = ensure_node-Grown ql.nodes r.parts r.hold in
    let g = add_first-Grown v fits lp rest parts hold in
    (
      record { nodes = g.nodes; len = ql.len + 1 },
      rw (made, g.returns),
      record {
        parts = g.parts;
        hold = g.hold;
        all = g.all ∙ ap (λ us. v ∷ us) (same ∙ r.all);
        counted = omega (arith, r.counted);
      },
    )
