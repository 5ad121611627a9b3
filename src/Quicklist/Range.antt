-- ===== src/Quicklist/Range.antt =====
-- `GetElements` of internal/ds/quicklist.go reads a range of the list that the chain stands for.
use monster_db.Prelude.{
  ℕ, zero, suc, true, false, Bool-cases, inl, inr, ◌⊎◌, ◌+◌, ◌<◌, ◌≤◌, ◌≡◌, refl, sym, ◌∙◌, ap,
  arith, Option, some, List, [], ◌∷◌, ◌++◌, length, map, ◌==◌, length-append, append_assoc,
  append-nil,
}
use monster_db.Prelude.Int.{ℤ, wrap64, pos, ltb_ℤ, pos_part, ◌<ℤ◌, ◌-ℤ◌, ◌+ℤ◌}
use monster_db.Prelude.Bytes.{Bytes}
use monster_db.Runtime.{array_len}
use monster_db.Listpack.{Listpack, end_byte}
use monster_db.Listpack.Codec.{Value}
use monster_db.Listpack.Entries.{encode, body, packed-header, header, length-header}
use monster_db.Quicklist.{
  Quicklist, Read, read_entries, read_nodes, get_elements, reply_of, decoded, more, entry_at, shown,
  no_nodes,
}
use monster_db.Quicklist.Nodes.{AllFit, AllHold, flat, Represents}
use monster_db.Quicklist.Scan.{more-encode, more-end, entry_at-encode, step_on}
use monster_db.Quicklist.Pop.{no_nodes-flat}

-- The values of a list whose indices, counted from `index`, lie between `start` and `stop`.
unfoldable pub range_from : ℤ → ℤ → ℕ → List Value → List Value
range_from start stop index [] = []
range_from start stop index (v ∷ vs) =
    shown start stop index (decoded v 0) ++ range_from start stop (index + 1) vs

pub range_from-past :
    (start stop : ℤ) (index : ℕ) (vs : List Value)
    → stop <ℤ pos index
    → range_from start stop index vs ≡ []
unfolding range_from
range_from-past start stop index [] h = refl
range_from-past start stop index (v ∷ vs) h =
    rw (range_from-past start stop (index + 1) vs (omega arith)) (ground arith)

range_from-append :
    (start stop : ℤ) (index : ℕ) (vs ws : List Value)
    → range_from start stop index (vs ++ ws)
      ≡ range_from start stop index vs ++ range_from start stop (index + length vs) ws
unfolding range_from
range_from-append start stop index [] ws =
    ap (λ i. range_from start stop i ws) {x = index} {y = index + 0} (omega arith)
range_from-append start stop index (v ∷ vs) ws =
    ap (λ r. shown start stop index (decoded v 0) ++ r)
      (range_from-append start stop (index + 1) vs ws)
    ∙ sym (
        append_assoc (shown start stop index (decoded v 0)) (range_from start stop (index + 1) vs)
          (range_from start stop (index + 1 + length vs) ws))
    ∙ ap
        (λ i.
          (shown start stop index (decoded v 0) ++ range_from start stop (index + 1) vs)
          ++ range_from start stop i ws)
        {x = index + 1 + length vs} {y = index + suc (length vs)} (omega arith)

-- One node: its values of the range, and either the index behind it or the way out past `stop`.
abbrev Reads : ℤ → ℤ → ℕ → List Value → Option Read → Type 0
Reads start stop index vs result =
    ((result
        ≡ some (record {
          values = range_from start stop index vs;
          index = index + length vs;
          returned = false;
        }))
      × (index + length vs ≤ suc (pos_part stop)))
    ⊎ ((i : ℕ) × (result
          ≡ some (record { values = range_from start stop index vs; index = i; returned = true }))
        × (stop <ℤ pos (index + length vs)))

module _ (start stop : ℤ) where
  read_entries-Reads :
      (fuel index at : ℕ) (vs : List Value) (lp : Listpack) (xs : Bytes)
      → at ≡ length xs
      → lp.content ≡ xs ++ (body vs ++ end_byte ∷ [])
      → AllFit vs
      → index ≤ suc (pos_part stop)
      → pos_part stop + 2 < fuel + index
      → Reads start stop index vs (read_entries fuel start stop index at lp)
  unfolding read_entries body range_from
  read_entries-Reads zero index at vs lp xs h e f p q = absurd (omega arith)
  read_entries-Reads (suc fuel) index at [] lp xs h e f p q =
      let go : more at lp ≡ some false = rw h (more-end lp xs e) in
      inl (rw go (ground arith), omega arith)
  read_entries-Reads (suc fuel) index at (v ∷ vs) lp xs h e f p q =
      let ys : Bytes = body vs ++ end_byte ∷ [] in
      let whole : lp.content ≡ xs ++ (encode v ++ ys) =
        e ∙ ap (λ r. xs ++ r) (append_assoc (encode v) (body vs) (end_byte ∷ [])) in
      let go : more at lp ≡ some true = rw h (more-encode v lp xs ys whole) in
      let this : entry_at at lp ≡ some (decoded v (length (encode v))) =
        rw h (entry_at-encode v lp xs ys whole f.0) in
      elim (Bool-cases (ltb_ℤ stop (pos (index + 1)))) [
        | inl out ↦ inr (
          index + 1,
          rw (go, this, out)
              (rw (
                range_from-past start stop (index + 1) vs (ground arith),
                append-nil (shown start stop index (decoded v 0)),
              )),
          ground arith,
        )
        | inr on ↦
            elim (read_entries-Reads fuel (index + 1) (at + length (encode v)) vs lp
              (xs ++ encode v) (omega (arith, length-append xs (encode v)))
              (step_on v xs (body vs) lp.content e) f.1 (ground arith) (omega arith)) [
                | inl (r, near) ↦ inl (rw (go, this, on, r) (ground arith), omega arith)
                | inr (i, r, past) ↦ inr (i, rw (go, this, on, r), omega arith)
              ]
      ]

-- The nodes from `index` on.
read_nodes-range_from :
    (start stop : ℤ) (index : ℕ) (nodes : List Listpack) (vss : List (List Value))
    → AllHold nodes vss
    → index ≤ suc (pos_part stop)
    → read_nodes start stop index nodes ≡ some (range_from start stop index (flat vss))
unfolding read_nodes
read_nodes-range_from start stop index [] (vs ∷ vss) h p = elim h [ ]
read_nodes-range_from start stop index (lp ∷ rest) [] h p = elim h [ ]
read_nodes-range_from start stop index [] [] h p = unfold range_from in refl
read_nodes-range_from start stop index (lp ∷ rest) (vs ∷ vss) (holds, node, t) p =
    let tail : Bytes = body vs ++ end_byte ∷ [] in
    elim (read_entries-Reads start stop (suc (suc (suc (pos_part stop)))) index 6 vs lp
      (header (length (body vs) + 7) (length vs))
      (sym (length-header (length (body vs) + 7) (length vs)))
      (holds ∙ packed-header (length (body vs) + 7) (length vs) tail) node.fit p (omega arith)) [
        | inl (r, near) ↦ rw (
          r,
          range_from-append start stop index vs (flat vss),
          read_nodes-range_from start stop (index + length vs) rest vss t near,
        )
        | inr (i, r, past) ↦ rw (
          r,
          range_from-append start stop index vs (flat vss),
          range_from-past start stop (index + length vs) (flat vss) past,
          append-nil (range_from start stop index vs),
        )
      ]

-- On a well-formed list with values in it `GetElements` returns: it announces `stop - start + 1`
-- values, which wraps as an int, and appends in order those whose index lies between `start` and `stop`.
pub get_elements-range_from :
    (start stop : ℤ) (vs : List Value) (ql : Quicklist)
    → Represents ql vs
    → 0 < length vs
    → get_elements start stop ql
      ≡ some
          (array_len (wrap64 (stop -ℤ start +ℤ pos 1)) ∷ map reply_of (range_from start stop 0 vs))
unfolding get_elements
get_elements-range_from start stop vs ql r p =
    let chain : no_nodes ql.nodes ≡ false = no_nodes-flat ql.nodes r.parts r.hold (rw r.all p) in
    let filled : (ql.len == 0) ≡ false = ground (arith, r.counted) in
    rw (
      chain,
      filled,
      read_nodes-range_from start stop 0 ql.nodes r.parts r.hold (omega arith),
      r.all,
    )
