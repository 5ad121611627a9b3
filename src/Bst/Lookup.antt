-- ===== src/Bst/Lookup.antt =====
-- `Search` after `Insert` in internal/ds/bst.go.
use monster_db.Prelude.{
  ◌≡◌, refl, sym, ap, ◌∙◌, arith, true, false, Bool-cases, inl, inr, some, [], ◌∷◌,
}
use monster_db.Prelude.Bytes.{Bytes, before, eqb, eqb_refl}
use monster_db.Bst.{BstNode, leaf, bst_node, insert_node, search}

pub before_irreflexive : (s : Bytes) → before s s ≡ false
before_irreflexive [] = refl
before_irreflexive (a ∷ s) = ground (arith, before_irreflexive s)

-- Strings neither of which is before the other are equal.
pub before_total : (s t : Bytes) → before s t ≡ false → before t s ≡ false → s ≡ t
before_total [] [] h k = refl
before_total [] (b ∷ t) h k = cc
before_total (a ∷ s) [] h k = cc
before_total (a ∷ s) (b ∷ t) h k = ground (arith, before_total s t)

pub before_asymmetric : (s t : Bytes) → before s t ≡ true → before t s ≡ false
before_asymmetric [] [] h = cc
before_asymmetric [] (b ∷ t) h = refl
before_asymmetric (a ∷ s) [] h = cc
before_asymmetric (a ∷ s) (b ∷ t) h = ground (arith, before_asymmetric s t)

-- One of two distinct strings is before the other.
before_distinct : (s t : Bytes) → eqb s t ≡ false → before s t ≡ false → before t s ≡ true
before_distinct s t h e = elim (Bool-cases (before t s)) [
  | inl f ↦ f
  | inr f ↦ let same : eqb s t ≡ true = ap (eqb s) (sym (before_total s t e f)) ∙ eqb_refl s in cc
]

module _ {ℓ} {V : Type ℓ} where
  search-node_left :
      (key k : Bytes) (v : V) (l r : BstNode V)
      → before key k ≡ true
      → search key (bst_node k v l r) ≡ search key l
  unfolding search
  search-node_left key k v l r h = rw h refl

  search-node_right :
      (key k : Bytes) (v : V) (l r : BstNode V)
      → before k key ≡ true
      → search key (bst_node k v l r) ≡ search key r
  unfolding search
  search-node_right key k v l r h = rw (before_asymmetric k key h, h) refl

  search-node_here : (k : Bytes) (v : V) (l r : BstNode V) → search k (bst_node k v l r) ≡ some v
  unfolding search
  search-node_here k v l r = rw (before_irreflexive k) refl

  -- A key that was inserted is found with its value, whatever the tree, the key's node included if
  -- it was there.
  pub search-insert_node :
      (key : Bytes) (value : V) (t : BstNode V) → search key (insert_node key value t) ≡ some value
  unfolding insert_node
  search-insert_node key value leaf = search-node_here key value leaf leaf
  search-insert_node key value (bst_node k v l r) = elim (Bool-cases (before key k)) [
    | inl e ↦
        rw e
          (search-node_left key k v (insert_node key value l) r e ∙ search-insert_node key value l)
    | inr e ↦ elim (Bool-cases (before k key)) [
      | inl f ↦
          rw (e, f)
            (search-node_right key k v l (insert_node key value r) f
              ∙ search-insert_node key value r)
      | inr f ↦ rw (e, f, before_total key k e f) (search-node_here k value l r)
    ]
  ]

  -- What is found at a key does not change when another key is inserted.
  pub search-insert_other :
      (other key : Bytes) (value : V) (t : BstNode V)
      → eqb other key ≡ false
      → search other (insert_node key value t) ≡ search other t
  unfolding insert_node search
  search-insert_other other key value leaf h = elim (Bool-cases (before other key)) [
    | inl e ↦ rw e refl
    | inr e ↦ rw (e, before_distinct other key h e) refl
  ]
  search-insert_other other key value (bst_node k v l r) h =
      let hl = search-insert_other other key value l h in
      let hr = search-insert_other other key value r h in
      elim (Bool-cases (before key k)) [
        | inl e ↦ rw (e, hl) refl
        | inr e ↦ elim (Bool-cases (before k key)) [
          | inl f ↦ rw (e, f, hr) refl
          | inr f ↦
              let apart : eqb other k ≡ false = ap (eqb other) (sym (before_total key k e f)) ∙ h in
              elim (Bool-cases (before other k)) [
                | inl g ↦ rw (e, f, g) refl
                | inr g ↦ rw (e, f, g, before_distinct other k apart g) refl
              ]
        ]
      ]
