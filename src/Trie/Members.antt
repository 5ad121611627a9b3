-- ===== src/Trie/Members.antt =====
-- `search` after `insert` in internal/ds/binary_trie.go.
use monster_db.Prelude.{
  ℕ, ◌≡◌, refl, Bool, true, false, ◌&&◌, not, Bool-cases, inl, inr, List, [], ◌∷◌, ◌++◌, ◌==◌,
  if◌then◌else◌,
}
use monster_db.Prelude.Bytes.{Bytes}
use monster_db.Trie.{TrieNode, absent, trie_node, search, insert}

-- Two bits take the same branch: both are zero or neither is.
abbrev pub same_branch : ℕ → ℕ → Bool
same_branch a b = if a == 0 then b == 0 else not (b == 0)

-- Two paths lead to the same node.
abbrev pub same_path : List ℕ → List ℕ → Bool
same_path [] [] = true
same_path [] (b ∷ bs) = false
same_path (a ∷ more) [] = false
same_path (a ∷ more) (b ∷ bs) = same_branch a b && same_path more bs

search-absent : (bits : List ℕ) → search bits absent ≡ []
unfolding search
search-absent [] = refl
search-absent (b ∷ bits) = refl

-- An inserted member is found last at the node of its path, and what is found at every other path
-- is as before.
pub search-insert :
    (member : Bytes) (path bits : List ℕ) (t : TrieNode)
    → search bits (insert member path t)
      ≡ (if same_path bits path then search bits t ++ member ∷ [] else search bits t)
unfolding search insert
search-insert member [] [] absent = refl
search-insert member [] [] (trie_node z o ms) = refl
search-insert member [] (b ∷ bits) absent = elim (Bool-cases (b == 0)) [
  | inl e ↦ rw (e, search-absent bits)
  | inr e ↦ rw (e, search-absent bits)
]
search-insert member [] (b ∷ bits) (trie_node z o ms) = refl
search-insert member (p ∷ path) [] absent = elim (Bool-cases (p == 0)) [
  | inl e ↦ rw e refl
  | inr e ↦ rw e refl
]
search-insert member (p ∷ path) [] (trie_node z o ms) = elim (Bool-cases (p == 0)) [
  | inl e ↦ rw e refl
  | inr e ↦ rw e refl
]
search-insert member (p ∷ path) (b ∷ bits) absent =
    let h = search-insert member path bits absent in
    elim (Bool-cases (p == 0)) [
      | inl e ↦ elim (Bool-cases (b == 0)) [
        | inl f ↦ rw (e, f, h, search-absent bits)
        | inr f ↦ rw (e, f, search-absent bits)
      ]
      | inr e ↦ elim (Bool-cases (b == 0)) [
        | inl f ↦ rw (e, f, search-absent bits)
        | inr f ↦ rw (e, f, h, search-absent bits)
      ]
    ]
search-insert member (p ∷ path) (b ∷ bits) (trie_node z o ms) =
    let hz = search-insert member path bits z in
    let ho = search-insert member path bits o in
    elim (Bool-cases (p == 0)) [
      | inl e ↦ elim (Bool-cases (b == 0)) [ inl f ↦ rw (e, f, hz) | inr f ↦ rw (e, f) ]
      | inr e ↦ elim (Bool-cases (b == 0)) [ inl f ↦ rw (e, f) | inr f ↦ rw (e, f, ho) ]
    ]
