-- ===== src/Trie.antt =====
-- internal/ds/binary_trie.go: a trie over bits whose nodes hold member names. A nil pointer is
-- `absent`, and a nil slice of members is the empty one.
pub mod Members
use monster_db.Prelude.{ℕ, List, [], ◌∷◌, ◌++◌, ◌==◌, if◌then◌else◌}
use monster_db.Prelude.Bytes.{Bytes}

pub data TrieNode : Type 0 where
  absent : TrieNode
  trie_node : TrieNode → TrieNode → List Bytes → TrieNode

unfoldable pub new_trie : TrieNode
new_trie = trie_node absent absent []

unfoldable pub search : List ℕ → TrieNode → List Bytes
search bits absent = []
search [] (trie_node zeros ones members) = members
search (b ∷ bits) (trie_node zeros ones members) =
    let at_zero = search bits zeros in
    let at_one = search bits ones in if b == 0 then at_zero else at_one

-- The loop of `insert` from the current node; a child that is absent is created first.
unfoldable pub insert : Bytes → List ℕ → TrieNode → TrieNode
insert member [] absent = trie_node absent absent (member ∷ [])
insert member [] (trie_node zeros ones members) = trie_node zeros ones (members ++ member ∷ [])
insert member (b ∷ bits) absent =
    let child = insert member bits absent in
    if b == 0 then trie_node child absent [] else trie_node absent child []
insert member (b ∷ bits) (trie_node zeros ones members) =
    let zeros' = insert member bits zeros in
    let ones' = insert member bits ones in
    if b == 0 then trie_node zeros' ones members else trie_node zeros ones' members
