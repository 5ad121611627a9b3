-- ===== src/Tests/Trees.antt =====
-- The trie of internal/ds/binary_trie.go at small inputs.
use monster_db.Prelude.{◌≡◌, [], ◌∷◌, ◌++◌, if◌then◌else◌}
use monster_db.Trie.{TrieNode, absent, trie_node, insert}
use monster_db.Trie.Members.{search-insert, same_path}
use monster_db.Trie

abbrev one_member : TrieNode
one_member = trie_node (trie_node absent absent ((b'x' ∷ []) ∷ [])) absent []

search-insert_example : Trie.search (0 ∷ []) (insert (b'y' ∷ []) (0 ∷ []) one_member) ≡ (
    if same_path (0 ∷ []) (0 ∷ [])
    then Trie.search (0 ∷ []) one_member ++ (b'y' ∷ []) ∷ []
    else Trie.search (0 ∷ []) one_member)
search-insert_example = search-insert (b'y' ∷ []) (0 ∷ []) (0 ∷ []) one_member
