-- ===== src/Bst.antt =====
-- internal/ds/bst.go: a binary search tree with byte strings for keys. A nil pointer is `leaf`.
pub mod Lookup
use monster_db.Prelude.{ℕ, Bool, Option, none, some, if◌then◌else◌}
use monster_db.Prelude.Bytes.{Bytes, before}

pub data BstNode {ℓ} (V : Type ℓ) : Type ℓ where
  leaf : BstNode V
  bst_node : Bytes → V → BstNode V → BstNode V → BstNode V

-- `Insert` and `insertNode`: a new node takes the place of the nil pointer that is reached.
unfoldable pub insert_node {ℓ} : {V : Type ℓ} → Bytes → V → BstNode V → BstNode V
insert_node key value leaf = bst_node key value leaf leaf
insert_node key value (bst_node k v left right) =
    let left' = insert_node key value left in
    let right' = insert_node key value right in
    if before key k
    then bst_node k v left' right
    else if before k key
    then bst_node k v left right'
    else bst_node k value left right

unfoldable pub search {ℓ} : {V : Type ℓ} → Bytes → BstNode V → Option V
search key leaf = none
search key (bst_node k v left right) =
    let in_left = search key left in
    let in_right = search key right in
    if before key k then in_left else if before k key then in_right else some v
