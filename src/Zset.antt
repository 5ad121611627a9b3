-- ===== src/Zset.antt =====
-- internal/store/zset.go: a sorted set, a map from members to nodes beside a skip list.
pub mod Ordered
pub mod Interval
use monster_db.Prelude.{ℕ, ◌+◌, Bool, true, false, Option, none, some, List, [], ◌∷◌, map}
use monster_db.Prelude.Int.{ℤ, pos}
use monster_db.Prelude.Bytes.{Bytes}
use monster_db.Prelude.Dict.{Dict, lookup}
use monster_db.Prelude.Dict
use monster_db.Skiplist.{SkiplistNode, Skiplist, new_skiplist, zrange}
use monster_db.Skiplist

-- The nodes of the map are those of the list: their members and scores never change.
pub record Zset : Type 0 where
  pub dict : Dict SkiplistNode
  pub list : Skiplist

unfoldable pub new_zset : Zset
unfolding new_skiplist
new_zset = record { dict = []; list = new_skiplist }

abbrev pub delete_node : Bytes → Option SkiplistNode → Zset → ℕ × Zset
delete_node member none z = (0, z)
delete_node member (some found) z =
    (1, record z { list = Skiplist.delete member found.score z.list })

unfoldable pub delete : Bytes → Zset → ℕ × Zset
delete member z = delete_node member (lookup member z.dict) z

unfoldable pub add : ℕ → Bytes → ℤ → Zset → Zset
unfolding delete
add lvl member score z =
    let z' = (delete member z).1 in
    let (inserted, list) = Skiplist.insert lvl member score z'.list in
    record { dict = Dict.insert member inserted z'.dict; list = list }

abbrev pub score_of : Option SkiplistNode → ℤ × Bool
score_of none = (pos 0, false)
score_of (some found) = (found.score, true)

unfoldable pub search : Bytes → Zset → ℤ × Bool
search member z = score_of (lookup member z.dict)

unfoldable pub range : ℤ → ℤ → Zset → List Bytes
range first last z = map (λ n. n.member) (zrange first last z.list)
