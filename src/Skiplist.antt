-- ===== src/Skiplist.antt =====
-- internal/ds/skiplist.go: nodes in the order of their scores, linked at several levels. The pointers
-- `forward[i]` are the chain of level i, the nodes that it leads through from the head; `forward` has
-- the chains from level 0 up. A node is known by its number, in place of its address.
pub mod Walk
pub mod Linked
pub mod Insert
pub mod Find
pub mod Remove
pub mod Unlink
pub mod Delete
pub mod Tied
use monster_db.Prelude.{
  ℕ, zero, suc, ◌+◌, ◌-◌, Bool, true, false, ◌&&◌, ◌||◌, Option, none, some, List, [], ◌∷◌, length,
  take, replicate, get_elem?, ltb, leb, ◌==◌, if◌then◌else◌,
}
use monster_db.Prelude.Int.{ℤ, pos, ltb_ℤ, leb_ℤ, eqb_ℤ}
use monster_db.Prelude.Bytes.{Bytes, eqb}

pub record SkiplistNode : Type 0 where
  pub id : ℕ
  pub member : Bytes
  pub score : ℤ

abbrev pub Chain : Type 0
Chain = List SkiplistNode

-- The level in use, the chains, and the number of the next node.
pub record Skiplist : Type 0 where
  pub level : ℕ
  pub forward : List Chain
  pub next_id : ℕ

abbrev pub max_lvl : ℕ
max_lvl = 16

unfoldable pub new_skiplist : Skiplist
new_skiplist = record { level = 0; forward = replicate 17 []; next_id = 0 }

-- `randomLevel`, on whether each random number in turn is below `P`, with the levels that are left.
unfoldable pub random_level : ℕ → List Bool → ℕ
random_level zero below = 0
random_level (suc left) [] = 0
random_level (suc left) (false ∷ below) = 0
random_level (suc left) (true ∷ below) = suc (random_level left below)

-- The order of strings, byte by byte.
unfoldable pub ltb_bytes : Bytes → Bytes → Bool
ltb_bytes [] [] = false
ltb_bytes [] (b ∷ t) = true
ltb_bytes (a ∷ s) [] = false
ltb_bytes (a ∷ s) (b ∷ t) = ltb a b || ((a == b) && ltb_bytes s t)

-- The tests of the two kinds of walk.
abbrev pub below_score : ℤ → SkiplistNode → Bool
below_score score n = ltb_ℤ n.score score

abbrev pub precedes : Bytes → ℤ → SkiplistNode → Bool
precedes member score n = ltb_ℤ n.score score || (eqb_ℤ n.score score && ltb_bytes n.member member)

abbrev pub is_node : Bytes → ℤ → SkiplistNode → Bool
is_node member score n = eqb n.member member && eqb_ℤ n.score score

-- What a chain leads to from a node; `none` is the head.
unfoldable pub after : Option ℕ → Chain → Chain
after none c = c
after (some i) [] = []
after (some i) (n ∷ c) = if n.id == i then c else after (some i) c

-- The inner loop of a walk: on along a chain while the next node passes the test.
unfoldable pub skip : (SkiplistNode → Bool) → Option ℕ → Chain → Option ℕ
skip less current [] = current
skip less current (n ∷ c) = if less n then skip less (some n.id) c else current

abbrev pub start : List (Option ℕ) → Option ℕ
start [] = none
start (u ∷ us) = u

-- The walk from the highest chain down; `updates` is where it leaves each level.
unfoldable pub updates : (SkiplistNode → Bool) → List Chain → List (Option ℕ)
unfolding after skip
updates less [] = []
updates less (c ∷ cs) = let us = updates less cs in skip less (start us) (after (start us) c) ∷ us

-- The chain behind a node is changed.
unfoldable pub change_after : (Chain → Chain) → Option ℕ → Chain → Chain
change_after f none c = f c
change_after f (some i) [] = []
change_after f (some i) (n ∷ c) = if n.id == i then n ∷ f c else n ∷ change_after f (some i) c

-- The loop that links a node in at the lowest levels, `k` of them; above the walk it stands behind
-- the head.
unfoldable pub link : ℕ → SkiplistNode → List (Option ℕ) → List Chain → List Chain
unfolding change_after
link zero n us cs = cs
link (suc k) n us [] = []
link (suc k) n [] (c ∷ cs) = change_after (λ rest. n ∷ rest) none c ∷ link k n [] cs
link (suc k) n (u ∷ us) (c ∷ cs) = change_after (λ rest. n ∷ rest) u c ∷ link k n us cs

unfoldable pub insert : ℕ → Bytes → ℤ → Skiplist → SkiplistNode × Skiplist
unfolding updates link
insert lvl member score sl =
    let n : SkiplistNode = record { id = sl.next_id; member = member; score = score } in
    let us = updates (below_score score) (take (sl.level + 1) sl.forward) in
    (
      n,
      record {
        level = if ltb sl.level lvl then lvl else sl.level;
        forward = link (lvl + 1) n us sl.forward;
        next_id = sl.next_id + 1;
      },
    )

-- A node is taken out where it is the next one.
abbrev pub drop_first : ℕ → Chain → Chain
drop_first i [] = []
drop_first i (n ∷ c) = if n.id == i then c else n ∷ c

unfoldable pub unlink : ℕ → List (Option ℕ) → List Chain → List Chain
unfolding change_after
unlink i [] cs = cs
unlink i (u ∷ us) [] = []
unlink i (u ∷ us) (c ∷ cs) = change_after (drop_first i) u c ∷ unlink i us cs

-- `forward[i]` of the head.
abbrev pub chain_at : ℕ → List Chain → Chain
chain_at i [] = []
chain_at zero (c ∷ cs) = c
chain_at (suc i) (c ∷ cs) = chain_at i cs

abbrev pub first_of : Chain → Option SkiplistNode
first_of [] = none
first_of (n ∷ c) = some n

unfoldable pub lower_level : ℕ → List Chain → ℕ
lower_level zero cs = 0
lower_level (suc l) cs =
    let lower = lower_level l cs in
    elim (first_of (chain_at (suc l) cs)) [ none ↦ lower | some n ↦ suc l ]

-- The node behind the walk, if it is the one that is looked for.
abbrev pub matching : Bytes → ℤ → Option SkiplistNode → Option SkiplistNode
matching member score none = none
matching member score (some n) = if is_node member score n then some n else none

abbrev pub reached : List (Option ℕ) → Skiplist → Option SkiplistNode
reached us sl = first_of (after (start us) (chain_at 0 sl.forward))

abbrev pub delete_found : List (Option ℕ) → Option SkiplistNode → Skiplist → Skiplist
delete_found us none sl = sl
delete_found us (some n) sl =
    let forward = unlink n.id us sl.forward in
    record sl { forward = forward; level = lower_level sl.level forward }

unfoldable pub delete : Bytes → ℤ → Skiplist → Skiplist
unfolding updates after unlink lower_level
delete member score sl =
    let us = updates (precedes member score) (take (sl.level + 1) sl.forward) in
    delete_found us (matching member score (reached us sl)) sl

unfoldable pub search : Bytes → ℤ → Skiplist → Option SkiplistNode
unfolding updates after
search member score sl =
    let us = updates (precedes member score) (take (sl.level + 1) sl.forward) in
    matching member score (reached us sl)

-- The loops of `Zrange`.
unfoldable pub skip_to : ℤ → ℕ → Chain → Chain × ℕ
skip_to first index [] = ([], index)
skip_to first index (n ∷ c) =
    if ltb_ℤ (pos index) first then skip_to first (suc index) c else (n ∷ c, index)

unfoldable pub take_to : ℤ → ℕ → Chain → Chain
take_to last index [] = []
take_to last index (n ∷ c) = if leb_ℤ (pos index) last then n ∷ take_to last (suc index) c else []

unfoldable pub zrange : ℤ → ℤ → Skiplist → Chain
unfolding skip_to take_to
zrange first last sl =
    let (c, index) = skip_to first 0 (chain_at 0 sl.forward) in take_to last index c
