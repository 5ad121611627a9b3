-- ===== src/Quicklist.antt =====
-- internal/ds/quicklist.go: a chain of listpacks. The chain from `head` to `tail` by `next` is the
-- list `nodes` (`prev` points back along it; both ends are nil when it is empty). `none` is a panic
-- or, in the loops over one node, that their fuel ran out.
pub mod Nodes
pub mod Add
pub mod Scan
pub mod Pop
pub mod Range
pub mod Slice
use mathlib.Core.Option
use monster_db.Prelude.{
  ℕ, zero, suc, ◌+◌, ◌-◌, Bool, true, false, not, ◌&&◌, ◌||◌, Option, none, some, List, [], ◌∷◌,
  ◌++◌, length, map, get_elem?, ltb, leb, ◌==◌, if◌then◌else◌, ◌>>=◌,
}
use monster_db.Prelude.Int.{ℤ, wrap64, pos, negsuc, sub_ℕ, ◌+ℤ◌, ◌-ℤ◌, leb_ℤ, ltb_ℤ, pos_part}
use monster_db.Prelude.Bytes.{Bytes}
use monster_db.Runtime.{Reply, bytes_reply, int_reply, null_reply, array_len}
use monster_db.Listpack.{
  Listpack, new_listpack, total_len, elements, set_elements, set_total_len, is_empty, remove,
  header_size, end_byte, type_int, type_string, max_listpack_bytes,
}
use monster_db.Listpack.Codec.{Value, int, str, decode_at_int, decode_at_string}
use monster_db.Listpack.Entries.{add}

pub record Quicklist : Type 0 where
  pub nodes : List Listpack
  pub len : ℕ

unfoldable pub new_quicklist : Option Quicklist
new_quicklist = do lp ← new_listpack; some (record { nodes = lp ∷ []; len = 0 })

abbrev pub size : Quicklist → ℕ
size ql = ql.len

abbrev pub estimated : ℕ
estimated = 16

-- The new tail of the chain, and what stands in front of it, once the value is in.
unfoldable pub add_last : Value → List Listpack → Option (List Listpack)
add_last v [] = none
add_last v (lp ∷ []) = do
  n ← total_len lp
  if ltb max_listpack_bytes (n + estimated)
      then (do fresh ← new_listpack; lp' ← add v false fresh; some (lp ∷ lp' ∷ []))
      else (do lp' ← add v false lp; some (lp' ∷ []))
add_last v (lp ∷ next ∷ rest) = do nodes ← add_last v (next ∷ rest); some (lp ∷ nodes)

-- The nil test of both ends, which makes a first node.
unfoldable pub ensure_node : List Listpack → Option (List Listpack)
ensure_node [] = do lp ← new_listpack; some (lp ∷ [])
ensure_node (lp ∷ rest) = some (lp ∷ rest)

unfoldable pub add_to_tail : Value → Quicklist → Option Quicklist
unfolding ensure_node add_last
add_to_tail v ql = do
  nodes ← ensure_node ql.nodes
  nodes' ← add_last v nodes
  some (record { nodes = nodes'; len = ql.len + 1 })

unfoldable pub add_first : Value → List Listpack → Option (List Listpack)
add_first v [] = none
add_first v (lp ∷ rest) = do
  n ← total_len lp
  if leb max_listpack_bytes (n + estimated)
      then (do fresh ← new_listpack; lp' ← add v true fresh; some (lp' ∷ lp ∷ rest))
      else (do lp' ← add v true lp; some (lp' ∷ rest))

unfoldable pub add_to_head : Value → Quicklist → Option Quicklist
unfolding ensure_node add_first
add_to_head v ql = do
  nodes ← ensure_node ql.nodes
  nodes' ← add_first v nodes
  some (record { nodes = nodes'; len = ql.len + 1 })

-- What the switch on the type byte finds: an entry and its size, an entry that does not decode, or
-- a byte that is no type.
pub data Entry : Type 0 where
  decoded : Value → ℕ → Entry
  failed : Entry
  unknown : Entry

unfoldable pub entry_at : ℕ → Listpack → Option Entry
entry_at at lp = do
  t ← get_elem? lp.content at
  if t == type_string
      then (do (s, n) ← decode_at_string at lp; some (if n == 0 then failed else decoded (str s) n))
      else if t == type_int
      then (do (i, n) ← decode_at_int at lp; some (if n == 0 then failed else decoded (int i) n))
      else some unknown

abbrev pub reply_of : Value → Reply
reply_of (int i) = int_reply i
reply_of (str s) = bytes_reply s

-- What the inner loop of `RemoveElements` has met: the entries in order, the bytes that they take,
-- and whether it left by a `return`.
pub record Taken : Type 0 where
  pub values : List Value
  pub total_size : ℕ
  pub returned : Bool

abbrev pub taken_more : Value → ℕ → Taken → Taken
taken_more v n r = record r { values = v ∷ r.values; total_size = n + r.total_size }

abbrev pub nothing : Taken
nothing = record { values = []; total_size = 0; returned = false }

-- Is there an entry at `at`?
unfoldable pub more : ℕ → Listpack → Option Bool
more at lp =
    if leb (length lp.content) at
    then some false
    else (do t ← get_elem? lp.content at; some (not (t == end_byte)))

-- The inner loop of `RemoveElements`, with `left` entries to go until `removed == count`.
unfoldable pub take_entries : ℕ → ℕ → ℕ → Listpack → Option Taken
take_entries zero left at lp = none
take_entries (suc fuel) zero at lp = some nothing
take_entries (suc fuel) (suc left) at lp = do
  go ← more at lp
  elim go [
    | false ↦ some nothing
    | true ↦ do
      e ← entry_at at lp
      elim e [
        | decoded v n ↦ Option.map (taken_more v n) (take_entries fuel left (at + n) lp)
        | _ ↦ some (record nothing { returned = true })
      ]
  ]

-- The bytes of the entries that were read are cut out, and the header follows.
unfoldable pub shrink : ℕ → ℕ → Listpack → Option Listpack
shrink total_size removed lp = do
  lp' ← remove header_size total_size lp
  k ← elements lp'
  lp'' ← set_elements (sub_ℕ k removed) lp'
  set_total_len (length lp''.content) lp''

-- The outer loop of `RemoveElements`: the values in order, the nodes that stay in the chain, and
-- what `len` falls by.
pub record Popped : Type 0 where
  pub values : List Value
  pub nodes : List Listpack
  pub gone : ℕ

unfoldable pub pop_nodes : ℕ → List Listpack → Option Popped
pop_nodes left [] = some (record { values = []; nodes = []; gone = 0 })
pop_nodes left (lp ∷ rest) =
    if left == 0 then some (record { values = []; nodes = lp ∷ rest; gone = 0 }) else (do
      r ← take_entries (suc (length lp.content)) left header_size lp
      if r.returned then some (record { values = r.values; nodes = lp ∷ rest; gone = 0 }) else (do
        let removed = length r.values
        lp' ← if r.total_size == 0 then some lp else shrink r.total_size removed lp
        empty ← is_empty lp'
        p ← pop_nodes (left - removed) rest
        some (record {
          values = r.values ++ p.values;
          nodes = if empty then p.nodes else lp' ∷ p.nodes;
          gone = (if r.total_size == 0 then 0 else removed) + p.gone;
        })))

-- `ql.head == nil`
abbrev pub no_nodes : List Listpack → Bool
no_nodes [] = true
no_nodes (lp ∷ rest) = false

-- The number of entries asked for is at most `len`, so `len` never falls below 0.
unfoldable pub remove_elements : ℤ → Quicklist → Option (List Reply × Quicklist)
unfolding pop_nodes
remove_elements count ql =
    if no_nodes ql.nodes || (ql.len == 0) || leb_ℤ count (pos 0)
    then some (null_reply ∷ [], ql)
    else (do
      let n = if ltb_ℤ (pos ql.len) count then ql.len else pos_part count
      p ← pop_nodes n ql.nodes
      some (
        array_len (pos n) ∷ map reply_of p.values,
        record { nodes = p.nodes; len = ql.len - p.gone },
      ))

-- What the inner loop of `GetElements` has appended, the index behind it, and whether it left by a
-- `return`.
pub record Read : Type 0 where
  pub values : List Value
  pub index : ℕ
  pub returned : Bool

abbrev pub read_more : List Value → Read → Read
read_more vs r = record r { values = vs ++ r.values }

-- An entry is appended if its index is in the range.
abbrev pub shown : ℤ → ℤ → ℕ → Entry → List Value
shown start stop index (decoded v n) =
    if leb_ℤ start (pos index) && leb_ℤ (pos index) stop then v ∷ [] else []
shown start stop index _ = []

-- `size`, which a byte of no type leaves at 0.
abbrev pub entry_size : Entry → ℕ
entry_size (decoded v n) = n
entry_size _ = 0

unfoldable pub read_entries : ℕ → ℤ → ℤ → ℕ → ℕ → Listpack → Option Read
read_entries zero start stop index at lp = none
read_entries (suc fuel) start stop index at lp = do
  go ← more at lp
  elim go [
    | false ↦ some (record { values = []; index = index; returned = false })
    | true ↦ do
      e ← entry_at at lp
      elim e [
        | failed ↦ some (record { values = []; index = index; returned = true })
        | other ↦
            let rest = read_entries fuel start stop (index + 1) (at + entry_size other) lp in
            if ltb_ℤ stop (pos (index + 1))
            then some (record {
              values = shown start stop index other;
              index = index + 1;
              returned = true;
            })
            else Option.map (read_more (shown start stop index other)) rest
      ]
  ]

-- Every round raises the index by one and a round past `stop` is the last: the fuel suffices.
unfoldable pub read_nodes : ℤ → ℤ → ℕ → List Listpack → Option (List Value)
read_nodes start stop index [] = some []
read_nodes start stop index (lp ∷ rest) = do
  r ← read_entries (suc (suc (suc (pos_part stop)))) start stop index header_size lp
  if r.returned
      then some r.values
      else Option.map (λ vs. r.values ++ vs) (read_nodes start stop r.index rest)

unfoldable pub get_elements : ℤ → ℤ → Quicklist → Option (List Reply)
unfolding read_nodes
get_elements start stop ql =
    if no_nodes ql.nodes || (ql.len == 0) then some (null_reply ∷ []) else (do
      vs ← read_nodes start stop 0 ql.nodes
      some (array_len (wrap64 (stop -ℤ start +ℤ pos 1)) ∷ map reply_of vs))

-- `DumpQuicklist`; `strconv.FormatInt` is a parameter. An inner `none` is its nil result.
module _ (format_int : ℤ → Bytes) where
  abbrev pub token : Value → Bytes
  token (int i) = format_int i
  token (str s) = s

  unfoldable pub dump_entries : ℕ → ℕ → Listpack → Option (Option (List Bytes))
  dump_entries zero at lp = none
  dump_entries (suc fuel) at lp = do
    go ← more at lp
    elim go [
      | false ↦ some (some [])
      | true ↦ do
        e ← entry_at at lp
        elim e [
          | decoded v n ↦
              Option.map (Option.map (λ ts. token v ∷ ts)) (dump_entries fuel (at + n) lp)
          | _ ↦ some none
        ]
    ]

  unfoldable pub dump_nodes : List Listpack → Option (Option (List Bytes))
  dump_nodes [] = some (some [])
  dump_nodes (lp ∷ rest) = do
    ts ← dump_entries (suc (length lp.content)) header_size lp
    elim ts [
      | none ↦ some none
      | some us ↦ Option.map (Option.map (λ ws. us ++ ws)) (dump_nodes rest)
    ]

  unfoldable pub dump_quicklist : Quicklist → Option (Option (List Bytes))
  unfolding dump_nodes
  dump_quicklist ql = dump_nodes ql.nodes
