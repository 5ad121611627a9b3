-- ===== src/Tests/Lists.antt =====
-- Listpacks and quicklists of internal/ds at small inputs.
use monster_db.Prelude.{◌≤◌, ◌<◌, ◌≡◌, refl, arith, some, List, [], ◌∷◌, ◌++◌, length}
use monster_db.Prelude.Int.{◌<ℤ◌, ℤ, pos, negsuc}
use monster_db.Prelude.Bytes.{le_bytes}
use monster_db.Runtime.{Reply, array_len}
use monster_db.Listpack.{Listpack, type_int, type_string, end_byte}
use monster_db.Listpack.Codec.{Value, int, str, encode_int, encode_string}
use monster_db.Listpack.Entries.{Holds, packed, body}
use monster_db.Quicklist.{Quicklist, add_to_tail, get_elements}
use monster_db.Quicklist.Nodes.{Represents}
use monster_db.Quicklist.Add.{add_to_tail-Represents}
use monster_db.Quicklist.Slice.{get_elements_count}

-- The number 300 and the string "ab".
abbrev pub two_values : List Value
two_values = int (pos 300) ∷ str (b'a' ∷ b'b' ∷ []) ∷ []

abbrev two_entries : Listpack
two_entries = record {
  content =
      14 ∷ 0 ∷ 0 ∷ 0 ∷ 2 ∷ 0 ∷ type_int ∷ 129 ∷ 44 ∷ type_string ∷ 2 ∷ b'a' ∷ b'b' ∷ end_byte ∷ [];
  spare = [];
}

two_entries-Holds : Holds two_entries two_values
unfolding packed body encode_int encode_string le_bytes
two_entries-Holds = refl

abbrev pub one_node : Quicklist
one_node = record { nodes = two_entries ∷ []; len = 2 }

pub one_node-Represents : Represents one_node two_values
unfolding body encode_int encode_string le_bytes
one_node-Represents = record {
  parts = two_values ∷ [];
  hold = (
    two_entries-Holds,
    record { few = omega arith; total = omega arith; fit = (omega arith, (omega arith, tt)) },
    tt,
  );
  all = refl;
  counted = refl;
}

add_to_tail-Represents_example :
    (ql : Quicklist) × (add_to_tail (int (negsuc 0)) one_node ≡ some ql)
    × Represents ql (two_values ++ int (negsuc 0) ∷ [])
add_to_tail-Represents_example =
    add_to_tail-Represents (int (negsuc 0)) two_values one_node one_node-Represents (omega arith)

get_elements_count_example :
    (n : ℤ) × (replies : List Reply) × (get_elements (pos 0) (pos 9) one_node
      ≡ some (array_len n ∷ replies))
    × (9 < length two_values → n ≡ pos (length replies))
    × (length two_values ≤ 9 → pos (length replies) <ℤ n)
get_elements_count_example =
    get_elements_count 0 9 two_values one_node one_node-Represents (omega arith) (omega arith)
      (omega arith)
