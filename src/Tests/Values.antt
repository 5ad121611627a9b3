-- ===== src/Tests/Values.antt =====
-- The commands of internal/store/list_cmd.go and set_cmd.go at a small keyspace.
use monster_db.Prelude.{ℕ, ◌+◌, ◌≡◌, refl, some, [], ◌∷◌, length, if◌then◌else◌}
use monster_db.Prelude.Int.{pos}
use monster_db.Prelude.Bytes.{Bytes}
use monster_db.Prelude.Dict.{lookup}
use monster_db.Runtime.{int_reply, bytes_reply, int_array}
use monster_db.Intset.Members.{contains, without}
use monster_db.TypeString.{assert_type}
use monster_db.Command.{Outcome, resp_one, resp_zero}
use monster_db.ListCmd.Pushed.{HoldsList, held, Pushed}
use monster_db.SetCmd.{sadd, sismember, srem, smembers}
use monster_db.SetCmd.Members.{HoldsSet, SetAt, with_members, sadd-Holds}
use monster_db.SetCmd.Asked.{sismember-contains, srem-without, smembers-members}
use monster_db.Tests.Hosts.{
  one_digit, one_digit-Bounds16, small_host, at_second, list_obj, set_obj, three_keys,
  three_keys-IsConsistent, no_expiry,
}
use monster_db.Tests.Lists.{two_values, one_node, one_node-Represents}
use monster_db.Tests.Sets.{three_members, three_words, three_words-Represents}

pub list-HoldsList : HoldsList (at_second 5) three_keys (b'l' ∷ []) two_values
unfolding three_keys lookup assert_type
list-HoldsList = record {
  obj = list_obj;
  ql = one_node;
  found = refl;
  is_list = refl;
  content = refl;
  represents = one_node-Represents;
  alive = no_expiry (b'l' ∷ []);
}

set-HoldsSet : HoldsSet (at_second 5) three_keys (b's' ∷ []) three_members
unfolding three_keys lookup assert_type
set-HoldsSet = record {
  obj = set_obj;
  is = three_words;
  found = refl;
  is_set = refl;
  content = refl;
  represents = three_words-Represents;
  alive = no_expiry (b's' ∷ []);
}

-- The values `ab` and 5, which is read as the number of its one digit.
abbrev ab : Bytes
ab = b'a' ∷ b'b' ∷ []

sadd-Holds_example :
    (out : Outcome) × (n : ℕ) × (sadd one_digit small_host
        (at_second 5)
        ((b's' ∷ []) ∷ (5 ∷ []) ∷ (3 ∷ []) ∷ [])
        three_keys
      ≡ some out)
    × (out.replies ≡ int_reply (pos n) ∷ [])
    × HoldsSet
        (at_second 5)
        out.db
        (b's' ∷ [])
        (with_members one_digit ((5 ∷ []) ∷ (3 ∷ []) ∷ []) three_members)
    × (length (with_members one_digit ((5 ∷ []) ∷ (3 ∷ []) ∷ []) three_members)
        ≡ length three_members + n)
sadd-Holds_example =
    sadd-Holds one_digit small_host (at_second 5) (b's' ∷ []) (5 ∷ []) ((3 ∷ []) ∷ []) three_members
      three_keys one_digit-Bounds16 three_keys-IsConsistent (SetAt.held set-HoldsSet)

sismember-contains_example :
    (out : Outcome) × (sismember one_digit small_host
        (at_second 5)
        ((b's' ∷ []) ∷ (3 ∷ []) ∷ [])
        three_keys
      ≡ some out)
    × (out.replies
        ≡ bytes_reply (if contains (pos 3) three_members then resp_one else resp_zero) ∷ [])
    × HoldsSet (at_second 5) out.db (b's' ∷ []) three_members
sismember-contains_example =
    sismember-contains (at_second 5) (b's' ∷ []) three_members three_keys set-HoldsSet one_digit
      small_host (3 ∷ []) (pos 3) refl

srem-without_example :
    (out : Outcome) × (srem one_digit small_host
        (at_second 5)
        ((b's' ∷ []) ∷ (3 ∷ []) ∷ [])
        three_keys
      ≡ some out)
    × (out.replies ≡ int_reply (pos (if contains (pos 3) three_members then 1 else 0)) ∷ [])
    × HoldsSet
        (at_second 5)
        out.db
        (b's' ∷ [])
        (if contains (pos 3) three_members then without (pos 3) three_members else three_members)
srem-without_example =
    srem-without (at_second 5) (b's' ∷ []) three_members three_keys set-HoldsSet one_digit
      small_host (3 ∷ []) (pos 3) refl

smembers-members_example :
    (out : Outcome) × (smembers small_host (at_second 5) ((b's' ∷ []) ∷ []) three_keys ≡ some out)
    × (out.replies ≡ int_array three_members ∷ [])
    × HoldsSet (at_second 5) out.db (b's' ∷ []) three_members
smembers-members_example =
    smembers-members small_host (at_second 5) (b's' ∷ []) three_members three_keys set-HoldsSet
