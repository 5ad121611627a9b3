-- ===== src/ListCmd/Pushed.antt =====
-- The list commands of internal/store/list_cmd.go on the sequence of values that a key stands for.
use monster_db.Prelude.{
  ◌≡◌, true, false, Option, none, some, List, [], ◌∷◌, ◌++◌, length, ◌==◌, if◌then◌else◌,
}
use monster_db.Prelude.Int.{pos}
use monster_db.Prelude.Bytes.{Bytes}
use monster_db.Prelude.Dict.{lookup}
use monster_db.Runtime.{int_reply}
use monster_db.Listpack.Codec.{Value}
use monster_db.Quicklist.{Quicklist}
use monster_db.Quicklist.Nodes.{Represents}
use monster_db.TypeString.{assert_type}
use monster_db.Keyspace.{Obj, Db, Moment, quicklist, has_expired}
use monster_db.Command.{Outcome}
use monster_db.ListCmd.{obj_type_list}

-- The key holds a list that stands for `vs` and has not expired.
pub record HoldsList (m : Moment) (db : Db) (key : Bytes) (vs : List Value) : Type 0 where
  pub obj : Obj
  pub ql : Quicklist
  pub found : lookup key db.store ≡ some obj
  pub is_list : assert_type obj.type_encoding obj_type_list ≡ true
  pub content : obj.content ≡ quicklist ql
  pub represents : Represents ql vs
  pub alive : has_expired m key db ≡ false

-- The key holds a list, or no key is there, which stands for the empty list.
pub data ListAt (m : Moment) (db : Db) (key : Bytes) (vs : List Value) : Type 0 where
  held : HoldsList m db key vs → ListAt m db key vs
  missing : lookup key db.store ≡ none → vs ≡ [] → ListAt m db key vs

-- That of LPUSH puts each in front of those before.
abbrev pub in_front : List Value → List Value → List Value
in_front [] vs = vs
in_front (v ∷ values) vs = in_front values (v ∷ vs)

-- What a push does: the reply is the new length, the key holds the new list, and it is marked as
-- ready if the list was empty before.
pub record Pushed (o : Option Outcome) (m : Moment) (db : Db) (key : Bytes) (old new : List Value)
    : Type 0 where
  pub out : Outcome
  pub returns : o ≡ some out
  pub replies : out.replies ≡ int_reply (pos (length new)) ∷ []
  pub holds : HoldsList m out.db key new
  pub ready : out.db.ready ≡ (if length old == 0 then db.ready ++ key ∷ [] else db.ready)
