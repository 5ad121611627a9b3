-- ===== src/ListCmd/Popped.antt =====
-- LPOP and LRANGE of internal/store/list_cmd.go on the sequence of values that a key stands for.
use monster_db.Prelude.{◌<◌, ◌≡◌, refl, ap, ◌∙◌, true, some, List, ◌∷◌, map, length, take, drop}
use monster_db.Prelude.Int.{ℤ, pos, ◌<ℤ◌}
use monster_db.Prelude.Bytes.{Bytes}
use monster_db.Prelude.Dict.{lookup, insert, lookup-insert_self}
use monster_db.Runtime.{array_len}
use monster_db.Listpack.Codec.{Value}
use monster_db.Quicklist.{reply_of}
use monster_db.Quicklist.Pop.{pop_count, remove_elements-TakesFront}
use monster_db.TypeString.{assert_type}
use monster_db.Keyspace.{Db, Host, Moment, quicklist, touch, has_expired, passed}
use monster_db.Keyspace.Consistent.{get_alive}
use monster_db.Command.{Strconv, Outcome}
use monster_db.Keyspace.Behind.{update_content, update_content-lookup}
use monster_db.ListCmd.{obj_type_list, lpop, pop_found, pop_count_of}
use monster_db.ListCmd.Pushed.{HoldsList}

pub lpop-Popped :
    (sc : Strconv) (host : Host) (m : Moment) (key : Bytes) (args : List Bytes) (vs : List Value)
    (db : Db)
    → HoldsList m db key vs
    → 0 < length vs
    → pos 0 <ℤ pop_count_of sc args
    → (out : Outcome) × (lpop sc host m (key ∷ args) db ≡ some out)
      × (out.replies
          ≡ array_len (pos (pop_count (pop_count_of sc args) (length vs)))
            ∷ map reply_of (take (pop_count (pop_count_of sc args) (length vs)) vs))
      × HoldsList m out.db key (drop (pop_count (pop_count_of sc args) (length vs)) vs)
unfolding lpop has_expired
lpop-Popped sc host m key args vs db h p q =
    let count : ℤ = pop_count_of sc args in
    let t = remove_elements-TakesFront count vs h.ql h.represents p q in
    let db' : Db = record db { store = insert key (touch m h.obj) db.store } in
    let found : lookup key db'.store ≡ some (touch m h.obj) =
      lookup-insert_self key (touch m h.obj) db.store in
    let type : assert_type ((touch m h.obj).type_encoding) obj_type_list ≡ true =
      unfold touch in h.is_list in
    let (found', expires') =
      update_content-lookup key (quicklist t.rest) (touch m h.obj) db' found in
    (
      record {
        replies =
            array_len (pos (pop_count count (length vs)))
            ∷ map reply_of (take (pop_count count (length vs)) vs);
        db = update_content key (quicklist t.rest) db';
      },
      ap (pop_found key count) (get_alive m key h.obj db h.found h.alive)
          ∙ unfold touch in rw (h.content, t.returns) refl,
      refl,
      record {
        obj = record (touch m h.obj) { content = quicklist t.rest };
        ql = t.rest;
        found = found';
        is_list = type;
        content = refl;
        represents = t.left;
        alive = ap (λ x. passed m (lookup key x)) expires' ∙ h.alive;
      },
    )
