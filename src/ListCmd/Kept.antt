-- ===== src/ListCmd/Kept.antt =====
-- The list commands of internal/store/list_cmd.go keep the invariant of the keyspace.
use monster_db.Prelude.{refl, not, Bool-cases, inl, inr, Option, none, some, List, [], ◌∷◌, ◌==◌}
use monster_db.Prelude.Int.{ℤ, negsuc}
use monster_db.Prelude.Bytes.{Bytes}
use monster_db.Listpack.Codec.{Value}
use monster_db.Quicklist.{
  Quicklist, new_quicklist, add_to_head, add_to_tail, get_elements, remove_elements,
}
use monster_db.TypeString.{assert_type}
use monster_db.Keyspace.{Obj, Db, Host, Moment, quicklist, get}
use monster_db.Keyspace.Consistent.{
  IsConsistent, get-IsConsistent, put-IsConsistent, same-IsConsistent,
}
use monster_db.Keyspace.Behind.{update_content, update_content-IsConsistent}
use monster_db.Command.{Strconv}
use monster_db.Command.Kept.{IsKept, Keeps, bind-IsKept, reply_first-IsKept}
use monster_db.ListCmd.{
  obj_type_list, as_quicklist, push_loop, push_values, push_found, rpush, lpush, llen, llen_found,
  lrange, range_found, lpop, pop_found, pop_count_of,
}

push_values-IsKept :
    (sc : Strconv) (add : Value → Quicklist → Option Quicklist) (key : Bytes) (args : List Bytes)
    (ql : Quicklist) (db : Db)
    → IsConsistent db
    → IsKept (push_values sc add key args ql db)
unfolding push_values
push_values-IsKept sc add key args ql db h = bind-IsKept (push_loop sc add args ql) _ λ ql' e.
    (elim (Bool-cases (ql.len == 0)) [
      | inl z ↦ rw z (
          same-IsConsistent (update_content key (quicklist ql') db) _ refl refl
            (update_content-IsConsistent key (quicklist ql') db h))
      | inr z ↦ rw z (update_content-IsConsistent key (quicklist ql') db h)
    ])

push_found-IsKept :
    (sc : Strconv) (add : Value → Quicklist → Option Quicklist) (host : Host) (m : Moment)
    (key : Bytes) (args : List Bytes) (r : Option Obj × Db)
    → IsConsistent r.1
    → IsKept (push_found sc add host m key args r)
push_found-IsKept sc add host m key args (none, db) h =
    bind-IsKept new_quicklist _ λ ql e.
      push_values-IsKept sc add key args ql _ (put-IsConsistent host m key _ (negsuc 0) db h)
push_found-IsKept sc add host m key args (some obj, db) h =
    elim (Bool-cases (not (assert_type obj.type_encoding obj_type_list))) [
      | inl e ↦ rw e h
      | inr e ↦ rw e (
          bind-IsKept (as_quicklist obj.content) _
            λ ql f. push_values-IsKept sc add key args ql db h)
    ]

pub rpush-Keeps : (sc : Strconv) → Keeps (rpush sc)
unfolding rpush
rpush-Keeps sc host m [] db h = h
rpush-Keeps sc host m (key ∷ []) db h = h
rpush-Keeps sc host m (key ∷ arg ∷ args) db h =
    push_found-IsKept sc add_to_tail host m key (arg ∷ args) (get m key db)
      (get-IsConsistent m key db h)

pub lpush-Keeps : (sc : Strconv) → Keeps (lpush sc)
unfolding lpush
lpush-Keeps sc host m [] db h = h
lpush-Keeps sc host m (key ∷ []) db h = h
lpush-Keeps sc host m (key ∷ arg ∷ args) db h =
    push_found-IsKept sc add_to_head host m key (arg ∷ args) (get m key db)
      (get-IsConsistent m key db h)

llen_found-IsKept : (r : Option Obj × Db) → IsConsistent r.1 → IsKept (llen_found r)
llen_found-IsKept (none, db) h = h
llen_found-IsKept (some obj, db) h =
    elim (Bool-cases (not (assert_type obj.type_encoding obj_type_list))) [
      | inl e ↦ rw e h
      | inr e ↦ rw e (bind-IsKept (as_quicklist obj.content) _ λ ql f. h)
    ]

pub llen-Keeps : Keeps llen
unfolding llen
llen-Keeps host m [] db h = tt
llen-Keeps host m (key ∷ []) db h = llen_found-IsKept (get m key db) (get-IsConsistent m key db h)
llen-Keeps host m (key ∷ a ∷ rest) db h =
    reply_first-IsKept _ (llen_found (get m key db))
      (llen_found-IsKept (get m key db) (get-IsConsistent m key db h))

range_found-IsKept :
    (start stop : ℤ) (r : Option Obj × Db) → IsConsistent r.1 → IsKept (range_found start stop r)
range_found-IsKept start stop (none, db) h = h
range_found-IsKept start stop (some obj, db) h =
    bind-IsKept (as_quicklist obj.content) _
      λ ql e. bind-IsKept (get_elements start stop ql) _ λ replies f. h

pub lrange-Keeps : (sc : Strconv) → Keeps (lrange sc)
unfolding lrange
lrange-Keeps sc host m [] db h = h
lrange-Keeps sc host m (a ∷ []) db h = h
lrange-Keeps sc host m (a ∷ b ∷ []) db h = h
lrange-Keeps sc host m (key ∷ start ∷ stop ∷ []) db h =
    range_found-IsKept ((sc.parse_int 64 start).0) ((sc.parse_int 64 stop).0) (get m key db)
      (get-IsConsistent m key db h)
lrange-Keeps sc host m (a ∷ b ∷ c ∷ d ∷ rest) db h = h

pop_found-IsKept :
    (key : Bytes) (count : ℤ) (r : Option Obj × Db)
    → IsConsistent r.1
    → IsKept (pop_found key count r)
pop_found-IsKept key count (none, db) h = h
pop_found-IsKept key count (some obj, db) h = bind-IsKept (as_quicklist obj.content) _ λ ql e.
    bind-IsKept (remove_elements count ql) _
      λ p f. update_content-IsConsistent key (quicklist p.1) db h

pub lpop-Keeps : (sc : Strconv) → Keeps (lpop sc)
unfolding lpop
lpop-Keeps sc host m [] db h = h
lpop-Keeps sc host m (key ∷ args) db h =
    pop_found-IsKept key (pop_count_of sc args) (get m key db) (get-IsConsistent m key db h)
