-- ===== src/SetCmd/Kept.antt =====
-- The commands of internal/store/set_cmd.go keep the invariant of the keyspace.
use monster_db.Prelude.{
  not, Bool, true, false, Bool-cases, inl, inr, Option, none, some, List, [], ◌∷◌, ◌>>=◌,
}
use monster_db.Prelude.Int.{ℤ, negsuc}
use monster_db.Prelude.Bytes.{Bytes}
use monster_db.Intset.{Intset, new_intset, search, holds_at, del}
use monster_db.Intset
use monster_db.TypeString.{assert_type}
use monster_db.Keyspace.{Obj, Db, Host, Moment, intset, get}
use monster_db.Keyspace.Consistent.{IsConsistent, get-IsConsistent, put-IsConsistent}
use monster_db.Command.{Strconv, Outcome}
use monster_db.Command.Kept.{IsKept, Keeps, bind-IsKept, reply_first-IsKept}
use monster_db.Keyspace.Behind.{update_content-IsConsistent}
use monster_db.SetCmd.{
  obj_type_set, as_intset, add_loop, add_values, add_found, sadd, card_found, scard, set_found, ask,
  ask_parsed, sismember, members_loop, list_members, smembers, remove_value, srem,
}

add_values-IsKept :
    (sc : Strconv) (key : Bytes) (args : List Bytes) (is : Intset) (db : Db)
    → IsConsistent db
    → IsKept (add_values sc key args is db)
unfolding add_values
add_values-IsKept sc key args is db h =
    bind-IsKept (add_loop sc args 0 is) _ λ p e. update_content-IsConsistent key (intset p.1) db h

add_found-IsKept :
    (sc : Strconv) (host : Host) (m : Moment) (key : Bytes) (args : List Bytes)
    (r : Option Obj × Db)
    → IsConsistent r.1
    → IsKept (add_found sc host m key args r)
add_found-IsKept sc host m key args (none, db) h =
    add_values-IsKept sc key args new_intset _ (put-IsConsistent host m key _ (negsuc 0) db h)
add_found-IsKept sc host m key args (some obj, db) h =
    bind-IsKept (as_intset obj.content) _ λ is e. add_values-IsKept sc key args is db h

pub sadd-Keeps : (sc : Strconv) → Keeps (sadd sc)
unfolding sadd
sadd-Keeps sc host m [] db h = h
sadd-Keeps sc host m (key ∷ []) db h = h
sadd-Keeps sc host m (key ∷ arg ∷ args) db h =
    add_found-IsKept sc host m key (arg ∷ args) (get m key db) (get-IsConsistent m key db h)

card_found-IsKept : (r : Option Obj × Db) → IsConsistent r.1 → IsKept (card_found r)
card_found-IsKept (none, db) h = h
card_found-IsKept (some obj, db) h =
    let counted : IsKept (as_intset obj.content >>= _) =
      bind-IsKept (as_intset obj.content) _ λ is e. h in
    elim (Bool-cases (not (assert_type obj.type_encoding obj_type_set))) [
      | inl e ↦ rw e (reply_first-IsKept _ _ counted)
      | inr e ↦ rw e counted
    ]

pub scard-Keeps : Keeps scard
unfolding scard
scard-Keeps host m [] db h = h
scard-Keeps host m (key ∷ []) db h = card_found-IsKept (get m key db) (get-IsConsistent m key db h)
scard-Keeps host m (a ∷ b ∷ rest) db h = h

set_found-IsKept :
    (act : Intset → Db → Option Outcome) (r : Option Obj × Db)
    → ((is : Intset) (db : Db) → IsConsistent db → IsKept (act is db))
    → IsConsistent r.1
    → IsKept (set_found act r)
set_found-IsKept act (none, db) k h = h
set_found-IsKept act (some obj, db) k h =
    elim (Bool-cases (not (assert_type obj.type_encoding obj_type_set))) [
      | inl e ↦ rw e h
      | inr e ↦ rw e (bind-IsKept (as_intset obj.content) _ λ is f. k is db h)
    ]

ask_parsed-IsKept :
    (p : ℤ × Bool) (is : Intset) (db : Db) → IsConsistent db → IsKept (ask_parsed p is db)
unfolding ask
ask_parsed-IsKept (v, true) is db h =
    bind-IsKept (search v is) _ λ idx e. bind-IsKept (holds_at idx v is) _ λ found f. h
ask_parsed-IsKept (v, false) is db h = h

sismember_at-IsKept :
    (p : ℤ × Bool) (m : Moment) (key : Bytes) (db : Db)
    → IsConsistent db
    → IsKept (set_found (ask_parsed p) (get m key db))
sismember_at-IsKept p m key db h =
    set_found-IsKept (ask_parsed p) (get m key db) (ask_parsed-IsKept p)
      (get-IsConsistent m key db h)

pub sismember-Keeps : (sc : Strconv) → Keeps (sismember sc)
unfolding sismember
sismember-Keeps sc host m [] db h = tt
sismember-Keeps sc host m (key ∷ []) db h = reply_first-IsKept _ _ (
    set_found-IsKept (λ is db'. none) (get m key db) (λ is db' g. tt) (get-IsConsistent m key db h))
sismember-Keeps sc host m (key ∷ arg ∷ []) db h =
    sismember_at-IsKept (sc.parse_int 16 arg) m key db h
sismember-Keeps sc host m (key ∷ arg ∷ a ∷ rest) db h =
    reply_first-IsKept _ _ (sismember_at-IsKept (sc.parse_int 16 arg) m key db h)

list_members-IsKept : (is : Intset) (db : Db) → IsConsistent db → IsKept (list_members is db)
unfolding list_members
list_members-IsKept is db h = bind-IsKept (members_loop (Intset.size is) 0 is) _ λ xs e. h

pub smembers-Keeps : Keeps smembers
unfolding smembers
smembers-Keeps host m [] db h = h
smembers-Keeps host m (key ∷ []) db h =
    set_found-IsKept list_members (get m key db) list_members-IsKept (get-IsConsistent m key db h)
smembers-Keeps host m (a ∷ b ∷ rest) db h = h

remove_value-IsKept :
    (key : Bytes) (p : ℤ × Bool) (is : Intset) (db : Db)
    → IsConsistent db
    → IsKept (remove_value key p is db)
unfolding remove_value
remove_value-IsKept key (v, false) is db h = h
remove_value-IsKept key (v, true) is db h =
    bind-IsKept (del v is) _ λ r e. update_content-IsConsistent key (intset r.1) db h

pub srem-Keeps : (sc : Strconv) → Keeps (srem sc)
unfolding srem
srem-Keeps sc host m [] db h = h
srem-Keeps sc host m (a ∷ []) db h = h
srem-Keeps sc host m (key ∷ arg ∷ []) db h =
    set_found-IsKept (remove_value key (sc.parse_int 16 arg)) (get m key db)
      (remove_value-IsKept key (sc.parse_int 16 arg)) (get-IsConsistent m key db h)
srem-Keeps sc host m (a ∷ b ∷ c ∷ rest) db h = h
