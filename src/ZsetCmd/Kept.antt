-- ===== src/ZsetCmd/Kept.antt =====
-- The commands of internal/store/zset_cmd.go keep the invariant of the keyspace.
use monster_db.Prelude.{
  not, Bool, true, false, Bool-cases, inl, inr, Option, none, some, List, [], ◌∷◌,
}
use monster_db.Prelude.Int.{ℤ, negsuc}
use monster_db.Prelude.Bytes.{Bytes}
use monster_db.Zset.{Zset, new_zset, search}
use monster_db.TypeString.{assert_type}
use monster_db.Keyspace.{Obj, Db, Host, Moment, get}
use monster_db.Keyspace.Consistent.{IsConsistent, get-IsConsistent, put-IsConsistent}
use monster_db.Keyspace.Behind.{update_content-IsConsistent}
use monster_db.Command.{Strconv, Outcome}
use monster_db.Command.Kept.{IsKept, Keeps, bind-IsKept}
use monster_db.ZsetCmd.{
  obj_type_zset, as_zset, add_value, add_found, add_parsed, zadd, zset_found, remove_members, zrem,
  reply_score, zscore, list_range, zrange,
}

zset_found-IsKept :
    (act : Zset → Db → Option Outcome) (r : Option Obj × Db)
    → ((z : Zset) (db : Db) → IsConsistent db → IsKept (act z db))
    → IsConsistent r.1
    → IsKept (zset_found act r)
zset_found-IsKept act (none, db) k h = h
zset_found-IsKept act (some obj, db) k h =
    elim (Bool-cases (not (assert_type obj.type_encoding obj_type_zset))) [
      | inl e ↦ rw e h
      | inr e ↦ rw e (bind-IsKept (as_zset obj.content) _ λ z f. k z db h)
    ]

add_value-IsKept :
    (m : Moment) (key : Bytes) (score : ℤ) (member : Bytes) (z : Zset) (db : Db)
    → IsConsistent db
    → IsKept (add_value m key score member z db)
unfolding add_value
add_value-IsKept m key score member z db h = update_content-IsConsistent key _ db h

add_found-IsKept :
    (host : Host) (m : Moment) (key : Bytes) (score : ℤ) (member : Bytes) (r : Option Obj × Db)
    → IsConsistent r.1
    → IsKept (add_found host m key score member r)
add_found-IsKept host m key score member (none, db) h =
    add_value-IsKept m key score member new_zset _ (put-IsConsistent host m key _ (negsuc 0) db h)
add_found-IsKept host m key score member (some obj, db) h =
    zset_found-IsKept (add_value m key score member) (some obj, db)
      (add_value-IsKept m key score member) h

add_parsed-IsKept :
    (host : Host) (m : Moment) (key : Bytes) (p : ℤ × Bool) (member : Bytes) (db : Db)
    → IsConsistent db
    → IsKept (add_parsed host m key p member db)
add_parsed-IsKept host m key (score, false) member db h = h
add_parsed-IsKept host m key (score, true) member db h =
    add_found-IsKept host m key score member (get m key db) (get-IsConsistent m key db h)

pub zadd-Keeps : (sc : Strconv) → Keeps (zadd sc)
unfolding zadd
zadd-Keeps sc host m [] db h = h
zadd-Keeps sc host m (a ∷ []) db h = h
zadd-Keeps sc host m (a ∷ b ∷ []) db h = h
zadd-Keeps sc host m (key ∷ score ∷ member ∷ []) db h =
    add_parsed-IsKept host m key (sc.parse_int 64 score) member db h
zadd-Keeps sc host m (a ∷ b ∷ c ∷ d ∷ rest) db h = h

remove_members-IsKept :
    (key : Bytes) (members : List Bytes) (z : Zset) (db : Db)
    → IsConsistent db
    → IsKept (remove_members key members z db)
unfolding remove_members
remove_members-IsKept key members z db h = update_content-IsConsistent key _ db h

pub zrem-Keeps : Keeps zrem
unfolding zrem
zrem-Keeps host m [] db h = h
zrem-Keeps host m (key ∷ []) db h = h
zrem-Keeps host m (key ∷ member ∷ members) db h =
    zset_found-IsKept (remove_members key (member ∷ members)) (get m key db)
      (remove_members-IsKept key (member ∷ members)) (get-IsConsistent m key db h)

reply_score-IsKept : (p : ℤ × Bool) (db : Db) → IsConsistent db → IsKept (reply_score p db)
reply_score-IsKept (score, true) db h = h
reply_score-IsKept (score, false) db h = h

pub zscore-Keeps : Keeps zscore
unfolding zscore
zscore-Keeps host m [] db h = h
zscore-Keeps host m (a ∷ []) db h = h
zscore-Keeps host m (key ∷ member ∷ []) db h =
    zset_found-IsKept (λ z db'. reply_score (search member z) db') (get m key db)
      (λ z. reply_score-IsKept (search member z)) (get-IsConsistent m key db h)
zscore-Keeps host m (a ∷ b ∷ c ∷ rest) db h = h

list_range-IsKept :
    (p q : ℤ × Bool) (key : Bytes) (m : Moment) (db : Db)
    → IsConsistent db
    → IsKept (list_range p q key m db)
list_range-IsKept (first, false) (last, ok2) key m db h = h
list_range-IsKept (first, true) (last, false) key m db h = h
list_range-IsKept (first, true) (last, true) key m db h =
    zset_found-IsKept _ (get m key db) (λ z db' k. k) (get-IsConsistent m key db h)

pub zrange-Keeps : (sc : Strconv) → Keeps (zrange sc)
unfolding zrange
zrange-Keeps sc host m [] db h = h
zrange-Keeps sc host m (a ∷ []) db h = h
zrange-Keeps sc host m (a ∷ b ∷ []) db h = h
zrange-Keeps sc host m (key ∷ first ∷ last ∷ []) db h =
    list_range-IsKept (sc.parse_int 64 first) (sc.parse_int 64 last) key m db h
zrange-Keeps sc host m (a ∷ b ∷ c ∷ d ∷ rest) db h = h
