-- ===== src/ZsetCmd/Scored.antt =====
-- ZADD, ZREM and ZSCORE of internal/store/zset_cmd.go in turn.
use monster_db.Prelude.{
  ℕ, ◌+◌, ◌≡◌, refl, ap, ◌∙◌, Option-cases, true, false, Bool-cases, inl, inr, Option, none, some,
  List, [], ◌∷◌, if◌then◌else◌,
}
use monster_db.Prelude.Int.{ℤ, pos, negsuc}
use monster_db.Prelude.Bytes.{Bytes, eqb}
use monster_db.Prelude.Dict.{Dict, lookup, insert, lookup-insert}
use monster_db.Prelude.Dict
use monster_db.Skiplist
use monster_db.Runtime.{Reply, bytes_reply, int_reply, null_reply}
use monster_db.Skiplist.{SkiplistNode, random_level, max_lvl}
use monster_db.Zset.{Zset, new_zset, delete, add, search, score_of}
use monster_db.TypeString.{assert_type}
use monster_db.Keyspace.{
  Obj, Db, Host, Moment, zset, touch, new_ptr_obj, has_expired, passed, get, put,
}
use monster_db.Keyspace.Consistent.{IsConsistent, get_alive, get_absent}
use monster_db.Keyspace.Fresh.{put_fresh}
use monster_db.Keyspace.Behind.{Holds, touched, touched-Holds, changed-Holds, update_content}
use monster_db.Command.{Strconv, Outcome, resp_one}
use monster_db.ZsetCmd.{
  obj_type_zset, obj_encoding_skiplist, add_value, add_found, add_parsed, zadd, zset_found,
  remove_loop, remove_members, zrem, reply_score, zscore,
}

-- The key holds a sorted set.
abbrev pub HoldsZset : Db → Bytes → Zset → Type 0
HoldsZset db key z = Holds db key obj_type_zset (zset z)

-- The key holds a sorted set that has not expired, or no key is there, which stands for the empty
-- one.
pub data ZsetAt (m : Moment) (db : Db) (key : Bytes) (z : Zset) : Type 0 where
  held : HoldsZset db key z → has_expired m key db ≡ false → ZsetAt m db key z
  missing : lookup key db.store ≡ none → z ≡ new_zset → ZsetAt m db key z

zset_found-HoldsZset :
    (act : Zset → Db → Option Outcome) (m : Moment) (key : Bytes) (z : Zset) (db : Db)
    (h : HoldsZset db key z)
    → has_expired m key db ≡ false
    → zset_found act (get m key db) ≡ act z (touched m key h.obj db)
unfolding touch
zset_found-HoldsZset act m key z db h alive =
    ap (zset_found act) (get_alive m key h.obj db h.found alive) ∙ rw (h.is_type, h.content) refl

abbrev pub score_reply : Option SkiplistNode → Reply
score_reply none = null_reply
score_reply (some n) = int_reply n.score

reply_score-score_reply :
    (o : Option SkiplistNode) (db : Db)
    → reply_score (score_of o) db ≡ some (record { replies = score_reply o ∷ []; db = db })
reply_score-score_reply none db = refl
reply_score-score_reply (some n) db = refl

-- ZSCORE replies with what the map has.
zscore-lookup :
    (host : Host) (m : Moment) (key member : Bytes) (z : Zset) (db : Db)
    → (h : HoldsZset db key z) → has_expired m key db ≡ false
    → zscore host m (key ∷ member ∷ []) db
      ≡ some (record {
        replies = score_reply (lookup member z.dict) ∷ [];
        db = touched m key h.obj db;
      })
unfolding zscore search
zscore-lookup host m key member z db h alive =
    zset_found-HoldsZset (λ z db'. reply_score (search member z) db') m key z db h alive
    ∙ reply_score-score_reply (lookup member z.dict) (touched m key h.obj db)

add_value-HoldsZset :
    (m : Moment) (key : Bytes) (score : ℤ) (member : Bytes) (z : Zset) (db : Db)
    → HoldsZset db key z
    → (out : Outcome) × (add_value m key score member z db ≡ some out)
      × (out.replies ≡ bytes_reply resp_one ∷ [])
      × HoldsZset out.db key (add (random_level max_lvl m.risen) member score z)
      × (out.db.expires ≡ db.expires)
unfolding add_value
add_value-HoldsZset m key score member z db h =
    let z' : Zset = add (random_level max_lvl m.risen) member score z in
    let (holds, expires) = changed-Holds key obj_type_zset (zset z) (zset z') db h in
    (
      record { replies = bytes_reply resp_one ∷ []; db = update_content key (zset z') db },
      refl,
      refl,
      holds,
      expires,
    )

add_found-HoldsZset :
    (host : Host) (m : Moment) (key : Bytes) (score : ℤ) (member : Bytes) (z : Zset) (db : Db)
    (h : HoldsZset db key z)
    → has_expired m key db ≡ false
    → add_found host m key score member (get m key db)
      ≡ add_value m key score member z (touched m key h.obj db)
unfolding touch
add_found-HoldsZset host m key score member z db h alive =
    ap (add_found host m key score member) (get_alive m key h.obj db h.found alive)
    ∙ rw (h.is_type, h.content) refl

-- ZADD with a score that is an integer, at a key that holds a sorted set or at a missing one.
zadd-HoldsZset :
    (sc : Strconv) (host : Host) (m m' : Moment) (key arg member : Bytes) (score : ℤ) (z : Zset)
    (db : Db)
    → sc.parse_int 64 arg ≡ (score, true)
    → IsConsistent db
    → ZsetAt m db key z
    → has_expired m' key db ≡ false
    → (out : Outcome) × (zadd sc host m (key ∷ arg ∷ member ∷ []) db ≡ some out)
      × (out.replies ≡ bytes_reply resp_one ∷ [])
      × HoldsZset out.db key (add (random_level max_lvl m.risen) member score z)
      × (has_expired m' key out.db ≡ false)
unfolding zadd has_expired
zadd-HoldsZset sc host m m' key arg member score z db e c (held h alive) later =
    let (out, f, replies, holds, expires) =
      add_value-HoldsZset m key score member z (touched m key h.obj db)
        (touched-Holds m key obj_type_zset (zset z) db h) in
    (
      out,
      ap (λ p. add_parsed host m key p member db) e
          ∙ add_found-HoldsZset host m key score member z db h alive
          ∙ f,
      replies,
      holds,
      ap (λ x. passed m' (lookup key x)) expires ∙ later,
    )
zadd-HoldsZset sc host m m' key arg member score z db e c (missing gone empty) later =
    let obj : Obj = new_ptr_obj m (zset new_zset) obj_type_zset obj_encoding_skiplist in
    let db' : Db = put host m key obj (negsuc 0) db in
    let (found, alive) = put_fresh host m m' key obj db c gone in
    let type : assert_type ((touch m obj).type_encoding) obj_type_zset ≡ true =
      unfold touch in unfold new_ptr_obj in refl in
    let content : (touch m obj).content ≡ zset new_zset =
      unfold touch in unfold new_ptr_obj in refl in
    let (out, f, replies, holds, expires) =
      add_value-HoldsZset m key score member new_zset db'
        (record { obj = touch m obj; found = found; is_type = type; content = content }) in
    (
      out,
      ap (λ p. add_parsed host m key p member db) e
          ∙ ap (add_found host m key score member) (get_absent m key db gone)
          ∙ f,
      replies,
      rw empty holds,
      ap (λ x. passed m' (lookup key x)) expires ∙ alive,
    )

at_key :
    (member k : Bytes) (score : ℤ) (n : SkiplistNode) (d : Dict SkiplistNode)
    → n.score ≡ score
    → score_reply (lookup k (Dict.insert member n d))
      ≡ (if eqb member k then int_reply score else score_reply (lookup k d))
at_key member k score n d e =
    ap score_reply (lookup-insert member k n d)
    ∙ elim (Bool-cases (eqb member k)) [ inl f ↦ rw f (ap int_reply e) | inr f ↦ rw f refl ]

lookup-add :
    (lvl : ℕ) (member k : Bytes) (score : ℤ) (z : Zset)
    → score_reply (lookup k (add lvl member score z).dict)
      ≡ (if eqb member k then int_reply score else score_reply (lookup k z.dict))
unfolding add delete
lookup-add lvl member k score z = elim (Option-cases (lookup member z.dict)) [
  | inl e ↦ rw e (at_key member k score _ z.dict (unfold Skiplist.insert in refl))
  | inr (n, e) ↦ rw e (at_key member k score _ z.dict (unfold Skiplist.insert in refl))
]

-- ZADD with a score that is an integer, at a key with a sorted set that has not expired or at a
-- missing key, and ZSCORE of any member at a moment when the key has not expired: both return, ZADD
-- replies 1, and ZSCORE replies the new score for the member that was added, and for any other its
-- score, or null if the sorted set had none.
pub zscore-zadd :
    (sc : Strconv) (host : Host) (m m' : Moment) (key arg member k : Bytes) (score : ℤ) (z : Zset)
    (db : Db)
    → sc.parse_int 64 arg ≡ (score, true)
    → IsConsistent db
    → ZsetAt m db key z
    → has_expired m' key db ≡ false
    → (out : Outcome) × (out' : Outcome) × (zadd sc host m (key ∷ arg ∷ member ∷ []) db ≡ some out)
      × (out.replies ≡ bytes_reply resp_one ∷ [])
      × (zscore host m' (key ∷ k ∷ []) out.db ≡ some out')
      × (out'.replies
          ≡ (if eqb member k then int_reply score else score_reply (lookup k z.dict)) ∷ [])
zscore-zadd sc host m m' key arg member k score z db e c at later =
    let (out, f, replies, holds, alive) =
      zadd-HoldsZset sc host m m' key arg member score z db e c at later in
    let lvl : ℕ = random_level max_lvl m.risen in
    (
      out,
      record {
        replies = score_reply (lookup k (add lvl member score z).dict) ∷ [];
        db = touched m' key holds.obj out.db;
      },
      f,
      replies,
      zscore-lookup host m' key k (add lvl member score z) out.db holds alive,
      ap (λ r. r ∷ []) (lookup-add lvl member k score z),
    )

dict-delete : (member : Bytes) (z : Zset) → ((delete member z).1).dict ≡ z.dict
unfolding delete
dict-delete member z = elim (Option-cases (lookup member z.dict)) [
  | inl e ↦ rw e refl
  | inr (n, e) ↦ rw e refl
]

remove_loop-dict :
    (members : List Bytes) (count : ℕ) (z : Zset) → ((remove_loop members count z).1).dict ≡ z.dict
unfolding remove_loop
remove_loop-dict [] count z = refl
remove_loop-dict (member ∷ members) count z =
    remove_loop-dict members (count + (delete member z).0) ((delete member z).1)
    ∙ dict-delete member z

-- ZREM of any members and then ZSCORE of any member, at a key with a sorted set that has not
-- expired: both return, and ZSCORE replies the score that the member had before ZREM, also for a
-- member that was removed.
pub zscore-zrem :
    (host : Host) (m m' : Moment) (key member k : Bytes) (members : List Bytes) (z : Zset) (db : Db)
    → HoldsZset db key z
    → has_expired m key db ≡ false
    → has_expired m' key db ≡ false
    → (out : Outcome) × (out' : Outcome) × (zrem host m (key ∷ member ∷ members) db ≡ some out)
      × (zscore host m' (key ∷ k ∷ []) out.db ≡ some out')
      × (out'.replies ≡ score_reply (lookup k z.dict) ∷ [])
unfolding zrem remove_members has_expired
zscore-zrem host m m' key member k members z db h alive later =
    let (n, z') = remove_loop (member ∷ members) 0 z in
    let was = touched m key h.obj db in
    let (holds, expires) =
      changed-Holds key obj_type_zset (zset z) (zset z') was
        (touched-Holds m key obj_type_zset (zset z) db h) in
    let db' : Db = update_content key (zset z') was in
    (
      record { replies = int_reply (pos n) ∷ []; db = db' },
      record { replies = score_reply (lookup k z'.dict) ∷ []; db = touched m' key holds.obj db' },
      zset_found-HoldsZset (remove_members key (member ∷ members)) m key z db h alive,
      zscore-lookup host m' key k z' db' holds (ap (λ x. passed m' (lookup key x)) expires ∙ later),
      ap (λ d. score_reply (lookup k d) ∷ []) (remove_loop-dict (member ∷ members) 0 z),
    )
