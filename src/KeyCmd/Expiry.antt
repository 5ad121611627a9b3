-- ===== src/KeyCmd/Expiry.antt =====
-- DEL, EXPIRE and TTL of internal/store/key_cmd.go.
use monster_db.Prelude.{
  ℕ, suc, ◌+◌, ◌-◌, ◌*◌, ◌/◌, ◌%◌, ◌^◌, ◌<◌, ◌≡◌, refl, ap, ◌∙◌, arith, Bool, true, false,
  Bool-cases, inl, inr, none, some, List, [], ◌∷◌, length, ltb, if◌then◌else◌,
}
use monster_db.Prelude.Int.{ℤ, pos, to_word}
use monster_db.Prelude.Bytes.{Bytes, eqb}
use monster_db.Prelude.Dict.{lookup, insert, is_some, lookup-insert_self, length-erase}
use monster_db.Runtime.{int_reply, bytes_reply}
use monster_db.Keyspace.{Obj, Db, Host, Moment, touch, set_expiry, has_expired, del}
use monster_db.Keyspace.Consistent.{IsConsistent, lookup-del, del-IsConsistent, get_alive}
use monster_db.Command.{Strconv, Outcome, to_millis, resp_one}
use monster_db.KeyCmd.{del_loop, del_cmd, expire, ttl, ttl_found, ttl_expiry}

-- A key is among the arguments.
abbrev pub named : Bytes → List Bytes → Bool
named j [] = false
named j (k ∷ ks) = if eqb k j then true else named j ks

length-del :
    (k : Bytes) (db : Db)
    → IsConsistent db
    → length db.store ≡ (if (del k db).1 then 1 else 0) + length ((del k db).0).store
unfolding del
length-del k db h = elim (Bool-cases (is_some (lookup k db.store))) [
  | inl e ↦ rw e (length-erase k db.store h.unique ∙ rw e (omega arith))
  | inr e ↦ rw e (omega arith)
]

del_loop-removes :
    (keys : List Bytes) (count : ℕ) (db : Db)
    → IsConsistent db
    → (length db.store + count
        ≡ (del_loop keys count db).0 + length ((del_loop keys count db).1).store)
      × ((j : Bytes)
          → lookup j ((del_loop keys count db).1).store
            ≡ (if named j keys then none else lookup j db.store))
      × IsConsistent ((del_loop keys count db).1)
unfolding del_loop
del_loop-removes [] count db h = (omega arith, λ j. refl, h)
del_loop-removes (k ∷ keys) count db h =
    let db' : Db = (del k db).0 in
    let count' : ℕ = if (del k db).1 then suc count else count in
    let (n, gone, kept) = del_loop-removes keys count' db' (del-IsConsistent k db h) in
    let step : length db.store + count ≡ length db'.store + count' =
      ground (arith, length-del k db h) in
    (step ∙ n, λ j. gone j ∙ ground (arith, lookup-del k j db), kept)

-- DEL returns: its reply is the number of keys that the store has fewer, every key that it names is
-- gone, every other key is as before, and the keyspace stays consistent.
pub del_cmd-removes :
    (host : Host) (m : Moment) (keys : List Bytes) (db : Db)
    → IsConsistent db
    → (out : Outcome) × (n : ℕ) × (del_cmd host m keys db ≡ some out)
      × (out.replies ≡ int_reply (pos n) ∷ [])
      × (length db.store ≡ n + length out.db.store)
      × ((j : Bytes) → lookup j out.db.store ≡ (if named j keys then none else lookup j db.store))
      × IsConsistent out.db
unfolding del_cmd
del_cmd-removes host m keys db h =
    let (n, gone, kept) = del_loop-removes keys 0 db h in
    (
      record {
        replies = int_reply (pos ((del_loop keys 0 db).0)) ∷ [];
        db = (del_loop keys 0 db).1;
      },
      (del_loop keys 0 db).0,
      refl,
      refl,
      omega (arith, n),
      gone,
      kept,
    )

-- TTL of a key that is stored and has an expiry in the future.
ttl_pending :
    (host : Host) (m : Moment) (key : Bytes) (obj : Obj) (exp : ℕ) (db : Db)
    → lookup key db.store ≡ some obj
    → lookup key db.expires ≡ some exp
    → m.milli < exp
    → (out : Outcome) × (ttl host m (key ∷ []) db ≡ some out)
      × (out.replies ≡ int_reply (pos ((exp - m.milli) / 1000)) ∷ [])
unfolding ttl
ttl_pending host m key obj exp db e f h =
    let db' : Db = record db { store = insert key (touch m obj) db.store } in
    let alive : has_expired m key db ≡ false = unfold has_expired in rw f (ground arith) in
    let later : ltb exp m.milli ≡ false = ground arith in
    (
      record { replies = int_reply (pos ((exp - m.milli) / 1000)) ∷ []; db = db' },
      ap (ttl_found m key) (get_alive m key obj db e alive)
          ∙ ap (ttl_expiry m db') f
          ∙ rw later refl,
      refl,
    )

expiry_word :
    (at seconds : ℕ)
    → at + seconds * 1000 < 2 ^ 63
    → (at + to_word (2 ^ 64) (to_millis (pos seconds))) % 2 ^ 64 ≡ at + seconds * 1000
expiry_word at seconds h = ground arith

-- EXPIRE with a positive number of seconds on a key that is stored and has not expired: it returns
-- and replies 1, and TTL, at any moment before the expiry, returns and replies the whole seconds
-- that are left; times are below 2 ^ 63 milliseconds.
pub ttl-expire :
    (sc : Strconv) (host : Host) (m m' : Moment) (key arg : Bytes) (seconds : ℕ) (obj : Obj)
    (db : Db)
    → sc.parse_int 64 arg ≡ (pos seconds, true)
    → lookup key db.store ≡ some obj
    → has_expired m key db ≡ false
    → m'.milli < m.milli + seconds * 1000
    → m.milli + seconds * 1000 < 2 ^ 63
    → (out : Outcome) × (out' : Outcome) × (expire sc host m (key ∷ arg ∷ []) db ≡ some out)
      × (out.replies ≡ bytes_reply resp_one ∷ [])
      × (ttl host m' (key ∷ []) out.db ≡ some out')
      × (out'.replies ≡ int_reply (pos ((m.milli + seconds * 1000 - m'.milli) / 1000)) ∷ [])
unfolding expire set_expiry
ttl-expire sc host m m' key arg seconds obj db e f alive h k =
    let exp : ℕ = m.milli + seconds * 1000 in
    let db' : Db = record db { store = insert key (touch m obj) db.store } in
    let duration : ℤ = to_millis (pos seconds) in
    let db'' : Db = set_expiry m key duration db' in
    let word : (m.milli + to_word (2 ^ 64) duration) % 2 ^ 64 ≡ exp =
      expiry_word m.milli seconds k in
    let (out', g, r) =
      ttl_pending host m' key (touch m obj) exp db'' (lookup-insert_self key (touch m obj) db.store)
        (lookup-insert_self key ((m.milli + to_word (2 ^ 64) duration) % 2 ^ 64) db.expires
          ∙ ap some word)
        h in
    (
      record { replies = bytes_reply resp_one ∷ []; db = db'' },
      out',
      rw (e, get_alive m key obj db f alive) refl,
      refl,
      g,
      r,
    )
