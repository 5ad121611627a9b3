-- ===== src/SetCmd/Members.antt =====
-- The commands of internal/store/set_cmd.go on the sorted members that a key stands for.
use monster_db.Prelude.{
  ℕ, suc, ◌+◌, ◌≡◌, refl, ap, ◌∙◌, arith, true, false, Bool-cases, inl, inr, none, some, List, [],
  ◌∷◌, length, if◌then◌else◌, ◌>>=◌,
}
use monster_db.Prelude.Int.{ℤ, pos, negsuc, FitsIn}
use monster_db.Prelude.Bytes.{Bytes}
use monster_db.Prelude.Dict.{lookup, insert, lookup-insert_self}
use monster_db.Runtime.{int_reply}
use monster_db.Intset.{Intset, new_intset}
use monster_db.Intset.Packed.{Represents}
use monster_db.Intset.Packed
use monster_db.Intset.Kept.{length-insert}
use monster_db.Intset.Members.{contains, without}
use monster_db.Intset.Members
use monster_db.Intset.Update.{set-insert}
use monster_db.TypeString.{assert_type}
use monster_db.Keyspace.{
  Obj, Db, Host, Moment, intset, touch, new_ptr_obj, has_expired, passed, put,
}
use monster_db.Keyspace.Consistent.{IsConsistent, get_alive, get_absent}
use monster_db.Keyspace.Fresh.{put_fresh}
use monster_db.Command.{Strconv, Outcome}
use monster_db.Keyspace.Behind.{update_content, update_content-lookup}
use monster_db.SetCmd.{
  as_intset, obj_type_set, obj_encoding_inset, add_loop, add_values, add_found, sadd,
}

-- The key holds a set with the members `xs`, in ascending order, and has not expired.
pub record HoldsSet (m : Moment) (db : Db) (key : Bytes) (xs : List ℤ) : Type 0 where
  pub obj : Obj
  pub is : Intset
  pub found : lookup key db.store ≡ some obj
  pub is_set : assert_type obj.type_encoding obj_type_set ≡ true
  pub content : obj.content ≡ intset is
  pub represents : Represents is xs
  pub alive : has_expired m key db ≡ false

-- The key holds a set, or no key is there, which stands for the empty set.
pub data SetAt (m : Moment) (db : Db) (key : Bytes) (xs : List ℤ) : Type 0 where
  held : HoldsSet m db key xs → SetAt m db key xs
  missing : lookup key db.store ≡ none → xs ≡ [] → SetAt m db key xs

-- What `ParseInt` to 16 bits accepts is a 16-bit integer.
abbrev pub Bounds16 : Strconv → Type 0
Bounds16 sc = (s : Bytes) → (sc.parse_int 16 s).1 ≡ true → FitsIn 32768 ((sc.parse_int 16 s).0)

-- The members with one more, and with those of the arguments that are 16-bit integers.
abbrev pub with_member : ℤ → List ℤ → List ℤ
with_member v xs = if contains v xs then xs else Members.insert v xs

abbrev pub with_members : Strconv → List Bytes → List ℤ → List ℤ
with_members sc [] xs = xs
with_members sc (arg ∷ args) xs =
    with_members sc args
      (if (sc.parse_int 16 arg).1 then with_member ((sc.parse_int 16 arg).0) xs else xs)

-- The loop counts the members that are new.
add_loop-Represents :
    (sc : Strconv) (args : List Bytes) (count : ℕ) (is : Intset) (xs : List ℤ)
    → Bounds16 sc
    → Represents is xs
    → (n : ℕ) × (is' : Intset) × (add_loop sc args count is ≡ some (n + count, is'))
      × Represents is' (with_members sc args xs)
      × (length (with_members sc args xs) ≡ length xs + n)
unfolding add_loop
add_loop-Represents sc [] count is xs b r =
    (0, is, ap (λ c. some (c, is)) {x = count} {y = 0 + count} (omega arith), r, omega arith)
add_loop-Represents sc (arg ∷ args) count is xs b r = elim (Bool-cases ((sc.parse_int 16 arg).1)) [
  | inr bad ↦
      let (n, is', e, r', l) = add_loop-Represents sc args count is xs b r in
      (n, is', rw bad e, rw bad r', rw bad l)
  | inl good ↦
      let v : ℤ = (sc.parse_int 16 arg).0 in
      let (is1, e1, r1) = set-insert v xs is r (b arg good) in
      elim (Bool-cases (contains v xs)) [
        | inl old ↦
            let (n, is', e, r', l) = add_loop-Represents sc args count is1 xs b (rw old at r1) in
            (n, is', rw (good, e1, old) e, rw (good, old) r', rw (good, old) l)
        | inr new ↦
            let (n, is', e, r', l) =
              add_loop-Represents sc args (suc count) is1 (Members.insert v xs) b (rw new at r1) in
            (
              suc n,
              is',
              rw (good, e1, new)
                  (e
                    ∙ ap (λ c. some (c, is')) {x = n + suc count} {y = suc n + count}
                        (omega arith)),
              rw (good, new) r',
              rw (good, new) (omega (arith, l, length-insert v xs)),
            )
      ]
]

add_values-Holds :
    (sc : Strconv) (m : Moment) (key : Bytes) (args : List Bytes) (obj : Obj) (is : Intset)
    (xs : List ℤ) (db : Db)
    → Bounds16 sc
    → lookup key db.store ≡ some obj
    → assert_type obj.type_encoding obj_type_set ≡ true
    → has_expired m key db ≡ false
    → Represents is xs
    → (out : Outcome) × (n : ℕ) × (add_values sc key args is db ≡ some out)
      × (out.replies ≡ int_reply (pos n) ∷ [])
      × HoldsSet m out.db key (with_members sc args xs)
      × (length (with_members sc args xs) ≡ length xs + n)
unfolding add_values has_expired
add_values-Holds sc m key args obj is xs db b found type alive r =
    let (n, is', e, r', l) = add_loop-Represents sc args 0 is xs b r in
    let (found', expires') = update_content-lookup key (intset is') obj db found in
    (
      record { replies = int_reply (pos n) ∷ []; db = update_content key (intset is') db },
      n,
      rw e (
          ap
            (λ c. some (record {
              replies = int_reply (pos c) ∷ [];
              db = update_content key (intset is') db;
            }))
            {x = n + 0} {y = n} (omega arith)),
      refl,
      record {
        obj = record obj { content = intset is' };
        is = is';
        found = found';
        is_set = type;
        content = refl;
        represents = r';
        alive = ap (λ x. passed m (lookup key x)) expires' ∙ alive;
      },
      l,
    )

new_intset-Represents : Represents new_intset []
unfolding new_intset Packed.pack
new_intset-Represents = record { content = refl; count = refl; sorted = tt; fit = tt }

-- SADD with at least one value, at a key that holds a set which has not expired or at a key that is
-- missing: it returns, the set has the old members and those values that are 16-bit integers, in
-- ascending order, and the reply is the number of members that are new.
pub sadd-Holds :
    (sc : Strconv) (host : Host) (m : Moment) (key arg : Bytes) (args : List Bytes) (xs : List ℤ)
    (db : Db)
    → Bounds16 sc
    → IsConsistent db
    → SetAt m db key xs
    → (out : Outcome) × (n : ℕ) × (sadd sc host m (key ∷ arg ∷ args) db ≡ some out)
      × (out.replies ≡ int_reply (pos n) ∷ [])
      × HoldsSet m out.db key (with_members sc (arg ∷ args) xs)
      × (length (with_members sc (arg ∷ args) xs) ≡ length xs + n)
unfolding sadd has_expired
sadd-Holds sc host m key arg args xs db b c (held h) =
    let db' : Db = record db { store = insert key (touch m h.obj) db.store } in
    let type : assert_type ((touch m h.obj).type_encoding) obj_type_set ≡ true =
      unfold touch in h.is_set in
    let (out, n, e, replies, holds, grown) =
      add_values-Holds sc m key (arg ∷ args) (touch m h.obj) h.is xs db' b
        (lookup-insert_self key (touch m h.obj) db.store) type h.alive h.represents in
    let held_is : as_intset ((touch m h.obj).content) ≡ some h.is =
      unfold touch in ap as_intset h.content in
    (
      out,
      n,
      ap (add_found sc host m key (arg ∷ args)) (get_alive m key h.obj db h.found h.alive)
          ∙ ap (λ o. o >>= (λ is. add_values sc key (arg ∷ args) is db')) held_is
          ∙ e,
      replies,
      holds,
      grown,
    )
sadd-Holds sc host m key arg args xs db b c (missing none_there empty) =
    let obj : Obj = new_ptr_obj m (intset new_intset) obj_type_set obj_encoding_inset in
    let db' : Db = put host m key obj (negsuc 0) db in
    let (found, alive) = put_fresh host m m key obj db c none_there in
    let type : assert_type ((touch m obj).type_encoding) obj_type_set ≡ true =
      unfold touch in unfold new_ptr_obj in refl in
    let (out, n, e, replies, holds, grown) =
      add_values-Holds sc m key (arg ∷ args) (touch m obj) new_intset xs db' b found type alive
        (rw empty new_intset-Represents) in
    (
      out,
      n,
      ap (add_found sc host m key (arg ∷ args)) (get_absent m key db none_there) ∙ e,
      replies,
      holds,
      grown,
    )
