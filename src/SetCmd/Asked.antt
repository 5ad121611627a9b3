-- ===== src/SetCmd/Asked.antt =====
-- SISMEMBER, SMEMBERS and SREM of internal/store/set_cmd.go on the sorted members of a key.
use monster_db.Prelude.{
  ◌+◌, ◌≡◌, refl, sym, ap, ◌∙◌, arith, true, Option, some, List, [], ◌∷◌, length, get_elem?,
  if◌then◌else◌, get_elem?-append, append_assoc, ◌++◌, length-append,
}
use monster_db.Prelude.Int.{ℤ, pos}
use monster_db.Prelude.Bytes.{Bytes}
use monster_db.Prelude.Dict.{lookup, insert, lookup-insert_self}
use monster_db.Runtime.{int_reply, bytes_reply, int_array}
use monster_db.Intset.{Intset}
use monster_db.Intset
use monster_db.Intset.Packed.{Represents}
use monster_db.Intset.Search.{search-rank, get-Represents}
use monster_db.Intset.Members.{contains, without}
use monster_db.Intset.Update.{del-without, holds_at-contains}
use monster_db.Keyspace.{Db, Host, Moment, intset, touch, has_expired, passed, get}
use monster_db.Keyspace.Consistent.{get_alive}
use monster_db.Command.{Strconv, Outcome, resp_one, resp_zero}
use monster_db.Keyspace.Behind.{update_content, update_content-lookup}
use monster_db.SetCmd.{
  set_found, ask, ask_parsed, sismember, members_loop, list_members, smembers, remove_value, srem,
}
use monster_db.SetCmd.Members.{HoldsSet}

module _ (m : Moment) (key : Bytes) (xs : List ℤ) (db : Db) (h : HoldsSet m db key xs) where
  -- The keyspace after the read of the key.
  abbrev touched : Db
  touched = record db { store = insert key (touch m h.obj) db.store }

  touched-HoldsSet : HoldsSet m touched key xs
  unfolding has_expired touch
  touched-HoldsSet = record {
    obj = touch m h.obj;
    is = h.is;
    found = lookup-insert_self key (touch m h.obj) db.store;
    is_set = h.is_set;
    content = h.content;
    represents = h.represents;
    alive = h.alive;
  }

  set_found-HoldsSet :
      (act : Intset → Db → Option Outcome) → set_found act (get m key db) ≡ act h.is touched
  unfolding touch
  set_found-HoldsSet act =
      ap (set_found act) (get_alive m key h.obj db h.found h.alive) ∙ rw (h.is_set, h.content) refl

  -- SISMEMBER of a 16-bit integer at a key that holds a set: it returns, replies 1 for a member and
  -- 0 for any other, and the key holds the same set.
  pub sismember-contains :
      (sc : Strconv) (host : Host) (arg : Bytes) (v : ℤ)
      → sc.parse_int 16 arg ≡ (v, true)
      → (out : Outcome) × (sismember sc host m (key ∷ arg ∷ []) db ≡ some out)
        × (out.replies ≡ bytes_reply (if contains v xs then resp_one else resp_zero) ∷ [])
        × HoldsSet m out.db key xs
  unfolding sismember ask
  sismember-contains sc host arg v e = (
    record {
      replies = bytes_reply (if contains v xs then resp_one else resp_zero) ∷ [];
      db = touched;
    },
    ap (λ p. set_found (ask_parsed p) (get m key db)) e
        ∙ set_found-HoldsSet (ask_parsed (v, true))
        ∙ rw (search-rank v xs h.is h.represents, holds_at-contains v xs h.is h.represents) refl,
    refl,
    touched-HoldsSet,
  )

  -- SREM of a 16-bit integer at a key that holds a set: it returns, replies 1 for a member and 0 for
  -- any other, and the key holds the members without it.
  pub srem-without :
      (sc : Strconv) (host : Host) (arg : Bytes) (v : ℤ)
      → sc.parse_int 16 arg ≡ (v, true)
      → (out : Outcome) × (srem sc host m (key ∷ arg ∷ []) db ≡ some out)
        × (out.replies ≡ int_reply (pos (if contains v xs then 1 else 0)) ∷ [])
        × HoldsSet m out.db key (if contains v xs then without v xs else xs)
  unfolding srem remove_value has_expired
  srem-without sc host arg v e =
      let (is', f, r) = del-without v xs h.is h.represents in
      let (found, expires) =
        update_content-lookup key (intset is') (touched-HoldsSet.obj) touched
          (touched-HoldsSet.found) in
      (
        record {
          replies = int_reply (pos (if contains v xs then 1 else 0)) ∷ [];
          db = update_content key (intset is') touched;
        },
        ap (λ p. set_found (remove_value key p) (get m key db)) e
            ∙ set_found-HoldsSet (remove_value key (v, true))
            ∙ rw f refl,
        refl,
        record {
          obj = record (touched-HoldsSet.obj) { content = intset is' };
          is = is';
          found = found;
          is_set = touched-HoldsSet.is_set;
          content = refl;
          represents = r;
          alive = ap (λ x. passed m (lookup key x)) expires ∙ h.alive;
        },
      )

members_loop-drop :
    (front rest : List ℤ) (xs : List ℤ) (is : Intset)
    → Represents is xs
    → xs ≡ front ++ rest
    → members_loop (length rest) (length front) is ≡ some rest
unfolding members_loop
members_loop-drop front [] xs is r e = refl
members_loop-drop front (x ∷ rest) xs is r e =
    let here : get_elem? xs (length front) ≡ some x =
      rw e (get_elem?-append (length front) front x rest refl) in
    let further : members_loop (length rest) (length front + 1) is ≡ some rest =
      ap (λ n. members_loop (length rest) n is) {x = length front + 1}
        {y = length (front ++ x ∷ [])} (omega (arith, length-append front (x ∷ [])))
      ∙ members_loop-drop (front ++ x ∷ []) rest xs is r
          (e ∙ sym (append_assoc front (x ∷ []) rest)) in
    rw (get-Represents x xs is r (length front) here, further) refl

-- SMEMBERS at a key that holds a set: it returns and replies the members in ascending order, and the
-- key holds the same set.
pub smembers-members :
    (host : Host) (m : Moment) (key : Bytes) (xs : List ℤ) (db : Db)
    → (h : HoldsSet m db key xs)
    → (out : Outcome) × (smembers host m (key ∷ []) db ≡ some out)
      × (out.replies ≡ int_array xs ∷ [])
      × HoldsSet m out.db key xs
unfolding smembers list_members Intset.size
smembers-members host m key xs db h =
    let all : members_loop h.is.count 0 h.is ≡ some xs =
      ap (λ n. members_loop n 0 h.is) h.represents.count
      ∙ members_loop-drop [] xs xs h.is h.represents refl in
    (
      record { replies = int_array xs ∷ []; db = touched m key xs db h },
      set_found-HoldsSet m key xs db h list_members ∙ rw all refl,
      refl,
      touched-HoldsSet m key xs db h,
    )
