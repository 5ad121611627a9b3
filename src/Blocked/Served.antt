-- ===== src/Blocked/Served.antt =====
-- `processKeys` of internal/server/client.go serves the client that waits longest.
use monster_db.Prelude.{
  ℕ, ◌≡◌, refl, ap, ◌∙◌, arith, true, false, none, some, List, [], ◌∷◌, ◌++◌, ◌==◌, length, take,
  drop, map, subst,
}
use monster_db.Prelude.Int.{pos}
use monster_db.Prelude.Bytes.{Bytes, eqb_refl}
use monster_db.Runtime.{array_len}
use monster_db.Pubsub.{at_key}
use monster_db.Quicklist.{reply_of}
use monster_db.Quicklist.Pop.{pop_count}
use monster_db.Listpack.Codec.{Value}
use monster_db.Keyspace.{Host, Moment}
use monster_db.Command.{Strconv}
use monster_db.ListCmd.{pop_count_of}
use monster_db.ListCmd.Pushed.{HoldsList}
use monster_db.ListCmd.Popped.{lpop-Popped}
use monster_db.Blocked.{
  Blocking, add_key, append, pop_for, mark_for, mark_ready, release, process_loop, process_keys,
}

-- A push has marked a key for which clients wait: processKeys returns, the client that waits longest
-- gets the first value and no longer blocks, the others go on waiting in their order, each as it was,
-- the key holds the other values, and no key is ready any more.
pub process_keys-served :
    (sc : Strconv) (host : Host) (clock : Bytes → Moment) (key : Bytes) (c : ℕ) (cs : List ℕ)
    (v : Value) (vs : List Value) (w : Blocking)
    → HoldsList (clock key) w.db key (v ∷ vs)
    → w.waiting key ≡ c ∷ cs
    → w.ready ≡ []
    → (w' : Blocking) × (process_keys sc host clock (mark_ready key w) ≡ some w')
      × ((w'.clients c).replies ≡ (w.clients c).replies ++ array_len (pos 1) ∷ reply_of v ∷ [])
      × ((w'.clients c).blocked ≡ false)
      × ((w'.clients c).when ≡ none)
      × (w'.waiting key ≡ cs)
      × (w'.ready ≡ [])
      × ((d : ℕ) → (d == c) ≡ false → w'.clients d ≡ w.clients d)
      × HoldsList (clock key) w'.db key vs
unfolding process_keys process_loop mark_ready pop_for
process_keys-served sc host clock key c cs v vs w h waits none_ready =
    let (out, e, replies, holds) =
      lpop-Popped sc host (clock key) key [] (v ∷ vs) w.db h (omega arith) (omega arith) in
    let one : pop_count (pop_count_of sc []) (length (v ∷ vs)) ≡ 1 = ground arith in
    let start : Blocking = record w { ready = key ∷ [] } in
    let begins : mark_ready key w ≡ start =
      ap (λ l. mark_for key l w) waits ∙ ap (λ r. record w { ready = add_key key r }) none_ready in
    let popped : Blocking = append c out.replies (record start { db = out.db }) in
    let self : (c == c) ≡ true = ground arith in
    (
      record (release c (record popped { waiting = at_key key cs w.waiting })) { ready = [] },
      ap (process_loop sc host clock (mark_ready key w).ready) begins
          ∙ ap (λ x. process_loop sc host clock x.ready start) begins
          ∙ rw (waits, e) refl,
      rw self (
          ap (λ r. (w.clients c).replies ++ r)
            (replies ∙ ap (λ k. array_len (pos k) ∷ map reply_of (take k (v ∷ vs))) one)),
      rw self refl,
      rw self refl,
      rw (eqb_refl key) refl,
      refl,
      λ d other. rw other refl,
      subst (λ k. HoldsList (clock key) out.db key (drop k (v ∷ vs))) one holds,
    )
