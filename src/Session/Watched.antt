-- ===== src/Session/Watched.antt =====
-- WATCH and EXEC of internal/store/tx_cmd.go: a change of a watched key by another client.
use monster_db.Prelude.{
  ℕ, ◌+◌, ◌≡◌, refl, sym, subst, ap, ◌∙◌, arith, Bool, true, false, Bool-cases, inl, inr, Option,
  some, List, [], ◌∷◌, ◌++◌, ◌==◌, if◌then◌else◌,
}
use monster_db.Prelude.Bytes.{Bytes, eqb, eqb→eq}
use monster_db.Runtime.{null_reply}
use monster_db.Pubsub.{has_key, remove_client}
use monster_db.Command.{Outcome, Command}
use monster_db.Session.{
  World, Handler, Env, tell, has_client, touch_watched_keys, touch_all, on_keys, leave_multi,
  unwatch_all_keys, abort, exec,
}

-- One of the keys is watched by the client.
abbrev pub hit : ℕ → (Bytes → List ℕ) → List Bytes → Bool
hit c watched [] = false
hit c watched (key ∷ keys) = if has_client c (watched key) then true else hit c watched keys

hit-has_key :
    (c : ℕ) (watched : Bytes → List ℕ) (key : Bytes) (keys : List Bytes)
    → has_client c (watched key) ≡ true
    → has_key key keys ≡ true
    → hit c watched keys ≡ true
hit-has_key c watched key [] h k = k
hit-has_key c watched key (j ∷ keys) h k = elim (Bool-cases (eqb j key)) [
  | inl e ↦ rw (subst (λ i. has_client c (watched i) ≡ true) (sym (eqb→eq j key e)) h) refl
  | inr e ↦ ground (arith, hit-has_key c watched key keys h (rw e at k))
]

pub touch_all-conns :
    (c : ℕ) (keys : List Bytes) (w : World)
    → (touch_all keys w).conns c
      ≡ (if hit c w.watched keys then record (w.conns c) { cas = true } else w.conns c)
unfolding touch_all touch_watched_keys
touch_all-conns c [] w = refl
touch_all-conns c (key ∷ keys) w =
    touch_all-conns c keys (touch_watched_keys key w)
    ∙ elim (Bool-cases (has_client c (w.watched key))) [
      | inl e ↦ elim (Bool-cases (hit c w.watched keys)) [
        | inl f ↦ rw (e, f) refl
        | inr f ↦ rw (e, f) refl
      ]
      | inr e ↦ rw e refl
    ]

pub touch_all-db : (keys : List Bytes) (w : World) → (touch_all keys w).db ≡ w.db
unfolding touch_all touch_watched_keys
touch_all-db [] w = refl
touch_all-db (key ∷ keys) w = touch_all-db keys (touch_watched_keys key w)

pub same_client : (c : ℕ) → (c == c) ≡ true
same_client c = ground arith

pub has_client-remove_client : (c : ℕ) (cs : List ℕ) → has_client c (remove_client cs c) ≡ false
unfolding remove_client
has_client-remove_client c [] = refl
has_client-remove_client c (d ∷ cs) = ground (arith, has_client-remove_client c cs)

-- What a transaction that is given up leaves: the client has a null, is out of its transaction with
-- an empty queue, and watches nothing; the keyspace is as before.
pub record GivenUp (c : ℕ) (w w' : World) : Type 0 where
  pub db : w'.db ≡ w.db
  pub replies : (w'.conns c).replies ≡ (w.conns c).replies ++ null_reply ∷ []
  pub multi : (w'.conns c).multi ≡ false
  pub cas : (w'.conns c).cas ≡ false
  pub queue : (w'.conns c).queue ≡ []
  pub unwatched : (key : Bytes) → has_client c (w'.watched key) ≡ false

abort-GivenUp : (c : ℕ) (w : World) → GivenUp c w (abort c w)
unfolding abort leave_multi unwatch_all_keys
abort-GivenUp c w = record {
  db = refl;
  replies = rw (same_client c) refl;
  multi = rw (same_client c) refl;
  cas = rw (same_client c) refl;
  queue = rw (same_client c) refl;
  unwatched = λ key. has_client-remove_client c (w.watched key);
}

exec-cas :
    (look : Bytes → Option Handler) (c : ℕ) (args : List Bytes) (w : World)
    → (w.conns c).multi ≡ true
    → (w.conns c).cas ≡ true
    → exec look c args w ≡ some (abort c w)
unfolding exec
exec-cas look c args w m s = rw (m, s) refl

-- If a client in a transaction watches a key, and a command of another client returns and calls
-- SignalModifiedKey with that key (a change of the key without this call is not meant), then EXEC of the first client returns, runs nothing and gives the transaction up: the
-- keyspace is as the command of the other client left it.
pub exec-GivenUp :
    (env : Env) (cmd : Command) (look : Bytes → Option Handler) (c d : ℕ) (key : Bytes)
    (args nothing : List Bytes) (out : Outcome) (w : World)
    → (c == d) ≡ false
    → (w.conns c).multi ≡ true
    → has_client c (w.watched key) ≡ true
    → cmd env.host (env.clock w.ticks) args (record (w.db) { modified = [] }) ≡ some out
    → has_key key out.db.modified ≡ true
    → (w' : World) × (w'' : World) × (on_keys env cmd d args w ≡ some w')
      × (exec look c nothing w' ≡ some w'')
      × (w'.db ≡ out.db)
      × ((w'.conns c).replies ≡ (w.conns c).replies)
      × GivenUp c w' w''
unfolding on_keys
exec-GivenUp env cmd look c d key args nothing out w other m h e k =
    let ran : World = record w { db = out.db; ticks = w.ticks + 1 } in
    let touched : World = touch_all out.db.modified ran in
    let w' : World = tell d out.replies touched in
    let conn : w'.conns c ≡ record (w.conns c) { cas = true } = rw other (
      touch_all-conns c out.db.modified ran
      ∙ rw (hit-has_key c w.watched key out.db.modified h k) refl) in
    (
      w',
      abort c w',
      rw e refl,
      exec-cas look c nothing w' (ap (λ x. x.multi) conn ∙ m) (ap (λ x. x.cas) conn),
      touch_all-db out.db.modified ran,
      ap (λ x. x.replies) conn,
      abort-GivenUp c w',
    )
