-- ===== src/Session/Serial.antt =====
-- EXEC of internal/store/tx_cmd.go against the queued commands run one after another.
use monster_db.Prelude.{
  ℕ, ◌+◌, ◌≡◌, refl, sym, subst, ap, ◌∙◌, arith, Bool, true, false, not, ◌||◌, Option-cases, inl,
  inr, Option, none, some, List, [], ◌∷◌, ◌++◌, append-nil, append_assoc, returned_same, panics_not,
  length, if◌then◌else◌, ◌>>=◌,
}
use monster_db.Prelude.Int.{pos}
use monster_db.Prelude.Bytes.{Bytes}
use monster_db.Runtime.{Reply, RedisCmd, int_reply}
use monster_db.Pubsub.{is_nil}
use monster_db.Keyspace.{Db}
use monster_db.Command.{Outcome, Command}
use monster_db.Session.{
  Conn, World, Handler, Env, tell, has_client, touch_watched_keys, touch_all, on_keys, leave_multi,
  unwatch_all_keys, exec_loop, exec,
}
use monster_db.Session.Watched.{
  hit, touch_all-conns, touch_all-db, same_client, has_client-remove_client,
}

-- A command on keys with its arguments, and what a list of them comes to: the replies, the keys that
-- were changed, and the keyspace.
pub record Call : Type 0 where
  pub command : Command
  pub args : List Bytes

pub record Done : Type 0 where
  pub replies : List Reply
  pub changed : List Bytes
  pub db : Db

abbrev pub behind : Outcome → Option Done → Option Done
behind out none = none
behind out (some done) = some (record {
  replies = out.replies ++ done.replies;
  changed = out.db.modified ++ done.changed;
  db = done.db;
})

-- The calls in turn, from the reading of the clock with number `t` on.
unfoldable pub in_turn : Env → List Call → ℕ → Db → Option Done
in_turn env [] t db = some (record { replies = []; changed = []; db = db })
in_turn env (call ∷ calls) t db = do
  out ← call.command env.host (env.clock t) call.args (record db { modified = [] })
  behind out (in_turn env calls (t + 1) out.db)

-- The queued commands are these calls.
abbrev pub Names : Env → (Bytes → Option Handler) → List RedisCmd → List Call → Type 0
Names env look [] [] = Unit {0}
Names env look [] (call ∷ calls) = ⊥
Names env look (q ∷ qs) [] = ⊥
Names env look (q ∷ qs) (call ∷ calls) =
    (look q.cmd ≡ some (on_keys env call.command)) × (q.args ≡ call.args) × Names env look qs calls

touch_all-watched : (keys : List Bytes) (w : World) → (touch_all keys w).watched ≡ w.watched
unfolding touch_all touch_watched_keys
touch_all-watched [] w = refl
touch_all-watched (key ∷ keys) w = touch_all-watched keys (touch_watched_keys key w)

touch_all-ticks : (keys : List Bytes) (w : World) → (touch_all keys w).ticks ≡ w.ticks
unfolding touch_all touch_watched_keys
touch_all-ticks [] w = refl
touch_all-ticks (key ∷ keys) w = touch_all-ticks keys (touch_watched_keys key w)

hit-append :
    (c : ℕ) (watched : Bytes → List ℕ) (keys more : List Bytes)
    → hit c watched (keys ++ more) ≡ (hit c watched keys || hit c watched more)
hit-append c watched [] more = refl
hit-append c watched (key ∷ keys) more = ground (arith, hit-append c watched keys more)

-- How a client stands after commands of its own that change `keys` and reply `rs`.
pub record After (c : ℕ) (w w' : World) (rs : List Reply) (keys : List Bytes) : Type 0 where
  pub watched : w'.watched ≡ w.watched
  pub replies : (w'.conns c).replies ≡ (w.conns c).replies ++ rs
  pub cas : (w'.conns c).cas ≡ ((w.conns c).cas || hit c w.watched keys)

or_assoc : (a b d : Bool) → ((a || b) || d) ≡ (a || (b || d))
or_assoc a b d = ground arith

with_cas :
    (b : Bool) (k : Conn)
    → ((if b then record k { cas = true } else k).cas ≡ (k.cas || b))
      × ((if b then record k { cas = true } else k).replies ≡ k.replies)
with_cas true k = (ground arith, refl)
with_cas false k = (ground arith, refl)

After-trans :
    (c : ℕ) (w w1 w2 : World) (rs ss : List Reply) (keys more : List Bytes)
    → After c w w1 rs keys
    → After c w1 w2 ss more
    → After c w w2 (rs ++ ss) (keys ++ more)
After-trans c w w1 w2 rs ss keys more a b = record {
  watched = b.watched ∙ a.watched;
  replies = b.replies ∙ ap (λ l. l ++ ss) a.replies ∙ append_assoc ((w.conns c).replies) rs ss;
  cas =
      b.cas
      ∙ ap (λ x. x || hit c w1.watched more) a.cas
      ∙ ap (λ f. ((w.conns c).cas || hit c w.watched keys) || hit c f more) a.watched
      ∙ or_assoc ((w.conns c).cas) (hit c w.watched keys) (hit c w.watched more)
      ∙ ap (λ x. (w.conns c).cas || x) (sym (hit-append c w.watched keys more));
}

-- One command of the client.
on_keys-After :
    (env : Env) (call : Call) (c : ℕ) (out : Outcome) (w : World)
    → call.command env.host (env.clock w.ticks) call.args (record (w.db) { modified = [] })
      ≡ some out
    → (w' : World) × (on_keys env call.command c call.args w ≡ some w')
      × (w'.db ≡ out.db)
      × (w'.ticks ≡ w.ticks + 1)
      × After c w w' out.replies out.db.modified
unfolding on_keys
on_keys-After env call c out w e =
    let ran : World = record w { db = out.db; ticks = w.ticks + 1 } in
    let touched : World = touch_all out.db.modified ran in
    let conn = touch_all-conns c out.db.modified ran in
    let marked = with_cas (hit c w.watched out.db.modified) (w.conns c) in
    (
      tell c out.replies touched,
      rw e refl,
      touch_all-db out.db.modified ran,
      touch_all-ticks out.db.modified ran,
      record {
        watched = touch_all-watched out.db.modified ran;
        replies =
            rw (same_client c)
              (ap (λ k. k.replies ++ out.replies) conn ∙ ap (λ l. l ++ out.replies) marked.1);
        cas = rw (same_client c) (ap (λ k. k.cas) conn ∙ marked.0);
      },
    )

exec_loop-in_turn :
    (env : Env) (look : Bytes → Option Handler) (c : ℕ) (qs : List RedisCmd) (calls : List Call)
    (done : Done) (w : World)
    → Names env look qs calls
    → in_turn env calls w.ticks w.db ≡ some done
    → (w' : World) × (exec_loop look c qs w ≡ some w')
      × (w'.db ≡ done.db)
      × After c w w' done.replies done.changed
unfolding exec_loop in_turn
exec_loop-in_turn env look c [] [] done w n e =
    subst
      (λ d. (w' : World) × (some w ≡ some w') × (w'.db ≡ d.db) × After c w w' d.replies d.changed)
      (returned_same e)
      (
        w,
        refl,
        refl,
        record {
          watched = refl;
          replies = sym (append-nil ((w.conns c).replies));
          cas = ground arith;
        },
      )
exec_loop-in_turn env look c [] (call ∷ calls) done w n e = absurd n
exec_loop-in_turn env look c (q ∷ qs) [] done w n e = absurd n
exec_loop-in_turn env look c (q ∷ qs) (call ∷ calls) done w n e =
    elim (Option-cases
      (call.command env.host (env.clock w.ticks) call.args (record (w.db) { modified = [] }))) [
        | inl f ↦ absurd (panics_not (rw f at e))
        | inr (out, f) ↦
            let (w1, ran, db, ticks, after) = on_keys-After env call c out w f in
            let same : in_turn env calls w1.ticks w1.db ≡ in_turn env calls (w.ticks + 1) out.db =
              ap (λ t. in_turn env calls t w1.db) ticks ∙ ap (in_turn env calls (w.ticks + 1)) db in
            elim (Option-cases (in_turn env calls (w.ticks + 1) out.db)) [
              | inl g ↦ absurd (panics_not (rw (f, g) at e))
              | inr (rest, g) ↦
                  let (w', went, db', after') =
                    exec_loop-in_turn env look c qs calls rest w1 n.2 (same ∙ g) in
                  subst
                    (λ d.
                      (w' : World) × (exec_loop look c (q ∷ qs) w ≡ some w')
                      × (w'.db ≡ d.db)
                      × After c w w' d.replies d.changed)
                    (returned_same (rw (f, g) at e))
                    (
                      w',
                      rw (n.0, n.1, ran) went,
                      db',
                      After-trans c w w1 w' out.replies rest.replies out.db.modified rest.changed
                          after after',
                    )
            ]
      ]

fourth :
    (a b d : Bool) (x y z u : Option World)
    → a ≡ true
    → b ≡ false
    → d ≡ false
    → (if not a then x else if b then y else if d then z else u) ≡ u
fourth a b d x y z u e f g = rw (e, f, g) refl

Names-is_nil :
    (env : Env) (look : Bytes → Option Handler) (qs : List RedisCmd) (call : Call)
    (calls : List Call)
    → Names env look qs (call ∷ calls)
    → is_nil qs ≡ false
Names-is_nil env look [] call calls n = absurd n
Names-is_nil env look (q ∷ qs) call calls n = refl

-- EXEC of a client in a transaction that is not spoiled, whose queue has at least one command, all
-- of them on keys, and whose commands return when they are run in turn: it returns; the replies and
-- the keyspace are those of the commands run in turn, behind the number of commands; the client is
-- out of its transaction, with an empty queue, and watches nothing. Its bit CLIENT_CAS is set
-- afterwards exactly if one of its own commands has called SignalModifiedKey with a key that it
-- watched; a change of a key without this call does not set it.
pub exec-in_turn :
    (env : Env) (look : Bytes → Option Handler) (c : ℕ) (nothing : List Bytes) (call : Call)
    (calls : List Call) (done : Done) (w : World)
    → (w.conns c).multi ≡ true
    → (w.conns c).cas ≡ false
    → (w.conns c).aborted ≡ false
    → Names env look ((w.conns c).queue) (call ∷ calls)
    → in_turn env (call ∷ calls) w.ticks w.db ≡ some done
    → (w' : World) × (exec look c nothing w ≡ some w')
      × (w'.db ≡ done.db)
      × ((w'.conns c).replies
          ≡ (w.conns c).replies ++ int_reply (pos (length ((w.conns c).queue))) ∷ done.replies)
      × ((w'.conns c).multi ≡ false)
      × ((w'.conns c).queue ≡ [])
      × ((w'.conns c).cas ≡ hit c w.watched done.changed)
      × ((key : Bytes) → has_client c (w'.watched key) ≡ false)
unfolding exec leave_multi unwatch_all_keys
exec-in_turn env look c nothing call calls done w m s a n e =
    let k : Conn = w.conns c in
    let header : Reply = int_reply (pos (length k.queue)) in
    let w0 : World = tell c (header ∷ []) w in
    let (w1, went, db, after) = exec_loop-in_turn env look c k.queue (call ∷ calls) done w0 n e in
    let start : w0.conns c ≡ record k { replies = k.replies ++ header ∷ [] } =
      rw (same_client c) refl in
    let reached : exec look c nothing w
        ≡ (exec_loop look c k.queue w0 >>= (λ w'. some (unwatch_all_keys c (leave_multi c w')))) =
      fourth k.multi (k.cas || k.aborted) (is_nil k.queue) _ _ _ _ m (rw (s, a) refl)
        (Names-is_nil env look k.queue call calls n) in
    (
      unwatch_all_keys c (leave_multi c w1),
      reached ∙ rw went refl,
      db,
      rw (same_client c) (
          after.replies
          ∙ ap (λ x. x.replies ++ done.replies) start
          ∙ append_assoc k.replies (header ∷ []) done.replies),
      rw (same_client c) refl,
      rw (same_client c) refl,
      rw (same_client c)
          (after.cas ∙ ap (λ x. x.cas || hit c w.watched done.changed) start ∙ rw s refl),
      λ key. has_client-remove_client c (w1.watched key),
    )
