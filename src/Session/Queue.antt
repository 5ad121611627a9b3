-- ===== src/Session/Queue.antt =====
-- The commands that wait in a transaction: `respond` of internal/server/redis_cmd.go.
use monster_db.Prelude.{
  ℕ, ◌≡◌, refl, sym, ap, ◌∙◌, arith, Bool, true, false, not, ◌&&◌, ◌||◌, Bool-cases, Option-cases,
  inl, inr, Option, some, List, [], ◌∷◌, ◌++◌, append-nil, append_assoc, map, ◌==◌, if◌then◌else◌,
}
use monster_db.Prelude.Bytes.{Bytes}
use monster_db.Prelude.Text.{ascii}
use monster_db.Prelude.Dict.{is_some}
use monster_db.Runtime.{Reply, RedisCmd, error_reply, simple_string}
use monster_db.Session.{World, Handler, Env, find}
use monster_db.Session.Watched.{same_client}
use monster_db.Session.Respond.{enqueue, waits, respond_one, respond_loop, respond}

-- What a transaction takes, whether it is spoiled, and what the client is told.
abbrev pub known : (Bytes → Option Handler) → List RedisCmd → List RedisCmd
known look [] = []
known look (cmd ∷ cmds) = if is_some (look cmd.cmd) then cmd ∷ known look cmds else known look cmds

abbrev pub any_unknown : (Bytes → Option Handler) → List RedisCmd → Bool
any_unknown look [] = false
any_unknown look (cmd ∷ cmds) = not (is_some (look cmd.cmd)) || any_unknown look cmds

abbrev pub answer : (Bytes → Option Handler) → RedisCmd → Reply
answer look cmd =
    if is_some (look cmd.cmd)
    then simple_string (ascii "QUEUED")
    else error_reply (ascii "ERR unknown command '" ++ (cmd.cmd ++ ascii "'"))

abbrev pub AllWait : List RedisCmd → Type 0
AllWait [] = Unit {0}
AllWait (cmd ∷ cmds) = (waits cmd.cmd ≡ true) × AllWait cmds

-- Nothing has happened but in the queue of the client.
pub record Waiting (look : Bytes → Option Handler) (cmds : List RedisCmd) (c : ℕ) (w w' : World)
    : Type 0 where
  pub db : w'.db ≡ w.db
  pub watched : w'.watched ≡ w.watched
  pub pending : w'.pending ≡ w.pending
  pub others : (d : ℕ) → (d == c) ≡ false → w'.conns d ≡ w.conns d
  pub multi : (w'.conns c).multi ≡ true
  pub cas : (w'.conns c).cas ≡ (w.conns c).cas
  pub queue : (w'.conns c).queue ≡ (w.conns c).queue ++ known look cmds
  pub aborted : (w'.conns c).aborted ≡ ((w.conns c).aborted || any_unknown look cmds)
  pub replies : (w'.conns c).replies ≡ (w.conns c).replies ++ map (answer look) cmds

enqueue-Waiting :
    (look : Bytes → Option Handler) (cmd : RedisCmd) (c : ℕ) (w : World)
    → (w.conns c).multi ≡ true
    → Waiting look (cmd ∷ []) c w (enqueue (look cmd.cmd) cmd c w)
unfolding enqueue
enqueue-Waiting look cmd c w m = elim (Option-cases (look cmd.cmd)) [
  | inl e ↦ rw e (record {
    db = refl;
    watched = refl;
    pending = refl;
    others = λ d o. rw o refl;
    multi = rw (same_client c) m;
    cas = rw (same_client c) refl;
    queue = rw (same_client c, e) (sym (append-nil ((w.conns c).queue)));
    aborted = rw (same_client c, e) (ground arith);
    replies = rw (same_client c, e) refl;
  })
  | inr (h, e) ↦ rw e (record {
    db = refl;
    watched = refl;
    pending = refl;
    others = λ d o. rw o refl;
    multi = rw (same_client c) m;
    cas = rw (same_client c) refl;
    queue = rw (same_client c, e) refl;
    aborted = rw (same_client c, e) (ground arith);
    replies = rw (same_client c, e) refl;
  })
]

known-append :
    (look : Bytes → Option Handler) (cmd : RedisCmd) (cmds : List RedisCmd)
    → known look (cmd ∷ []) ++ known look cmds ≡ known look (cmd ∷ cmds)
known-append look cmd cmds = elim (Bool-cases (is_some (look cmd.cmd))) [
  | inl e ↦ rw e refl
  | inr e ↦ rw e refl
]

spoiled : (a b d : Bool) → ((a || (b || false)) || d) ≡ (a || (b || d))
spoiled a b d = ground arith

Waiting-trans :
    (look : Bytes → Option Handler) (cmd : RedisCmd) (cmds : List RedisCmd) (c : ℕ)
    (w w1 w2 : World)
    → Waiting look (cmd ∷ []) c w w1
    → Waiting look cmds c w1 w2
    → Waiting look (cmd ∷ cmds) c w w2
Waiting-trans look cmd cmds c w w1 w2 a b = record {
  db = b.db ∙ a.db;
  watched = b.watched ∙ a.watched;
  pending = b.pending ∙ a.pending;
  others = λ d o. b.others d o ∙ a.others d o;
  multi = b.multi;
  cas = b.cas ∙ a.cas;
  queue =
      b.queue
      ∙ ap (λ l. l ++ known look cmds) a.queue
      ∙ append_assoc ((w.conns c).queue) (known look (cmd ∷ [])) (known look cmds)
      ∙ ap (λ l. (w.conns c).queue ++ l) (known-append look cmd cmds);
  aborted =
      b.aborted
      ∙ ap (λ x. x || any_unknown look cmds) a.aborted
      ∙ spoiled ((w.conns c).aborted) (not (is_some (look cmd.cmd))) (any_unknown look cmds);
  replies =
      b.replies
      ∙ ap (λ l. l ++ map (answer look) cmds) a.replies
      ∙ append_assoc ((w.conns c).replies) (map (answer look) (cmd ∷ [])) (map (answer look) cmds);
}

respond_loop-Waiting :
    (env : Env) (look : Bytes → Option Handler) (cmds : List RedisCmd) (c : ℕ) (w : World)
    → (w.conns c).multi ≡ true
    → AllWait cmds
    → (w' : World) × (respond_loop env look cmds c w ≡ some w') × Waiting look cmds c w w'
unfolding respond_loop respond_one
respond_loop-Waiting env look [] c w m a = (
  w,
  refl,
  record {
    db = refl;
    watched = refl;
    pending = refl;
    others = λ d o. refl;
    multi = m;
    cas = refl;
    queue = sym (append-nil ((w.conns c).queue));
    aborted = ground arith;
    replies = sym (append-nil ((w.conns c).replies));
  },
)
respond_loop-Waiting env look (cmd ∷ cmds) c w m a =
    let w1 : World = enqueue (look cmd.cmd) cmd c w in
    let first = enqueue-Waiting look cmd c w m in
    let (w2, e, further) = respond_loop-Waiting env look cmds c w1 first.multi a.1 in
    let test : ((w.conns c).multi && waits cmd.cmd) ≡ true = rw (m, a.0) refl in
    (w2, rw test e, Waiting-trans look cmd cmds c w w1 w2 first further)

-- A client in a transaction sends commands other than EXEC and DISCARD: `respond` returns, and the
-- keyspace, the watched keys, the commands for the replicas and all other clients are as before.
-- The commands that are registered join its queue in their order, each other one spoils the
-- transaction, and each is answered.
pub respond-Waiting :
    (env : Env) (cmds : List RedisCmd) (c : ℕ) (w : World)
    → (w.conns c).multi ≡ true
    → AllWait cmds
    → (w' : World) × (respond env cmds c w ≡ some w') × Waiting (find 1 env) cmds c w w'
unfolding respond
respond-Waiting env cmds c w m a = respond_loop-Waiting env (find 1 env) cmds c w m a
