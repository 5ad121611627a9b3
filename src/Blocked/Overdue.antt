-- ===== src/Blocked/Overdue.antt =====
-- `HandleBlockedClients` of internal/server/client.go releases the clients whose time has passed.
use monster_db.Prelude.{
  ℕ, ◌≡◌, refl, sym, ap, ◌∙◌, subst, arith, Bool, true, false, none, ◌&&◌, ◌||◌, Bool-cases, inl,
  inr, List, [], ◌∷◌, ◌++◌, ◌==◌, if◌then◌else◌,
}
use monster_db.Prelude.Int.{ℤ}
use monster_db.Prelude.Bytes.{Bytes, eqb, eqb→eq, eqb_refl}
use monster_db.Runtime.{null_reply}
use monster_db.Pubsub.{at_key, has_key}
use monster_db.Pubsub.Kept.{eqb_sym}
use monster_db.Session.{has_client}
use monster_db.Blocked.{
  Waiter, Blocking, append, release, overdue, expire_waiters, handle_blocked_clients,
}

-- A client that was released: it has the null reply, is not blocked and has no deadline.
abbrev pub released : Waiter → Waiter
released k = record { blocked = false; when = none; replies = k.replies ++ null_reply ∷ [] }

-- A client waits at one of the keys.
abbrev pub waits_at : ℕ → List Bytes → (Bytes → List ℕ) → Bool
waits_at c [] waiting = false
waits_at c (k ∷ keys) waiting = has_client c (waiting k) || waits_at c keys waiting

-- The clients that are not overdue, in their order.
abbrev pub still : ℤ → (ℕ → Waiter) → List ℕ → List ℕ
still now clients [] = []
still now clients (c ∷ cs) =
    if overdue now (clients c).when then still now clients cs else c ∷ still now clients cs

abbrev pub Distinct : List ℕ → Type 0
Distinct [] = Unit {0}
Distinct (c ∷ cs) = (has_client c cs ≡ false) × Distinct cs

abbrev let_go : ℕ → Blocking → Blocking
let_go c w = append c (null_reply ∷ []) (release c w)

let_go_self : (c : ℕ) (w : Blocking) → (let_go c w).clients c ≡ released (w.clients c)
let_go_self c w = let self : (c == c) ≡ true = ground arith in rw self refl

let_go_other : (c d : ℕ) (w : Blocking) → (d == c) ≡ false → (let_go c w).clients d ≡ w.clients d
let_go_other c d w e = rw e refl

-- It is not let go a second time.
once :
    (now : ℤ) (k k' : Waiter) (b : Bool)
    → k' ≡ released k
    → (if overdue now k'.when && b then released k' else k') ≡ released k
once now k k' b e = rw e refl

expire_waiters-released :
    (now : ℤ) (cs : List ℕ) (w : Blocking) (d : ℕ)
    → ((expire_waiters now cs w).1).clients d ≡ (
        if overdue now (w.clients d).when && has_client d cs
        then released (w.clients d)
        else w.clients d)
unfolding expire_waiters
expire_waiters-released now [] w d = elim (Bool-cases (overdue now (w.clients d).when)) [
  | inl e ↦ rw e refl
  | inr e ↦ rw e refl
]
expire_waiters-released now (c ∷ cs) w d = elim (Bool-cases (overdue now (w.clients c).when)) [
  | inl e ↦
      let w1 : Blocking = let_go c w in
      rw e (
        expire_waiters-released now cs w1 d ∙ elim (Bool-cases (d == c)) [
          | inl f ↦
              let same : d ≡ c = ground arith in
              let g : (c == d) ≡ true = ground arith in
              let late : overdue now (w.clients d).when ≡ true =
                ap (λ x. overdue now (w.clients x).when) same ∙ e in
              once now (w.clients d) (w1.clients d) (has_client d cs)
                (ap w1.clients same ∙ let_go_self c w ∙ ap (λ x. released (w.clients x)) (sym same))
              ∙ rw (late, g) refl
          | inr f ↦ let g : (c == d) ≡ false = ground arith in rw (let_go_other c d w f, g) refl
        ])
  | inr e ↦ rw e (
      expire_waiters-released now cs w d ∙ elim (Bool-cases (d == c)) [
        | inl f ↦
            let same : d ≡ c = ground arith in
            let late : overdue now (w.clients d).when ≡ false =
              ap (λ x. overdue now (w.clients x).when) same ∙ e in
            rw late refl
        | inr f ↦ let g : (c == d) ≡ false = ground arith in rw g refl
      ])
]

expire_waiters-waiting :
    (now : ℤ) (cs : List ℕ) (w : Blocking) → ((expire_waiters now cs w).1).waiting ≡ w.waiting
unfolding expire_waiters
expire_waiters-waiting now [] w = refl
expire_waiters-waiting now (c ∷ cs) w = elim (Bool-cases (overdue now (w.clients c).when)) [
  | inl e ↦ rw e (expire_waiters-waiting now cs (let_go c w))
  | inr e ↦ rw e (expire_waiters-waiting now cs w)
]

-- Who did not wait does not stay.
expire_waiters-has_client :
    (now : ℤ) (cs : List ℕ) (w : Blocking) (d : ℕ)
    → has_client d cs ≡ false
    → has_client d ((expire_waiters now cs w).0) ≡ false
unfolding expire_waiters
expire_waiters-has_client now [] w d n = refl
expire_waiters-has_client now (c ∷ cs) w d n = elim (Bool-cases (c == d)) [
  | inl e ↦ absurd (cc (rw e at n))
  | inr e ↦
      let n' : has_client d cs ≡ false = rw e at n in
      elim (Bool-cases (overdue now (w.clients c).when)) [
        | inl f ↦ rw f (expire_waiters-has_client now cs (let_go c w) d n')
        | inr f ↦ rw (f, e) (expire_waiters-has_client now cs w d n')
      ]
]

still-same :
    (now : ℤ) (f g : ℕ → Waiter) (cs : List ℕ)
    → ((c : ℕ) → has_client c cs ≡ true → f c ≡ g c)
    → still now f cs ≡ still now g cs
still-same now f g [] h = refl
still-same now f g (c ∷ cs) h =
    let here : f c ≡ g c = h c (let self : (c == c) ≡ true = ground arith in rw self refl) in
    let rest : still now f cs ≡ still now g cs =
      still-same now f g cs
        (λ d i. h d (elim (Bool-cases (c == d)) [ inl e ↦ rw e refl | inr e ↦ rw e i ])) in
    rw (here, rest) refl

apart :
    (c d : ℕ) (cs : List ℕ) → has_client c cs ≡ false → has_client d cs ≡ true → (d == c) ≡ false
apart c d cs n i = elim (Bool-cases (d == c)) [
  | inl e ↦ let same : d ≡ c = ground arith in absurd (cc (n, i, same))
  | inr e ↦ e
]

expire_waiters-still :
    (now : ℤ) (cs : List ℕ) (w : Blocking)
    → Distinct cs
    → (expire_waiters now cs w).0 ≡ still now w.clients cs
unfolding expire_waiters
expire_waiters-still now [] w h = refl
expire_waiters-still now (c ∷ cs) w h = elim (Bool-cases (overdue now (w.clients c).when)) [
  | inl e ↦
      let w1 : Blocking = let_go c w in
      rw e (
        expire_waiters-still now cs w1 h.1
        ∙ still-same now w1.clients w.clients cs (λ d i. let_go_other c d w (apart c d cs h.0 i)))
  | inr e ↦ rw e (ap (λ ds. c ∷ ds) (expire_waiters-still now cs w h.1))
]

-- Behind one key: its list, the other lists and the clients.
abbrev after_key : ℤ → Bytes → Blocking → Blocking
after_key now key w =
    let (active, w') = expire_waiters now (w.waiting key) w in
    record w' { waiting = at_key key active w'.waiting }

after_key-other :
    (now : ℤ) (key k : Bytes) (w : Blocking)
    → eqb k key ≡ false
    → (after_key now key w).waiting k ≡ w.waiting k
after_key-other now key k w e = rw e (ap (λ f. f k) (expire_waiters-waiting now (w.waiting key) w))

after_key-same :
    (now : ℤ) (key k : Bytes) (w : Blocking)
    → eqb k key ≡ true
    → (after_key now key w).waiting k ≡ (expire_waiters now (w.waiting key) w).0
after_key-same now key k w e = rw e refl

-- Who is still to be let go waits where it waited before.
waits_at-after :
    (now : ℤ) (key : Bytes) (c : ℕ) (keys : List Bytes) (w : Blocking)
    → has_client c (w.waiting key) ≡ false
    → waits_at c keys ((after_key now key w).waiting) ≡ waits_at c keys w.waiting
waits_at-after now key c [] w n = refl
waits_at-after now key c (k ∷ keys) w n =
    let head : has_client c ((after_key now key w).waiting k) ≡ has_client c (w.waiting k) =
      elim (Bool-cases (eqb k key)) [
        | inl e ↦
            ap (has_client c) (after_key-same now key k w e)
            ∙ expire_waiters-has_client now (w.waiting key) w c n
            ∙ sym n
            ∙ ap (λ j. has_client c (w.waiting j)) (sym (eqb→eq k key e))
        | inr e ↦ ap (has_client c) (after_key-other now key k w e)
      ] in
    ap (λ b. b || waits_at c keys ((after_key now key w).waiting)) head
    ∙ ap (λ b. has_client c (w.waiting k) || b) (waits_at-after now key c keys w n)

-- What two keys after each other do to a client.
two_keys :
    (now : ℤ) (k k' : Waiter) (h b b' : Bool)
    → k' ≡ (if overdue now k.when && h then released k else k)
    → (h ≡ false → b' ≡ b)
    → (if overdue now k'.when && b' then released k' else k')
      ≡ (if overdue now k.when && (h || b) then released k else k)
two_keys now k k' h b b' was same = elim (Bool-cases (overdue now k.when)) [
  | inl e ↦ elim (Bool-cases h) [
    | inl f ↦ once now k k' b' (rw (e, f) at was) ∙ rw (e, f) refl
    | inr f ↦ let kept : k' ≡ k = rw (e, f) at was in rw (kept, same f, e, f) refl
  ]
  | inr e ↦ let kept : k' ≡ k = rw e at was in rw (kept, e) refl
]

handle_blocked_clients-released :
    (now : ℤ) (keys : List Bytes) (w : Blocking) (c : ℕ)
    → (handle_blocked_clients now keys w).clients c ≡ (
        if overdue now (w.clients c).when && waits_at c keys w.waiting
        then released (w.clients c)
        else w.clients c)
unfolding handle_blocked_clients
handle_blocked_clients-released now [] w c = elim (Bool-cases (overdue now (w.clients c).when)) [
  | inl e ↦ rw e refl
  | inr e ↦ rw e refl
]
handle_blocked_clients-released now (key ∷ keys) w c =
    handle_blocked_clients-released now keys (after_key now key w) c
    ∙ two_keys now (w.clients c) ((after_key now key w).clients c) (has_client c (w.waiting key))
        (waits_at c keys w.waiting) (waits_at c keys ((after_key now key w).waiting))
        (expire_waiters-released now (w.waiting key) w c) (waits_at-after now key c keys w)

handle_blocked_clients-other :
    (now : ℤ) (keys : List Bytes) (key : Bytes) (w : Blocking)
    → has_key key keys ≡ false
    → (handle_blocked_clients now keys w).waiting key ≡ w.waiting key
unfolding handle_blocked_clients
handle_blocked_clients-other now [] key w n = refl
handle_blocked_clients-other now (k ∷ keys) key w n = elim (Bool-cases (eqb k key)) [
  | inl e ↦ absurd (cc (rw e at n))
  | inr e ↦
      handle_blocked_clients-other now keys key (after_key now k w) (rw e at n)
      ∙ after_key-other now k key w (eqb_sym key k ∙ e)
]

not_there : (a b : Bool) (x y : Waiter) → b ≡ false → (if a && b then x else y) ≡ y
not_there true b x y e = rw e refl
not_there false b x y e = refl

handle_blocked_clients-append :
    (now : ℤ) (before after : List Bytes) (w : Blocking)
    → handle_blocked_clients now (before ++ after) w
      ≡ handle_blocked_clients now after (handle_blocked_clients now before w)
unfolding handle_blocked_clients
handle_blocked_clients-append now [] after w = refl
handle_blocked_clients-append now (key ∷ before) after w =
    handle_blocked_clients-append now before after (after_key now key w)

handle_first :
    (now : ℤ) (after : List Bytes) (key : Bytes) (w : Blocking)
    → has_key key after ≡ false
    → (handle_blocked_clients now (key ∷ after) w).waiting key
      ≡ (expire_waiters now (w.waiting key) w).0
unfolding handle_blocked_clients
handle_first now after key w a =
    handle_blocked_clients-other now after key (after_key now key w) a
    ∙ after_key-same now key key w (eqb_refl key)

-- HandleBlockedClients, with the keys in the order in which its range visits them: every client
-- that waits at one of them and is overdue gets the null reply once and is neither blocked nor has a
-- deadline, and no other client changes. At a key that is visited once, whose clients are distinct
-- and wait at no key that is visited before, those that are not overdue go on waiting, in their
-- order, and no others.
pub handle_blocked_clients-still :
    (now : ℤ) (before after : List Bytes) (key : Bytes) (w : Blocking)
    → has_key key before ≡ false
    → has_key key after ≡ false
    → Distinct (w.waiting key)
    → ((c : ℕ) → has_client c (w.waiting key) ≡ true → waits_at c before w.waiting ≡ false)
    → ((handle_blocked_clients now (before ++ key ∷ after) w).waiting key
        ≡ still now w.clients (w.waiting key))
      × ((c : ℕ)
          → (handle_blocked_clients now (before ++ key ∷ after) w).clients c ≡ (
              if overdue now (w.clients c).when && waits_at c (before ++ key ∷ after) w.waiting
              then released (w.clients c)
              else w.clients c))
handle_blocked_clients-still now before after key w b a distinct alone =
    let w1 : Blocking = handle_blocked_clients now before w in
    let same : w1.waiting key ≡ w.waiting key = handle_blocked_clients-other now before key w b in
    (
      ap (λ x. x.waiting key) (handle_blocked_clients-append now before (key ∷ after) w)
          ∙ handle_first now after key w1 a
          ∙ expire_waiters-still now (w1.waiting key) w1 (subst Distinct (sym same) distinct)
          ∙ ap (still now w1.clients) same
          ∙ still-same now w1.clients w.clients (w.waiting key) (λ c i.
            handle_blocked_clients-released now before w c
            ∙ not_there (overdue now (w.clients c).when) _ _ _ (alone c i)),
      handle_blocked_clients-released now (before ++ key ∷ after) w,
    )
