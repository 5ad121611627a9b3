-- ===== src/Pubsub/Runs.antt =====
-- Runs of the operations on subscriptions of internal/server/client.go, and what a message and the
-- end of a client do in their states.
use monster_db.Prelude.{
  Bool, ℕ, suc, ◌+◌, ◌≡◌, refl, sym, ap, ◌∙◌, arith, true, false, Bool-cases, inl, inr, List, [],
  ◌∷◌, ◌++◌, append-nil, append_assoc, replicate, ◌==◌, if◌then◌else◌,
}
use monster_db.Prelude.Bytes.{Bytes, eqb, eqb→eq}
use monster_db.Pubsub.{
  Server, start, at_client, at_key, has_key, remove_client, subscribe, unsubscribe, deliver,
  publish, cleanup_client, new_client, drop_subscriptions,
}
use monster_db.Pubsub.Kept.{
  times, times-remove_client, eqb_sym, IsConsistent, start-IsConsistent, subscribe-IsConsistent,
  unsubscribe-IsConsistent,
}

-- The states that are reached, with the clients that are gone: commands of clients that are not, ends
-- of clients by `cleanupClient`, and new clients by `NewClient` on the `Fd` of one that is gone.
pub data Reached : (ℕ → Bool) → Server → Type 0 where
  started : Reached (λ c. false) start
  subscribed :
      {gone : ℕ → Bool} {s : Server}
      → Reached gone s
      → (c : ℕ) (key : Bytes) → gone c ≡ false
      → Reached gone ((subscribe c key s).server)
  unsubscribed :
      {gone : ℕ → Bool} {s : Server}
      → Reached gone s
      → (c : ℕ) (key : Bytes) → gone c ≡ false
      → Reached gone ((unsubscribe c key s).server)
  published :
      {gone : ℕ → Bool} {s : Server}
      → Reached gone s
      → (key message : Bytes) → Reached gone ((publish key message s).0)
  cleaned_up :
      {gone : ℕ → Bool} {s : Server}
      → Reached gone s
      → (c : ℕ) → Reached (at_client c true gone) (cleanup_client c s)
  connected :
      {gone : ℕ → Bool} {s : Server}
      → Reached gone s
      → (c : ℕ) → gone c ≡ true
      → Reached (at_client c false gone) (new_client c s)

deliver-IsConsistent :
    (subs : List ℕ) (key message : Bytes) (s : Server) (gone : ℕ → Bool)
    → IsConsistent gone s
    → IsConsistent gone (deliver subs key message s)
unfolding deliver
deliver-IsConsistent [] key message s gone h = h
deliver-IsConsistent (sub ∷ subs) key message s gone h =
    deliver-IsConsistent subs key message
      (record s {
        inbox = at_client sub (s.inbox sub ++ (key, message) ∷ []) s.inbox;
        pending = at_client sub true s.pending;
      })
      gone (record { once = h.once; flagged = h.flagged; ended = h.ended })

drop_subscriptions-times :
    (keys : List Bytes) (c d : ℕ) (subs : Bytes → List ℕ) (k : Bytes)
    → times d (drop_subscriptions keys c subs k)
      ≡ (if has_key k keys then (if d == c then 0 else times d (subs k)) else times d (subs k))
unfolding drop_subscriptions
drop_subscriptions-times [] c d subs k = refl
drop_subscriptions-times (key ∷ keys) c d subs k =
    drop_subscriptions-times keys c d (at_key key (remove_client (subs key) c) subs) k
    ∙ elim (Bool-cases (eqb k key)) [
      | inl e ↦
          let same : k ≡ key = eqb→eq k key e in
          let e' : eqb key k ≡ true = eqb_sym key k ∙ e in
          let cut : times d (remove_client (subs key) c)
              ≡ (if d == c then 0 else times d (subs k)) =
            times-remove_client d c (subs key)
            ∙ ap (λ j. if d == c then 0 else times d (subs j)) (sym same) in
          elim (Bool-cases (d == c)) [
            | inl f ↦ elim (Bool-cases (has_key k keys)) [
              | inl g ↦ rw (e, e', g, f) refl
              | inr g ↦ rw (e, e', g, cut) refl
            ]
            | inr f ↦ elim (Bool-cases (has_key k keys)) [
              | inl g ↦ rw (e, e', g, cut, f) refl
              | inr g ↦ rw (e, e', g, cut, f) refl
            ]
          ]
      | inr e ↦ let e' : eqb key k ≡ false = eqb_sym key k ∙ e in rw (e, e') refl
    ]

-- A client that is cleaned up is on no list any more, and the others stay where they are.
pub cleanup_client-times :
    (c d : ℕ) (s : Server) (k : Bytes) (gone : ℕ → Bool)
    → IsConsistent gone s
    → times d ((cleanup_client c s).subscribers k)
      ≡ (if d == c then 0 else times d (s.subscribers k))
unfolding cleanup_client
cleanup_client-times c d s k gone r =
    drop_subscriptions-times (s.subscriptions c) c d s.subscribers k ∙ elim (Bool-cases (d == c)) [
      | inl e ↦
          let same : d ≡ c = ground arith in
          let once : times d (s.subscribers k) ≡ (if has_key k (s.subscriptions d) then 1 else 0) =
            r.once d k in
          elim (Bool-cases (has_key k (s.subscriptions c))) [
            | inl f ↦ rw (f, e) refl
            | inr f ↦
                rw (f, e)
                  (once ∙ ap (λ x. if has_key k (s.subscriptions x) then 1 else 0) same ∙ rw f refl)
          ]
      | inr e ↦ elim (Bool-cases (has_key k (s.subscriptions c))) [
        | inl f ↦ rw (f, e) refl
        | inr f ↦ rw (f, e) refl
      ]
    ]

still_live :
    (c d : ℕ) (gone : ℕ → Bool)
    → (d == c) ≡ false
    → at_client c true gone d ≡ false
    → gone d ≡ false
still_live c d gone e live = rw e at live

cleanup_client-IsConsistent :
    (c : ℕ) (s : Server) (gone : ℕ → Bool)
    → IsConsistent gone s
    → IsConsistent (at_client c true gone) (cleanup_client c s)
cleanup_client-IsConsistent c s gone h = record {
  once = λ d k.
      cleanup_client-times c d s k gone h
      ∙ unfold cleanup_client in
        elim (Bool-cases (d == c)) [ inl e ↦ rw e refl | inr e ↦ rw e (h.once d k) ];
  flagged = λ d live.
      unfold cleanup_client in
      elim (Bool-cases (d == c)) [
        | inl e ↦ absurd (cc (rw e at live))
        | inr e ↦ rw e (h.flagged d (still_live c d gone e live))
      ];
  ended = λ d g.
      unfold cleanup_client in
      elim (Bool-cases (d == c)) [ inl e ↦ rw e refl | inr e ↦ rw e (h.ended d (rw e at g)) ];
}

new_client-IsConsistent :
    (c : ℕ) (s : Server) (gone : ℕ → Bool)
    → gone c ≡ true
    → IsConsistent gone s
    → IsConsistent (at_client c false gone) (new_client c s)
unfolding new_client
new_client-IsConsistent c s gone was h = record {
  once = λ d k. elim (Bool-cases (d == c)) [
    | inl e ↦
        let same : d ≡ c = ground arith in
        let empty : s.subscriptions d ≡ [] = h.ended d (ap gone same ∙ was) in
        rw e (h.once d k ∙ rw empty refl)
    | inr e ↦ rw e (h.once d k)
  ];
  flagged = λ d live. elim (Bool-cases (d == c)) [
    | inl e ↦ rw e refl
    | inr e ↦ rw e (h.flagged d (rw e at live))
  ];
  ended = λ d g. elim (Bool-cases (d == c)) [
    | inl e ↦ rw e refl
    | inr e ↦ rw e (h.ended d (rw e at g))
  ];
}

-- In every state that Subscribe, Unsubscribe, Publish, cleanupClient and NewClient reach, where a
-- client that is gone sends nothing and its `Fd` may go to a new client: a client is on the list of
-- a key exactly once when it has subscribed to it and never otherwise, and the bit CLIENT_SUB of a
-- client that is not gone is set exactly when it has a subscription.
pub Reached-IsConsistent : {gone : ℕ → Bool} {s : Server} → Reached gone s → IsConsistent gone s
unfolding publish
Reached-IsConsistent started = start-IsConsistent
Reached-IsConsistent (subscribed {gone} {s} r c key live) =
    subscribe-IsConsistent c key s gone live (Reached-IsConsistent r)
Reached-IsConsistent (unsubscribed {gone} {s} r c key live) =
    unsubscribe-IsConsistent c key s gone live (Reached-IsConsistent r)
Reached-IsConsistent (published {gone} {s} r key message) =
    deliver-IsConsistent (s.subscribers key) key message s gone (Reached-IsConsistent r)
Reached-IsConsistent (cleaned_up {gone} {s} r c) =
    cleanup_client-IsConsistent c s gone (Reached-IsConsistent r)
Reached-IsConsistent (connected {gone} {s} r c was) =
    new_client-IsConsistent c s gone was (Reached-IsConsistent r)

deliver-inbox :
    (subs : List ℕ) (key message : Bytes) (s : Server) (d : ℕ)
    → (deliver subs key message s).inbox d ≡ s.inbox d ++ replicate (times d subs) (key, message)
unfolding deliver
deliver-inbox [] key message s d = sym (append-nil (s.inbox d))
deliver-inbox (sub ∷ subs) key message s d =
    let s' : Server = record s {
      inbox = at_client sub (s.inbox sub ++ (key, message) ∷ []) s.inbox;
      pending = at_client sub true s.pending;
    } in
    deliver-inbox subs key message s' d ∙ elim (Bool-cases (d == sub)) [
      | inl e ↦
          let same : d ≡ sub = ground arith in
          let other : (sub == d) ≡ true = ground arith in
          rw (e, other, same)
            (append_assoc (s.inbox sub) ((key, message) ∷ [])
                (replicate (times sub subs) (key, message))
              ∙ ap (λ n. s.inbox sub ++ replicate n (key, message)) {x = suc (times sub subs)}
                  {y = 1 + times d subs} (omega (arith, ap (λ x. times x subs) same)))
      | inr e ↦
          let other : (sub == d) ≡ false = ground arith in
          rw (e, other)
            (ap (λ n. s.inbox d ++ replicate n (key, message)) {x = times d subs}
              {y = 0 + times d subs} (omega arith))
    ]

-- A published message reaches every subscriber of its key once and no other client.
pub publish-inbox :
    (key message : Bytes) (s : Server) (d : ℕ) (gone : ℕ → Bool)
    → Reached gone s
    → ((publish key message s).0).inbox d
      ≡ s.inbox d ++ (if has_key key (s.subscriptions d) then (key, message) ∷ [] else [])
unfolding publish
publish-inbox key message s d gone r =
    let once : times d (s.subscribers key) ≡ (if has_key key (s.subscriptions d) then 1 else 0) =
      (Reached-IsConsistent r).once d key in
    deliver-inbox (s.subscribers key) key message s d
    ∙ ap (λ n. s.inbox d ++ replicate n (key, message)) once
    ∙ elim (Bool-cases (has_key key (s.subscriptions d))) [ inl e ↦ rw e refl | inr e ↦ rw e refl ]
