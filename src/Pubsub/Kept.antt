-- ===== src/Pubsub/Kept.antt =====
-- The two sides of the subscriptions of internal/server/client.go agree after every operation.
use monster_db.Prelude.{
  ℕ, ◌+◌, ◌≡◌, refl, sym, ap, ◌∙◌, arith, Bool, true, false, not, Bool-cases, inl, inr, List, [],
  ◌∷◌, ◌++◌, ◌==◌, if◌then◌else◌,
}
use monster_db.Prelude.Bytes.{Bytes, eqb, eqb→eq}
use monster_db.Pubsub.{
  Server, start, at_client, at_key, has_key, delete_key, remove_client, subscribe, unsubscribe,
  is_nil,
}

-- How often a client is on a list.
abbrev pub times : ℕ → List ℕ → ℕ
times c [] = 0
times c (d ∷ ds) = (if d == c then 1 else 0) + times c ds

-- A client stands once on the list of a key that it has subscribed to, and on no other list, and
-- the bit of a client that is not gone is set exactly when it has a subscription.
pub record IsConsistent (gone : ℕ → Bool) (s : Server) : Type 0 where
  pub once :
      (c : ℕ) (k : Bytes)
      → times c (s.subscribers k) ≡ (if has_key k (s.subscriptions c) then 1 else 0)
  pub flagged : (c : ℕ) → gone c ≡ false → is_nil (s.subscriptions c) ≡ not (s.sub_flag c)
  pub ended : (c : ℕ) → gone c ≡ true → s.subscriptions c ≡ []

pub start-IsConsistent : IsConsistent (λ c. false) start
unfolding start
start-IsConsistent = record { once = λ c k. refl; flagged = λ c live. refl; ended = λ c g. refl }

times-append :
    (c d : ℕ) (ds : List ℕ) → times c (ds ++ d ∷ []) ≡ times c ds + (if d == c then 1 else 0)
times-append c d [] = omega arith
times-append c d (e ∷ ds) = omega (arith, times-append c d ds)

pub times-remove_client :
    (c d : ℕ) (ds : List ℕ) → times c (remove_client ds d) ≡ (if c == d then 0 else times c ds)
unfolding remove_client
times-remove_client c d [] = ground arith
times-remove_client c d (e ∷ ds) = ground (arith, times-remove_client c d ds)

pub eqb_sym : (u v : Bytes) → eqb u v ≡ eqb v u
eqb_sym [] [] = refl
eqb_sym [] (b ∷ v) = refl
eqb_sym (a ∷ u) [] = refl
eqb_sym (a ∷ u) (b ∷ v) = ground (arith, eqb_sym u v)

has_key-delete_key :
    (k j : Bytes) (js : List Bytes)
    → has_key k (delete_key j js) ≡ (if eqb k j then false else has_key k js)
has_key-delete_key k j [] = elim (Bool-cases (eqb k j)) [ inl e ↦ rw e refl | inr e ↦ rw e refl ]
has_key-delete_key k j (i ∷ js) =
    let h = has_key-delete_key k j js in
    elim (Bool-cases (eqb i j)) [
      | inl e ↦
          let same : i ≡ j = eqb→eq i j e in
          elim (Bool-cases (eqb k j)) [
            | inl f ↦ rw (e, f) (h ∙ rw f refl)
            | inr f ↦
                let g : eqb i k ≡ false = ap (λ t. eqb t k) same ∙ eqb_sym j k ∙ f in
                rw (e, f, g) (h ∙ rw f refl)
          ]
      | inr e ↦ elim (Bool-cases (eqb i k)) [
        | inl f ↦
            let g : eqb k j ≡ false = ap (λ t. eqb t j) (sym (eqb→eq i k f)) ∙ e in
            rw (e, f, g) refl
        | inr f ↦ rw (e, f, h) refl
      ]
    ]

once-subscribe :
    (c d : ℕ) (key k : Bytes) (s : Server) (gone : ℕ → Bool)
    → IsConsistent gone s
    → has_key key (s.subscriptions c) ≡ false
    → times d (at_key key (s.subscribers key ++ c ∷ []) s.subscribers k)
      ≡ (if has_key k (at_client c (key ∷ s.subscriptions c) s.subscriptions d) then 1 else 0)
once-subscribe c d key k s gone h e = elim (Bool-cases (eqb k key)) [
  | inl f ↦
      let same : k ≡ key = eqb→eq k key f in
      elim (Bool-cases (d == c)) [
        | inl g ↦
            let here : eqb key k ≡ true = eqb_sym key k ∙ f in
            let me : d ≡ c = ground arith in
            let g' : (c == d) ≡ true = ground arith in
            rw (f, g, here, times-append d c (s.subscribers key), h.once d key, me, e)
              (ground arith)
        | inr g ↦
            let g' : (c == d) ≡ false = ground arith in
            rw (f, g, times-append d c (s.subscribers key), h.once d key, g', same) (omega arith)
      ]
  | inr f ↦
      let apart : eqb key k ≡ false = eqb_sym key k ∙ f in
      elim (Bool-cases (d == c)) [
        | inl g ↦ let me : d ≡ c = ground arith in rw (f, g, apart, h.once d k, me) refl
        | inr g ↦ rw (f, g) (h.once d k)
      ]
]

flagged_if :
    (c d : ℕ) (s : Server) (gone : ℕ → Bool) (keys : List Bytes) (b : Bool)
    → IsConsistent gone s
    → is_nil keys ≡ not b
    → gone d ≡ false
    → is_nil (at_client c keys s.subscriptions d) ≡ not (at_client c b s.sub_flag d)
flagged_if c d s gone keys b h e live = elim (Bool-cases (d == c)) [
  | inl g ↦ rw g e
  | inr g ↦ rw g (h.flagged d live)
]

-- A client that is gone is not the one whose subscriptions change.
ended_still :
    (c d : ℕ) (s : Server) (gone : ℕ → Bool) (keys : List Bytes)
    → IsConsistent gone s
    → gone c ≡ false
    → gone d ≡ true
    → at_client c keys s.subscriptions d ≡ []
ended_still c d s gone keys h live g = elim (Bool-cases (d == c)) [
  | inl e ↦ let same : d ≡ c = ground arith in absurd (cc (live, g, ap gone same))
  | inr e ↦ rw e (h.ended d g)
]

-- A subscription keeps the two sides in agreement.
pub subscribe-IsConsistent :
    (c : ℕ) (key : Bytes) (s : Server) (gone : ℕ → Bool)
    → gone c ≡ false
    → IsConsistent gone s
    → IsConsistent gone ((subscribe c key s).server)
unfolding subscribe
subscribe-IsConsistent c key s gone live h = elim (Bool-cases (has_key key (s.subscriptions c))) [
  | inl e ↦ rw e h
  | inr e ↦ rw e (record {
    once = λ d k. once-subscribe c d key k s gone h e;
    flagged = λ d. flagged_if c d s gone (key ∷ s.subscriptions c) true h refl;
    ended = λ d g. ended_still c d s gone (key ∷ s.subscriptions c) h live g;
  })
]

once-unsubscribe :
    (c d : ℕ) (key k : Bytes) (s : Server) (gone : ℕ → Bool)
    → IsConsistent gone s
    → times d (at_key key (remove_client (s.subscribers key) c) s.subscribers k) ≡ (
        if has_key k (at_client c (delete_key key (s.subscriptions c)) s.subscriptions d)
        then 1
        else 0)
once-unsubscribe c d key k s gone h = elim (Bool-cases (eqb k key)) [
  | inl f ↦
      let same : k ≡ key = eqb→eq k key f in
      elim (Bool-cases (d == c)) [
        | inl g ↦
            rw
              (
                f,
                g,
                times-remove_client d c (s.subscribers key),
                g,
                has_key-delete_key k key (s.subscriptions c),
                f,
              )
              refl
        | inr g ↦ rw (f, g, times-remove_client d c (s.subscribers key), g, h.once d key, same) refl
      ]
  | inr f ↦ elim (Bool-cases (d == c)) [
    | inl g ↦
        let me : d ≡ c = ground arith in
        rw (f, g, has_key-delete_key k key (s.subscriptions c), f, h.once d k, me) refl
    | inr g ↦ rw (f, g) (h.once d k)
  ]
]

is_nil-has_key : (k : Bytes) (js : List Bytes) → has_key k js ≡ true → is_nil js ≡ false
is_nil-has_key k [] e = cc
is_nil-has_key k (j ∷ js) e = refl

-- So does the end of a subscription.
pub unsubscribe-IsConsistent :
    (c : ℕ) (key : Bytes) (s : Server) (gone : ℕ → Bool)
    → gone c ≡ false
    → IsConsistent gone s
    → IsConsistent gone ((unsubscribe c key s).server)
unfolding unsubscribe
unsubscribe-IsConsistent c key s gone live h = elim (Bool-cases (has_key key (s.subscriptions c))) [
  | inl e ↦
      let left : List Bytes = delete_key key (s.subscriptions c) in
      let flag : is_nil left ≡ not (if is_nil left then false else s.sub_flag c) =
        elim (Bool-cases (is_nil left)) [
          | inl f ↦ rw f refl
          | inr f ↦
              let held : is_nil (s.subscriptions c) ≡ false =
                is_nil-has_key key (s.subscriptions c) e in
              let marked : is_nil (s.subscriptions c) ≡ not (s.sub_flag c) = h.flagged c live in
              rw f (sym held ∙ marked)
        ] in
      rw e (record {
        once = λ d k. once-unsubscribe c d key k s gone h;
        flagged =
            λ d. flagged_if c d s gone left (if is_nil left then false else s.sub_flag c) h flag;
        ended = λ d g. ended_still c d s gone left h live g;
      })
  | inr e ↦ rw e h
]
