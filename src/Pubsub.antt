-- ===== src/Pubsub.antt =====
-- Publish and subscribe of internal/server/client.go, with `removeClient` of
-- internal/server/redis_cmd.go. A client is its `Fd`, which pointers to live clients determine.
pub mod Kept
pub mod Runs
use monster_db.Prelude.{
  ℕ, Bool, true, false, not, Option, none, some, List, [], ◌∷◌, ◌++◌, length, ◌==◌, if◌then◌else◌,
}
use monster_db.Prelude.Bytes.{Bytes, eqb}

-- The field `subscriptions` of every client, a set that is the list of its keys; its bit
-- `CLIENT_SUB`; the map `subscribers`, with no entry where a list is empty; the messages in the
-- reply buffer of every client; and `clientsPendingWrite`.
pub record Server : Type 0 where
  pub subscriptions : ℕ → List Bytes
  pub sub_flag : ℕ → Bool
  pub subscribers : Bytes → List ℕ
  pub inbox : ℕ → List (Bytes × Bytes)
  pub pending : ℕ → Bool

unfoldable pub start : Server
start = record {
  subscriptions = λ c. [];
  sub_flag = λ c. false;
  subscribers = λ k. [];
  inbox = λ c. [];
  pending = λ c. false;
}

-- A function changed at one client or at one key.
abbrev pub at_client {ℓ} : {A : Type ℓ} → ℕ → A → (ℕ → A) → ℕ → A
at_client c a f d = if d == c then a else f d

abbrev pub at_key {ℓ} : {A : Type ℓ} → Bytes → A → (Bytes → A) → Bytes → A
at_key k a f j = if eqb j k then a else f j

abbrev pub has_key : Bytes → List Bytes → Bool
has_key k [] = false
has_key k (j ∷ js) = if eqb j k then true else has_key k js

-- `delete` on the set of keys.
abbrev pub delete_key : Bytes → List Bytes → List Bytes
delete_key k [] = []
delete_key k (j ∷ js) = let rest = delete_key k js in if eqb j k then rest else j ∷ rest

unfoldable pub remove_client : List ℕ → ℕ → List ℕ
remove_client [] target = []
remove_client (c ∷ cs) target =
    let rest = remove_client cs target in if c == target then rest else c ∷ rest

-- The new state and what the method returns: the number of subscriptions and whether it changed.
pub record Outcome : Type 0 where
  pub server : Server
  pub count : ℕ
  pub changed : Bool

unfoldable pub subscribe : ℕ → Bytes → Server → Outcome
subscribe c key s =
    if has_key key (s.subscriptions c)
    then record { server = s; count = length (s.subscriptions c); changed = false }
    else record {
      server = record s {
        subscribers = at_key key (s.subscribers key ++ c ∷ []) s.subscribers;
        subscriptions = at_client c (key ∷ s.subscriptions c) s.subscriptions;
        sub_flag = at_client c true s.sub_flag;
      };
      count = length (key ∷ s.subscriptions c);
      changed = true;
    }

abbrev pub is_nil {ℓ} : {A : Type ℓ} → List A → Bool
is_nil [] = true
is_nil (x ∷ xs) = false

unfoldable pub unsubscribe : ℕ → Bytes → Server → Outcome
unfolding remove_client
unsubscribe c key s =
    let left = delete_key key (s.subscriptions c) in
    if has_key key (s.subscriptions c)
    then record {
      server = record s {
        subscriptions = at_client c left s.subscriptions;
        subscribers = at_key key (remove_client (s.subscribers key) c) s.subscribers;
        sub_flag = at_client c (if is_nil left then false else s.sub_flag c) s.sub_flag;
      };
      count = length left;
      changed = true;
    }
    else record { server = s; count = length (s.subscriptions c); changed = false }

-- The loop of `Publish` over the subscribers of the key.
unfoldable pub deliver : List ℕ → Bytes → Bytes → Server → Server
deliver [] key message s = s
deliver (sub ∷ subs) key message s = deliver subs key message (record s {
  inbox = at_client sub (s.inbox sub ++ (key, message) ∷ []) s.inbox;
  pending = at_client sub true s.pending;
})

unfoldable pub publish : Bytes → Bytes → Server → Server × ℕ
unfolding deliver
publish key message s = (deliver (s.subscribers key) key message s, length (s.subscribers key))

-- The loop of `cleanupClient` over the subscriptions of the client.
unfoldable pub drop_subscriptions : List Bytes → ℕ → (Bytes → List ℕ) → Bytes → List ℕ
unfolding remove_client
drop_subscriptions [] c subs = subs
drop_subscriptions (key ∷ keys) c subs =
    drop_subscriptions keys c (at_key key (remove_client (subs key) c) subs)

unfoldable pub cleanup_client : ℕ → Server → Server
unfolding drop_subscriptions
cleanup_client c s = record s {
  subscribers = drop_subscriptions (s.subscriptions c) c s.subscribers;
  subscriptions = at_client c [] s.subscriptions;
  inbox = at_client c [] s.inbox;
  pending = at_client c false s.pending;
}

-- `NewClient`, for the `Fd` of a client.
unfoldable pub new_client : ℕ → Server → Server
new_client c s = record s {
  subscriptions = at_client c [] s.subscriptions;
  sub_flag = at_client c false s.sub_flag;
  inbox = at_client c [] s.inbox;
}
