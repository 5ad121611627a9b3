-- ===== src/Tests/Channels.antt =====
-- Publish and subscribe of internal/server/client.go at small inputs.
use monster_db.Prelude.{ℕ, Bool, false, true, refl, [], ◌∷◌}
use monster_db.Prelude.Bytes.{Bytes}
use monster_db.Pubsub.{Server, start, subscribe, at_client, cleanup_client, new_client}
use monster_db.Pubsub.Kept.{IsConsistent}
use monster_db.Pubsub.Runs.{
  Reached, started, subscribed, cleaned_up, connected, Reached-IsConsistent,
}

abbrev news : Bytes
news = b'n' ∷ []

-- Clients 4 and 5 subscribe to one channel.
abbrev two_clients : Server
two_clients = (subscribe 5 news ((subscribe 4 news start).server)).server

-- Client 4 ends, and a new client takes its number.
abbrev none_gone : ℕ → Bool
none_gone c = false

abbrev renewed : Server
renewed = new_client 4 (cleanup_client 4 two_clients)

renewed-Reached : Reached (at_client 4 false (at_client 4 true none_gone)) renewed
renewed-Reached =
    connected (cleaned_up (subscribed (subscribed started 4 news refl) 5 news refl) 4) 4 refl

Reached-IsConsistent_example : IsConsistent (at_client 4 false (at_client 4 true none_gone)) renewed
Reached-IsConsistent_example = Reached-IsConsistent renewed-Reached
