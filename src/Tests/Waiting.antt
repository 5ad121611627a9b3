-- ===== src/Tests/Waiting.antt =====
-- The blocked clients of internal/server/client.go at a small keyspace.
use monster_db.Prelude.{
  ℕ, ◌≡◌, refl, true, false, none, some, ◌&&◌, [], ◌∷◌, ◌++◌, ◌==◌, if◌then◌else◌,
}
use monster_db.Prelude.Int.{pos}
use monster_db.Runtime.{array_len}
use monster_db.Quicklist.{reply_of}
use monster_db.Listpack.Codec.{int, str}
use monster_db.ListCmd.Pushed.{HoldsList}
use monster_db.Blocked.{Waiter, Blocking, mark_ready, process_keys, overdue, handle_blocked_clients}
use monster_db.Blocked.Served.{process_keys-served}
use monster_db.Blocked.Overdue.{released, waits_at, handle_blocked_clients-still}
use monster_db.Tests.Hosts.{one_digit, small_host, at_second, three_keys}
use monster_db.Tests.Values.{list-HoldsList}

-- Clients 4 and 6 wait for l, the former until 50.
abbrev two_waiting : Blocking
two_waiting = record {
  db = three_keys;
  clients =
      λ d. record { blocked = true; when = if d == 4 then some (pos 50) else none; replies = [] };
  waiting = λ key. 4 ∷ 6 ∷ [];
  ready = [];
}

process_keys-served_example :
    (w' : Blocking) × (process_keys one_digit small_host
        (λ key. at_second 5)
        (mark_ready (b'l' ∷ []) two_waiting)
      ≡ some w')
    × ((w'.clients 4).replies ≡ [] ++ array_len (pos 1) ∷ reply_of (int (pos 300)) ∷ [])
    × ((w'.clients 4).blocked ≡ false)
    × ((w'.clients 4).when ≡ none)
    × (w'.waiting (b'l' ∷ []) ≡ 6 ∷ [])
    × (w'.ready ≡ [])
    × ((d : ℕ) → (d == 4) ≡ false → w'.clients d ≡ two_waiting.clients d)
    × HoldsList (at_second 5) w'.db (b'l' ∷ []) (str (b'a' ∷ b'b' ∷ []) ∷ [])
process_keys-served_example =
    process_keys-served one_digit small_host (λ key. at_second 5) (b'l' ∷ []) 4 (6 ∷ [])
      (int (pos 300)) (str (b'a' ∷ b'b' ∷ []) ∷ []) two_waiting list-HoldsList refl refl

abbrev released_at_60 : ℕ → Waiter
released_at_60 c =
    if overdue (pos 60) (two_waiting.clients c).when
      && waits_at c ((b'l' ∷ []) ∷ []) two_waiting.waiting
    then released (two_waiting.clients c)
    else two_waiting.clients c

handle_blocked_clients-still_example :
    ((handle_blocked_clients (pos 60) ((b'l' ∷ []) ∷ []) two_waiting).waiting (b'l' ∷ []) ≡ 6 ∷ [])
    × ((c : ℕ)
        → (handle_blocked_clients (pos 60) ((b'l' ∷ []) ∷ []) two_waiting).clients c
          ≡ released_at_60 c)
handle_blocked_clients-still_example =
    handle_blocked_clients-still (pos 60) [] [] (b'l' ∷ []) two_waiting refl refl (refl, (refl, tt))
      (λ c i. refl)
