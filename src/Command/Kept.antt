-- ===== src/Command/Kept.antt =====
-- What it is for a command to keep the invariant of the keyspace.
use monster_db.Prelude.{◌≡◌, refl, Option, none, some, List, ◌>>=◌}
use monster_db.Prelude.Bytes.{Bytes}
use monster_db.Runtime.{Reply}
use monster_db.Keyspace.{Db, Host, Moment}
use monster_db.Keyspace.Consistent.{IsConsistent}
use monster_db.Command.{Outcome, Command, reply_first}

abbrev pub IsKept : Option Outcome → Type 0
IsKept none = Unit {0}
IsKept (some out) = IsConsistent out.db

abbrev pub Keeps : Command → Type 0
Keeps cmd =
    (host : Host) (m : Moment) (args : List Bytes) (db : Db)
    → IsConsistent db
    → IsKept (cmd host m args db)

pub bind-IsKept {ℓ} :
    {A : Type ℓ} (o : Option A) (f : A → Option Outcome)
    → ((a : A) → o ≡ some a → IsKept (f a))
    → IsKept (o >>= f)
bind-IsKept none f h = tt
bind-IsKept (some a) f h = h a refl

pub reply_first-IsKept : (r : Reply) (o : Option Outcome) → IsKept o → IsKept (reply_first r o)
reply_first-IsKept r none h = tt
reply_first-IsKept r (some out) h = h
