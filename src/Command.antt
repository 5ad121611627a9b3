-- ===== src/Command.antt =====
-- What the commands of internal/store share: the library's conversions of numbers, the outcome of a
-- command, and the texts of internal/store/eval.go.
pub mod Kept
use monster_db.Prelude.{ℕ, ◌+◌, ◌*◌, ◌%◌, ◌^◌, Bool, Option, none, some, List, [], ◌∷◌, ◌++◌}
use monster_db.Prelude.Int.{ℤ, to_word, from_word}
use monster_db.Prelude.Bytes.{Bytes}
use monster_db.Prelude.Text.{ascii}
use monster_db.Runtime.{Reply, error_reply}
use monster_db.Keyspace.{Db, Host, Moment}

-- `strconv.ParseInt` to a number of bits, its value and whether there is no error, and
-- `strconv.FormatInt`. `strconv.Atoi` is `ParseInt` to 64 bits.
pub record Strconv : Type 0 where
  pub parse_int : ℕ → Bytes → ℤ × Bool
  pub format_int : ℤ → Bytes

-- The replies in their order, and the keyspace that the command leaves.
pub record Outcome : Type 0 where
  pub replies : List Reply
  pub db : Db

-- A command on its arguments; `none` is a panic.
abbrev pub Command : Type 0
Command = Host → Moment → List Bytes → Db → Option Outcome

abbrev pub reply : Reply → Db → Option Outcome
reply r db = some (record { replies = r ∷ []; db = db })

abbrev pub refuse : Bytes → Db → Option Outcome
refuse message db = reply (error_reply message) db

-- A reply stands in front of those of the rest.
abbrev pub reply_first : Reply → Option Outcome → Option Outcome
reply_first r none = none
reply_first r (some out) = some (record out { replies = r ∷ out.replies })

unfoldable pub err_wrong_args : Bytes → Bytes
err_wrong_args cmd = ascii "ERR wrong number of arguments for '" ++ (cmd ++ ascii "' command")

unfoldable pub err_wrong_type : Bytes
err_wrong_type = ascii "WRONGTYPE Operation against a key holding the wrong kind of value"

unfoldable pub err_invalid_int : Bytes
err_invalid_int = ascii "ERR value is not an integer or out of range"

abbrev pub crlf : Bytes
crlf = 13 ∷ 10 ∷ []

abbrev pub resp_zero : Bytes
resp_zero = b':' ∷ b'0' ∷ crlf

abbrev pub resp_one : Bytes
resp_one = b':' ∷ b'1' ∷ crlf

abbrev pub resp_minus_one : Bytes
resp_minus_one = b':' ∷ b'-' ∷ b'1' ∷ crlf

abbrev pub resp_minus_two : Bytes
resp_minus_two = b':' ∷ b'-' ∷ b'2' ∷ crlf

-- `seconds * 1000` on int64.
abbrev pub to_millis : ℤ → ℤ
to_millis seconds = from_word (2 ^ 64) (to_word (2 ^ 64) seconds * 1000 % 2 ^ 64)
