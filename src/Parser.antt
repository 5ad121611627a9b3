-- ===== src/Parser.antt =====
-- internal/server/redis_parser.go: the commands in what a client has sent. `strings.ToUpper` is a
-- parameter.
pub mod Pipeline
use monster_db.Prelude.{ℕ, Option, none, some, List, [], ◌∷◌, ◌>>=◌}
use monster_db.Prelude.Bytes.{Bytes}
use monster_db.Runtime.{RedisCmd}
use monster_db.Resp.{Datum, text, number, array, Data, nil, cons, Stream, decode}

-- What `readCommands` returns; an error is the type byte that the decoder does not know.
pub record Parsed : Type 0 where
  pub cmds : List RedisCmd
  pub consumed : ℕ
  pub error : Option ℕ

-- A type assertion that fails panics: `none`.
unfoldable pub to_array_string : Data → Option (List Bytes)
to_array_string nil = some []
to_array_string (cons (text s) rest) = do ss ← to_array_string rest; some (s ∷ ss)
to_array_string (cons (number i) rest) = none
to_array_string (cons (array d) rest) = none

-- An array without tokens is passed over.
abbrev pub with_command : (Bytes → Bytes) → List Bytes → List RedisCmd → List RedisCmd
with_command upper [] cmds = cmds
with_command upper (name ∷ args) cmds = record { cmd = upper name; args = args } ∷ cmds

-- The loop over the values; one that is no array is passed over.
unfoldable pub commands_of : (Bytes → Bytes) → List Datum → Option (List RedisCmd)
unfolding to_array_string
commands_of upper [] = some []
commands_of upper (text s ∷ values) = commands_of upper values
commands_of upper (number i ∷ values) = commands_of upper values
commands_of upper (array d ∷ values) = do
  tokens ← to_array_string d
  cmds ← commands_of upper values
  some (with_command upper tokens cmds)

abbrev pub parsed_from :
    (Bytes → Bytes) → Stream → Option (List RedisCmd) → Option ℕ → Option Parsed
parsed_from upper s cmds (some t) = some (record { cmds = []; consumed = 0; error = some t })
parsed_from upper s none none = none
parsed_from upper s (some cmds) none =
    some (record { cmds = cmds; consumed = s.consumed; error = none })

unfoldable pub read_commands : (Bytes → Bytes) → Bytes → Option Parsed
unfolding commands_of
read_commands upper [] = some (record { cmds = []; consumed = 0; error = none })
read_commands upper (b ∷ rest) = do
  s ← decode (b ∷ rest)
  parsed_from upper s (commands_of upper s.values) s.error
