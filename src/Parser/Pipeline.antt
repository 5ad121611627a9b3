-- ===== src/Parser/Pipeline.antt =====
-- Commands that a client sends one behind the other, as internal/server/redis_parser.go reads them.
use monster_db.Prelude.{ℕ, ◌^◌, ◌<◌, ◌≡◌, Option, none, some, List, [], ◌∷◌, ◌++◌, map, length}
use monster_db.Prelude.Int.{ℤ}
use monster_db.Prelude.Bytes.{Bytes}
use monster_db.Runtime.{RedisCmd}
use monster_db.Resp.{Datum, array, Stream, encode_strings}
use monster_db.Resp.Command.{AllInt, texts}
use monster_db.Parser.{with_command}

-- What `Encode` writes for the arrays of strings, one behind the other.
pub data Written (format_int : ℤ → Bytes) : List (List Bytes) → Bytes → Type 0 where
  no_more : {bs : Bytes} → bs ≡ [] → Written format_int [] bs
  one_more :
      {vs : List Bytes} {vss : List (List Bytes)} {w ws bs : Bytes}
      → AllInt vs
      → length vs < 2 ^ 63
      → encode_strings format_int [] vs ≡ some w
      → Written format_int vss ws
      → bs ≡ w ++ ws
      → Written format_int (vs ∷ vss) bs

abbrev pub datum_of : List Bytes → Datum
datum_of vs = array (texts vs)

abbrev stream_at : List (List Bytes) → ℕ → Option Stream
stream_at vss end = some (record { values = map datum_of vss; consumed = end; error = none })

-- The commands of the arrays, those without tokens passed over.
abbrev pub commands : (Bytes → Bytes) → List (List Bytes) → List RedisCmd
commands upper [] = []
commands upper (vs ∷ vss) = with_command upper vs (commands upper vss)
