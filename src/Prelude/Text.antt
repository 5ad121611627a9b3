-- ===== src/Prelude/Text.antt =====
-- Texts of the source as byte strings; they are ASCII.
use Prim.Native.Char.{code}
use Prim.Native.String.{String}
use mathlib.Core.List.{[], ◌∷◌}
use monster_db.Prelude.Bytes.{Bytes}

abbrev pub ascii : String → Bytes
ascii String.[] = []
ascii (String.◌∷◌ c s) = code c ∷ ascii s
