-- ===== src/Resp/Encode.antt =====
-- `Encode` and `EncodeExecArray` of internal/resp/resp.go.
use monster_db.Prelude.{
  ℕ, suc, Bool, false, Option, some, List, [], ◌∷◌, ◌++◌, length, if◌then◌else◌, ◌>>=◌,
}
use monster_db.Prelude.Int.{ℤ, pos}
use monster_db.Prelude.Bytes.{Bytes}
use monster_db.Resp.{
  cr, lf, encode_string, encode_simple_string, encode_int, encode_array_len, encode_string_bytes,
  encode_strings,
}

mutual
  -- The values that `Encode` tells apart. The sized integers share a constructor, and a value of
  -- any other type is the text that `fmt.Sprint` prints for it.
  pub data Value : Type 0 where
    nil_value : Value
    byte_slice : Bytes → Value
    string : Bytes → Value
    array_len : ℤ → Value
    integer : ℤ → Value
    error : Bytes → Value
    strings : List Bytes → Value
    anys : Values → Value
    string_rows : List (List Bytes) → Value
    printed : Bytes → Value

  pub data Values : Type 0 where
    no_values : Values
    values_from : Value → Values → Values

abbrev pub count_values : Values → ℕ
count_values no_values = 0
count_values (values_from v vs) = suc (count_values vs)

module _ (format_int : ℤ → Bytes) where
  -- The loop over the rows of a `[][]string`.
  unfoldable pub encode_rows : Bytes → List (List Bytes) → Option Bytes
  encode_rows buf [] = some buf
  encode_rows buf (row ∷ rows) = do buf' ← encode_strings format_int buf row; encode_rows buf' rows

  unfoldable mutual
    pub encode : Bytes → Value → Bool → Option Bytes
    encode buf nil_value simple = some (buf ++ b'*' ∷ b'-' ∷ b'1' ∷ cr ∷ lf ∷ [])
    encode buf (byte_slice v) simple = some (encode_string_bytes format_int buf v)
    encode buf (string v) simple =
        if simple then some (encode_simple_string buf v) else encode_string buf v
    encode buf (array_len l) simple = some (encode_array_len format_int buf l)
    encode buf (integer i) simple = some (encode_int format_int buf i)
    encode buf (error message) simple = some (buf ++ b'-' ∷ (message ++ cr ∷ lf ∷ []))
    encode buf (strings v) simple = encode_strings format_int buf v
    encode buf (anys vs) simple =
        encode_all (encode_array_len format_int buf (pos (count_values vs))) vs
    encode buf (string_rows rows) simple =
        encode_rows (encode_array_len format_int buf (pos (length rows))) rows
    encode buf (printed s) simple = encode_string buf s

    -- The loop over a `[]any`.
    pub encode_all : Bytes → Values → Option Bytes
    encode_all buf no_values = some buf
    encode_all buf (values_from v vs) = do buf' ← encode buf v false; encode_all buf' vs

  unfoldable pub joined : List Bytes → Bytes
  joined [] = []
  joined (r ∷ results) = r ++ joined results

  unfoldable pub encode_exec_array : List Bytes → Bytes
  unfolding joined
  encode_exec_array results = b'*' ∷ (format_int (pos (length results)) ++ cr ∷ lf ∷ joined results)
