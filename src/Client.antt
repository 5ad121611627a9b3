-- ===== src/Client.antt =====
-- internal/server/client.go: what the `Append…` methods write to the reply buffer of a client, its
-- flags and its transaction queue, and `encodeCommand` of internal/server/redis_cmd.go.
pub mod Wire
use Prim.Native.Nat.{bit_and, bit_or}
use monster_db.Prelude.{
  ℕ, ◌+◌, ◌-◌, Bool, true, false, not, Option, none, some, List, [], ◌∷◌, ◌++◌, length, ◌==◌,
  if◌then◌else◌, ◌>>=◌,
}
use monster_db.Prelude.Int.{ℤ, pos}
use monster_db.Prelude.Bytes.{Bytes}
use monster_db.Runtime.{RedisCmd}
use monster_db.Resp.{
  cr, lf, encode_string, encode_simple_string, encode_int, encode_array_len, encode_string_bytes,
  encode_items, encode_strings,
}

pub record Multistate : Type 0 where
  pub cmds : List RedisCmd
  pub aborted : Bool

pub record Client : Type 0 where
  pub reply_buf : Bytes
  pub flag : ℕ
  pub multistate : Multistate

-- The flags are bits of a uint8.
unfoldable pub set_flag : ℕ → Client → Client
set_flag flag c = record c { flag = bit_or c.flag flag }

unfoldable pub clear_flag : ℕ → Client → Client
clear_flag flag c = record c { flag = bit_and c.flag (255 - flag) }

unfoldable pub has_flag : ℕ → Client → Bool
has_flag flag c = not (bit_and c.flag flag == 0)

unfoldable pub reset_multi_state : Client → Client
reset_multi_state c = record c { multistate = record { cmds = []; aborted = false } }

unfoldable pub queue_command : RedisCmd → Client → Client
queue_command cmd c = record c {
  multistate = record (c.multistate) { cmds = (c.multistate).cmds ++ cmd ∷ [] };
}

unfoldable pub abort_multi : Client → Client
abort_multi c = record c { multistate = record (c.multistate) { aborted = true } }

-- The buffer after a method; `none` is a panic of `EncodeString`.
unfoldable pub append_null : Bytes → Bytes
append_null buf = buf ++ b'$' ∷ b'-' ∷ b'1' ∷ cr ∷ lf ∷ []

unfoldable pub append_error : Bytes → Bytes → Bytes
append_error message buf = buf ++ b'-' ∷ (message ++ cr ∷ lf ∷ [])

unfoldable pub append_simple_string : Bytes → Bytes → Bytes
append_simple_string val buf = encode_simple_string buf val

module _ (format_int : ℤ → Bytes) where
  unfoldable pub append_bytes_reply : Bytes → Bytes → Bytes
  append_bytes_reply val buf = encode_string_bytes format_int buf val

  unfoldable pub append_array_len : ℤ → Bytes → Bytes
  append_array_len len buf = encode_array_len format_int buf len

  unfoldable pub append_int_reply : ℤ → Bytes → Bytes
  append_int_reply val buf = encode_int format_int buf val

  -- The loop of `AppendIntArray`.
  unfoldable pub append_ints : List ℤ → Bytes → Bytes
  append_ints [] buf = buf
  append_ints (item ∷ items) buf = append_ints items (encode_int format_int buf item)

  unfoldable pub append_int_array : List ℤ → Bytes → Bytes
  unfolding append_ints
  append_int_array v buf = append_ints v (encode_array_len format_int buf (pos (length v)))

  unfoldable pub append_bulk_string : Bytes → Bytes → Bytes
  append_bulk_string val buf =
      buf ++ b'$' ∷ (format_int (pos (length val)) ++ cr ∷ lf ∷ (val ++ cr ∷ lf ∷ []))

  unfoldable pub append_str_array : List Bytes → Bytes → Option Bytes
  append_str_array v buf =
      encode_items format_int (encode_array_len format_int buf (pos (length v))) v

  -- The loop of `AppendStringArrayArray`; `none` in the list is a nil slice.
  unfoldable pub append_rows : List (Option (List Bytes)) → Bytes → Option Bytes
  unfolding append_null append_str_array
  append_rows [] buf = some buf
  append_rows (none ∷ rows) buf = append_rows rows (append_null buf)
  append_rows (some row ∷ rows) buf = do buf' ← append_str_array row buf; append_rows rows buf'

  unfoldable pub append_string_array_array : List (Option (List Bytes)) → Bytes → Option Bytes
  unfolding append_rows
  append_string_array_array v buf = append_rows v (encode_array_len format_int buf (pos (length v)))

  unfoldable pub encode_command : RedisCmd → Option Bytes
  encode_command cmd = do
    buf ← encode_string (encode_array_len format_int [] (pos (1 + length cmd.args))) cmd.cmd
    encode_items format_int buf cmd.args
