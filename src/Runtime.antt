-- ===== src/Runtime.antt =====
-- internal/runtime/runtime.go: what a command appends to its client, one constructor for each
-- `Append…` method of the interface `ClientCommander`, and the parsed command.
use monster_db.Prelude.{List}
use monster_db.Prelude.Int.{ℤ}
use monster_db.Prelude.Bytes.{Bytes}

pub data Reply : Type 0 where
  bytes_reply : Bytes → Reply
  int_reply : ℤ → Reply
  error_reply : Bytes → Reply
  null_reply : Reply
  bulk_string : Bytes → Reply
  simple_string : Bytes → Reply
  str_array : List Bytes → Reply
  array_len : ℤ → Reply
  int_array : List ℤ → Reply

pub record RedisCmd : Type 0 where
  pub cmd : Bytes
  pub args : List Bytes
