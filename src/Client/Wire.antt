-- ===== src/Client/Wire.antt =====
-- What `encodeCommand` and `AppendBulkString` write, the decoder of internal/resp/resp.go reads.
use monster_db.Prelude.{
  ℕ, suc, ◌+◌, ◌^◌, ◌<◌, ◌≡◌, sym, subst, ◌∙◌, ap, arith, some, [], ◌∷◌, ◌++◌, length,
  length-append, append_assoc, ◌>>=◌,
}
use monster_db.Prelude.Int.{ℤ, pos}
use monster_db.Prelude.Bytes.{Bytes}
use monster_db.Runtime.{RedisCmd}
use monster_db.Resp.{
  done, array, text, cr, lf, decode_one, encode_string, encode_items, encode_strings,
  encode_array_len,
}
use monster_db.Resp.Command.{AllInt, texts, Formats, decode_one-encode_strings, decode_one-wire}
use monster_db.Client.{encode_command, append_bulk_string}

encode_command-array :
    (format_int : ℤ → Bytes) (cmd : RedisCmd)
    → encode_command format_int cmd ≡ encode_strings format_int [] (cmd.cmd ∷ cmd.args)
unfolding encode_command encode_strings encode_items
encode_command-array format_int cmd =
    ap
      (λ k. (do
        buf ← encode_string (encode_array_len format_int [] (pos k)) cmd.cmd
        encode_items format_int buf cmd.args))
      {x = 1 + length cmd.args} {y = suc (length cmd.args)} (omega arith)

-- A replica decodes the command that the master forwards to an array of its name and arguments, with
-- nothing left over, if the lengths are ints and `strconv.AppendInt` writes decimal digits.
pub decode_one-encode_command :
    (format_int : ℤ → Bytes)
    → Formats format_int
    → (cmd : RedisCmd) (w rest : Bytes) (fuel : ℕ) → AllInt (cmd.cmd ∷ cmd.args)
    → suc (length cmd.args) < 2 ^ 63
    → encode_command format_int cmd ≡ some w
    → length (w ++ rest) < 2 ^ 63
    → decode_one (suc (suc fuel)) (w ++ rest) ≡ done (array (texts (cmd.cmd ∷ cmd.args))) (length w)
decode_one-encode_command format_int formats cmd w rest fuel small few e h =
    decode_one-encode_strings format_int formats (cmd.cmd ∷ cmd.args) w rest fuel small few
      (sym (encode_command-array format_int cmd) ∙ e) h

-- A client decodes a bulk string in its reply to the value and to all bytes of it, whatever follows,
-- if the lengths are ints and `strconv.AppendInt` writes decimal digits.
pub decode_one-append_bulk_string :
    (format_int : ℤ → Bytes)
    → Formats format_int
    → (val rest : Bytes) (fuel : ℕ) → length val < 2 ^ 63
    → length (append_bulk_string format_int val [] ++ rest) < 2 ^ 63
    → decode_one (suc fuel) (append_bulk_string format_int val [] ++ rest)
      ≡ done (text val) (length (append_bulk_string format_int val []))
unfolding append_bulk_string
decode_one-append_bulk_string format_int formats val rest fuel small h =
    let ds : Bytes = format_int (pos (length val)) in
    let flat : (ds ++ cr ∷ lf ∷ (val ++ cr ∷ lf ∷ [])) ++ rest
        ≡ ds ++ cr ∷ lf ∷ (val ++ cr ∷ lf ∷ rest) =
      append_assoc ds (cr ∷ lf ∷ (val ++ cr ∷ lf ∷ [])) rest
      ∙ ap (λ t. ds ++ cr ∷ lf ∷ t) (append_assoc val (cr ∷ lf ∷ []) rest) in
    ap (λ t. decode_one (suc fuel) (b'$' ∷ t)) flat
    ∙ decode_one-wire val ds rest (formats (length val) small) fuel
        (subst (λ t. suc (length t) < 2 ^ 63) flat h)
    ∙ ap (done (text val)) (
        omega (
          arith,
          length-append ds (cr ∷ lf ∷ (val ++ cr ∷ lf ∷ [])),
          length-append val (cr ∷ lf ∷ []),
        ))
