-- ===== src/Resp.antt =====
-- internal/resp/resp.go: the Redis wire protocol, decoder and encoder. What `strconv.AppendInt`
-- appends for an integer is a parameter. Lengths and integers are int64 words, so that their overflow is the code's.
pub mod Decimal
pub mod Encode
pub mod Command
use monster_db.Prelude.{
  ℕ, zero, suc, ◌+◌, ◌-◌, ◌*◌, ◌/◌, ◌%◌, ◌^◌, Bool, true, false, ◌&&◌, ◌||◌, Option, none, some,
  List, [], ◌∷◌, ◌++◌, length, take, drop, get_elem?, ltb, leb, ◌==◌, if◌then◌else◌, ◌>>=◌,
}
use monster_db.Prelude.Int.{ℤ, pos, negsuc, from_word, ltb_ℤ, ◌+ℤ◌, to_word, pos_part}
use monster_db.Prelude.Bytes.{Bytes, slice}

mutual
  -- What `DecodeOne` returns: a string, an int64 or an array.
  pub data Datum : Type 0 where
    text : Bytes → Datum
    number : ℤ → Datum
    array : Data → Datum

  pub data Data : Type 0 where
    nil : Data
    cons : Datum → Data → Data

-- A decoded value and the bytes that it took; `ErrIncomplete`; the error of an unknown type byte; a
-- panic, or no fuel.
pub data Decoded {ℓ} (A : Type ℓ) : Type ℓ where
  done : A → ℕ → Decoded A
  incomplete : Decoded A
  invalid : ℕ → Decoded A
  fault : Decoded A

abbrev pub and_then {ℓ κ} : {A : Type ℓ} {B : Type κ} → Decoded A → (A → ℕ → Decoded B) → Decoded B
and_then (done a n) f = f a n
and_then incomplete f = incomplete
and_then (invalid b) f = invalid b
and_then fault f = fault

abbrev pub cr : ℕ
cr = 13

abbrev pub lf : ℕ
lf = 10

abbrev pub word_mod : ℕ
word_mod = 2 ^ 64

-- `b - '0'` on bytes.
abbrev pub digit : ℕ → ℕ
digit b = (b + 256 - 48) % 256

-- `value*10 + int64(b-'0')`
abbrev pub shift_in : ℕ → ℕ → ℕ
shift_in value b = (value * 10 + digit b) % word_mod

-- How many bytes stand in front of the first '\r'.
unfoldable pub scan_cr : Bytes → ℕ
scan_cr [] = 0
scan_cr (b ∷ rest) = if b == cr then 0 else suc (scan_cr rest)

abbrev pub is_lf : Option ℕ → Bool
is_lf none = false
is_lf (some b) = b == lf

-- `pos+1 >= len(data) || data[pos+1] != '\n'` is that no '\n' stands at `pos + 1`.
unfoldable pub read_simple_string : Bytes → Decoded Bytes
unfolding scan_cr
read_simple_string bs =
    let at = 1 + scan_cr (drop 1 bs) in
    if is_lf (get_elem? bs (at + 1)) then done (take (at - 1) (drop 1 bs)) (at + 2) else incomplete

abbrev pub read_error : Bytes → Decoded Bytes
unfolding read_simple_string
read_error bs = read_simple_string bs

unfoldable pub value_loop : ℕ → Bytes → ℕ
value_loop value [] = value
value_loop value (b ∷ rest) =
    let further = value_loop (shift_in value b) rest in if b == cr then value else further

unfoldable pub read_int : Bytes → Decoded ℤ
unfolding scan_cr value_loop
read_int bs =
    let at = 1 + scan_cr (drop 1 bs) in
    if is_lf (get_elem? bs (at + 1))
    then done (from_word word_mod (value_loop 0 (drop 1 bs))) (at + 2)
    else incomplete

-- The loop of `readLength`; the length is the word that it returns, read as an int.
unfoldable pub length_loop : ℕ → ℕ → Bytes → Decoded ℕ
length_loop value at [] = incomplete
length_loop value at (b ∷ rest) =
    let further = length_loop (shift_in value b) (at + 1) rest in
    if b == cr
    then (if is_lf (get_elem? rest 0) then done value (at + 2) else incomplete)
    else further

unfoldable pub read_length : Bytes → Decoded ℤ
unfolding length_loop
read_length bs =
    and_then (length_loop 0 0 bs) (λ value delta. done (from_word word_mod value) delta)

-- An int sum wraps.
abbrev pub int_sum : ℤ → ℤ → ℤ
int_sum a b = from_word word_mod (to_word word_mod (a +ℤ b))

-- `data[pos:(pos + length)]`, which panics at a negative length.
abbrev pub bulk : ℕ → ℤ → Bytes → Decoded Bytes
bulk at (pos n) bs = elim (slice at (at + n) bs) [ none ↦ fault | some s ↦ done s (at + n + 2) ]
bulk at (negsuc n) bs = fault

unfoldable pub read_bulk_string : Bytes → Decoded Bytes
unfolding read_length
read_bulk_string bs = and_then (read_length (drop 1 bs)) λ n delta.
    (let at = 1 + delta in
      if ltb_ℤ (pos (length bs)) (int_sum (int_sum (pos at) n) (pos 2))
      then incomplete
      else bulk at n bs)

-- The loop of `readArray` over `count` elements, with the decoder of one element.
unfoldable pub read_elems : (Bytes → Decoded Datum) → Bytes → ℕ → ℕ → Decoded Data
read_elems decode bs zero at = done nil at
read_elems decode bs (suc count) at =
    if leb (length bs) at
    then incomplete
    else and_then (decode (drop at bs))
        λ v delta. and_then (read_elems decode bs count (at + delta)) λ vs end. done (cons v vs) end

-- `make` panics at a negative count. That it also fails at a count for which there is no memory is
-- left out: with that many elements missing, the result here is incomplete.
abbrev pub elems_from : (Bytes → Decoded Datum) → Bytes → ℤ → ℕ → Decoded Datum
elems_from decode bs (pos count) at =
    and_then (read_elems decode bs count at) (λ vs end. done (array vs) end)
elems_from decode bs (negsuc n) at = fault

unfoldable pub read_array : (Bytes → Decoded Datum) → Bytes → Decoded Datum
unfolding read_length read_elems
read_array decode bs =
    and_then (read_length (drop 1 bs)) (λ count delta. elems_from decode bs count (1 + delta))

-- The fuel bounds how deep arrays nest.
unfoldable pub decode_one : ℕ → Bytes → Decoded Datum
decode_one zero bs = fault
decode_one (suc fuel) [] = incomplete
decode_one (suc fuel) (t ∷ rest) =
    let nested = read_array (decode_one fuel) (t ∷ rest) in
    if t == b'+'
    then and_then (read_simple_string (t ∷ rest)) (λ s n. done (text s) n)
    else if t == b'-'
    then and_then (read_error (t ∷ rest)) (λ s n. done (text s) n)
    else if t == b':'
    then and_then (read_int (t ∷ rest)) (λ i n. done (number i) n)
    else if t == b'$'
    then and_then (read_bulk_string (t ∷ rest)) (λ s n. done (text s) n)
    else if t == b'*'
    then nested
    else invalid t

-- What `Decode` returns: the values, the bytes consumed and the error, if there is one.
pub record Stream : Type 0 where
  pub values : List Datum
  pub consumed : ℕ
  pub error : Option ℕ

-- What the loop of `Decode` does with a decoded value, given the loop on the rest.
abbrev pub continued : ℕ → (ℕ → Option Stream) → Decoded Datum → Option Stream
continued index rest (done v delta) = do s ← rest delta; some (record s { values = v ∷ s.values })
continued index rest incomplete = some (record { values = []; consumed = index; error = none })
continued index rest (invalid t) = some (record { values = []; consumed = index; error = some t })
continued index rest fault = none

-- The loop of `Decode`, over what is left of the data; every value takes at least one byte, so its
-- length is enough fuel. An outer `none` is a panic.
unfoldable pub decode_loop : ℕ → ℕ → Bytes → Option Stream
decode_loop fuel index [] = some (record { values = []; consumed = index; error = none })
decode_loop zero index (b ∷ rest) = none
decode_loop (suc fuel) index (b ∷ rest) =
    continued index (λ delta. decode_loop fuel (index + delta) (drop delta (b ∷ rest)))
      (decode_one (suc (length (b ∷ rest))) (b ∷ rest))

unfoldable pub decode : Bytes → Option Stream
unfolding decode_loop
decode bs = decode_loop (length bs) 0 bs

-- The digits of `EncodeString`, written from the end of a 20-byte buffer: `room` bytes are left.
unfoldable pub digits_loop : ℕ → ℕ → Bytes → Option Bytes
digits_loop room zero tail = some tail
digits_loop zero (suc x) tail = none
digits_loop (suc room) (suc x) tail = digits_loop room (suc x / 10) ((b'0' + suc x % 10) ∷ tail)

unfoldable pub length_digits : ℕ → Option Bytes
unfolding digits_loop
length_digits n = if n == 0 then some (b'0' ∷ []) else digits_loop 20 n []

unfoldable pub encode_string : Bytes → Bytes → Option Bytes
unfolding length_digits
encode_string buf v = do
  ds ← length_digits (length v)
  some (buf ++ b'$' ∷ (ds ++ cr ∷ lf ∷ (v ++ cr ∷ lf ∷ [])))

abbrev pub encode_simple_string : Bytes → Bytes → Bytes
encode_simple_string buf v = buf ++ b'+' ∷ (v ++ cr ∷ lf ∷ [])

module _ (format_int : ℤ → Bytes) where
  abbrev pub encode_int : Bytes → ℤ → Bytes
  encode_int buf v = buf ++ b':' ∷ (format_int v ++ cr ∷ lf ∷ [])

  unfoldable pub encode_array_len : Bytes → ℤ → Bytes
  encode_array_len buf l = buf ++ b'*' ∷ (format_int l ++ cr ∷ lf ∷ [])

  abbrev pub encode_string_bytes : Bytes → Bytes → Bytes
  encode_string_bytes buf v =
      buf ++ b'$' ∷ (format_int (pos (length v)) ++ cr ∷ lf ∷ (v ++ cr ∷ lf ∷ []))

  -- The loop over the strings of an array.
  unfoldable pub encode_items : Bytes → List Bytes → Option Bytes
  encode_items buf [] = some buf
  encode_items buf (item ∷ items) = do buf' ← encode_string buf item; encode_items buf' items

  -- The case `[]string` of `Encode`.
  unfoldable pub encode_strings : Bytes → List Bytes → Option Bytes
  unfolding encode_array_len encode_items
  encode_strings buf v = encode_items (encode_array_len buf (pos (length v))) v
