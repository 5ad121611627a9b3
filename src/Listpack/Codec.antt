-- ===== src/Listpack/Codec.antt =====
-- The entries of internal/ds/listpack.go: `encodeInt`, `encodeString` and the three decoders.
-- A decoder returns its value and the size of the entry; size 0 says that there is none.
use Prim.Native.Nat.{bit_and, bit_or}
use monster_db.Prelude.{
  ℕ, ◌+◌, ◌*◌, ◌^◌, Option, none, some, [], ◌∷◌, ◌++◌, length, get_elem?, ltb, leb, ◌==◌,
  if◌then◌else◌, ◌>>=◌, ◌&&◌,
}
use monster_db.Prelude.Int.{ℤ, pos, negsuc, leb_ℤ, ltb_ℤ, to_word, from_word, shr}
use monster_db.Prelude.Bytes.{Bytes, le_bytes, slice}
use monster_db.Listpack.{Listpack, end_byte, type_int, type_string, byte, get_uint}

-- What `any` holds in a list: an integer or a string.
pub data Value : Type 0 where
  int : ℤ → Value
  str : Bytes → Value

-- `int(b&0x3F)<<8 | int(lp.data[idx+1])`
unfoldable pub wide_length : ℕ → ℕ → ℕ
wide_length b c = bit_or (bit_and b 0x3f * 256) c

-- The `n` bytes from `i`, in an entry of `k + n` bytes.
abbrev pub sized : ℕ → ℕ → ℕ → Bytes → Option (Bytes × ℕ)
sized n i k d =
    if ltb (length d) (i + n) then some ([], 0) else (do s ← slice i (i + n) d; some (s, k + n))

-- `decodeAtString` behind its read of the byte `b` at `idx`.
unfoldable pub string_body : ℕ → ℕ → Bytes → Option (Bytes × ℕ)
string_body b idx d =
    if ltb b 0x40
    then sized (bit_and b 0x3f) (idx + 1) 2 d
    else if ltb b 0x80
    then (if ltb (length d) (idx + 2)
        then some ([], 0)
        else (do c ← get_elem? d (idx + 1); sized (wide_length b c) (idx + 2) 3 d))
    else (if ltb (length d) (idx + 5)
        then some ([], 0)
        else (do n ← get_uint 4 (idx + 1) d; sized n (idx + 5) 6 d))

unfoldable pub decode_at_string : ℕ → Listpack → Option (Bytes × ℕ)
decode_at_string at lp =
    let d = lp.content in
    let idx = at + 1 in
    if leb (length d) idx then some ([], 0) else (do b ← get_elem? d idx; string_body b idx d)

-- A signed word of `k` bytes at `i`, and the size of the entry that it ends.
abbrev pub signed_at : ℕ → ℕ → Bytes → ℕ → Option (ℤ × ℕ)
signed_at k i d size =
    if ltb (length d) (i + k)
    then some (pos 0, 0)
    else (do w ← get_uint k i d; some (from_word (256 ^ k) w, size))

-- `decodeAtInt` behind its read of the byte `b` at `idx`.
unfoldable pub int_body : ℕ → ℕ → Bytes → Option (ℤ × ℕ)
int_body b idx d =
    if ltb b 0x80
    then some (pos b, 2)
    else if bit_and b 0xc0 == 0x80
    then (if leb (length d) (idx + 1)
        then some (pos 0, 0)
        else (do c ← get_elem? d (idx + 1); some (pos (wide_length b c), 3)))
    else if b == 0xc0
    then signed_at 2 (idx + 1) d 4
    else if b == 0xd0
    then signed_at 4 (idx + 1) d 6
    else signed_at 8 (idx + 1) d 10

unfoldable pub decode_at_int : ℕ → Listpack → Option (ℤ × ℕ)
decode_at_int at lp =
    let d = lp.content in
    let idx = at + 1 in
    if leb (length d) idx then some (pos 0, 0) else (do b ← get_elem? d idx; int_body b idx d)

-- `nil, 0`
abbrev pub no_value : Option Value × ℕ
no_value = (none, 0)

abbrev pub any_signed_at : ℕ → ℕ → Bytes → ℕ → Option (Option Value × ℕ)
any_signed_at k i d size =
    if ltb (length d) (i + k)
    then some no_value
    else (do w ← get_uint k i d; some (some (int (from_word (256 ^ k) w)), size))

abbrev pub any_sized : ℕ → ℕ → ℕ → Bytes → Option (Option Value × ℕ)
any_sized n i k d =
    if ltb (length d) (i + n)
    then some no_value
    else (do s ← slice i (i + n) d; some (some (str s), k + n))

-- The integer branch of `decodeAt`, behind its read of the byte `b` at `idx`.
unfoldable pub any_int_body : ℕ → ℕ → Bytes → Option (Option Value × ℕ)
any_int_body b idx d =
    if ltb b 0x80
    then some (some (int (pos b)), 2)
    else if bit_and b 0xc0 == 0x80
    then (if leb (length d) (idx + 1)
        then some no_value
        else (do c ← get_elem? d (idx + 1); some (some (int (pos (wide_length b c))), 3)))
    else if b == 0xc0
    then any_signed_at 2 (idx + 1) d 4
    else if b == 0xd0
    then any_signed_at 4 (idx + 1) d 6
    else if b == 0xe0
    then any_signed_at 8 (idx + 1) d 10
    else some no_value

-- The string branch of `decodeAt`, likewise.
unfoldable pub any_string_body : ℕ → ℕ → Bytes → Option (Option Value × ℕ)
any_string_body b idx d =
    if ltb b 0x40
    then any_sized (bit_and b 0x3f) (idx + 1) 2 d
    else if ltb b 0x80
    then (if ltb (length d) (idx + 2)
        then some no_value
        else (do c ← get_elem? d (idx + 1); any_sized (wide_length b c) (idx + 2) 3 d))
    else (if ltb (length d) (idx + 5)
        then some no_value
        else (do n ← get_uint 4 (idx + 1) d; any_sized n (idx + 5) 6 d))

-- The two tests on the type byte `t` in front of `idx`.
unfoldable pub decode_by_type : ℕ → ℕ → Bytes → Option (Option Value × ℕ)
decode_by_type t idx d =
    if t == type_int
    then (if leb (length d) idx
        then some no_value
        else (do b ← get_elem? d idx; any_int_body b idx d))
    else if t == type_string
    then (if leb (length d) idx
        then some no_value
        else (do b ← get_elem? d idx; any_string_body b idx d))
    else some no_value

unfoldable pub decode_at : ℕ → Listpack → Option (Option Value × ℕ)
decode_at at lp =
    let d = lp.content in
    if leb (length d) at then some no_value else (do
      t ← get_elem? d at
      if t == end_byte then some no_value else decode_by_type t (at + 1) d)

unfoldable pub encode_int : ℤ → Bytes
encode_int v =
    if leb_ℤ (pos 0) v && ltb_ℤ v (pos 128)
    then type_int ∷ byte v ∷ []
    else if leb_ℤ (pos 0) v && ltb_ℤ v (pos 8192)
    then type_int ∷ bit_or 0x80 (byte (shr v 8)) ∷ byte v ∷ []
    else if leb_ℤ (negsuc 32767) v && leb_ℤ v (pos 32767)
    then type_int ∷ 0xc0 ∷ le_bytes 2 (to_word (256 ^ 2) v)
    else if leb_ℤ (negsuc 2147483647) v && leb_ℤ v (pos 2147483647)
    then type_int ∷ 0xd0 ∷ le_bytes 4 (to_word (256 ^ 4) v)
    else type_int ∷ 0xe0 ∷ le_bytes 8 (to_word (256 ^ 8) v)

unfoldable pub encode_string : Bytes → Bytes
encode_string s =
    let n = length s in
    if ltb n 64
    then type_string ∷ byte (pos (bit_and n 0x3f)) ∷ s
    else if ltb n 16384
    then type_string ∷ bit_or 0x40 (byte (shr (pos n) 8)) ∷ byte (pos n) ∷ s
    else type_string ∷ 0x80 ∷ (le_bytes 4 (to_word (256 ^ 4) (pos n)) ++ s)
