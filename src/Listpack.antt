-- ===== src/Listpack.antt =====
-- internal/ds/listpack.go: a list of integers and strings packed into one byte buffer.
-- The buffer is the slice `data` (the field `content`) and the bytes of its backing array behind
-- it (`spare`), so that `cap` is the sum of the two lengths. `none` is a panic.
pub mod Codec
pub mod LaidOut
pub mod Integers
pub mod Strings
pub mod Insert
pub mod Splice
pub mod Fill
pub mod Entries
pub mod Laws
use Prim.Native.Nat.{bit_and, bit_or}
use monster_db.Prelude.{
  ℕ, suc, ◌+◌, ◌-◌, ◌*◌, ◌%◌, ◌^◌, Bool, true, false, ◌&&◌, ◌||◌, Option, none, some, List, [], ◌∷◌,
  ◌++◌, length, take, drop, get_elem?, ltb, leb, ◌==◌, if◌then◌else◌, ◌>>=◌,
}
use monster_db.Prelude.Int.{ℤ, pos, negsuc, sub_ℕ, ◌+ℤ◌, leb_ℤ, ltb_ℤ, to_word, from_word, shr}
use monster_db.Prelude.Bytes.{Bytes, le_bytes, le_value, write, copy_into, slice, zeros}

abbrev pub end_byte : ℕ
end_byte = 0xff

abbrev pub header_size : ℕ
header_size = 6

abbrev pub type_int : ℕ
type_int = 0x01

abbrev pub type_string : ℕ
type_string = 0x02

abbrev pub max_listpack_bytes : ℕ
max_listpack_bytes = 8192

pub record Listpack : Type 0 where
  pub content : Bytes
  pub spare : Bytes

-- The integers of `encoding/binary`: a `k`-byte word at `i`.
abbrev pub get_uint : ℕ → ℕ → Bytes → Option ℕ
get_uint k i d = do w ← slice i (i + k) d; some (le_value w)

abbrev pub put_uint : ℕ → ℕ → ℤ → Bytes → Option Bytes
put_uint k i v d = write i (le_bytes k (to_word (256 ^ k) v)) d

abbrev pub byte : ℤ → ℕ
byte v = to_word 256 v

unfoldable pub total_len : Listpack → Option ℕ
total_len lp = get_uint 4 0 lp.content

unfoldable pub set_total_len : ℕ → Listpack → Option Listpack
set_total_len n lp = do d ← put_uint 4 0 (pos n) lp.content; some (record lp { content = d })

unfoldable pub elements : Listpack → Option ℕ
elements lp = get_uint 2 4 lp.content

unfoldable pub set_elements : ℤ → Listpack → Option Listpack
set_elements n lp = do d ← put_uint 2 4 n lp.content; some (record lp { content = d })

unfoldable pub set_meta : ℕ → Listpack → Option Listpack
unfolding set_total_len elements set_elements
set_meta n lp = do
  lp' ← set_total_len (length lp.content) lp
  k ← elements lp'
  set_elements (pos (k + n)) lp'

unfoldable pub new_listpack : Option Listpack
unfolding set_meta
new_listpack = do
  d ← write header_size (end_byte ∷ []) (zeros (header_size + 1))
  set_meta 0 (record { content = d; spare = zeros (max_listpack_bytes - (header_size + 1)) })

unfoldable pub is_empty : Listpack → Option Bool
unfolding elements
is_empty lp =
    if leb (length lp.content) (header_size + 1)
    then some true
    else (do n ← elements lp; some (n == 0))

unfoldable pub tail : Listpack → ℕ
tail lp = length lp.content - 1

-- Opens a gap of `add_len` bytes at `at`; what the gap holds is left over from before.
unfoldable pub grow : ℕ → ℕ → Listpack → Option Listpack
grow at add_len lp =
    let old_len = length lp.content in
    let new_len = old_len + add_len in
    if leb at old_len
    then if ltb (old_len + length lp.spare) new_len
      then (do
        d ← copy_into 0 (take at lp.content) (zeros new_len)
        d' ← copy_into (at + add_len) (drop at lp.content) d
        some (record { content = d'; spare = zeros (new_len * 2 - new_len) }))
      else (do
        d ← copy_into (at + add_len) (drop at lp.content) (lp.content ++ take add_len lp.spare)
        some (record { content = d; spare = drop add_len lp.spare }))
    else none

-- The first guard reads `pos < 0 || pos >= oldLen || length <= 0`; a number is not negative.
unfoldable pub remove : ℕ → ℕ → Listpack → Option Listpack
remove at count lp =
    let old_len = length lp.content in
    if leb old_len at || (count == 0)
    then some lp
    else let n = if ltb old_len (at + count) then old_len - at else count in
      (do
        d ← copy_into at (drop (at + n) lp.content) lp.content
        some (record { content = take (old_len - n) d; spare = drop (old_len - n) d ++ lp.spare }))

unfoldable pub int_entry_len : ℤ → ℕ
int_entry_len v =
    if leb_ℤ (pos 0) v && ltb_ℤ v (pos 128)
    then 2
    else if leb_ℤ (pos 0) v && ltb_ℤ v (pos 8192)
    then 3
    else if leb_ℤ (negsuc 32767) v && leb_ℤ v (pos 32767)
    then 4
    else if leb_ℤ (negsuc 2147483647) v && leb_ℤ v (pos 2147483647)
    then 6
    else 10

-- The switch on `entryLen` behind the type byte.
unfoldable pub write_int : ℕ → ℕ → ℤ → Bytes → Option Bytes
write_int entry_len at v d =
    if entry_len == 2
    then write (at + 1) (byte v ∷ []) d
    else if entry_len == 3
    then (do
      d' ← write (at + 1) (bit_or 0x80 (byte (shr v 8)) ∷ []) d
      write (at + 2) (byte v ∷ []) d')
    else if entry_len == 4
    then (do d' ← write (at + 1) (0xc0 ∷ []) d; put_uint 2 (at + 2) v d')
    else if entry_len == 6
    then (do d' ← write (at + 1) (0xd0 ∷ []) d; put_uint 4 (at + 2) v d')
    else if entry_len == 10
    then (do d' ← write (at + 1) (0xe0 ∷ []) d; put_uint 8 (at + 2) v d')
    else some d

unfoldable pub add_int : ℤ → Bool → Listpack → Option Listpack
unfolding tail grow int_entry_len write_int set_meta
add_int v prepend lp =
    let entry_len = int_entry_len v in
    let at = if prepend then header_size else tail lp in
    (do
      lp' ← grow at entry_len lp
      d ← write at (type_int ∷ []) lp'.content
      d' ← write_int entry_len at v d
      set_meta 1 (record lp' { content = d' }))

unfoldable pub string_entry_len : ℕ → ℕ
string_entry_len n = if ltb n 64 then 2 + n else if ltb n 16384 then 3 + n else 6 + n

unfoldable pub write_string : ℕ → Bytes → Bytes → Option Bytes
write_string at s d =
    let n = length s in
    if ltb n 64
    then (do d' ← write (at + 1) (byte (pos (bit_and n 0x3f)) ∷ []) d; copy_into (at + 2) s d')
    else if ltb n 16384
    then (do
      d' ← write (at + 1) (bit_or 0x40 (byte (shr (pos n) 8)) ∷ []) d
      d'' ← write (at + 2) (byte (pos n) ∷ []) d'
      copy_into (at + 3) s d'')
    else (do
      d' ← write (at + 1) (0x80 ∷ []) d
      d'' ← put_uint 4 (at + 2) (pos n) d'
      copy_into (at + 6) s d'')

unfoldable pub add_string : Bytes → Bool → Listpack → Option Listpack
unfolding tail grow string_entry_len write_string set_meta
add_string s prepend lp =
    let entry_len = string_entry_len (length s) in
    let at = if prepend then header_size else tail lp in
    (do
      lp' ← grow at entry_len lp
      d ← write at (type_string ∷ []) lp'.content
      d' ← write_string at s d
      set_meta 1 (record lp' { content = d' }))
