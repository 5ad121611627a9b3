-- ===== src/Intset.antt =====
-- internal/ds/intset.go: a set of int16 in a sorted array of two-byte words. `none` is a panic or,
-- in the search loop, that its fuel ran out.
pub mod Packed
pub mod Search
pub mod Members
pub mod Kept
pub mod Update
use Prim.Native.Nat.{bit_or}
use monster_db.Prelude.{
  ℕ, zero, suc, ◌+◌, ◌-◌, ◌*◌, ◌/◌, ◌^◌, Bool, true, false, not, ◌&&◌, Option, none, some, [], ◌∷◌,
  ◌++◌, length, take, drop, get_elem?, ltb, if◌then◌else◌, ◌>>=◌,
}
use monster_db.Prelude.Int.{ℤ, to_word, from_word, leb_ℤ, eqb_ℤ}
use monster_db.Prelude.Bytes.{Bytes, le_bytes, write, copy_into}

-- `count` is the field `length`. An int16 set has at most 65536 members, so the int32 never wraps.
pub record Intset : Type 0 where
  pub count : ℕ
  pub content : Bytes

unfoldable pub new_intset : Intset
new_intset = record { count = 0; content = [] }

abbrev pub size : Intset → ℕ
size is = is.count

unfoldable pub get : ℕ → Intset → Option ℤ
get idx is = do
  v0 ← get_elem? is.content (idx * 2)
  v1 ← get_elem? is.content (idx * 2 + 1)
  some (from_word (256 ^ 2) (bit_or v0 (v1 * 256)))

-- The loop of `Search`. Its variable `r`, which can be -1, is `next - 1`, and so the test `r >= l`
-- is `l < next` and the middle is `(l + next - 1) / 2`; -1 for `idx` is `none`.
unfoldable pub search_loop : ℕ → ℤ → Intset → ℕ → ℕ → Option ℕ → Option (Option ℕ)
search_loop zero val is l next idx = none
search_loop (suc fuel) val is l next idx =
    if ltb l next
    then (do
      let mid = (l + next - 1) / 2
      x ← get mid is
      let low = leb_ℤ x val
      search_loop fuel val is (if low then mid + 1 else l) (if low then next else mid)
          (if low then some mid else idx))
    else some idx

unfoldable pub search : ℤ → Intset → Option (Option ℕ)
search val is = search_loop (suc is.count) val is 0 is.count none

-- `idx != -1 && is.Get(idx) == val`
unfoldable pub holds_at : Option ℕ → ℤ → Intset → Option Bool
holds_at none val is = some false
holds_at (some i) val is = do x ← get i is; some (eqb_ℤ x val)

-- `idx + 1`
abbrev pub next_of : Option ℕ → ℕ
next_of none = 0
next_of (some i) = i + 1

unfoldable pub set : ℤ → Intset → Option (Bool × Intset)
unfolding search holds_at
set val is = do
  idx ← search val is
  found ← holds_at idx val is
  if found then some (false, is) else (do
    let insert_at = next_of idx * 2
    let d = is.content ++ 0 ∷ 0 ∷ []
    d' ← copy_into (insert_at + 2) (drop insert_at d) d
    d'' ← write insert_at (le_bytes 2 (to_word (256 ^ 2) val)) d'
    some (true, record { count = is.count + 1; content = d'' }))

unfoldable pub del : ℤ → Intset → Option (ℕ × Intset)
unfolding search holds_at
del val is = do
  idx ← search val is
  found ← holds_at idx val is
  if not found then some (0, is) else (do
    let at = (next_of idx - 1) * 2
    d ← copy_into at (drop (at + 2) is.content) is.content
    some (1, record { count = is.count - 1; content = take (length d - 2) d }))
