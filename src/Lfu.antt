-- ===== src/Lfu.antt =====
-- internal/store/lfu.go and `getIdleTime` of internal/store/eviction.go: the access counter of an
-- object. The clock is an argument, and so is the outcome of the comparison of `rand.Float64`.
pub mod Decay
use Prim.Native.Nat.{bit_or}
use monster_db.Prelude.{
  ℕ, zero, suc, ◌+◌, ◌-◌, ◌*◌, ◌/◌, ◌%◌, ◌^◌, Bool, ltb, leb, ◌==◌, if◌then◌else◌,
}

abbrev pub decay_minutes : ℕ
decay_minutes = 2

-- `uint8(obj.LastAccessedAt)` and the upper 24 bits.
abbrev pub get_counter : ℕ → ℕ
get_counter last_accessed_at = last_accessed_at % 2 ^ 8

abbrev pub get_last_decay : ℕ → ℕ
get_last_decay last_accessed_at = last_accessed_at / 2 ^ 8

-- The loop of `decay` stops when the periods or the counter are used up.
unfoldable pub decay : ℕ → ℕ → ℕ
decay counter zero = counter
decay zero (suc periods) = zero
decay (suc counter) (suc periods) = decay (suc counter / 2) periods

abbrev pub increment : Bool → ℕ → ℕ
increment drawn counter =
    if counter == 255 then 255 else if drawn then (counter + 1) % 2 ^ 8 else counter

-- The counter that `touch` computes, from the time and the old field on uint32.
unfoldable pub touched_counter : ℕ → Bool → ℕ → ℕ
unfolding decay
touched_counter now drawn last_accessed_at =
    let last = get_last_decay last_accessed_at in
    let elapsed = (now + 2 ^ 32 - last) % 2 ^ 32 in
    let periods = elapsed / decay_minutes in
    increment drawn (decay (get_counter last_accessed_at) periods)

-- `touch` on the field `LastAccessedAt`.
unfoldable pub touch : ℕ → Bool → ℕ → ℕ
unfolding touched_counter
touch now drawn last_accessed_at =
    bit_or (now * 2 ^ 8 % 2 ^ 32) (touched_counter now drawn last_accessed_at)

unfoldable pub get_idle_time : ℕ → ℕ → ℕ
get_idle_time clock last_accessed_at =
    if leb last_accessed_at clock
    then clock - last_accessed_at
    else (0x00ffffff + 2 ^ 32 - last_accessed_at + clock) % 2 ^ 32
