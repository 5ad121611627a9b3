-- ===== src/Lfu/Decay.antt =====
-- The decay of the access counter of internal/store/lfu.go.
use monster_db.Prelude.{
  ℕ, zero, suc, ◌+◌, ◌-◌, ◌*◌, ◌/◌, ◌%◌, ◌^◌, ◌<◌, ◌≤◌, ◌≡◌, refl, arith, Bool,
}
use native.Mathlib.Nat.{pow-suc}
use monster_db.Lfu.{decay, increment, touched_counter}

positive_power : (n : ℕ) → 0 < 2 ^ n
positive_power zero = omega arith
positive_power (suc n) =
    let e : 2 ^ suc n ≡ 2 * 2 ^ n = grind (arith, pow-suc) in omega (arith, positive_power n)

-- `decay` halves the counter once for each period, rounding down: it is the quotient of the counter
-- by that power of two, also for more periods than the counter has halvings.
pub decay-halves :
    (counter periods : ℕ)
    → (decay counter periods * 2 ^ periods ≤ counter)
      × (counter < (decay counter periods + 1) * 2 ^ periods)
unfolding decay
decay-halves counter zero = (omega arith, omega arith)
decay-halves zero (suc periods) = (omega arith, omega (arith, positive_power (suc periods)))
decay-halves (suc counter) (suc periods) =
    let (low, high) = decay-halves (suc counter / 2) periods in
    let e : 2 ^ suc periods ≡ 2 * 2 ^ periods = grind (arith, pow-suc) in
    (rw e (omega arith), rw e (omega arith))

decay-le : (counter periods : ℕ) → decay counter periods ≤ counter
unfolding decay
decay-le counter zero = omega arith
decay-le zero (suc periods) = omega arith
decay-le (suc counter) (suc periods) = omega (arith, decay-le (suc counter / 2) periods)

-- An access raises the counter by at most one, and the counter stays a byte.
pub increment-bounds :
    (drawn : Bool) (counter periods : ℕ)
    → counter < 2 ^ 8
    → (increment drawn (decay counter periods) ≤ counter + 1)
      × (increment drawn (decay counter periods) < 2 ^ 8)
increment-bounds drawn counter periods h =
    let d : decay counter periods ≤ counter = decay-le counter periods in ground (arith, d)

decay_gone : (n counter periods : ℕ) → counter < 2 ^ n → n ≤ periods → decay counter periods ≡ 0
unfolding decay
decay_gone n zero zero h p = refl
decay_gone n zero (suc periods) h p = refl
decay_gone zero (suc counter) periods h p = absurd (omega arith)
decay_gone (suc n) (suc counter) zero h p = absurd (omega arith)
decay_gone (suc n) (suc counter) (suc periods) h p =
    let e : 2 ^ suc n ≡ 2 * 2 ^ n = grind (arith, pow-suc) in
    decay_gone n (suc counter / 2) periods (omega arith) (omega arith)

-- From 2 ^ 24 + 16 minutes after the epoch on, that is since late in 2001, every access leaves a
-- counter of at most one, whatever it was before: the time of the last decay is kept in 24 bits, so
-- that the time elapsed comes out too long.
pub touched_counter-forgets :
    (now : ℕ) (drawn : Bool) (last_accessed_at : ℕ)
    → 2 ^ 24 + 16 ≤ now
    → now < 2 ^ 32
    → last_accessed_at < 2 ^ 32
    → touched_counter now drawn last_accessed_at ≤ 1
unfolding touched_counter
touched_counter-forgets now drawn last_accessed_at h k l =
    let last : ℕ = last_accessed_at / 2 ^ 8 in
    let elapsed : ℕ = (now + 2 ^ 32 - last) % 2 ^ 32 in
    let long : 8 ≤ elapsed / 2 = omega arith in
    let gone : decay (last_accessed_at % 2 ^ 8) (elapsed / 2) ≡ 0 =
      decay_gone 8 (last_accessed_at % 2 ^ 8) (elapsed / 2) (omega arith) long in
    rw gone (ground arith)
