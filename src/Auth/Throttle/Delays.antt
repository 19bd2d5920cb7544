-- ===== src/Auth/Throttle/Delays.antt =====
-- throttle.go: the delays double from two seconds up to five minutes, and a wait is never longer.
use native.Mathlib.Nat.{pow-le-pow_right}
use Prim.Native.Nat.{min}
use sparstrowgen.Prelude.{
  ℕ, ◌-◌, ◌*◌, ◌^◌, ◌≤◌, ◌<◌, ◌≡◌, inl, inr, arith, ltb, Bool-cases, if◌then◌else◌,
}
use sparstrowgen.Auth.Throttle.{base_delay, max_delay, delay_after}

if_min : (a b : ℕ) → (if ltb a b then a else b) ≡ min a b
if_min a b = ground arith

two_pow_mono : (i j : ℕ) → i ≤ j → 2 ^ i ≤ 2 ^ j
two_pow_mono i j h = pow-le-pow_right (omega arith) h

past_the_cap : (n : ℕ) → 8 < n → min max_delay (base_delay * 2 ^ n) ≡ max_delay
past_the_cap n h = let p : 2 ^ 8 ≤ 2 ^ n = two_pow_mono 8 n (omega arith) in omega arith

-- The delay after a number of failures is two seconds, doubled for each failure past the fifth, and
-- five minutes where that is more: capping the shift at 8 changes no delay.
pub delay_after-doubles :
    (failures : ℕ) → delay_after failures ≡ min max_delay (base_delay * 2 ^ (failures - 5))
unfolding delay_after
delay_after-doubles f = elim (Bool-cases (ltb 8 (f - 5))) [
  | inl e ↦ rw e (omega (arith, past_the_cap (f - 5) (ground arith)))
  | inr e ↦ rw e (if_min max_delay _)
]

pub delay_after_bounds :
    (failures : ℕ) → (base_delay ≤ delay_after failures) × (delay_after failures ≤ max_delay)
delay_after_bounds f =
    let p : 2 ^ 0 ≤ 2 ^ (f - 5) = two_pow_mono 0 (f - 5) (omega arith) in
    omega (arith, delay_after-doubles f)
