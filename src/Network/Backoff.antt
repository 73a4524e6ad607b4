-- ===== src/Network/Backoff.antt =====
-- The delays between attempts to reconnect.
use native.Mathlib.Nat.{pow-suc, mul_assoc, one-le-pow, mul-le-mul_left}
use esp32_monitor.Base.{
  ℕ, zero, suc, ◌*◌, ◌^◌, ◌≤◌, ◌<◌, ◌≡◌, ap, ◌∙◌, arith, min, ltb, if◌then◌else◌, u32, Bool-cases,
  inl, inr,
}
use esp32_monitor.Network.{
  double_delay, reconnect_delay_ms, reconnect_base_delay_ms, reconnect_max_delay_ms,
}

abbrev capped : ℕ → ℕ
capped delay = if ltb reconnect_max_delay_ms delay then reconnect_max_delay_ms else delay

capped-min : (delay : ℕ) → capped delay ≡ min delay reconnect_max_delay_ms
capped-min delay = ground arith

double_delay_late :
    (rounds delay : ℕ) → reconnect_max_delay_ms ≤ delay → double_delay rounds delay ≡ delay
unfolding double_delay
double_delay_late zero delay h = ground arith
double_delay_late (suc rounds) delay h = ground arith

double_delay_early :
    (rounds delay : ℕ)
    → delay < reconnect_max_delay_ms
    → double_delay (suc rounds) delay ≡ double_delay rounds (delay * 2)
unfolding double_delay
double_delay_early rounds delay h =
    let narrow : u32 (delay * 2) ≡ delay * 2 = omega arith in ground (arith, narrow)

power_grows : (rounds delay : ℕ) → delay ≤ delay * 2 ^ rounds
power_grows rounds delay =
    let least = mul-le-mul_left delay (one-le-pow rounds 2 (omega arith)) in omega (arith, least)

twice : (rounds delay : ℕ) → delay * 2 * 2 ^ rounds ≡ delay * 2 ^ suc rounds
twice rounds delay =
    let power : 2 * 2 ^ rounds ≡ 2 ^ suc rounds = omega (arith, pow-suc 2 rounds) in
    mul_assoc delay 2 (2 ^ rounds) ∙ ap (λ (n : ℕ). delay * n) power

capped-double_delay :
    (rounds delay : ℕ)
    → capped (double_delay rounds delay) ≡ min (delay * 2 ^ rounds) reconnect_max_delay_ms
unfolding double_delay
capped-double_delay zero delay = ground arith
capped-double_delay (suc rounds) delay = elim (Bool-cases (ltb delay reconnect_max_delay_ms)) [
  | inl e ↦
      ap capped (double_delay_early rounds delay (ground (arith, e)))
      ∙ capped-double_delay rounds (delay * 2)
      ∙ ap (λ (n : ℕ). min n reconnect_max_delay_ms) (twice rounds delay)
  | inr e ↦
      ap capped (double_delay_late (suc rounds) delay (ground (arith, e)))
      ∙ ground (arith, e, power_grows (suc rounds) delay)
]

-- The loop doubles the delay until it reaches a minute: after n attempts it is 2 ^ n seconds, and
-- 60 seconds at most.
pub reconnect_delay_ms-min :
    (attempts : ℕ)
    → reconnect_delay_ms attempts
      ≡ min (reconnect_base_delay_ms * 2 ^ attempts) reconnect_max_delay_ms
unfolding reconnect_delay_ms
reconnect_delay_ms-min attempts = capped-double_delay attempts reconnect_base_delay_ms

pub reconnect_delay_ms-bounds :
    (attempts : ℕ) → (1000 ≤ reconnect_delay_ms attempts) × (reconnect_delay_ms attempts ≤ 60000)
reconnect_delay_ms-bounds attempts =
    omega (arith, reconnect_delay_ms-min attempts, one-le-pow attempts 2 (omega arith))
