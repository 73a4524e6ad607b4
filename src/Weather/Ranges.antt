-- ===== src/Weather/Ranges.antt =====
-- The ranges of the values that the parsers write.
use esp32_monitor.Base.{
  ℕ, ◌<◌, ◌≤◌, ◌≡◌, refl, true, false, not, ℤ, pos, negsuc, ◌==◌, if_cases, arith,
}
use esp32_monitor.Json.{Double, is_above, is_below_minus}
use esp32_monitor.Weather.Values.{
  Numbers, whole_number, to_u8, to_int8, clamp, ratio_to_percent, temperature_to_int8,
}

-- From -100 to 100.
abbrev pub IsDegrees : ℤ → Type 0
IsDegrees (pos n) = n ≤ 100
IsDegrees (negsuc n) = n < 100

abbrev pub IsHundredths : ℤ → Type 0
IsHundredths (pos n) = n ≤ 100
IsHundredths (negsuc n) = ⊥

-- lround rounds to a nearest integer, so it keeps to a range between integers.
pub record IsRounding (numbers : Numbers) : Type 0 where
  pub ratio :
      (x : Double)
      → is_below_minus x 0 ≡ false
      → is_above x 1 ≡ false
      → IsHundredths (numbers.lround_x100 x)
  pub degrees :
      (x : Double)
      → is_below_minus x 100 ≡ false
      → is_above x 100 ≡ false
      → IsDegrees (numbers.lround x)

to_u8_le : (n : ℤ) → IsHundredths n → to_u8 n ≤ 100
to_u8_le (pos n) h = omega arith
to_u8_le (negsuc n) h = absurd h

to_int8-IsDegrees : (n : ℤ) → IsDegrees n → IsDegrees (to_int8 n)
to_int8-IsDegrees (pos n) h = ground arith
to_int8-IsDegrees (negsuc n) h = ground arith

clamped :
    (P : Double → Type 0) (low high : ℕ) (x : Double)
    → P (whole_number (not (low == 0)) low)
    → P (whole_number false high)
    → (is_below_minus x low ≡ false → is_above x high ≡ false → P x)
    → P (clamp low high x)
clamped P low high x below above between =
    if_cases P (is_below_minus x low) (λ _. below)
      λ e. if_cases P (is_above x high) (λ _. above) (λ e'. between e e')

module _ (numbers : Numbers) (rounding : IsRounding numbers) where
  pub ratio_to_percent_le : (ratio : Double) → ratio_to_percent numbers ratio ≤ 100
  unfolding ratio_to_percent
  ratio_to_percent_le ratio = to_u8_le _ (
      clamped (λ d. IsHundredths (numbers.lround_x100 d)) 0 1 ratio
        (rounding.ratio (whole_number false 0) refl refl)
        (rounding.ratio (whole_number false 1) refl refl) (rounding.ratio ratio))

  pub temperature_to_int8-IsDegrees :
      (temperature : Double) → IsDegrees (temperature_to_int8 numbers temperature)
  unfolding temperature_to_int8
  temperature_to_int8-IsDegrees temperature = to_int8-IsDegrees _ (
      clamped (λ d. IsDegrees (numbers.lround d)) 100 100 temperature
        (rounding.degrees (whole_number true 100) refl refl)
        (rounding.degrees (whole_number false 100) refl refl) (rounding.degrees temperature))
