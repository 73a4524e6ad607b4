-- ===== src/Market/Quotes.antt =====
-- The values that are read from a printed answer of the Shenzhen exchange.
use esp32_monitor.Base.{
  ℕ, ◌≤◌, ◌<◌, ◌≡◌, refl, arith, ◌∙◌, ap, true, false, not, ◌||◌, ◌==◌, ◌!=◌, ℤ, Option, none, some,
  List, [], ◌∷◌, if_cases, if◌then◌else◌, length, get_or, bounded, All, same_bytes,
}
use esp32_monitor.Json.{Double, is_below_zero, is_above, is_below_minus}
use esp32_monitor.AppModel.{MarketIndex}
use esp32_monitor.Market.Behind.{IsNumeral}
use esp32_monitor.Market.Parser.{
  Reals, convert_values, parse_decimal_text, accepted_number, fits_signed, is_out_of_range,
}
use esp32_monitor.Market.Szse.{parse_szse}
use esp32_monitor.Market.Answers.{answer, read_numbers, parse_szse-answer}

-- The text is not empty, and strtod reads all of it as the finite number without an error.
pub record Denotes (reals : Reals) (digits : List ℕ) (value : Double) : Type 0 where
  pub written : 1 ≤ length digits
  pub whole : reals.strtod digits ≡ (value, length digits, 0)
  pub finite : value.finite ≡ true

-- The points are from 0 to 10000000, the change is from -100 to 100, and a hundred times each fits
-- its field.
pub record AreAllowed (reals : Reals) (points change : Double) : Type 0 where
  pub not_negative : is_below_zero points ≡ false
  pub not_high : is_above points 10000000 ≡ false
  pub not_low : is_below_minus change 100 ≡ false
  pub not_steep : is_above change 100 ≡ false
  pub points_fit : fits_signed 31 (reals.llround_x100 points) ≡ true
  pub change_fits : fits_signed 15 (reals.lround_x100 change) ≡ true

get_or-length : (xs : List ℕ) → get_or xs (length xs) 0 ≡ 0
get_or-length [] = refl
get_or-length (x ∷ xs) = get_or-length xs

module _ (reals : Reals) where
  accepted_number-Denotes :
      (digits : List ℕ) (value : Double)
      → Denotes reals digits value
      → accepted_number digits (value, length digits, 0) ≡ some value
  accepted_number-Denotes digits value d =
      let P : Option Double → Type 0 = λ o. o ≡ some value in
      if_cases P
        (0 != 0 || length digits == 0 || get_or digits (length digits) 0 != 0 || not value.finite)
        (λ e. absurd (ground (arith, e, d.written, d.finite, get_or-length digits))) (λ _. refl)

  parse_decimal_text-Denotes :
      (digits : List ℕ) (value : Double)
      → Denotes reals digits value
      → parse_decimal_text reals digits ≡ some value
  unfolding parse_decimal_text
  parse_decimal_text-Denotes digits value d =
      let P : Option Double → Type 0 = λ o. o ≡ some value in
      if_cases P (length digits == 0) (λ e. absurd (ground (arith, e, d.written)))
        (λ _. ap (accepted_number digits) d.whole ∙ accepted_number-Denotes digits value d)

  convert_values-AreAllowed :
      (points change : Double)
      → points.finite ≡ true
      → change.finite ≡ true
      → AreAllowed reals points change
      → convert_values reals points change
        ≡ some (reals.llround_x100 points, reals.lround_x100 change)
  unfolding convert_values
  convert_values-AreAllowed points change p c a =
      let scaled : ℤ × ℤ = (reals.llround_x100 points, reals.lround_x100 change) in
      let P : Option (ℤ × ℤ) → Type 0 = λ o. o ≡ some scaled in
      if_cases P (is_out_of_range points change)
        (λ e. absurd (ground (arith, e, p, c, a.not_negative, a.not_high, a.not_low, a.not_steep)))
        (λ _.
          if_cases P (not (fits_signed 31 scaled.0) || not (fits_signed 15 scaled.1))
            (λ e. absurd (ground (arith, e, a.points_fit, a.change_fits))) (λ _. refl))

-- What is stored of an index for which two numbers were read.
abbrev pub quote : Reals → Double → Double → List ℕ → List ℕ → MarketIndex
quote reals points change code display_name = record {
  index_name = bounded 20 display_name;
  index_code = bounded 8 code;
  points_x100 = reals.llround_x100 points;
  change_basis_points = reals.lround_x100 change;
}

-- A printed answer is read back where its code has fewer than 8 bytes and its points and its change
-- have from 1 to 31, all of numerals, where strtod reads the whole of the points and of the change as
-- finite numbers, the two are in their ranges, and a hundred times each, rounded, fits its field: for
-- the code that was asked for it gives the index with these rounded values, and for another code
-- nothing.
pub parse_szse_printed :
    (reals : Reals) (code now change expected_code display_name : List ℕ) (points percent : Double)
    → All IsNumeral code
    → All IsNumeral now
    → All IsNumeral change
    → length code < 8
    → length now < 32
    → length change < 32
    → Denotes reals now points
    → Denotes reals change percent
    → AreAllowed reals points percent
    → parse_szse reals (answer code now change) expected_code display_name ≡ (
        if same_bytes code expected_code
        then some (quote reals points percent expected_code display_name)
        else none)
parse_szse_printed reals code now change expected name points percent c n d sc sn sd p q a =
    let read_now = parse_decimal_text-Denotes reals now points p in
    let read_change = parse_decimal_text-Denotes reals change percent q in
    let converted = convert_values-AreAllowed reals points percent p.finite q.finite a in
    let numbers : read_numbers reals now change expected name
        ≡ some (quote reals points percent expected name) =
      rw (read_now, read_change, converted) refl in
    parse_szse-answer reals code now change expected name c n d sc sn sd
    ∙ ap (λ (o : Option MarketIndex). if same_bytes code expected then o else none) numbers
