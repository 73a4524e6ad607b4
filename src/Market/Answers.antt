-- ===== src/Market/Answers.antt =====
-- An answer of the Shenzhen exchange as it is printed, and what the parser reads from it.
use esp32_monitor.Base.{
  ℕ, suc, ltb, le→ltb, ◌&&◌, ◌-◌, get_or, Bool-cases, inl, inr, ◌<◌, ◌≡◌, refl, ◌∙◌, true, false,
  Option, none, some, List, [], ◌∷◌, ◌++◌, ◌==◌, if◌then◌else◌, length, All, same_bytes, text,
  arith,
}
use esp32_monitor.Json.{is_blank}
use esp32_monitor.Base.Options.{◌>>=◌}
use esp32_monitor.AppModel.{MarketIndex}
use esp32_monitor.Market.Search.{find_token_search}
use esp32_monitor.Market.Behind.{
  IsNumeral, search_behind, search_from-none, search_over, read_string,
}
use esp32_monitor.Market.Tokens.{
  find_token, find_from, skip_blanks, expect, quoted, read_value, read_characters,
  read_bounded_string,
}
use esp32_monitor.Market.Parser.{Reals, trim_end, convert_values, parse_decimal_text, index_of}
use esp32_monitor.Market.Szse.{skip_to_brace, read_section, read_data, parse_szse, is_braced}

-- What stands behind the closing brackets of each of the three values.
abbrev pub after_change : List ℕ
after_change = text "}}"

abbrev pub after_now : List ℕ → List ℕ
after_now change = text ",\"deltaPercent\":\"" ++ (change ++ 34 ∷ after_change)

abbrev pub after_code : List ℕ → List ℕ → List ℕ
after_code now change = text ",\"now\":\"" ++ (now ++ 34 ∷ after_now change)

-- The part of the answer behind the brace of "data".
abbrev pub section : List ℕ → List ℕ → List ℕ → List ℕ
section code now change = text "\"code\":\"" ++ (code ++ 34 ∷ after_code now change)

abbrev pub answer : List ℕ → List ℕ → List ℕ → List ℕ
answer code now change = text "{\"code\":\"0\",\"data\":{" ++ section code now change

module _ (code now change : List ℕ) (c : All IsNumeral code) (n : All IsNumeral now)
    (d : All IsNumeral change) where
  find_code :
      search_behind (quoted (text "code")) (section code now change)
      ≡ some (58 ∷ 34 ∷ (code ++ 34 ∷ after_code now change))
  unfolding quoted
  find_code = refl

  find_now :
      search_behind (quoted (text "now")) (section code now change)
      ≡ some (58 ∷ 34 ∷ (now ++ 34 ∷ after_now change))
  unfolding quoted
  find_now = search_over b'n' (text "ow\"") code (after_code now change) (omega arith) c

  find_change :
      search_behind (quoted (text "deltaPercent")) (section code now change)
      ≡ some (58 ∷ 34 ∷ (change ++ 34 ∷ after_change))
  unfolding quoted
  find_change =
      search_over b'd' (text "eltaPercent\"") code (after_code now change) (omega arith) c
      ∙ search_over b'd' (text "eltaPercent\"") now (after_now change) (omega arith) n

  find_pictures : search_behind (text "\"picupdata\"") (section code now change) ≡ none
  find_pictures =
      search_over b'p' (text "icupdata\"") code (after_code now change) (omega arith) c
      ∙ search_over b'p' (text "icupdata\"") now (after_now change) (omega arith) n
      ∙ search_over b'p' (text "icupdata\"") change after_change (omega arith) d

-- What the numbers of the answer come to.
abbrev pub read_numbers : Reals → List ℕ → List ℕ → List ℕ → List ℕ → Option MarketIndex
read_numbers reals now change code display_name = do
  points ← parse_decimal_text reals now
  change_percent ← parse_decimal_text reals change
  values ← convert_values reals points change_percent
  some (index_of display_name code values)

-- The text ends with a byte that is not trimmed.
EndsPlain : List ℕ → Type 0
EndsPlain bytes =
    (0 < length bytes) × (trim_end bytes ≡ bytes) × (get_or bytes (length bytes - 1) 0 ≡ 125)

kept_byte :
    (byte : ℕ) (bytes : List ℕ)
    → (if is_blank byte && false then [] else byte ∷ bytes) ≡ byte ∷ bytes
kept_byte byte bytes = ground arith

EndsPlain-cons : (byte : ℕ) (bytes : List ℕ) → EndsPlain bytes → EndsPlain (byte ∷ bytes)
unfolding EndsPlain trim_end
EndsPlain-cons byte bytes (there, kept, last) =
    let at : suc (length bytes) - 1 ≡ suc (length bytes - 1) = omega arith in
    let size : (length bytes == 0) ≡ false = ground arith in
    (omega arith, rw (kept, size) (kept_byte byte bytes), rw at last)

EndsPlain-append : (before bytes : List ℕ) → EndsPlain bytes → EndsPlain (before ++ bytes)
EndsPlain-append [] bytes h = h
EndsPlain-append (byte ∷ before) bytes h =
    EndsPlain-cons byte (before ++ bytes) (EndsPlain-append before bytes h)

answer-EndsPlain : (code now change : List ℕ) → EndsPlain (answer code now change)
unfolding EndsPlain trim_end
answer-EndsPlain code now change =
    let end : EndsPlain (34 ∷ after_change) = (omega arith, refl, refl) in
    let third : EndsPlain (34 ∷ after_now change) =
      EndsPlain-append (34 ∷ text ",\"deltaPercent\":\"") _ (EndsPlain-append change _ end) in
    let second : EndsPlain (34 ∷ after_code now change) =
      EndsPlain-append (34 ∷ text ",\"now\":\"") _ (EndsPlain-append now _ third) in
    EndsPlain-append (text "{\"code\":\"0\",\"data\":{\"code\":\"") _
      (EndsPlain-append code _ second)

status_read : read_bounded_string (text "{\"code\":\"0\",") (text "code") 8 ≡ some (text "0")
unfolding read_bounded_string find_token find_from quoted read_value skip_blanks expect
    read_characters
status_read = refl

module _ (reals : Reals) (code now change expected_code display_name : List ℕ)
    (c : All IsNumeral code) (n : All IsNumeral now) (d : All IsNumeral change)
    (short_code : length code < 8) (short_now : length now < 32)
    (short_change : length change < 32) where
  read_data_answer : read_data reals (section code now change) expected_code display_name ≡ (
      if same_bytes code expected_code
      then read_numbers reals now change expected_code display_name
      else none)
  unfolding read_section
  read_data_answer =
      let part : List ℕ = section code now change in
      let pictures : find_token part (text "\"picupdata\"") ≡ none =
        find_token_search part (text "\"picupdata\"") (omega arith)
        ∙ search_from-none (text "\"picupdata\"") part 0 (find_pictures code now change c n d) in
      let code_read : read_bounded_string part (text "code") 8 ≡ some code =
        read_string part (text "code") code (after_code now change) 8 (omega arith) c short_code
          (find_code code now change c n d) in
      let now_read : read_bounded_string part (text "now") 32 ≡ some now =
        read_string part (text "now") now (after_now change) 32 (omega arith) n short_now
          (find_now code now change c n d) in
      let change_read : read_bounded_string part (text "deltaPercent") 32 ≡ some change =
        read_string part (text "deltaPercent") change after_change 32 (omega arith) d short_change
          (find_change code now change c n d) in
      elim (Bool-cases (same_bytes code expected_code)) [
        | inl same ↦ rw (pictures, code_read, same, now_read, change_read) refl
        | inr other ↦ rw (pictures, code_read, other) refl
      ]

  -- An answer with a code of fewer than 8 bytes, and points and a change of fewer than 32, all of
  -- numerals: for the code that was asked for the two texts are read and converted, and for another
  -- code there is nothing.
  pub parse_szse-answer : parse_szse reals (answer code now change) expected_code display_name ≡ (
      if same_bytes code expected_code
      then read_numbers reals now change expected_code display_name
      else none)
  unfolding parse_szse EndsPlain skip_blanks skip_to_brace
  parse_szse-answer =
      let whole : List ℕ = answer code now change in
      let end : EndsPlain whole = answer-EndsPlain code now change in
      let trimmed : trim_end (skip_blanks whole) ≡ whole = end.1 in
      let braced : is_braced whole ≡ true =
        let long : ltb (length whole) 2 ≡ false = le→ltb _ _ (omega arith) in
        rw (long, end.2) refl in
      let data_found : find_token whole (text "\"data\"") ≡ some 12 =
        find_token_search whole (text "\"data\"") (omega arith) in
      rw (trimmed, braced, data_found, status_read) read_data_answer
