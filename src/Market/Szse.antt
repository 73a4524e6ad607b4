-- ===== src/Market/Szse.antt =====
-- components/market/market_parser.c, desk_market_parse_szse: the two fields that it wants are read out
-- of the text of the answer, in which a long list follows them.
use esp32_monitor.Base.{
  ℕ, ◌+◌, ◌-◌, Bool, not, ◌&&◌, Option, none, some, List, [], ◌∷◌, ltb, ◌==◌, ◌!=◌, if◌then◌else◌,
  length, get_or, take, drop, same_bytes, text,
}
use esp32_monitor.Base.Options.{◌>>=◌, ◌>>◌, require}
use esp32_monitor.Json.{is_blank}
use esp32_monitor.AppModel.{MarketIndex}
use esp32_monitor.Market.Tokens.{find_token, skip_blanks, read_bounded_string}
use esp32_monitor.Market.Parser.{Reals, trim_end, convert_values, parse_decimal_text, index_of}

-- The trimmed text is an object from its first to its last byte.
abbrev pub is_braced : List ℕ → Bool
is_braced trimmed =
    not (ltb (length trimmed) 2)
    && get_or trimmed 0 0 == 123
    && get_or trimmed (length trimmed - 1) 0 == 125

-- The loop from behind "data" to the brace that opens it, and behind that.
unfoldable pub skip_to_brace : List ℕ → Option (List ℕ)
skip_to_brace [] = none
skip_to_brace (byte ∷ bytes) =
    let rest = skip_to_brace bytes in
    if byte == 123 then some bytes else if byte != 58 && not (is_blank byte) then none else rest

-- The bytes up to "picupdata", or all.
abbrev pub before_pictures : List ℕ → Option ℕ → List ℕ
before_pictures section none = section
before_pictures section (some at) = take at section

module _ (reals : Reals) where
  -- What is read between data_begin and data_end.
  unfoldable pub read_section : List ℕ → List ℕ → List ℕ → Option MarketIndex
  read_section section expected_code display_name = do
    code ← read_bounded_string section (text "code") 8
    require (same_bytes code expected_code)
    points_text ← read_bounded_string section (text "now") 32
    change_text ← read_bounded_string section (text "deltaPercent") 32
    points ← parse_decimal_text reals points_text
    change_percent ← parse_decimal_text reals change_text
    values ← convert_values reals points change_percent
    some (index_of display_name expected_code values)

  abbrev pub read_data : List ℕ → List ℕ → List ℕ → Option MarketIndex
  read_data section expected_code display_name =
      read_section (before_pictures section (find_token section (text "\"picupdata\"")))
        expected_code display_name

  -- The index, where it returns true; otherwise it is left as it is.
  unfoldable pub parse_szse : List ℕ → List ℕ → List ℕ → Option MarketIndex
  parse_szse json expected_code display_name =
      let trimmed = trim_end (skip_blanks json) in
      do
        require (is_braced trimmed)
        data_token ← find_token trimmed (text "\"data\"")
        root_status ← read_bounded_string (take data_token trimmed) (text "code") 8
        require (same_bytes root_status (text "0"))
        section ← skip_to_brace (drop (data_token + 6) trimmed)
        read_data section expected_code display_name
