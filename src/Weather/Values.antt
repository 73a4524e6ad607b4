-- ===== src/Weather/Values.antt =====
-- components/weather/qweather_parser.c: the values of a document. What the code takes from the C
-- library on numbers is the record Numbers.
use esp32_monitor.Base.{
  ℕ, zero, suc, ◌+◌, ◌-◌, ◌*◌, ◌%◌, Bool, true, false, not, ◌&&◌, ◌||◌, Option, none, some, List,
  [], ◌∷◌, ℤ, pos, negsuc, ltb, leb, ◌==◌, ◌!=◌, if◌then◌else◌, length, get_or, take, text, bit_and,
  u8,
}
use esp32_monitor.Base.Options.{◌>>=◌, ◌>>◌, require}
use esp32_monitor.Json.{
  Double, Cjson, is_above, is_below_minus, is_object_kind, get_item, as_number, as_string,
}
use esp32_monitor.AppModel.{WeatherCode, weather_unknown, clear, cloudy, rain, storm, snow, fog}

-- lround(x * 100.0), lround(x), and strtol(s, &end, 10): the number and the offset of its end.
pub record Numbers : Type 0 where
  pub lround_x100 : Double → ℤ
  pub lround : Double → ℤ
  pub strtol : List ℕ → ℤ × ℕ

abbrev pub whole_number : Bool → ℕ → Double
whole_number negative n = record { negative = negative; whole = n; fraction = false; finite = true }

-- A conversion to uint8_t, and to int8_t.
abbrev pub to_u8 : ℤ → ℕ
to_u8 (pos n) = u8 n
to_u8 (negsuc n) = 255 - n % 256

abbrev pub to_int8 : ℤ → ℤ
to_int8 n = let byte = to_u8 n in if ltb byte 128 then pos byte else negsuc (255 - byte)

-- fmin(high, fmax(-low, x)) for a finite x.
abbrev pub clamp : ℕ → ℕ → Double → Double
clamp low high value =
    if is_below_minus value low
    then whole_number (not (low == 0)) low
    else if is_above value high
    then whole_number false high
    else value

module _ (numbers : Numbers) where
  unfoldable pub ratio_to_percent : Double → ℕ
  ratio_to_percent ratio = to_u8 (numbers.lround_x100 (clamp 0 1 ratio))

  unfoldable pub temperature_to_int8 : Double → ℤ
  temperature_to_int8 temperature = to_int8 (numbers.lround (clamp 100 100 temperature))

-- The class of a condition code from 0 to 9999.
unfoldable pub class_of_code : ℕ → WeatherCode
class_of_code code =
    if code == 100
    then clear
    else if leb 101 code && leb code 104
    then cloudy
    else if leb 302 code && leb code 304
    then storm
    else if leb 300 code && leb code 399
    then rain
    else if leb 400 code && leb code 499
    then snow
    else if leb 500 code && leb code 515
    then fog
    else weather_unknown

abbrev pub condition_of : List ℕ → ℤ × ℕ → Option WeatherCode
condition_of digits (negsuc n, end) = none
condition_of digits (pos n, end) =
    if end == 0 || get_or digits end 0 != 0 || ltb 9999 n then none else some (class_of_code n)

-- strchr(timestamp, 'T'), with the bytes from there on.
abbrev pub from_separator : List ℕ → Option (List ℕ)
from_separator [] = none
from_separator (byte ∷ bytes) =
    let rest = from_separator bytes in if byte == 84 then some (byte ∷ bytes) else rest

abbrev pub hour_at : List ℕ → Option ℕ
hour_at separator =
    let tens = get_or separator 1 0 in
    let ones = get_or separator 2 0 in
    let parsed = (tens - 48) * 10 + (ones - 48) in
    if ltb tens 48 || ltb 50 tens || ltb ones 48 || ltb 57 ones
    then none
    else if ltb 23 parsed
    then none
    else some parsed

unfoldable pub parse_hour : List ℕ → Option ℕ
parse_hour timestamp = from_separator timestamp >>= hour_at

-- The second byte and those behind it of a character in UTF-8.
abbrev pub is_continuation : ℕ → Bool
is_continuation byte = bit_and byte 0xC0 == 0x80

-- The loop to the start of a character.
unfoldable pub cut_length : List ℕ → ℕ → ℕ
cut_length source zero = 0
cut_length source (suc length) =
    let rest = cut_length source length in
    if is_continuation (get_or source (suc length) 0) then rest else suc length

-- What stands in the destination, up to the terminator.
unfoldable pub copy_utf8 : ℕ → List ℕ → List ℕ
copy_utf8 capacity source =
    if capacity == 0
    then []
    else if leb capacity (length source)
    then take (cut_length source (capacity - 1)) source
    else source

module _ {Node : Type 0} (cjson : Cjson Node) where
  -- cJSON_IsObject.
  abbrev pub is_object : Option Node → Bool
  is_object none = false
  is_object (some node) = is_object_kind cjson (cjson.kind node)

  -- From -low to high.
  abbrev pub in_range : ℕ → ℕ → Double → Option Double
  in_range low high value =
      if not value.finite || is_below_minus value low || is_above value high
      then none
      else some value

  abbrev pub read_number : Option Node → List ℕ → ℕ → ℕ → Option Double
  read_number object name low high =
      as_number cjson (get_item cjson object name) >>= in_range low high

  unfoldable pub read_nested_number : Option Node → List ℕ → List ℕ → ℕ → ℕ → Option Double
  read_nested_number object container_name value_name low high = do
    require (is_object (get_item cjson object container_name))
    read_number (get_item cjson object container_name) value_name low high

  unfoldable pub read_condition : Numbers → Option Node → Option WeatherCode
  read_condition numbers object = do
    digits ←
        as_string cjson (get_item cjson (get_item cjson object (text "condition")) (text "code"))
    require (not (length digits == 0))
    condition_of digits (numbers.strtol digits)
