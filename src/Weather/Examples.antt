-- ===== src/Weather/Examples.antt =====
-- The weather worker at concrete answers, and its theorems there.
use esp32_monitor.Base.{
  ℕ, ◌+◌, ◌-◌, ◌≡◌, min, pos, negsuc, arith, refl, true, false, not, ◌&&◌, ◌||◌, Option, none, some,
  is_some, List, [], ◌∷◌, ◌++◌, length, text, same_bytes, ltb, ◌==◌, if◌then◌else◌, if_either, ℤ,
}
use esp32_monitor.Esp.{esp_ok}
use esp32_monitor.Json.{
  Cjson, Kind, Double, object, array, string, number, as_array, as_number, as_string,
}
use esp32_monitor.AppModel.{WeatherState, no_weather}
use esp32_monitor.HttpFetch.{Client, on_data}
use esp32_monitor.Worker.{WorkerEvent, Send}
use esp32_monitor.Weather.Values.{
  Numbers, copy_utf8, cut_length, parse_hour, read_condition, read_nested_number,
}
use esp32_monitor.Weather.Parser.{
  Candidate, select_all, parse_current, parse_hourly, parse_hourly_entry, parse_entries,
  parse_daily, parse_daily_entry, parse_alerts,
}
use esp32_monitor.Weather.Titles.{IsCopy, copy_utf8-IsCopy}
use esp32_monitor.Weather.Selection.{IsSelected, select_all-IsSelected}
use esp32_monitor.Weather.Ranges.{IsRounding, IsDegrees}
use esp32_monitor.Weather.Configuration.{Stored, validate_configuration}
use esp32_monitor.Weather.Task.{WeatherRound, Service}
use esp32_monitor.Weather.Runs.{
  WeatherCall, start_call, configure_call, network_call, round_of, receive_call, IsFair,
  stopped_worker, run, run-IsFair,
}

-- Two characters of three bytes each, for an array of six.
abbrev two_characters : List ℕ
two_characters = 230 ∷ 154 ∷ 180 ∷ 233 ∷ 155 ∷ 168 ∷ []

copy_utf8-IsCopy_example : IsCopy 6 two_characters (copy_utf8 6 two_characters)
copy_utf8-IsCopy_example = copy_utf8-IsCopy 6 two_characters (omega arith)

one_left : copy_utf8 6 two_characters ≡ 230 ∷ 154 ∷ 180 ∷ []
unfolding copy_utf8 cut_length
one_left = refl

abbrev alert_with : ℕ → Candidate
alert_with priority = record { headline = []; priority = priority }

abbrev entries : List (Option Candidate)
entries = none ∷ some (alert_with 2) ∷ some (alert_with 3) ∷ some (alert_with 3) ∷ []

select_all-IsSelected_example : IsSelected entries (select_all none entries)
select_all-IsSelected_example = select_all-IsSelected entries

-- A document of objects that have the same members; the nodes are numbers.
abbrev member : List ℕ → Option ℕ
member name =
    if same_bytes name (text "color") || same_bytes name (text "messageType")
    then none
    else if same_bytes name (text "value")
    then some 1
    else if same_bytes name (text "humidity") || same_bytes name (text "probability")
    then some 2
    else if same_bytes name (text "code")
    then some 3
    else if same_bytes name (text "forecastTime")
    then some 4
    else if same_bytes name (text "hours") || same_bytes name (text "days")
    then some 5
    else if same_bytes name (text "alerts")
    then some 6
    else if same_bytes name (text "headline") || same_bytes name (text "severity")
    then some 7
    else some 0

abbrev node_kind : ℕ → Kind ℕ
node_kind node =
    if node == 0
    then object []
    else if node == 1
    then number (record { negative = true; whole = 7; fraction = true; finite = true })
    else if node == 2
    then number (record { negative = false; whole = 0; fraction = true; finite = true })
    else if node == 3
    then string (some (text "305"))
    else if node == 4
    then string (some (text "2026-01-02T23:00+08:00"))
    else if node == 5
    then array (0 ∷ 0 ∷ 0 ∷ 0 ∷ 0 ∷ 0 ∷ [])
    else if node == 6
    then array (0 ∷ 0 ∷ [])
    else string (some (text "severe"))

abbrev cjson : Cjson ℕ
cjson = record {
  parse = λ json. some (0, length json);
  kind = node_kind;
  member = λ node name. member name;
}

-- It rounds to the integral part.
abbrev rounded : Double → ℤ
rounded x =
    if x.negative && not (x.whole == 0) then negsuc (min 100 x.whole - 1) else pos (min 100 x.whole)

abbrev numbers : Numbers
numbers = record {
  lround_x100 = λ x. pos (min 100 (x.whole + 40));
  lround = rounded;
  strtol = λ digits. (pos 305, length digits);
}

rounding : IsRounding numbers
rounding = record {
  ratio = λ x low high. omega arith;
  degrees = λ x low high.
      if_either IsDegrees (x.negative && not (x.whole == 0)) (omega arith) (omega arith);
}

four_parsed :
    (is_some (parse_current numbers cjson (text "{}") no_weather)
      && is_some (parse_hourly numbers cjson (text "{}") no_weather)
      && is_some (parse_daily numbers cjson (text "{}") no_weather)
      && is_some (parse_alerts numbers cjson (text "{}") no_weather))
    ≡ true
unfolding parse_current parse_hourly parse_entries parse_hourly_entry parse_daily parse_daily_entry
    parse_alerts read_nested_number read_condition parse_hour as_array as_number as_string
four_parsed = refl

abbrev client : Client
client = record {
  mutex_created = true;
  mutex_taken = true;
  buffer_allocated = true;
  client_created = true;
  headers_complete = true;
  events = on_data (text "{}") ∷ [];
  performed = esp_ok;
  status_code = 200;
}

abbrev service : Service ℕ
service = record {
  inflater = record {
    inflate = λ input size. none;
    output_allocated = true;
    decompressor_allocated = true;
  };
  two_decimals = λ x. text "31.23";
  numbers = numbers;
  cjson = cjson;
}

abbrev round : WeatherRound
round = record {
  checked_at = 1767322800;
  current_client = client;
  hourly_client = client;
  daily_client = client;
  alert_client = client;
  finished_at = 1767322801;
}

abbrev stored : Stored
stored = record {
  stored_host = none;
  stored_key = none;
  stored_longitude = none;
  stored_latitude = none;
}

abbrev place : Double
place = record { negative = false; whole = 31; fraction = true; finite = true }

configuration_accepted :
    validate_configuration (text "abc.qweatherapi.com") (text "k-1_x") place place ≡ true
unfolding validate_configuration
configuration_accepted = refl

abbrev send : Send (WorkerEvent WeatherState)
send queue event = if ltb (length queue) 3 then some (queue ++ event ∷ []) else none

abbrev calls : List WeatherCall
calls =
    start_call true stored true
    ∷ configure_call (esp_ok ∷ []) (text "abc.qweatherapi.com") (text "k-1_x") place place
    ∷ network_call true
    ∷ round_of round
    ∷ receive_call
    ∷ []

run-IsFair_example : IsFair (run service send calls stopped_worker)
run-IsFair_example = run-IsFair service send rounding calls
