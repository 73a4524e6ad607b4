-- ===== src/Weather/Parser.antt =====
-- components/weather/qweather_parser.c: the four answers of QWeather. `none` is false, on which the
-- state stays as it is.
use esp32_monitor.Base.{
  ℕ, Bool, true, false, not, ◌&&◌, ◌||◌, Option, none, some, List, [], ◌∷◌, ltb, leb, ◌==◌,
  if◌then◌else◌, length, take, text, same_bytes,
}
use esp32_monitor.Base.Options.{◌>>=◌, ◌>>◌, require}
use esp32_monitor.Json.{Cjson, get_item, as_string, as_array, whole_object}
use esp32_monitor.AppModel.{
  WeatherState, HourlyForecast, DailyForecast, WeatherAlert, AlertLevel, blue, yellow, orange, red,
  no_alert, hourly_forecast_count,
}
use esp32_monitor.Weather.Values.{
  Numbers, ratio_to_percent, temperature_to_int8, parse_hour, copy_utf8, is_object, read_number,
  read_nested_number, read_condition,
}

abbrev pub title_size : ℕ
title_size = 96

-- By the strings that stand for a level, in the order of the tests.
abbrev pub priority_of_color : List ℕ → Option ℕ
priority_of_color code =
    if same_bytes code (text "red") || same_bytes code (text "purple")
    then some 4
    else if same_bytes code (text "orange") || same_bytes code (text "amber")
    then some 3
    else if same_bytes code (text "yellow")
    then some 2
    else if same_bytes code (text "blue")
    then some 1
    else none

abbrev pub priority_of_severity : Option (List ℕ) → ℕ
priority_of_severity none = 1
priority_of_severity (some severity) =
    if same_bytes severity (text "extreme")
    then 4
    else if same_bytes severity (text "severe")
    then 3
    else if same_bytes severity (text "moderate")
    then 2
    else 1

abbrev pub or_severity : Option (List ℕ) → Option ℕ → ℕ
or_severity severity none = priority_of_severity severity
or_severity severity (some priority) = priority

unfoldable pub level_of_priority : ℕ → AlertLevel
level_of_priority priority =
    if leb 4 priority
    then red
    else if priority == 3
    then orange
    else if priority == 2
    then yellow
    else blue

-- An entry that counts, with its headline and its priority.
pub record Candidate : Type 0 where
  pub headline : List ℕ
  pub priority : ℕ

-- One turn of the loop: what is selected, and an entry that may count.
unfoldable pub select : Option Candidate → Option Candidate → Option Candidate
select selected none = selected
select none (some entry) = some entry
select (some selected) (some entry) =
    some (if ltb selected.priority entry.priority then entry else selected)

unfoldable pub select_all : Option Candidate → List (Option Candidate) → Option Candidate
select_all selected [] = selected
select_all selected (entry ∷ entries) = select_all (select selected entry) entries

unfoldable pub alert_of : Option Candidate → WeatherAlert
alert_of none = no_alert
alert_of (some selected) = record {
  alert_active = true;
  level = level_of_priority selected.priority;
  alert_title = copy_utf8 title_size selected.headline;
}

abbrev pub is_cancelled : Option (List ℕ) → Bool
is_cancelled none = false
is_cancelled (some code) = same_bytes code (text "cancel")

module _ (numbers : Numbers) {Node : Type 0} (cjson : Cjson Node) where
  abbrev pub parse_root : List ℕ → Option Node
  parse_root json = if length json == 0 then none else whole_object cjson json (cjson.parse json)

  unfoldable pub parse_current : List ℕ → WeatherState → Option WeatherState
  parse_current json state = do
    root ← parse_root json
    temperature ← read_nested_number cjson (some root) (text "temperature") (text "value") 100 100
    feels_like ← read_nested_number cjson (some root) (text "feelsLike") (text "value") 100 100
    humidity ← read_number cjson (some root) (text "humidity") 0 1
    weather_code ← read_condition cjson numbers (some root)
    some (record state {
      current_c = temperature_to_int8 numbers temperature;
      feels_like_c = temperature_to_int8 numbers feels_like;
      humidity_percent = ratio_to_percent numbers humidity;
      current_code = weather_code;
    })

  unfoldable pub parse_hourly_entry : Node → Option HourlyForecast
  parse_hourly_entry entry = do
    require (is_object cjson (some entry))
    forecast_time ← as_string cjson (get_item cjson (some entry) (text "forecastTime"))
    hour ← parse_hour forecast_time
    temperature ← read_nested_number cjson (some entry) (text "temperature") (text "value") 100 100
    probability ←
        read_nested_number cjson (some entry) (text "precipitation") (text "probability") 0 1
    code ← read_condition cjson numbers (some entry)
    some (record {
      hour = hour;
      temperature_c = temperature_to_int8 numbers temperature;
      precipitation_percent = ratio_to_percent numbers probability;
      code = code;
    })

  -- The loop, on the entries that it reads.
  unfoldable pub parse_entries : List Node → Option (List HourlyForecast)
  parse_entries [] = some []
  parse_entries (entry ∷ entries) = do
    forecast ← parse_hourly_entry entry
    forecasts ← parse_entries entries
    some (forecast ∷ forecasts)

  unfoldable pub parse_hourly : List ℕ → WeatherState → Option WeatherState
  parse_hourly json state = do
    root ← parse_root json
    hours ← as_array cjson (get_item cjson (some root) (text "hours"))
    require (leb hourly_forecast_count (length hours))
    parsed ← parse_entries (take hourly_forecast_count hours)
    some (record state { hourly = parsed })

  unfoldable pub parse_daily_entry : Node → Option DailyForecast
  parse_daily_entry entry =
      let daytime = get_item cjson (some entry) (text "daytime") in
      do
        require (is_object cjson (some entry) && is_object cjson daytime)
        low ← read_nested_number cjson (some entry) (text "temperatureMin") (text "value") 100 100
        high ← read_nested_number cjson (some entry) (text "temperatureMax") (text "value") 100 100
        probability ←
            read_nested_number cjson daytime (text "precipitation") (text "probability") 0 1
        code ← read_condition cjson numbers daytime
        some (record {
          low_c = temperature_to_int8 numbers low;
          high_c = temperature_to_int8 numbers high;
          daily_precipitation_percent = ratio_to_percent numbers probability;
          daily_code = code;
        })

  -- The first two of the days.
  abbrev pub parse_days : List Node → Option (DailyForecast × DailyForecast)
  parse_days (first ∷ second ∷ days) = do
    today ← parse_daily_entry first
    tomorrow ← parse_daily_entry second
    some (today, tomorrow)
  parse_days _ = none

  abbrev pub with_days : WeatherState → DailyForecast × DailyForecast → WeatherState
  with_days state (first, second) = record state { today = first; tomorrow = second }

  unfoldable pub parse_daily : List ℕ → WeatherState → Option WeatherState
  parse_daily json state = do
    root ← parse_root json
    days ← as_array cjson (get_item cjson (some root) (text "days"))
    parsed ← parse_days days
    some (with_days state parsed)

  unfoldable pub alert_priority : Node → ℕ
  alert_priority alert =
      or_severity (as_string cjson (get_item cjson (some alert) (text "severity"))) (
        as_string cjson (get_item cjson (get_item cjson (some alert) (text "color")) (text "code"))
        >>= priority_of_color)

  -- `none` is an entry that the loop passes over.
  unfoldable pub candidate_of : Node → Option Candidate
  candidate_of entry =
      let message_code =
        get_item cjson (get_item cjson (some entry) (text "messageType")) (text "code") in
      do
        require (is_object cjson (some entry))
        headline ← as_string cjson (get_item cjson (some entry) (text "headline"))
        require (not (is_cancelled (as_string cjson message_code)))
        some (record { headline = headline; priority = alert_priority entry })

  abbrev pub candidates : List Node → List (Option Candidate)
  candidates [] = []
  candidates (entry ∷ entries) = candidate_of entry ∷ candidates entries

  unfoldable pub parse_alerts : List ℕ → WeatherState → Option WeatherState
  parse_alerts json state = do
    root ← parse_root json
    alerts ← as_array cjson (get_item cjson (some root) (text "alerts"))
    some (record state { alert = alert_of (select_all none (candidates alerts)) })
