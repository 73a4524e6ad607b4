-- ===== src/Weather/Fair.antt =====
-- What each answer leaves in the weather state.
use esp32_monitor.Base.{
  ℕ, suc, ◌+◌, ◌-◌, ◌*◌, ◌<◌, ◌≤◌, ◌≡◌, refl, ◌&&◌, ◌||◌, Option, none, some, List, [], ◌∷◌, ltb,
  leb, if_cases, if_either, length, get_or, take, text, All, arith, length-take,
}
use esp32_monitor.Base.Options.{Every, >>=-Every, bind-Every, require-Every}
use esp32_monitor.Json.{Double, Cjson, get_item, as_string, as_array}
use esp32_monitor.AppModel.{WeatherState, HourlyForecast, DailyForecast, hourly_forecast_count}
use esp32_monitor.Weather.Values.{
  Numbers, ratio_to_percent, temperature_to_int8, from_separator, hour_at, parse_hour, is_object,
  read_number, read_nested_number, read_condition,
}
use esp32_monitor.Weather.Ranges.{
  IsDegrees, IsRounding, ratio_to_percent_le, temperature_to_int8-IsDegrees,
}
use esp32_monitor.Weather.Titles.{copy_utf8-IsCopy}
use esp32_monitor.Weather.Parser.{
  Candidate, alert_of, select_all, candidates, parse_root, parse_current, parse_hourly_entry,
  parse_entries, parse_hourly, parse_daily_entry, parse_days, parse_daily, parse_alerts,
}

abbrev pub HasTitle : WeatherState → Type 0
HasTitle state = length state.alert.alert_title < 96

abbrev pub HasCurrent : WeatherState → Type 0
HasCurrent state =
    IsDegrees state.current_c × IsDegrees state.feels_like_c × (state.humidity_percent ≤ 100)

abbrev pub IsFairHour : HourlyForecast → Type 0
IsFairHour forecast =
    (forecast.hour < 24) × IsDegrees forecast.temperature_c × (forecast.precipitation_percent ≤ 100)

abbrev pub HasHours : WeatherState → Type 0
HasHours state = (length state.hourly ≡ 6) × All IsFairHour state.hourly

abbrev pub IsFairDay : DailyForecast → Type 0
IsFairDay forecast =
    IsDegrees forecast.low_c
    × IsDegrees forecast.high_c
    × (forecast.daily_precipitation_percent ≤ 100)

abbrev pub HasDays : WeatherState → Type 0
HasDays state = IsFairDay state.today × IsFairDay state.tomorrow

-- After the first, the second and the third answer.
abbrev pub Started : WeatherState → Type 0
Started state = HasTitle state × HasCurrent state

abbrev pub Continued : WeatherState → Type 0
Continued state = Started state × HasHours state

abbrev pub Filled : WeatherState → Type 0
Filled state = Continued state × HasDays state

alert_of_fits : (selected : Option Candidate) → length (alert_of selected).alert_title < 96
unfolding alert_of
alert_of_fits none = omega arith
alert_of_fits (some selected) =
    omega (arith, (copy_utf8-IsCopy 96 selected.headline (omega arith)).fits)

hour_at-lt : (separator : List ℕ) → Every (λ hour. hour < 24) (hour_at separator)
hour_at-lt separator =
    let P : Option ℕ → Type 0 = Every (λ hour. hour < 24) in
    let tens : ℕ = get_or separator 1 0 in
    let ones : ℕ = get_or separator 2 0 in
    if_either P (ltb tens 48 || ltb 50 tens || ltb ones 48 || ltb 57 ones) tt
      (if_cases P (ltb 23 ((tens - 48) * 10 + (ones - 48))) (λ _. tt) (λ e. ground arith))

parse_hour-lt : (timestamp : List ℕ) → Every (λ hour. hour < 24) (parse_hour timestamp)
unfolding parse_hour
parse_hour-lt timestamp =
    bind-Every (λ hour. hour < 24) (from_separator timestamp) hour_at
      λ separator. hour_at-lt separator

module _ (numbers : Numbers) (rounding : IsRounding numbers) {Node : Type 0}
    (cjson : Cjson Node) where
  degrees : (temperature : Double) → IsDegrees (temperature_to_int8 numbers temperature)
  degrees = temperature_to_int8-IsDegrees numbers rounding

  percent : (ratio : Double) → ratio_to_percent numbers ratio ≤ 100
  percent = ratio_to_percent_le numbers rounding

  pub parse_current-Started :
      (json : List ℕ) (state : WeatherState)
      → HasTitle state
      → Every Started (parse_current numbers cjson json state)
  unfolding parse_current
  parse_current-Started json state h = bind-Every Started (parse_root numbers cjson json) _ λ root.
      bind-Every Started
        (read_nested_number cjson (some root) (text "temperature") (text "value") 100 100) _
        λ t.
          bind-Every Started
            (read_nested_number cjson (some root) (text "feelsLike") (text "value") 100 100) _
            λ f. bind-Every Started (read_number cjson (some root) (text "humidity") 0 1) _ λ r.
              bind-Every Started (read_condition cjson numbers (some root)) _
                λ c. (h, (degrees t, degrees f, percent r))

  parse_hourly_entry-IsFairHour :
      (entry : Node) → Every IsFairHour (parse_hourly_entry numbers cjson entry)
  unfolding parse_hourly_entry
  parse_hourly_entry-IsFairHour entry =
      require-Every IsFairHour (is_object cjson (some entry)) _ λ _.
        bind-Every IsFairHour (as_string cjson (get_item cjson (some entry) (text "forecastTime")))
          _
          λ time.
            >>=-Every (λ hour. hour < 24) IsFairHour (parse_hour time) _ (parse_hour-lt time)
              λ hour lt.
                bind-Every IsFairHour
                  (read_nested_number cjson (some entry) (text "temperature") (text "value") 100
                    100)
                  _
                  λ t.
                    bind-Every IsFairHour
                      (read_nested_number cjson (some entry) (text "precipitation")
                        (text "probability") 0 1)
                      _
                      λ r.
                        bind-Every IsFairHour (read_condition cjson numbers (some entry)) _
                          λ c. (lt, degrees t, percent r)

  abbrev FairHours : ℕ → List HourlyForecast → Type 0
  FairHours n forecasts = (length forecasts ≡ n) × All IsFairHour forecasts

  parse_entries-FairHours :
      (entries : List Node)
      → Every (FairHours (length entries)) (parse_entries numbers cjson entries)
  unfolding parse_entries
  parse_entries-FairHours [] = (refl, tt)
  parse_entries-FairHours (entry ∷ entries) =
      >>=-Every IsFairHour (FairHours (suc (length entries)))
        (parse_hourly_entry numbers cjson entry) _ (parse_hourly_entry-IsFairHour entry)
        λ forecast fair.
          >>=-Every (FairHours (length entries)) (FairHours (suc (length entries)))
            (parse_entries numbers cjson entries) _ (parse_entries-FairHours entries)
            (λ forecasts h. (omega (arith, h.0), (fair, h.1)))

  pub parse_hourly-Continued :
      (json : List ℕ) (state : WeatherState)
      → Started state
      → Every Continued (parse_hourly numbers cjson json state)
  unfolding parse_hourly
  parse_hourly-Continued json state h =
      bind-Every Continued (parse_root numbers cjson json) _ λ root.
        bind-Every Continued (as_array cjson (get_item cjson (some root) (text "hours"))) _ λ hours.
          require-Every Continued (leb hourly_forecast_count (length hours)) _ λ enough.
            >>=-Every (FairHours (length (take 6 hours))) Continued
              (parse_entries numbers cjson (take hourly_forecast_count hours)) _
              (parse_entries-FairHours (take 6 hours))
              (λ parsed p. (h, (ground (arith, p.0, length-take 6 hours), p.1)))

  parse_daily_entry-IsFairDay :
      (entry : Node) → Every IsFairDay (parse_daily_entry numbers cjson entry)
  unfolding parse_daily_entry
  parse_daily_entry-IsFairDay entry =
      let daytime : Option Node = get_item cjson (some entry) (text "daytime") in
      require-Every IsFairDay (is_object cjson (some entry) && is_object cjson daytime) _ λ _.
        bind-Every IsFairDay
          (read_nested_number cjson (some entry) (text "temperatureMin") (text "value") 100 100) _
          λ low.
            bind-Every IsFairDay
              (read_nested_number cjson (some entry) (text "temperatureMax") (text "value") 100 100)
              _
              λ high.
                bind-Every IsFairDay
                  (read_nested_number cjson daytime (text "precipitation") (text "probability") 0 1)
                  _
                  λ r.
                    bind-Every IsFairDay (read_condition cjson numbers daytime) _
                      λ c. (degrees low, degrees high, percent r)

  parse_days_fair :
      (days : List Node)
      → Every (λ parsed. IsFairDay parsed.0 × IsFairDay parsed.1) (parse_days numbers cjson days)
  parse_days_fair [] = tt
  parse_days_fair (first ∷ []) = tt
  parse_days_fair (first ∷ second ∷ days) =
      let P : DailyForecast × DailyForecast → Type 0 =
        λ parsed. IsFairDay parsed.0 × IsFairDay parsed.1 in
      >>=-Every IsFairDay P (parse_daily_entry numbers cjson first) _
        (parse_daily_entry-IsFairDay first)
        λ today fair.
          >>=-Every IsFairDay P (parse_daily_entry numbers cjson second) _
            (parse_daily_entry-IsFairDay second) (λ tomorrow fair'. (fair, fair'))

  pub parse_daily-Filled :
      (json : List ℕ) (state : WeatherState)
      → Continued state
      → Every Filled (parse_daily numbers cjson json state)
  unfolding parse_daily
  parse_daily-Filled json state h = bind-Every Filled (parse_root numbers cjson json) _ λ root.
      bind-Every Filled (as_array cjson (get_item cjson (some root) (text "days"))) _ λ days.
        >>=-Every (λ parsed. IsFairDay parsed.0 × IsFairDay parsed.1) Filled
          (parse_days numbers cjson days) _ (parse_days_fair days) (λ parsed p. (h, p))

  pub parse_alerts-Filled :
      (json : List ℕ) (state : WeatherState)
      → Filled state
      → Every Filled (parse_alerts numbers cjson json state)
  unfolding parse_alerts
  parse_alerts-Filled json state h = bind-Every Filled (parse_root numbers cjson json) _ λ root.
      bind-Every Filled (as_array cjson (get_item cjson (some root) (text "alerts"))) _ λ alerts.
        (((alert_of_fits (select_all none (candidates numbers cjson alerts)), h.0.0.1), h.0.1), h.1)
