-- ===== src/Weather/Refresh.antt =====
-- A refresh of the weather is all or nothing, but for the alerts.
use esp32_monitor.Base.{ℕ, ◌≡◌, true, Option, none, some, List, leb, if_cases, if_either, length}
use esp32_monitor.Base.Options.{Every}
use esp32_monitor.Esp.{EspErr, is_esp_ok}
use esp32_monitor.AppModel.{WeatherState}
use esp32_monitor.HttpFetch.{Client}
use esp32_monitor.Worker.{and_then}
use esp32_monitor.Weather.Configuration.{Configuration}
use esp32_monitor.Weather.Ranges.{IsRounding}
use esp32_monitor.Weather.Parser.{parse_current, parse_hourly, parse_daily, parse_alerts}
use esp32_monitor.Weather.Fair.{
  HasTitle, Started, Continued, Filled, parse_current-Started, parse_hourly-Continued,
  parse_daily-Filled, parse_alerts-Filled,
}
use esp32_monitor.Weather.Task.{
  WeatherRound, Service, parsed_weather, fetch_json, fetch_and_parse, request, current_path,
  hourly_path, daily_path, alert_path, refresh_current, refresh_hourly, refresh_daily,
  finish_weather, then_daily, then_hourly, refresh_weather,
}

-- P holds where the result is esp_ok.
abbrev pub Leaves : (WeatherState → Type 0) → WeatherState × EspErr → Type 0
Leaves P (state, result) = is_esp_ok result ≡ true → P state

and_then-Leaves :
    (P Q : WeatherState → Type 0) (m : WeatherState × EspErr)
    (next : WeatherState → WeatherState × EspErr)
    → Leaves P m
    → ((state : WeatherState) → P state → Leaves Q (next state))
    → Leaves Q (and_then m next)
and_then-Leaves P Q (state, result) next h k =
    if_cases (Leaves Q) (is_esp_ok result) (λ e. k state (h e)) (λ e. λ e'. cc)

parsed-Leaves :
    (P : WeatherState → Type 0) (state : WeatherState) (parsed : Option WeatherState)
    → Every P parsed
    → Leaves P (parsed_weather state parsed)
unfolding is_esp_ok
parsed-Leaves P state none h = λ e. cc
parsed-Leaves P state (some after) h = λ e. h

parsed_kept :
    (P : WeatherState → Type 0) (state : WeatherState) (parsed : Option WeatherState)
    → P state
    → Every P parsed
    → P (parsed_weather state parsed).0
parsed_kept P state none p h = p
parsed_kept P state (some after) p h = h

module _ {Node : Type 0} (service : Service Node) (rounding : IsRounding service.numbers) where
  module _ (P : WeatherState → Type 0) (client : Client) (configuration : Configuration)
      (path : List ℕ) (parser : List ℕ → WeatherState → Option WeatherState) (state : WeatherState)
      (parses : (json : List ℕ) → Every P (parser json state)) where
    request-Leaves : Leaves P (request service client configuration path parser state)
    unfolding fetch_and_parse is_esp_ok
    request-Leaves =
        let fetched : EspErr × List ℕ = fetch_json service client configuration path in
        if_either (Leaves P) (leb 192 (length path)) (λ e. cc)
          (if_cases (Leaves P) (is_esp_ok fetched.0)
            (λ e. parsed-Leaves P state (parser fetched.1 state) (parses fetched.1))
            (λ e. λ e'. cc))

    request_kept : P state → P (request service client configuration path parser state).0
    unfolding fetch_and_parse
    request_kept p =
        let Q : WeatherState × EspErr → Type 0 = λ r. P r.0 in
        let fetched : EspErr × List ℕ = fetch_json service client configuration path in
        if_either Q (leb 192 (length path)) p (
          if_either Q (is_esp_ok fetched.0)
            (parsed_kept P state (parser fetched.1 state) p (parses fetched.1)) p)

  module _ (round : WeatherRound) (configuration : Configuration) where
    finish_weather-Filled :
        (state : WeatherState)
        → Filled state
        → Leaves Filled (finish_weather service round configuration state)
    finish_weather-Filled state h e =
        request_kept Filled round.alert_client configuration (alert_path service configuration)
          (parse_alerts service.numbers service.cjson) state
          (λ json. parse_alerts-Filled service.numbers rounding service.cjson json state h) h

    pub refresh_weather-Filled :
        (state : WeatherState)
        → HasTitle state
        → Leaves Filled (refresh_weather service round configuration state)
    unfolding refresh_weather
    refresh_weather-Filled state titled =
        and_then-Leaves Started Filled (refresh_current service round configuration state)
          (then_hourly service round configuration)
          (request-Leaves Started round.current_client configuration
            (current_path service configuration) (parse_current service.numbers service.cjson) state
            (λ json.
              parse_current-Started service.numbers rounding service.cjson json state titled))
          λ s1 h1.
            and_then-Leaves Continued Filled (refresh_hourly service round configuration s1)
              (then_daily service round configuration)
              (request-Leaves Continued round.hourly_client configuration
                (hourly_path service configuration) (parse_hourly service.numbers service.cjson) s1
                (λ json. parse_hourly-Continued service.numbers rounding service.cjson json s1 h1))
              λ s2 h2.
                and_then-Leaves Filled Filled (refresh_daily service round configuration s2)
                  (finish_weather service round configuration)
                  (request-Leaves Filled round.daily_client configuration
                    (daily_path service configuration) (parse_daily service.numbers service.cjson)
                    s2
                    (λ json. parse_daily-Filled service.numbers rounding service.cjson json s2 h2))
                  (λ s3 h3. finish_weather-Filled s3 h3)
