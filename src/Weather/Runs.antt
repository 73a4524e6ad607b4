-- ===== src/Weather/Runs.antt =====
-- The worker through any sequence of rounds and calls.
use esp32_monitor.Base.{
  ℕ, ◌≡◌, refl, Bool, true, false, not, Option, none, some, List, [], ◌∷◌, ltb, if_cases, if_either,
  arith,
}
use esp32_monitor.Base.Options.{Every, bind-Every}
use esp32_monitor.Esp.{EspErr, is_esp_ok}
use esp32_monitor.Json.{Double}
use esp32_monitor.AppModel.{WeatherState, no_weather}
use esp32_monitor.Market.Task.{clock_floor}
use esp32_monitor.Worker.{WorkerEvent, forever, Send}
use esp32_monitor.Weather.Configuration.{
  Configuration, Stored, no_configuration, configuration_of, checked, or_none, IsUsable,
  validate_configuration, load_configuration, validate_configuration-IsUsable,
}
use esp32_monitor.Weather.Ranges.{IsRounding}
use esp32_monitor.Weather.Fair.{HasTitle, Filled}
use esp32_monitor.Weather.Refresh.{Leaves, refresh_weather-Filled}
use esp32_monitor.Weather.Task.{
  WeatherRound, WeatherWorker, Service, refresh_weather, queue_weather_event, take_weather,
  copy_runtime_state, weather_round, start, request_refresh, set_network_available,
  save_configuration, configure_qweather, receive_from, receive_event,
}

-- A round of the task, or a call of the supervisor.
pub data WeatherCall : Type 0 where
  round_of : (round : WeatherRound) → WeatherCall
  start_call : (queue_created : Bool) (stored : Stored) (created : Bool) → WeatherCall
  configure_call :
      (answers : List EspErr) (host key : List ℕ) (longitude latitude : Double) → WeatherCall
  network_call : (available : Bool) → WeatherCall
  refresh_call receive_call : WeatherCall

-- The worker before its start.
abbrev pub stopped_worker : WeatherWorker
stopped_worker = record {
  event_queue = none;
  task_created = false;
  notified = 0;
  configuration = no_configuration;
  network_available = false;
  cached_weather = no_weather;
  wait = forever;
}

-- The configuration that is used is one that may be, and the weather that is valid has all its
-- values, in their ranges.
pub record IsFair (worker : WeatherWorker) : Type 0 where
  pub usable : worker.configuration.is_valid ≡ true → IsUsable worker.configuration
  pub titled : HasTitle worker.cached_weather
  pub filled : worker.cached_weather.weather_valid ≡ true → Filled worker.cached_weather

-- The same weather and configuration.
kept :
    (worker after : WeatherWorker)
    → IsFair worker
    → after.configuration ≡ worker.configuration
    → after.cached_weather ≡ worker.cached_weather
    → IsFair after
kept worker after s c w = record {
  usable = rw c s.usable;
  titled = rw w s.titled;
  filled = rw w s.filled;
}

request_refresh-IsFair : (worker : WeatherWorker) → IsFair worker → IsFair (request_refresh worker)
unfolding request_refresh
request_refresh-IsFair worker s = if_either IsFair worker.task_created (kept worker _ s refl refl) s

checked-IsUsable :
    (loaded : Configuration) → (checked loaded).is_valid ≡ true → IsUsable (checked loaded)
checked-IsUsable loaded h = validate_configuration-IsUsable (checked loaded) h

or_none-IsUsable :
    (loaded : Option Configuration)
    → Every (λ c. c.is_valid ≡ true → IsUsable c) loaded
    → (or_none loaded).is_valid ≡ true
    → IsUsable (or_none loaded)
or_none-IsUsable none h e = cc
or_none-IsUsable (some loaded) h e = h e

load_configuration-IsUsable :
    (stored : Stored)
    → (load_configuration stored).is_valid ≡ true
    → IsUsable (load_configuration stored)
unfolding load_configuration
load_configuration-IsUsable stored =
    let P : Configuration → Type 0 = λ c. c.is_valid ≡ true → IsUsable c in
    or_none-IsUsable _ (
      bind-Every P stored.stored_host _ λ host. bind-Every P stored.stored_key _ λ key.
        bind-Every P stored.stored_longitude _ λ longitude.
          bind-Every P stored.stored_latitude _
            λ latitude. checked-IsUsable (configuration_of host key longitude latitude false))

start-IsFair :
    (queue_created : Bool) (stored : Stored) (created : Bool) (worker : WeatherWorker)
    → IsFair worker
    → IsFair (start queue_created stored created worker).0
unfolding start
start-IsFair queue_created stored created worker s =
    let P : WeatherWorker × EspErr → Type 0 = λ p. IsFair p.0 in
    if_either P worker.task_created s (
      if_either P (not queue_created) (kept worker _ s refl refl) (record {
        usable = load_configuration-IsUsable stored;
        titled = s.titled;
        filled = s.filled;
      }))

configure-IsFair :
    (answers : List EspErr) (host key : List ℕ) (longitude latitude : Double)
    (worker : WeatherWorker)
    → IsFair worker
    → IsFair (configure_qweather answers host key longitude latitude worker).0
unfolding configure_qweather
configure-IsFair answers host key longitude latitude worker s =
    let P : WeatherWorker × EspErr → Type 0 = λ p. IsFair p.0 in
    let taken : Configuration = configuration_of host key longitude latitude true in
    if_cases P (not (validate_configuration host key longitude latitude)) (λ _. s)
      λ valid. if_either P (not (is_esp_ok (save_configuration answers))) s (
        request_refresh-IsFair (record worker { configuration = taken })
          (record {
            usable = λ e. validate_configuration-IsUsable taken (ground arith);
            titled = s.titled;
            filled = s.filled;
          }))

receive_from-IsFair :
    (worker : WeatherWorker) (queue : Option (List (WorkerEvent WeatherState)))
    → IsFair worker
    → IsFair (receive_from worker queue).0
receive_from-IsFair worker none s = s
receive_from-IsFair worker (some []) s = s
receive_from-IsFair worker (some (event ∷ events)) s = kept worker _ s refl refl

module _ {Node : Type 0} (service : Service Node) (send : Send (WorkerEvent WeatherState)) where
  unfoldable pub handle_call : WeatherCall → WeatherWorker → WeatherWorker
  handle_call (round_of round) worker = weather_round service send round worker
  handle_call (start_call queue_created stored created) worker =
      (start queue_created stored created worker).0
  handle_call (configure_call answers host key longitude latitude) worker =
      (configure_qweather answers host key longitude latitude worker).0
  handle_call (network_call available) worker = set_network_available available worker
  handle_call refresh_call worker = request_refresh worker
  handle_call receive_call worker = (receive_event worker).0

  unfoldable pub run : List WeatherCall → WeatherWorker → WeatherWorker
  run [] worker = worker
  run (call ∷ calls) worker = run calls (handle_call call worker)

  module _ (rounding : IsRounding service.numbers) where
    take_weather-IsFair :
        (worker : WeatherWorker) (refreshed : WeatherState × EspErr)
        → IsFair worker
        → Leaves Filled refreshed
        → IsFair (take_weather service send worker refreshed)
    unfolding queue_weather_event
    take_weather-IsFair worker (weather, result) s h =
        if_cases IsFair (is_esp_ok result)
          (λ e. record { usable = s.usable; titled = (h e).0.0.0; filled = λ valid. h e })
          (λ e. kept worker _ s refl refl)

    handle_call-IsFair :
        (call : WeatherCall) (worker : WeatherWorker)
        → IsFair worker
        → IsFair (handle_call call worker)
    unfolding handle_call weather_round set_network_available receive_event
    handle_call-IsFair (round_of round) worker s =
        let woken : WeatherWorker = record worker { notified = 0 } in
        let s0 : IsFair woken = kept worker woken s refl refl in
        if_either IsFair (not (copy_runtime_state service send worker)) (kept worker _ s refl refl)
          (if_either IsFair (ltb round.checked_at clock_floor) (kept worker _ s refl refl) (
            take_weather-IsFair woken
              (refresh_weather service round worker.configuration worker.cached_weather) s0
              (refresh_weather-Filled service rounding round worker.configuration
                worker.cached_weather s.titled)))
    handle_call-IsFair (start_call queue_created stored created) worker s =
        start-IsFair queue_created stored created worker s
    handle_call-IsFair (configure_call answers host key longitude latitude) worker s =
        configure-IsFair answers host key longitude latitude worker s
    handle_call-IsFair (network_call available) worker s =
        let told : WeatherWorker = record worker { network_available = available } in
        let t : IsFair told = kept worker told s refl refl in
        if_either IsFair available (request_refresh-IsFair told t) t
    handle_call-IsFair refresh_call worker s = request_refresh-IsFair worker s
    handle_call-IsFair receive_call worker s = receive_from-IsFair worker worker.event_queue s

    run-IsFair_from :
        (calls : List WeatherCall) (worker : WeatherWorker)
        → IsFair worker
        → IsFair (run calls worker)
    unfolding run
    run-IsFair_from [] worker s = s
    run-IsFair_from (call ∷ calls) worker s =
        run-IsFair_from calls _ (handle_call-IsFair call worker s)

    -- Where lround gives a nearest integer: through any rounds and calls from before the start on, in
    -- any order, with any answers of the service and anything in the flash, a configuration that is
    -- valid has a host of 1 to 127 and a key of 1 to 95 of the bytes that are allowed in them; the
    -- title of the cached alert fits its array; and once the cached weather is valid, its
    -- temperatures are from -100 to 100 degrees, its percentages are at most 100, and it has six
    -- hours, each of 0 to 23.
    pub run-IsFair : (calls : List WeatherCall) → IsFair (run calls stopped_worker)
    run-IsFair calls =
        run-IsFair_from calls stopped_worker
          (record { usable = λ e. cc; titled = omega arith; filled = λ e. cc })
