-- ===== src/Weather/Task.antt =====
-- components/weather/weather.c: the worker's task, its refresh and the calls of the supervisor. The
-- service's answers and the clock are what a round meets.
use esp32_monitor.Base.{
  ℕ, ◌+◌, ◌*◌, Bool, true, not, ◌&&◌, Option, none, some, List, [], ◌∷◌, ◌++◌, ltb, leb,
  if◌then◌else◌, length, text, u32,
}
use esp32_monitor.Esp.{
  EspErr, esp_ok, no_mem, invalid_arg, invalid_size, invalid_response, is_esp_ok,
}
use esp32_monitor.Json.{Double, Cjson}
use esp32_monitor.AppModel.{WeatherState}
use esp32_monitor.HttpFetch.{Client, Inflater, http_get_json}
use esp32_monitor.Market.Task.{clock_floor}
use esp32_monitor.Worker.{
  and_then, WorkerEvent, updated, fetch_failed, Wait, forever, milliseconds, Send, queue_event,
}
use esp32_monitor.Weather.Values.{Numbers}
use esp32_monitor.Weather.Parser.{parse_current, parse_hourly, parse_daily, parse_alerts}
use esp32_monitor.Weather.Configuration.{
  Configuration, Stored, configuration_of, validate_configuration, load_configuration,
}

-- What a round meets: the clock at its two reads, and the client of each of the four requests.
pub record WeatherRound : Type 0 where
  pub checked_at : ℕ
  pub current_client : Client
  pub hourly_client : Client
  pub daily_client : Client
  pub alert_client : Client
  pub finished_at : ℕ

-- The static variables of the file, and the local ones of weather_task.
pub record WeatherWorker : Type 0 where
  pub event_queue : Option (List (WorkerEvent WeatherState))
  pub task_created : Bool
  pub notified : ℕ
  pub configuration : Configuration
  pub network_available : Bool
  pub cached_weather : WeatherState
  pub wait : Wait

abbrev pub parsed_weather : WeatherState → Option WeatherState → WeatherState × EspErr
parsed_weather state none = (state, invalid_response)
parsed_weather state (some parsed) = (parsed, esp_ok)

-- What a request of the weather needs from outside: the inflater, "%.2f", numbers and cJSON.
pub record Service (Node : Type 0) : Type 0 where
  pub inflater : Inflater
  pub two_decimals : Double → List ℕ
  pub numbers : Numbers
  pub cjson : Cjson Node

module _ {Node : Type 0} (service : Service Node) where
  unfoldable pub fetch_json : Client → Configuration → List ℕ → EspErr × List ℕ
  fetch_json client configuration path =
      let url = text "https://" ++ configuration.api_host ++ path in
      let fetched = http_get_json client service.inflater (24 * 1024) in
      if leb 320 (length url) then (invalid_size, []) else fetched

  unfoldable pub fetch_and_parse :
      Client
      → Configuration
      → List ℕ
      → (List ℕ → WeatherState → Option WeatherState)
      → WeatherState
      → WeatherState × EspErr
  fetch_and_parse client configuration path parser state =
      let (result, json) = fetch_json client configuration path in
      if is_esp_ok result then parsed_weather state (parser json state) else (state, result)

  abbrev pub path_of : Configuration → List ℕ → List ℕ → List ℕ
  path_of configuration before after =
      before
      ++ service.two_decimals configuration.latitude
      ++ 47 ∷ (service.two_decimals configuration.longitude ++ after)

  abbrev pub current_path : Configuration → List ℕ
  current_path configuration =
      path_of configuration (text "/weather/v1/current/") (text "?lang=zh&localTime=true")

  abbrev pub hourly_path : Configuration → List ℕ
  hourly_path configuration =
      path_of configuration (text "/weather/v1/hourly/") (text "?hours=6&lang=zh&localTime=true")

  abbrev pub daily_path : Configuration → List ℕ
  daily_path configuration =
      path_of configuration (text "/weather/v1/daily/") (text "?days=2&lang=zh&localTime=true")

  abbrev pub alert_path : Configuration → List ℕ
  alert_path configuration =
      path_of configuration (text "/weatheralert/v1/current/") (text "?lang=zh&localTime=true")

  -- A request with its path, which snprintf prints first.
  abbrev pub request :
      Client
      → Configuration
      → List ℕ
      → (List ℕ → WeatherState → Option WeatherState)
      → WeatherState
      → WeatherState × EspErr
  request client configuration path parser state =
      let fetched = fetch_and_parse client configuration path parser state in
      if leb 192 (length path) then (state, invalid_size) else fetched

  module _ (round : WeatherRound) (configuration : Configuration) where
    abbrev pub refresh_current : WeatherState → WeatherState × EspErr
    refresh_current =
        request round.current_client configuration (current_path configuration)
          (parse_current service.numbers service.cjson)

    abbrev pub refresh_hourly : WeatherState → WeatherState × EspErr
    refresh_hourly =
        request round.hourly_client configuration (hourly_path configuration)
          (parse_hourly service.numbers service.cjson)

    abbrev pub refresh_daily : WeatherState → WeatherState × EspErr
    refresh_daily =
        request round.daily_client configuration (daily_path configuration)
          (parse_daily service.numbers service.cjson)

    abbrev pub refresh_alerts : WeatherState → WeatherState × EspErr
    refresh_alerts =
        request round.alert_client configuration (alert_path configuration)
          (parse_alerts service.numbers service.cjson)

    -- The alerts may fail.
    abbrev pub finish_weather : WeatherState → WeatherState × EspErr
    finish_weather state = (
      record (refresh_alerts state).0 {
        weather_valid = true;
        weather_updated_at_epoch = u32 round.finished_at;
      },
      esp_ok,
    )

    abbrev pub then_daily : WeatherState → WeatherState × EspErr
    then_daily state = and_then (refresh_daily state) finish_weather

    abbrev pub then_hourly : WeatherState → WeatherState × EspErr
    then_hourly state = and_then (refresh_hourly state) then_daily

    unfoldable pub refresh_weather : WeatherState → WeatherState × EspErr
    refresh_weather state = and_then (refresh_current state) then_hourly

  module _ (send : Send (WorkerEvent WeatherState)) where
    unfoldable pub queue_weather_event : WorkerEvent WeatherState → WeatherWorker → WeatherWorker
    queue_weather_event event worker = record worker {
      event_queue = queue_event send event worker.event_queue;
    }

    -- After the refresh of a copy.
    abbrev pub take_weather : WeatherWorker → WeatherState × EspErr → WeatherWorker
    take_weather worker (weather, result) =
        if is_esp_ok result
        then queue_weather_event (updated weather)
            (record worker { cached_weather = weather; wait = milliseconds (15 * 60 * 1000) })
        else queue_weather_event (fetch_failed result)
            (record worker { wait = milliseconds (60 * 1000) })

    abbrev pub copy_runtime_state : WeatherWorker → Bool
    copy_runtime_state worker = worker.network_available && worker.configuration.is_valid

    abbrev pub woken_weather : WeatherRound → WeatherWorker → WeatherWorker
    woken_weather round worker =
        let refreshed =
          take_weather worker (refresh_weather round worker.configuration worker.cached_weather) in
        if not (copy_runtime_state worker)
        then record worker { wait = forever }
        else if ltb round.checked_at clock_floor
        then record worker { wait = milliseconds 5000 }
        else refreshed

    -- A round of the task, from the end of its wait to the next.
    unfoldable pub weather_round : WeatherRound → WeatherWorker → WeatherWorker
    weather_round round worker = woken_weather round (record worker { notified = 0 })

-- The calls of the supervisor. Whether the queue and the task can be created is an argument, and so
-- is what the flash holds.
unfoldable pub start : Bool → Stored → Bool → WeatherWorker → WeatherWorker × EspErr
start queue_created stored created worker =
    let loaded = record worker {
      event_queue = some [];
      configuration = load_configuration stored;
      task_created = created;
    } in
    if worker.task_created
    then (worker, esp_ok)
    else if not queue_created
    then (record worker { event_queue = none }, no_mem)
    else (loaded, if created then esp_ok else no_mem)

unfoldable pub request_refresh : WeatherWorker → WeatherWorker
request_refresh worker =
    if worker.task_created then record worker { notified = u32 (worker.notified + 1) } else worker

unfoldable pub set_network_available : Bool → WeatherWorker → WeatherWorker
set_network_available available worker =
    let worker' = record worker { network_available = available } in
    if available then request_refresh worker' else worker'

-- The calls of save_configuration in their order, up to the first error.
unfoldable pub save_configuration : List EspErr → EspErr
save_configuration [] = esp_ok
save_configuration (result ∷ results) =
    let rest = save_configuration results in if is_esp_ok result then rest else result

-- With what the calls of the flash answer.
unfoldable pub configure_qweather :
    List EspErr → List ℕ → List ℕ → Double → Double → WeatherWorker → WeatherWorker × EspErr
configure_qweather answers host key longitude latitude worker =
    let updated = configuration_of host key longitude latitude true in
    if not (validate_configuration host key longitude latitude)
    then (worker, invalid_arg)
    else if not (is_esp_ok (save_configuration answers))
    then (worker, save_configuration answers)
    else (request_refresh (record worker { configuration = updated }), esp_ok)

abbrev pub has_configuration : WeatherWorker → Bool
has_configuration worker = worker.configuration.is_valid

abbrev pub receive_from :
    WeatherWorker
    → Option (List (WorkerEvent WeatherState))
    → WeatherWorker × Option (WorkerEvent WeatherState)
receive_from worker none = (worker, none)
receive_from worker (some []) = (worker, none)
receive_from worker (some (event ∷ events)) =
    (record worker { event_queue = some events }, some event)

-- xQueueReceive of an event that is there, or none in the time given.
unfoldable pub receive_event : WeatherWorker → WeatherWorker × Option (WorkerEvent WeatherState)
receive_event worker = receive_from worker worker.event_queue
