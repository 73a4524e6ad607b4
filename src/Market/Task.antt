-- ===== src/Market/Task.antt =====
-- components/market/market.c: the worker's task, its refresh and the calls of the supervisor. The
-- exchanges' answers and the clock are what a round meets.
use esp32_monitor.Base.{
  ℕ, ◌+◌, ◌*◌, Bool, true, false, not, ◌&&◌, ◌||◌, Option, none, some, List, [], ◌∷◌, ◌++◌, ltb,
  leb, ◌==◌, if◌then◌else◌, length, get_or, text, u32,
}
use esp32_monitor.Esp.{EspErr, esp_ok, no_mem, invalid_size, invalid_response, is_esp_ok}
use esp32_monitor.Json.{Cjson}
use esp32_monitor.AppModel.{MarketIndex, MarketState}
use esp32_monitor.HttpFetch.{Client, Inflater, http_get_json}
use esp32_monitor.Storage.LogPolicy.{padded}
use esp32_monitor.Worker.{
  and_then, WorkerEvent, updated, fetch_failed, Wait, forever, milliseconds, Send, queue_event,
}
use esp32_monitor.Market.Parser.{Reals, names, parse_sse, set}
use esp32_monitor.Market.Szse.{parse_szse}

-- tm_wday, tm_hour and tm_min.
pub record LocalTime : Type 0 where
  pub weekday : ℕ
  pub hour : ℕ
  pub minute : ℕ

-- The first second of 2025, before which the clock is not set.
abbrev pub clock_floor : ℕ
clock_floor = 1735689600

abbrev pub is_session : ℕ → Bool
is_session minute =
    leb (9 * 60 + 30) minute && leb minute (11 * 60 + 30)
    || leb (13 * 60) minute && leb minute (15 * 60)

abbrev pub is_trading_at : LocalTime → Bool
is_trading_at local_time =
    if local_time.weekday == 0 || local_time.weekday == 6
    then false
    else is_session (local_time.hour * 60 + local_time.minute)

-- With time(NULL) and what localtime_r makes of it.
unfoldable pub is_trading_time : ℕ → Option LocalTime → Bool
is_trading_time now none = false
is_trading_time now (some local_time) =
    if ltb now clock_floor then false else is_trading_at local_time

-- What a round meets: the clock at its reads, and the client of each of the three requests.
pub record Round : Type 0 where
  pub checked_at : ℕ
  pub sse_client : Client
  pub component_at : ℕ
  pub component_client : Client
  pub chinext_at : ℕ
  pub chinext_client : Client
  pub trading_at : ℕ
  pub local_time : Option LocalTime
  pub finished_at : ℕ

-- The static variables of the file, and the local ones of market_task.
pub record MarketWorker : Type 0 where
  pub event_queue : Option (List (WorkerEvent MarketState))
  pub task_created : Bool
  pub notified : ℕ
  pub network_available : Bool
  pub cached_market : MarketState
  pub wait : Wait

-- A record that is written by a call, and its result.
abbrev pub parsed_market : MarketState × Bool → MarketState × EspErr
parsed_market (state, parsed) = (state, if parsed then esp_ok else invalid_response)

abbrev pub write_slot : ℕ → MarketState → Option MarketIndex → MarketState × EspErr
write_slot slot state none = (state, invalid_response)
write_slot slot state (some index) =
    (record state { indices = set state.indices slot index }, esp_ok)

unfoldable pub szse_url : List ℕ → ℕ → List ℕ
szse_url code now =
    text "https://www.szse.cn/api/market/ssjjhq/getTimeData?marketId=1&code="
    ++ code
    ++ text "&random="
    ++ padded 10 0 (u32 now)

abbrev pub finish_market : Round → MarketState → MarketState × EspErr
finish_market round state = (
  record state {
    market_valid = true;
    trading = is_trading_time round.trading_at round.local_time;
    market_updated_at_epoch = u32 round.finished_at;
  },
  esp_ok,
)

abbrev pub component_name : List ℕ
component_name = get_or names 1 []

abbrev pub chinext_name : List ℕ
chinext_name = get_or names 2 []

module _ (send : Send (WorkerEvent MarketState)) where
  unfoldable pub queue_market_event : WorkerEvent MarketState → MarketWorker → MarketWorker
  queue_market_event event worker = record worker {
    event_queue = queue_event send event worker.event_queue;
  }

  abbrev pub trading_wait : MarketState → Wait
  trading_wait market = milliseconds (if market.trading then 60 * 1000 else 15 * 60 * 1000)

  -- After the refresh of a copy.
  abbrev pub take_refresh : MarketWorker → MarketState × EspErr → MarketWorker
  take_refresh worker (market, result) =
      if is_esp_ok result
      then queue_market_event (updated market)
          (record worker { cached_market = market; wait = trading_wait market })
      else queue_market_event (fetch_failed result)
          (record worker { wait = milliseconds (60 * 1000) })

module _ (inflater : Inflater) (reals : Reals) {Node : Type 0} (cjson : Cjson Node) where
  unfoldable pub fetch_sse : Client → MarketState → MarketState × EspErr
  fetch_sse client state =
      let (result, json) = http_get_json client inflater (8 * 1024) in
      if is_esp_ok result then parsed_market (parse_sse reals cjson json state) else (state, result)

  -- With the slot of the index that is passed.
  unfoldable pub fetch_szse : Client → ℕ → List ℕ → List ℕ → ℕ → MarketState → MarketState × EspErr
  fetch_szse client now code name slot state =
      let (result, json) = http_get_json client inflater (48 * 1024) in
      if leb 256 (length (szse_url code now))
      then (state, invalid_size)
      else if is_esp_ok result
      then write_slot slot state (parse_szse reals json code name)
      else (state, result)

  abbrev pub fetch_component : Round → MarketState → MarketState × EspErr
  fetch_component round =
      fetch_szse round.component_client round.component_at (text "399001") component_name 1

  abbrev pub fetch_chinext : Round → MarketState → MarketState × EspErr
  fetch_chinext round =
      fetch_szse round.chinext_client round.chinext_at (text "399006") chinext_name 2

  abbrev pub then_chinext : Round → MarketState → MarketState × EspErr
  then_chinext round state = and_then (fetch_chinext round state) (finish_market round)

  abbrev pub then_component : Round → MarketState → MarketState × EspErr
  then_component round state = and_then (fetch_component round state) (then_chinext round)

  -- The state after it and the result.
  unfoldable pub refresh_market : Round → MarketState → MarketState × EspErr
  refresh_market round state = and_then (fetch_sse round.sse_client state) (then_component round)

  module _ (send : Send (WorkerEvent MarketState)) where
    abbrev pub woken_round : Round → MarketWorker → MarketWorker
    woken_round round worker =
        let refreshed = take_refresh send worker (refresh_market round worker.cached_market) in
        if not worker.network_available
        then record worker { wait = forever }
        else if ltb round.checked_at clock_floor
        then record worker { wait = milliseconds 5000 }
        else refreshed

    -- A round of the task, from the end of its wait to the next; ulTaskNotifyTake resets the count.
    unfoldable pub market_round : Round → MarketWorker → MarketWorker
    market_round round worker = woken_round round (record worker { notified = 0 })

-- The calls of the supervisor. Whether the queue and the task can be created is an argument.
unfoldable pub start : Bool → Bool → MarketWorker → MarketWorker × EspErr
start queue_created created worker =
    if worker.task_created
    then (worker, esp_ok)
    else if not queue_created
    then (record worker { event_queue = none }, no_mem)
    else if not created
    then (record worker { event_queue = some []; task_created = false }, no_mem)
    else (record worker { event_queue = some []; task_created = true }, esp_ok)

unfoldable pub request_refresh : MarketWorker → MarketWorker
request_refresh worker =
    if worker.task_created then record worker { notified = u32 (worker.notified + 1) } else worker

unfoldable pub set_network_available : Bool → MarketWorker → MarketWorker
set_network_available available worker =
    let worker' = record worker { network_available = available } in
    if available then request_refresh worker' else worker'

abbrev pub receive_from :
    MarketWorker
    → Option (List (WorkerEvent MarketState))
    → MarketWorker × Option (WorkerEvent MarketState)
receive_from worker none = (worker, none)
receive_from worker (some []) = (worker, none)
receive_from worker (some (event ∷ events)) =
    (record worker { event_queue = some events }, some event)

-- xQueueReceive of an event that is there, or none in the time given.
unfoldable pub receive_event : MarketWorker → MarketWorker × Option (WorkerEvent MarketState)
receive_event worker = receive_from worker worker.event_queue
