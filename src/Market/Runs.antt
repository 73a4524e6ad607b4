-- ===== src/Market/Runs.antt =====
-- The worker through any sequence of rounds and calls.
use esp32_monitor.Base.{◌≤◌, ◌≡◌, Bool, true, false, none, List, [], ◌∷◌, length, All}
use esp32_monitor.Base.Options.{Every}
use esp32_monitor.Esp.{is_esp_ok}
use esp32_monitor.Json.{Cjson}
use esp32_monitor.AppModel.{MarketState, no_market}
use esp32_monitor.HttpFetch.{Inflater}
use esp32_monitor.Worker.{WorkerEvent, updated, fetch_failed, forever, Send}
use esp32_monitor.Market.Parser.{Reals}
use esp32_monitor.Market.Task.{
  Round, MarketWorker, market_round, start, request_refresh, set_network_available, receive_event,
}
use esp32_monitor.Market.Whole.{IsWhole}

-- A round of the task, or a call of the supervisor.
pub data MarketCall : Type 0 where
  round_of : (round : Round) → MarketCall
  start_call : (queue_created created : Bool) → MarketCall
  network_call : (available : Bool) → MarketCall
  refresh_call receive_call : MarketCall

-- The worker before its start.
abbrev pub stopped_worker : MarketWorker
stopped_worker = record {
  event_queue = none;
  task_created = false;
  notified = 0;
  network_available = false;
  cached_market = no_market;
  wait = forever;
}

-- A market that is handed over has all its indices, and a failure has its error.
abbrev pub IsWholeEvent : WorkerEvent MarketState → Type 0
IsWholeEvent (updated market) = IsWhole market
IsWholeEvent (fetch_failed status) = is_esp_ok status ≡ false

abbrev pub IsWholeQueue : List (WorkerEvent MarketState) → Type 0
IsWholeQueue events = (length events ≤ 3) × All IsWholeEvent events

-- The cached market has six indices, and all of them once it is valid; the queue holds at most three
-- events, all of them whole.
pub record IsSound (worker : MarketWorker) : Type 0 where
  pub six : length worker.cached_market.indices ≡ 6
  pub whole : worker.cached_market.market_valid ≡ true → IsWhole worker.cached_market
  pub queued : Every IsWholeQueue worker.event_queue

module _ (inflater : Inflater) (reals : Reals) {Node : Type 0} (cjson : Cjson Node)
    (send : Send (WorkerEvent MarketState)) where
  unfoldable pub handle_call : MarketCall → MarketWorker → MarketWorker
  handle_call (round_of round) worker = market_round inflater reals cjson send round worker
  handle_call (start_call queue_created created) worker = (start queue_created created worker).0
  handle_call (network_call available) worker = set_network_available available worker
  handle_call refresh_call worker = request_refresh worker
  handle_call receive_call worker = (receive_event worker).0

  unfoldable pub run : List MarketCall → MarketWorker → MarketWorker
  run [] worker = worker
  run (call ∷ calls) worker = run calls (handle_call call worker)
