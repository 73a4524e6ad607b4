-- ===== src/Market/Waits.antt =====
-- How long the worker waits between its rounds.
use esp32_monitor.Base.{◌*◌, ◌≤◌, ◌≡◌, true, not, if_either, if_cases, ltb, arith}
use esp32_monitor.Esp.{EspErr, is_esp_ok}
use esp32_monitor.Json.{Cjson}
use esp32_monitor.AppModel.{MarketState}
use esp32_monitor.HttpFetch.{Inflater}
use esp32_monitor.Worker.{WorkerEvent, Wait, forever, milliseconds, Send}
use esp32_monitor.Market.Parser.{Reals}
use esp32_monitor.Market.Task.{
  Round, MarketWorker, clock_floor, refresh_market, queue_market_event, take_refresh, market_round,
}

-- A time from five seconds to a quarter of an hour.
abbrev pub IsTimed : Wait → Type 0
IsTimed forever = ⊥
IsTimed (milliseconds n) = (5000 ≤ n) × (n ≤ 15 * 60 * 1000)

take_refresh-IsTimed :
    (send : Send (WorkerEvent MarketState)) (worker : MarketWorker)
    (refreshed : MarketState × EspErr)
    → IsTimed (take_refresh send worker refreshed).wait
unfolding queue_market_event
take_refresh-IsTimed send worker (market, result) =
    let P : MarketWorker → Type 0 = λ w. IsTimed w.wait in
    if_either P (is_esp_ok result) (ground arith) (omega arith)

module _ (inflater : Inflater) (reals : Reals) {Node : Type 0} (cjson : Cjson Node)
    (send : Send (WorkerEvent MarketState)) where
  -- While the network is available a round ends with a wait of five seconds to a quarter of an
  -- hour, whether the clock is set or not and whatever the exchanges answer: the next refresh
  -- needs no call.
  pub market_round-IsTimed :
      (round : Round) (worker : MarketWorker)
      → worker.network_available ≡ true
      → IsTimed (market_round inflater reals cjson send round worker).wait
  unfolding market_round
  market_round-IsTimed round worker on =
      let P : MarketWorker → Type 0 = λ w. IsTimed w.wait in
      if_cases P (not worker.network_available) (λ off. absurd (ground arith))
        λ _. if_either P (ltb round.checked_at clock_floor) (omega arith) (
          take_refresh-IsTimed send (record worker { notified = 0 })
            (refresh_market inflater reals cjson round worker.cached_market))
