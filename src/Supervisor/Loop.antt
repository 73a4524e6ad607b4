-- ===== src/Supervisor/Loop.antt =====
-- supervisor_task: a pass of its loop, with the events of the network and of the workers.
use esp32_monitor.Base.{
  ℕ, Bool, true, false, Option, none, some, List, [], ◌∷◌, ◌++◌, ◌&&◌, ltb, ◌!=◌, if◌then◌else◌,
  bounded, c_string, u32, ◌+◌, sub_u32,
}
use esp32_monitor.Privacy.{State, locked, authenticating, active, auth_failed, poll_context}
use esp32_monitor.AppModel.{AppState, WeatherState, MarketState, revised}
use esp32_monitor.BleLink.{BleEvent}
use esp32_monitor.Network.{
  NetworkEvent, NetworkEventType, event_started, event_connected, event_disconnected,
  event_retry_exhausted,
}
use esp32_monitor.Worker.{WorkerEvent, updated, fetch_failed}
use esp32_monitor.Supervisor.{
  Runtime, Env, weather_network, market_network, apply_privacy_actions, dispatch_privacy,
}
use esp32_monitor.Supervisor.Events.{handle_ble_event}
use esp32_monitor.Supervisor.Actions.{Panel, handle_ui_action, update_device_diagnostics}

abbrev pub application_auth_timeout_ms : ℕ
application_auth_timeout_ms = 30000

abbrev pub network_up : NetworkEvent → AppState → AppState
network_up event state = revised (record state {
  connection = record state.connection {
    wifi_connected = true;
    wifi_rssi_dbm = event.rssi_dbm;
    wifi_ipv4 = bounded 16 (c_string event.ipv4);
  };
})

abbrev pub network_down : AppState → AppState
network_down state = revised (record state {
  connection = record state.connection {
    wifi_connected = false;
    wifi_rssi_dbm = 0;
    wifi_ipv4 = [];
  };
})

-- The calls that tell both workers.
abbrev pub tell_workers : Bool → Runtime → Runtime
tell_workers available runtime = record runtime {
  worker_calls = runtime.worker_calls ++ weather_network available ∷ market_network available ∷ [];
}

abbrev pub on_network_event : NetworkEventType → NetworkEvent → Runtime → Runtime
on_network_event event_connected event runtime =
    tell_workers true (record runtime { app_state = network_up event runtime.app_state })
on_network_event event_started event runtime = runtime
on_network_event event_disconnected event runtime =
    tell_workers false (record runtime { app_state = network_down runtime.app_state })
on_network_event event_retry_exhausted event runtime =
    tell_workers false (record runtime { app_state = network_down runtime.app_state })

unfoldable pub handle_network_event : NetworkEvent → Runtime → Runtime
handle_network_event event runtime = on_network_event event.type event runtime

unfoldable pub handle_weather_event : WorkerEvent WeatherState → Runtime → Runtime
handle_weather_event (updated weather) runtime = record runtime {
  app_state = revised (record runtime.app_state { weather = weather });
}
handle_weather_event (fetch_failed status) runtime = runtime

unfoldable pub handle_market_event : WorkerEvent MarketState → Runtime → Runtime
handle_market_event (updated market) runtime = record runtime {
  app_state = revised (record runtime.app_state { market = market });
}
handle_market_event (fetch_failed status) runtime = runtime

-- What the queues give in a pass.
pub record Arrivals : Type 0 where
  pub ble_event : Option BleEvent
  pub ui_actions : List ℕ
  pub network_events : List NetworkEvent
  pub weather_events : List (WorkerEvent WeatherState)
  pub market_events : List (WorkerEvent MarketState)

abbrev pub handle_each : {E : Type 0} → (E → Runtime → Runtime) → List E → Runtime → Runtime
handle_each handle [] runtime = runtime
handle_each handle (event ∷ events) runtime = handle_each handle events (handle event runtime)

abbrev pub is_authenticating : State → Bool
is_authenticating authenticating = true
is_authenticating locked = false
is_authenticating active = false

module _ {Node : Type 0} (env : Env Node) where
  -- (int32_t)(now_ms - next) >= 0.
  abbrev pub is_due : ℕ → Bool
  is_due next = ltb (sub_u32 env.now_ms next) 0x80000000

  unfoldable pub renew_diagnostics : Runtime → Runtime
  renew_diagnostics runtime =
      if is_due runtime.next_diagnostics_update_ms
      then update_device_diagnostics env
          (record runtime { next_diagnostics_update_ms = u32 (env.now_ms + 5000) })
      else runtime

  -- apply_privacy_actions(desk_privacy_poll(&runtime.privacy, now_ms)).
  unfoldable pub poll_privacy : Runtime → Runtime
  poll_privacy runtime =
      let (privacy, actions) = poll_context runtime.privacy env.now_ms in
      apply_privacy_actions env actions (record runtime { privacy = privacy })

  unfoldable pub check_auth_timeout : Runtime → Runtime
  check_auth_timeout runtime =
      if is_authenticating runtime.privacy.state
        && runtime.auth_started_ms != 0
        && ltb application_auth_timeout_ms (sub_u32 env.now_ms runtime.auth_started_ms)
      then dispatch_privacy env auth_failed (record runtime { auth_started_ms = 0 })
      else runtime

  abbrev pub handle_arrival : Option BleEvent → Runtime → Runtime
  handle_arrival none runtime = runtime
  handle_arrival (some event) runtime = handle_ble_event env event runtime

-- A pass of the loop: `before` is what it meets up to the event of the link, `env` after it.
unfoldable pub supervisor_pass :
    {Node Float : Type 0} → Env Node → Env Node → Panel Float → Arrivals → Runtime → Runtime
supervisor_pass before env panel arrivals runtime =
    let r1 = handle_arrival before arrivals.ble_event runtime in
    let r2 = handle_each (handle_ui_action env panel) arrivals.ui_actions r1 in
    let r3 = handle_each handle_network_event arrivals.network_events r2 in
    let r4 = handle_each handle_weather_event arrivals.weather_events r3 in
    let r5 = handle_each handle_market_event arrivals.market_events r4 in
    check_auth_timeout env (poll_privacy env (renew_diagnostics env r5))
