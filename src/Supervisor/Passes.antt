-- ===== src/Supervisor/Passes.antt =====
-- What every pass of the supervisor's loop keeps.
use esp32_monitor.Base.{
  ℕ, ◌-◌, Bool, true, false, not, Option, none, some, List, [], ◌∷◌, ◌++◌, ◌&&◌, ◌||◌, ◌==◌, ◌!=◌,
  leb, ltb, length, if_either, sub_u32, u8, text, ℤ, pos,
}
use esp32_monitor.Privacy.{Context, is_active, heartbeat_timeout, auth_failed, poll_context}
use esp32_monitor.AppModel.{WeatherState, MarketState}
use esp32_monitor.Network.{
  NetworkEvent, NetworkEventType, event_started, event_connected, event_disconnected,
  event_retry_exhausted,
}
use esp32_monitor.BleLink.{BleEvent}
use esp32_monitor.Storage.LogPolicy.{padded}
use esp32_monitor.Worker.{WorkerEvent, updated, fetch_failed}
use esp32_monitor.Supervisor.{
  Runtime, Env, apply_privacy_actions, dispatch_privacy, turn_off, clear_data, set_touch, turn_on,
  terminate_link,
}
use esp32_monitor.Supervisor.Actions.{
  Panel, handle_ui_action, on_wifi_reconnect, on_public_refresh, on_diagnostic_snapshot,
  update_device_diagnostics, on_remote_action, send_ui_action, on_codex_task, send_codex_key_tap,
  send_codex_direction, with_snapshot, action_payload, message_action_trigger, between, send_key,
  send_joystick,
}
use esp32_monitor.Supervisor.Loop.{
  Arrivals, handle_network_event, on_network_event, handle_weather_event, handle_market_event,
  handle_each, handle_arrival, renew_diagnostics, poll_privacy, check_auth_timeout, supervisor_pass,
  is_due, is_authenticating,
}
use esp32_monitor.Supervisor.Invariants.{
  Observed, observed, IsKept, sent-Holds, handle_ble_event-Holds,
}

module _ {Node Float : Type 0} (env : Env Node) (panel : Panel Float) (P : Observed → Type 0)
    (k : IsKept env P) where
  diagnostics-Holds :
      (r : Runtime) → P (observed r) → P (observed (update_device_diagnostics env r))
  unfolding update_device_diagnostics
  diagnostics-Holds r h = h

  send_ui_action-Holds :
      (action_id : ℕ) (r : Runtime)
      → P (observed r)
      → P (observed (send_ui_action env action_id r).0)
  unfolding send_ui_action
  send_ui_action-Holds action_id r h =
      let O : Runtime × Bool → Type 0 = λ out. P (observed out.0) in
      if_either O (not (is_active r.privacy.state)) h (
        if_either O (leb 48 (length (action_payload env action_id))) h
          (sent-Holds env P k message_action_trigger 0 (action_payload env action_id) r h))

  key_tap-Holds :
      (key : List ℕ) (agent : ℤ) (r : Runtime)
      → P (observed r)
      → P (observed (send_codex_key_tap env panel key agent r).0)
  unfolding send_codex_key_tap
  key_tap-Holds key agent r h =
      let O : Runtime × Bool → Type 0 = λ out. P (observed out.0) in
      if_either O (not (send_key env panel key 1 agent r).1) h h

  direction-Holds :
      (angle : ℕ) (r : Runtime)
      → P (observed r)
      → P (observed (send_codex_direction env panel angle r).0)
  unfolding send_codex_direction
  direction-Holds angle r h =
      let O : Runtime × Bool → Type 0 = λ out. P (observed out.0) in
      if_either O (not (send_joystick env panel angle 4 r).1) h h

  on_codex_task-Holds :
      (action_id : ℕ) (r : Runtime)
      → P (observed r)
      → P (observed (on_codex_task env panel action_id r))
  unfolding on_codex_task
  on_codex_task-Holds action_id r h =
      let tapped =
        send_codex_key_tap env panel (text "AG" ++ padded 10 2 (u8 (action_id - 19)))
          (pos (u8 (action_id - 19))) r in
      let kept : P (observed tapped.0) = key_tap-Holds _ _ r h in
      if_either (λ (out : Runtime). P (observed out)) tapped.1 kept
        (send_ui_action-Holds action_id tapped.0 kept)

  on_remote_action-Holds :
      (action_id : ℕ) (r : Runtime)
      → P (observed r)
      → P (observed (on_remote_action env panel action_id r))
  unfolding on_remote_action
  on_remote_action-Holds a r h =
      let O : Runtime → Type 0 = λ out. P (observed out) in
      if_either O (between env panel 19 24 a) (on_codex_task-Holds a r h) (
        if_either O (between env panel 27 30 a || a == 33) (key_tap-Holds _ _ r h) (
          if_either O (between env panel 31 32 a) h (
            if_either O (between env panel 34 37 a) (direction-Holds _ r h) (
              if_either O (between env panel 38 39 a) h
                (if_either O (between env panel 40 41 a) h (send_ui_action-Holds a r h))))))

  with_snapshot-Holds :
      (recorded : Bool) (r : Runtime) → P (observed r) → P (observed (with_snapshot env recorded r))
  with_snapshot-Holds true r h = h
  with_snapshot-Holds false r h = h

  on_wifi_reconnect-Holds : (r : Runtime) → P (observed r) → P (observed (on_wifi_reconnect env r))
  unfolding on_wifi_reconnect
  on_wifi_reconnect-Holds r h = diagnostics-Holds _ h

  on_public_refresh-Holds : (r : Runtime) → P (observed r) → P (observed (on_public_refresh env r))
  unfolding on_public_refresh
  on_public_refresh-Holds r h =
      if_either (λ (out : Runtime). P (observed out)) r.app_state.connection.wifi_connected h h

  on_diagnostic_snapshot-Holds :
      (r : Runtime) → P (observed r) → P (observed (on_diagnostic_snapshot env r))
  unfolding on_diagnostic_snapshot
  on_diagnostic_snapshot-Holds r h = diagnostics-Holds _ (with_snapshot-Holds _ _ h)

  handle_ui_action-Holds :
      (action_id : ℕ) (r : Runtime)
      → P (observed r)
      → P (observed (handle_ui_action env panel action_id r))
  unfolding handle_ui_action
  handle_ui_action-Holds a r h =
      let O : Runtime → Type 0 = λ out. P (observed out) in
      if_either O (not (is_active r.privacy.state)) h (
        if_either O (a == 13) (on_wifi_reconnect-Holds r h) (
          if_either O (a == 14) (on_public_refresh-Holds r h) (
            if_either O (a == 15) (diagnostics-Holds r h) (
              if_either O (a == 16) (on_diagnostic_snapshot-Holds r h)
                (on_remote_action-Holds a r h)))))

  network_event-Holds :
      (type : NetworkEventType) (event : NetworkEvent) (r : Runtime)
      → P (observed r)
      → P (observed (on_network_event type event r))
  network_event-Holds event_started event r h = h
  network_event-Holds event_connected event r h = h
  network_event-Holds event_disconnected event r h = h
  network_event-Holds event_retry_exhausted event r h = h

  handle_network_event-Holds :
      (event : NetworkEvent) (r : Runtime)
      → P (observed r)
      → P (observed (handle_network_event event r))
  unfolding handle_network_event
  handle_network_event-Holds event r h = network_event-Holds event.type event r h

  weather_event-Holds :
      (event : WorkerEvent WeatherState) (r : Runtime)
      → P (observed r)
      → P (observed (handle_weather_event event r))
  unfolding handle_weather_event
  weather_event-Holds (updated weather) r h = h
  weather_event-Holds (fetch_failed status) r h = h

  market_event-Holds :
      (event : WorkerEvent MarketState) (r : Runtime)
      → P (observed r)
      → P (observed (handle_market_event event r))
  unfolding handle_market_event
  market_event-Holds (updated market) r h = h
  market_event-Holds (fetch_failed status) r h = h

  handle_each-Holds :
      {E : Type 0} (handle : E → Runtime → Runtime)
      → ((event : E) (r : Runtime) → P (observed r) → P (observed (handle event r)))
      → (events : List E) (r : Runtime) → P (observed r)
      → P (observed (handle_each handle events r))
  handle_each-Holds handle keeps [] r h = h
  handle_each-Holds handle keeps (event ∷ events) r h =
      handle_each-Holds handle keeps events (handle event r) (keeps event r h)

  renew_diagnostics-Holds : (r : Runtime) → P (observed r) → P (observed (renew_diagnostics env r))
  unfolding renew_diagnostics
  renew_diagnostics-Holds r h =
      if_either (λ (out : Runtime). P (observed out)) (is_due env r.next_diagnostics_update_ms)
        (diagnostics-Holds _ h) h

  -- A poll changes nothing, or does what a timeout of the heartbeat does.
  poll_privacy-Holds : (r : Runtime) → P (observed r) → P (observed (poll_privacy env r))
  unfolding poll_privacy poll_context dispatch_privacy apply_privacy_actions turn_off clear_data
      set_touch turn_on terminate_link
  poll_privacy-Holds r h =
      let O : Context × ℕ → Type 0 =
        λ out. P (observed (apply_privacy_actions env out.1 (record r { privacy = out.0 }))) in
      if_either O (not (is_active r.privacy.state) || r.privacy.heartbeat_timeout_ms == 0) h (
        if_either O
          (leb (sub_u32 env.now_ms r.privacy.last_heartbeat_ms) r.privacy.heartbeat_timeout_ms) h
          (k.dispatched heartbeat_timeout r h))

  check_auth_timeout-Holds :
      (r : Runtime) → P (observed r) → P (observed (check_auth_timeout env r))
  unfolding check_auth_timeout
  check_auth_timeout-Holds r h =
      if_either (λ (out : Runtime). P (observed out))
        (is_authenticating r.privacy.state
          && r.auth_started_ms != 0
          && ltb 30000 (sub_u32 env.now_ms r.auth_started_ms))
        (k.dispatched auth_failed (record r { auth_started_ms = 0 }) h) h

  arrival-Holds :
      (event : Option BleEvent) (r : Runtime)
      → P (observed r)
      → P (observed (handle_arrival env event r))
  arrival-Holds none r h = h
  arrival-Holds (some event) r h = handle_ble_event-Holds env P k event r h

-- A pass keeps what is kept by the steps before and after the event of the link.
pub supervisor_pass-Holds :
    {Node Float : Type 0} (before env : Env Node) (panel : Panel Float) (P : Observed → Type 0)
    → IsKept before P
    → IsKept env P
    → (arrivals : Arrivals) (r : Runtime) → P (observed r)
    → P (observed (supervisor_pass before env panel arrivals r))
unfolding supervisor_pass
supervisor_pass-Holds before env panel P kb k arrivals r h =
    let r1 = handle_arrival before arrivals.ble_event r in
    let h1 : P (observed r1) = arrival-Holds before panel P kb arrivals.ble_event r h in
    let r2 = handle_each (handle_ui_action env panel) arrivals.ui_actions r1 in
    let h2 : P (observed r2) =
      handle_each-Holds env panel P k (handle_ui_action env panel)
        (handle_ui_action-Holds env panel P k) arrivals.ui_actions r1 h1 in
    let r3 = handle_each handle_network_event arrivals.network_events r2 in
    let h3 : P (observed r3) =
      handle_each-Holds env panel P k handle_network_event
        (handle_network_event-Holds env panel P k) arrivals.network_events r2 h2 in
    let r4 = handle_each handle_weather_event arrivals.weather_events r3 in
    let h4 : P (observed r4) =
      handle_each-Holds env panel P k handle_weather_event (weather_event-Holds env panel P k)
        arrivals.weather_events r3 h3 in
    let r5 = handle_each handle_market_event arrivals.market_events r4 in
    let h5 : P (observed r5) =
      handle_each-Holds env panel P k handle_market_event (market_event-Holds env panel P k)
        arrivals.market_events r4 h4 in
    let r6 = renew_diagnostics env r5 in
    let h6 : P (observed r6) = renew_diagnostics-Holds env panel P k r5 h5 in
    let r7 = poll_privacy env r6 in
    let h7 : P (observed r7) = poll_privacy-Holds env panel P k r6 h6 in
    check_auth_timeout-Holds env panel P k r7 h7
