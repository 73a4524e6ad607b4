-- ===== src/Supervisor/Invariants.antt =====
-- What a runtime shows, and the steps of the supervisor that keep a property of it.
use mathlib.Core.Path.{subst}
use esp32_monitor.Base.{
  sym, ltb, take, ℕ, ◌≡◌, Bool, true, false, not, ◌!=◌, Option, none, some, List, ◌&&◌, ◌||◌, ◌==◌,
  if_either, if_cases, arith,
}
use esp32_monitor.Privacy.{
  Event, Context, ble_connected, auth_succeeded, auth_failed, heartbeat, ble_disconnected,
  mac_locked, is_active,
}
use esp32_monitor.Protocol.Codec.{bytes_at, decode_into}
use esp32_monitor.Protocol.Window.{accept_at}
use esp32_monitor.BleLink.{
  BleEvent, EventType, connected, disconnected, security_changed, frame_received, mtu_changed,
  codex_task_status, ready, subscription_changed, transport_error,
}
use esp32_monitor.BleLink.Reassembly.{is_ok, unset_frame}
use esp32_monitor.AppModel.{
  AppState, SystemState, ControlState, AiState, MediaState, ai_task_slot_count,
}
use esp32_monitor.AppAuth.Handshake.{begin, verify}
use esp32_monitor.AppAuth.{enrollment_challenge_size}
use esp32_monitor.Supervisor.{Runtime, Env, dispatch_privacy, send_protocol_message}
use esp32_monitor.Supervisor.Payloads.Services.{apply_wifi_provision_payload}
use esp32_monitor.Supervisor.Frames.{
  message_heartbeat, message_lock, message_hello, message_auth_response, message_wifi_provision,
  message_weather_config, is_succeeded, message_auth_challenge, flag_response, on_state,
  is_accepted, with_app, on_hello, on_auth_response, on_wifi_provision, on_weather_config,
  send_auth_result, apply_state_payload, handle_message, handle_protocol_frame, with_authentication,
}
use esp32_monitor.Supervisor.Events.{
  mapped, on_codex_status, on_connected, on_disconnected, on_security_changed, set_codex_status,
  handle_event, handle_ble_event,
}

-- The part of the application's state that comes from the Mac.
abbrev pub Private : Type 0
Private = SystemState × ControlState × AiState × MediaState

abbrev pub private_of : AppState → Private
private_of state = (state.system, state.control, state.ai, state.media)

-- The privacy state, the screen, the touch input, whether there is one, and the private data.
abbrev pub Observed : Type 0
Observed = Context × Bool × Bool × Bool × Private

abbrev pub observed : Runtime → Observed
observed runtime = (
  runtime.privacy,
  runtime.backlight,
  runtime.touch,
  runtime.has_touch_input,
  private_of runtime.app_state,
)

-- P is kept by what the privacy machine orders, and by private data that is written in an active
-- session.
pub record IsKept {Node : Type 0} (env : Env Node) (P : Observed → Type 0) : Type 0 where
  pub dispatched :
      (event : Event) (runtime : Runtime)
      → P (observed runtime)
      → P (observed (dispatch_privacy env event runtime))
  pub written :
      (runtime : Runtime) (state : AppState)
      → is_active runtime.privacy.state ≡ true
      → P (observed runtime)
      → P (observed (record runtime { app_state = state }))

module _ {Node : Type 0} (env : Env Node) (P : Observed → Type 0) (k : IsKept env P) where
  abbrev pub Holds : Runtime → Type 0
  Holds runtime = P (observed runtime)

  observed-send_protocol_message :
      (type flags : ℕ) (payload : List ℕ) (runtime : Runtime)
      → observed (send_protocol_message env type flags payload runtime).0 ≡ observed runtime
  unfolding send_protocol_message
  observed-send_protocol_message type flags payload runtime =
      let Q : Runtime × Bool → Type 0 = λ r. observed r.0 ≡ observed runtime in search (if_either Q)

  pub sent-Holds :
      (type flags : ℕ) (payload : List ℕ) (runtime : Runtime)
      → Holds runtime
      → Holds (send_protocol_message env type flags payload runtime).0
  sent-Holds type flags payload runtime h =
      subst P (sym (observed-send_protocol_message type flags payload runtime)) h

  on_hello-Holds :
      (event : BleEvent) (payload : List ℕ) (runtime : Runtime)
      → Holds runtime
      → Holds (on_hello env event payload runtime)
  unfolding on_hello send_auth_result
  on_hello-Holds event payload r h =
      let refused : (r' : Runtime) → Holds r' → Holds (dispatch_privacy env auth_failed r') =
        k.dispatched auth_failed in
      let Q : Runtime → Type 0 = λ r'. Holds r' in
      let allow = env.allow_app_enrollment || event.bonded && r.auth.migration_enrollment_pending in
      let (auth, challenge, result) =
        begin env.random r.auth (some payload) event.encrypted allow
          (some enrollment_challenge_size) in
      let begun = record r { auth = auth } in
      let offered =
        send_protocol_message env message_auth_challenge flag_response (bytes_at challenge) begun in
      let kept = sent-Holds message_auth_challenge flag_response (bytes_at challenge) begun h in
      if_either Q (is_succeeded result) (if_either Q offered.1 kept (refused offered.0 kept))
        (refused (send_auth_result env result false begun).0 (sent-Holds _ _ _ begun h))

  on_auth_response-Holds :
      (payload : List ℕ) (runtime : Runtime)
      → Holds runtime
      → Holds (on_auth_response env payload runtime)
  unfolding on_auth_response send_auth_result
  on_auth_response-Holds payload r h =
      let (auth, result, enrolled) = verify env.md env.nvs r.auth (some payload) in
      let answered = send_auth_result env result enrolled (record r { auth = auth }) in
      let kept : Holds answered.0 = sent-Holds _ _ _ (record r { auth = auth }) h in
      if_either (λ (r' : Runtime). Holds r') (is_succeeded result)
        (k.dispatched auth_succeeded
          (record answered.0 {
            auth_started_ms = 0;
            app_state = with_authentication answered.0.app_state;
          })
          kept)
        (k.dispatched auth_failed answered.0 kept)

  with_app-Holds :
      (applied : Option AppState) (runtime : Runtime)
      → is_active runtime.privacy.state ≡ true
      → Holds runtime
      → Holds (with_app env applied runtime)
  with_app-Holds none runtime e h = h
  with_app-Holds (some state) runtime e h = k.written runtime state e h

  on_state-Holds :
      (applied : Option AppState) (runtime : Runtime)
      → Holds runtime
      → Holds (on_state env applied runtime)
  on_state-Holds applied r h =
      if_cases (λ (r' : Runtime). Holds r') (not (is_active r.privacy.state)) (λ e. h)
        (λ e. with_app-Holds applied r (active e) h)
    where
      active : not (is_active r.privacy.state) ≡ false → is_active r.privacy.state ≡ true
      active e = ground (arith, e)

  on_wifi_provision-Holds :
      (payload : List ℕ) (runtime : Runtime)
      → Holds runtime
      → Holds (on_wifi_provision env payload runtime)
  unfolding on_wifi_provision
  on_wifi_provision-Holds payload r h =
      let (network, result) = apply_wifi_provision_payload env.cjson env.wifi payload r.network in
      if_either (λ (r' : Runtime). Holds r') (not (is_active r.privacy.state)) h
        (sent-Holds _ _ _ (record r { network = network }) h)

  on_weather_config-Holds :
      (payload : List ℕ) (runtime : Runtime)
      → Holds runtime
      → Holds (on_weather_config env payload runtime)
  unfolding on_weather_config
  on_weather_config-Holds payload r h =
      if_either (λ (r' : Runtime). Holds r') (not (is_active r.privacy.state)) h
        (sent-Holds _ _ _ r h)

  handle_message-Holds :
      (event : BleEvent) (type : ℕ) (payload : List ℕ) (runtime : Runtime)
      → Holds runtime
      → Holds (handle_message env event type payload runtime)
  unfolding handle_message
  handle_message-Holds event type payload r h =
      let Q : Runtime → Type 0 = λ r'. Holds r' in
      if_either Q (type == message_heartbeat) (k.dispatched heartbeat r h) (
        if_either Q (type == message_lock) (k.dispatched mac_locked r h) (
          if_either Q (type == message_hello) (on_hello-Holds event payload r h) (
            if_either Q (type == message_auth_response) (on_auth_response-Holds payload r h) (
              if_either Q (type == message_wifi_provision) (on_wifi_provision-Holds payload r h) (
                if_either Q (type == message_weather_config) (on_weather_config-Holds payload r h)
                  (on_state-Holds (apply_state_payload env type payload r.app_state) r h))))))

  handle_protocol_frame-Holds :
      (event : BleEvent) (runtime : Runtime)
      → Holds runtime
      → Holds (handle_protocol_frame env event runtime)
  unfolding handle_protocol_frame
  handle_protocol_frame-Holds event r h =
      let Q : Runtime → Type 0 = λ r'. Holds r' in
      let (status, frame) = decode_into (take event.frame_length event.frame) unset_frame in
      let (window, result) = accept_at r.rx_sequences frame.sequence in
      let counted = record r { rx_sequences = window } in
      if_either Q (not (is_ok status)) h (
        if_either Q (not (is_accepted result)) h
          (handle_message-Holds event frame.message_type (bytes_at frame.payload) counted h))

  on_codex_status-Holds :
      (event : BleEvent) (runtime : Runtime)
      → Holds runtime
      → Holds (on_codex_status env event runtime)
  on_codex_status-Holds event r h =
      if_cases (λ (r' : Runtime). Holds r')
        (is_active r.privacy.state && ltb event.codex_slot ai_task_slot_count)
        (λ e.
          with_app-Holds (set_codex_status event.codex_slot (mapped event.codex_status) r.app_state)
            r (active e) h)
        (λ e. h)
    where
      active :
          (is_active r.privacy.state && ltb event.codex_slot ai_task_slot_count) ≡ true
          → is_active r.privacy.state ≡ true
      active e = ground (arith, e)

  handle_event-Holds :
      (type : EventType) (event : BleEvent) (runtime : Runtime)
      → Holds runtime
      → Holds (handle_event env type event runtime)
  unfolding handle_event on_connected on_disconnected on_security_changed
  handle_event-Holds ready event r h = h
  handle_event-Holds connected event r h = k.dispatched ble_connected _ h
  handle_event-Holds disconnected event r h = k.dispatched ble_disconnected _ h
  handle_event-Holds security_changed event r h =
      if_either (λ (r' : Runtime). Holds r') (event.status != 0 || not event.encrypted)
        (k.dispatched auth_failed r h) h
  handle_event-Holds subscription_changed event r h = h
  handle_event-Holds mtu_changed event r h = h
  handle_event-Holds frame_received event r h = handle_protocol_frame-Holds event r h
  handle_event-Holds codex_task_status event r h = on_codex_status-Holds event r h
  handle_event-Holds transport_error event r h = h

  pub handle_ble_event-Holds :
      (event : BleEvent) (runtime : Runtime)
      → Holds runtime
      → Holds (handle_ble_event env event runtime)
  unfolding handle_ble_event
  handle_ble_event-Holds event runtime h = handle_event-Holds event.type event runtime h
