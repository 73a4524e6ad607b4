-- ===== src/Supervisor/Frames.antt =====
-- handle_protocol_frame: what each message does.
use esp32_monitor.Base.{
  ℕ, Bool, true, false, not, Option, none, some, List, [], ◌∷◌, ◌&&◌, ◌||◌, ◌==◌, if◌then◌else◌,
  bit_or, take,
}
use esp32_monitor.Esp.{EspErr, invalid_arg, is_esp_ok}
use esp32_monitor.Privacy.{is_active, auth_succeeded, auth_failed, heartbeat, mac_locked}
use esp32_monitor.Protocol.Codec.{decode_into, bytes_at}
use esp32_monitor.Protocol.Window.{SequenceResult, accepted, accept_at}
use esp32_monitor.BleLink.{BleEvent}
use esp32_monitor.BleLink.Reassembly.{is_ok, unset_frame}
use esp32_monitor.AppAuth.{
  ResultCode, failed, succeeded, enrollment_required, enrollment_closed, invalid_request,
  storage_failed, payload_version, enrollment_challenge_size,
}
use esp32_monitor.AppAuth.Handshake.{begin, verify}
use esp32_monitor.AppModel.{AppState, revised}
use esp32_monitor.Supervisor.Payloads.States.{
  apply_system_state_payload, apply_control_layout_payload, apply_media_state_payload,
}
use esp32_monitor.Supervisor.Payloads.Agents.{
  apply_ai_state_payload, apply_ai_tasks_payload, apply_claude_tasks_payload,
}
use esp32_monitor.Supervisor.Payloads.Services.{
  apply_wifi_provision_payload, apply_weather_config_payload,
}
use esp32_monitor.Supervisor.{Runtime, Env, dispatch_privacy, send_protocol_message}

abbrev pub message_hello : ℕ
message_hello = 0x0001

abbrev pub message_auth_challenge : ℕ
message_auth_challenge = 0x0002

abbrev pub message_auth_response : ℕ
message_auth_response = 0x0003

abbrev pub message_auth_result : ℕ
message_auth_result = 0x0004

abbrev pub message_heartbeat : ℕ
message_heartbeat = 0x0005

abbrev pub message_lock : ℕ
message_lock = 0x0006

abbrev pub message_wifi_provision : ℕ
message_wifi_provision = 0x0300

abbrev pub message_wifi_result : ℕ
message_wifi_result = 0x0301

abbrev pub message_weather_config : ℕ
message_weather_config = 0x0310

abbrev pub message_weather_config_result : ℕ
message_weather_config_result = 0x0311

abbrev pub flag_response : ℕ
flag_response = 1

abbrev pub flag_error : ℕ
flag_error = 2

abbrev pub message_system_state : ℕ
message_system_state = 0x0100

abbrev pub message_control_layout : ℕ
message_control_layout = 0x0110

abbrev pub message_ai_state : ℕ
message_ai_state = 0x0120

abbrev pub message_ai_tasks : ℕ
message_ai_tasks = 0x0121

abbrev pub message_ai_claude_tasks : ℕ
message_ai_claude_tasks = 0x0122

abbrev pub message_media_state : ℕ
message_media_state = 0x0130

abbrev pub code_of : ResultCode → ℕ
code_of failed = 0
code_of succeeded = 1
code_of enrollment_required = 2
code_of enrollment_closed = 3
code_of invalid_request = 4
code_of storage_failed = 5

abbrev pub is_succeeded : ResultCode → Bool
is_succeeded succeeded = true
is_succeeded _ = false

abbrev pub is_accepted : SequenceResult → Bool
is_accepted accepted = true
is_accepted _ = false

-- What a success of the authentication writes.
abbrev pub with_authentication : AppState → AppState
with_authentication state = revised (record state {
  connection = record state.connection { ble_connected = true; mac_authenticated = true };
})

module _ {Node : Type 0} (env : Env Node) where
  unfoldable pub send_auth_result : ResultCode → Bool → Runtime → Runtime × Bool
  send_auth_result result enrolled runtime =
      send_protocol_message env message_auth_result
        (bit_or flag_response (if is_succeeded result then 0 else flag_error))
        (payload_version ∷ code_of result ∷ (if enrolled then 1 else 0) ∷ []) runtime

  unfoldable pub on_hello : BleEvent → List ℕ → Runtime → Runtime
  on_hello event payload runtime =
      let allow =
        env.allow_app_enrollment || event.bonded && runtime.auth.migration_enrollment_pending in
      let (auth, challenge, result) =
        begin env.random runtime.auth (some payload) event.encrypted allow
          (some enrollment_challenge_size) in
      let begun = record runtime { auth = auth } in
      let (offered, sent) =
        send_protocol_message env message_auth_challenge flag_response (bytes_at challenge) begun in
      if is_succeeded result
      then if sent then offered else dispatch_privacy env auth_failed offered
      else dispatch_privacy env auth_failed (send_auth_result result false begun).0

  unfoldable pub on_auth_response : List ℕ → Runtime → Runtime
  on_auth_response payload runtime =
      let (auth, result, enrolled) = verify env.md env.nvs runtime.auth (some payload) in
      let answered = (send_auth_result result enrolled (record runtime { auth = auth })).0 in
      if is_succeeded result
      then dispatch_privacy env auth_succeeded (record answered {
        auth_started_ms = 0;
        app_state = with_authentication answered.app_state;
      })
      else dispatch_privacy env auth_failed answered

  -- What a handler makes of the application's state, if it takes the payload.
  abbrev pub with_app : Option AppState → Runtime → Runtime
  with_app none runtime = runtime
  with_app (some app_state) runtime = record runtime { app_state = app_state }

  abbrev pub on_state : Option AppState → Runtime → Runtime
  on_state applied runtime =
      if not (is_active runtime.privacy.state) then runtime else with_app applied runtime

  abbrev pub result_of : Option EspErr → EspErr
  result_of none = invalid_arg
  result_of (some result) = result

  -- send_wifi_result and send_weather_config_result, by the type of the message.
  abbrev pub send_result : ℕ → EspErr → Runtime → Runtime
  send_result type result runtime =
      (send_protocol_message env type
        (bit_or flag_response (if is_esp_ok result then 0 else flag_error)) (env.result_text result)
        runtime).0

  unfoldable pub on_wifi_provision : List ℕ → Runtime → Runtime
  on_wifi_provision payload runtime =
      let (network, result) =
        apply_wifi_provision_payload env.cjson env.wifi payload runtime.network in
      if not (is_active runtime.privacy.state)
      then runtime
      else send_result message_wifi_result (result_of result) (record runtime { network = network })

  unfoldable pub on_weather_config : List ℕ → Runtime → Runtime
  on_weather_config payload runtime =
      if not (is_active runtime.privacy.state)
      then runtime
      else send_result message_weather_config_result
          (result_of (apply_weather_config_payload env.cjson env.configure_qweather payload))
          runtime

  -- The payload handler of a message with a state, with the application's state before it.
  unfoldable pub apply_state_payload : ℕ → List ℕ → AppState → Option AppState
  apply_state_payload type payload state =
      if type == message_system_state
      then apply_system_state_payload env.cjson payload state
      else if type == message_control_layout
      then apply_control_layout_payload env.cjson payload state
      else if type == message_ai_state
      then apply_ai_state_payload env.cjson payload state
      else if type == message_ai_claude_tasks
      then apply_claude_tasks_payload env.cjson payload state
      else if type == message_ai_tasks
      then apply_ai_tasks_payload env.cjson payload state
      else if type == message_media_state
      then apply_media_state_payload env.cjson payload state
      else none

  -- The switch on the type of a message, with a frame that was decoded and is new.
  unfoldable pub handle_message : BleEvent → ℕ → List ℕ → Runtime → Runtime
  unfolding on_hello on_auth_response send_auth_result on_wifi_provision on_weather_config
  handle_message event type payload runtime =
      if type == message_heartbeat
      then dispatch_privacy env heartbeat runtime
      else if type == message_lock
      then dispatch_privacy env mac_locked runtime
      else if type == message_hello
      then on_hello event payload runtime
      else if type == message_auth_response
      then on_auth_response payload runtime
      else if type == message_wifi_provision
      then on_wifi_provision payload runtime
      else if type == message_weather_config
      then on_weather_config payload runtime
      else on_state (apply_state_payload type payload runtime.app_state) runtime

  unfoldable pub handle_protocol_frame : BleEvent → Runtime → Runtime
  unfolding handle_message
  handle_protocol_frame event runtime =
      let (status, frame) = decode_into (take event.frame_length event.frame) unset_frame in
      let (window, result) = accept_at runtime.rx_sequences frame.sequence in
      let counted = record runtime { rx_sequences = window } in
      if not (is_ok status)
      then runtime
      else if not (is_accepted result)
      then counted
      else handle_message event frame.message_type (bytes_at frame.payload) counted
