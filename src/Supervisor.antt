-- ===== src/Supervisor.antt =====
-- The supervisor task of firmware/main/app_main.c: its runtime record, the carrying out of privacy
-- actions, and the sending of messages. The record Env holds what is outside of the program and
-- the services that the supervisor calls and that are not modelled.
pub mod Payloads
pub mod Frames
pub mod Events
pub mod Actions
pub mod Loop
pub mod Invariants
pub mod Darkness
pub mod Secrecy
pub mod Values
pub mod Passes
pub mod Runs
mod Examples
use esp32_monitor.Base.{
  ℕ, ◌+◌, Bool, true, false, not, Option, none, some, List, [], ◌∷◌, ◌++◌, ◌&&◌, ◌||◌, ltb, ◌==◌, ℤ,
  ◌!=◌, if◌then◌else◌, bit_and, bit_or, u16, take, length, replicate,
}
use esp32_monitor.Esp.{EspErr, esp_ok, is_esp_ok}
use esp32_monitor.Json.{Double, Cjson}
use esp32_monitor.AppModel.{AppState, clear_private}
use esp32_monitor.Network.{NetworkState, Wifi}
use esp32_monitor.Privacy.{
  Context, Event, switch, action_backlight_on, action_backlight_off, action_touch_enable,
  action_touch_disable, action_clear_private_data, action_show_home, action_disconnect_ble,
}
use esp32_monitor.Protocol.{Status, ok, Frame, max_frame_size}
use esp32_monitor.Protocol.Codec.{encode_into}
use esp32_monitor.Protocol.Window.{SequenceWindow}
use esp32_monitor.Storage.{StorageState, LogEntry}
use esp32_monitor.BleLink.{Host, LinkState}
use esp32_monitor.BleLink.Reassembly.{is_ok}
use esp32_monitor.BleLink.Send.{Notified, send_frame}
use esp32_monitor.AppAuth.{AuthState, Md, Nvs, Random}

-- desk_weather_set_network_available, desk_weather_request_refresh and those of desk_market.
pub data WorkerCall : Type 0 where
  weather_network market_network : (available : Bool) → WorkerCall
  weather_refresh market_refresh : WorkerCall

-- desk_runtime_t with the static state of the components that the supervisor calls. `backlight` and
-- `touch` are what was last set.
pub record Runtime : Type 0 where
  pub app_state : AppState
  pub privacy : Context
  pub rx_sequences : SequenceWindow
  pub auth : AuthState
  pub link : LinkState
  pub network : NetworkState
  pub backlight : Bool
  pub touch : Bool
  pub has_touch_input : Bool
  pub terminating : Bool
  pub sent_packets : List (List ℕ)
  pub tx_sequence : ℕ
  pub auth_started_ms : ℕ
  pub next_diagnostics_update_ms : ℕ
  pub storage : StorageState
  -- The reports that went to Codex, and the calls of the workers of public data.
  pub codex_reports : List (List ℕ)
  pub worker_calls : List WorkerCall

-- What one step of the supervisor meets: the time, and the answers of what it calls.
pub record Env (Node : Type 0) : Type 0 where
  pub now_ms : ℕ
  pub host : Host
  pub notify : List ℕ → Notified
  pub md : Md
  pub nvs : Nvs
  pub random : Random
  pub cjson : Cjson Node
  pub wifi : Wifi
  -- CONFIG_DESK_ALLOW_APP_ENROLLMENT.
  pub allow_app_enrollment : Bool
  -- Whether esp_lv_adapter_lock succeeds.
  pub ui_locks : Bool
  -- Whether desk_board_backlight_set succeeds, of turning the screen off and of turning it on.
  pub backlight_goes_off : Bool
  pub backlight_goes_on : Bool
  -- desk_weather_configure_qweather of a host, a key, a longitude and a latitude.
  pub configure_qweather : List ℕ → List ℕ → Double → Double → EspErr
  -- xQueueSend to the queue of the log, and the time in seconds.
  pub log_send : List LogEntry → LogEntry → Option (List LogEntry)
  pub now_s : ℕ
  -- The free bytes of the internal memory, its largest block, and the free bytes of the PSRAM.
  pub free_internal : ℕ
  pub largest_internal_block : ℕ
  pub free_psram : ℕ
  -- The text that snprintf makes of a result, those of the two log messages, and the value of a
  -- result in the field last_error.
  pub reconnect_text : EspErr → List ℕ
  pub snapshot_text : AppState → List ℕ
  pub error_value : EspErr → ℤ
  pub result_text : EspErr → List ℕ

abbrev pub has_action : ℕ → ℕ → Bool
has_action actions action = bit_and actions action != 0

module _ {Node : Type 0} (env : Env Node) where
  -- The stages of apply_privacy_actions, in their order.
  unfoldable pub turn_off : ℕ → Runtime → Runtime
  turn_off actions runtime =
      if has_action actions action_backlight_off && env.backlight_goes_off
      then record runtime { backlight = false }
      else runtime

  unfoldable pub clear_data : ℕ → Runtime → Runtime
  clear_data actions runtime =
      if has_action actions action_clear_private_data
      then record runtime { app_state = clear_private runtime.app_state }
      else runtime

  abbrev pub changes_input : ℕ → Bool
  changes_input actions =
      has_action actions (bit_or action_touch_enable action_touch_disable)
      || has_action actions action_show_home
      || has_action actions action_clear_private_data

  unfoldable pub set_touch : ℕ → Runtime → Runtime
  set_touch actions runtime =
      if not (changes_input actions && (env.ui_locks && runtime.has_touch_input))
      then runtime
      else if has_action actions action_touch_enable
      then record runtime { touch = true }
      else if has_action actions action_touch_disable
      then record runtime { touch = false }
      else runtime

  unfoldable pub turn_on : ℕ → Runtime → Runtime
  turn_on actions runtime =
      if has_action actions action_backlight_on && env.backlight_goes_on
      then record runtime { backlight = true }
      else runtime

  unfoldable pub terminate_link : ℕ → Runtime → Runtime
  terminate_link actions runtime =
      if has_action actions action_disconnect_ble
        && runtime.link.connection_handle != env.host.no_handle
      then record runtime { terminating = true }
      else runtime

  unfoldable pub apply_privacy_actions : ℕ → Runtime → Runtime
  apply_privacy_actions actions runtime =
      terminate_link actions
        (turn_on actions (set_touch actions (clear_data actions (turn_off actions runtime))))

  -- apply_privacy_actions(desk_privacy_dispatch(&runtime.privacy, event, now_ms)).
  unfoldable pub dispatch_privacy : Event → Runtime → Runtime
  dispatch_privacy event runtime =
      let (privacy, actions) = switch event runtime.privacy env.now_ms in
      apply_privacy_actions actions (record runtime { privacy = privacy })

  -- Whether the message went out; the sequence number is taken in any case but an oversized one.
  unfoldable pub send_protocol_message : ℕ → ℕ → List ℕ → Runtime → Runtime × Bool
  send_protocol_message message_type flags payload runtime =
      let frame : Frame = record {
        flags = flags;
        message_type = message_type;
        sequence = runtime.tx_sequence;
        payload = some payload;
        payload_length = u16 (length payload);
      } in
      let (status, encoded, encoded_length) = encode_into frame (replicate max_frame_size 0) 0 in
      let counted = record runtime { tx_sequence = u16 (runtime.tx_sequence + 1) } in
      let (link, packets, result) =
        send_frame env.host env.notify runtime.link (some (take encoded_length encoded)) in
      if ltb 0xFFFF (length payload)
      then (runtime, false)
      else if not (is_ok status)
      then (counted, false)
      else (
        record counted { link = link; sent_packets = runtime.sent_packets ++ packets },
        is_esp_ok result,
      )
