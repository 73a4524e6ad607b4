-- ===== src/Supervisor/Actions.antt =====
-- What the user does on the screen: handle_ui_action, with the diagnostics that it renews.
use esp32_monitor.Base.{
  ℕ, ◌+◌, ◌-◌, ◌/◌, ℤ, pos, negsuc, Bool, false, not, Option, List, [], ◌∷◌, ◌++◌, ◌&&◌, ◌||◌, leb,
  ◌==◌, ◌!=◌, if◌then◌else◌, u8, u32, text, length, bounded, c_string, sub_u32,
}
use esp32_monitor.Esp.{EspErr, is_esp_ok}
use esp32_monitor.Privacy.{is_active}
use esp32_monitor.AppModel.{revised}
use esp32_monitor.BleLink.Codex.{Channel, Floats, CodexMessage, codex_send_key, codex_send_joystick}
use esp32_monitor.Network.Control.{reconnect, get_status}
use esp32_monitor.Storage.{LogLevel, log_info, log_warning, entry_of, storage_log, queued_entries}
use esp32_monitor.Storage.LogPolicy.{content_public, padded}
use esp32_monitor.Supervisor.{Runtime, Env, weather_refresh, market_refresh, send_protocol_message}

abbrev pub message_action_trigger : ℕ
message_action_trigger = 0x0200

-- What the channel of Codex meets.
pub record Panel (Float : Type 0) : Type 0 where
  pub floats : Floats Float
  pub print : CodexMessage Float → Option (List ℕ)
  pub channel : Channel

module _ {Node : Type 0} (env : Env Node) where
  -- {"actionId":…,"gesture":"tap"}.
  abbrev pub action_payload : ℕ → List ℕ
  action_payload action_id =
      text "{\"actionId\":" ++ padded 10 1 action_id ++ text ",\"gesture\":\"tap\"}"

  unfoldable pub send_ui_action : ℕ → Runtime → Runtime × Bool
  send_ui_action action_id runtime =
      let payload = action_payload action_id in
      let (sent, went_out) = send_protocol_message env message_action_trigger 0 payload runtime in
      if not (is_active runtime.privacy.state)
      then (runtime, false)
      else if leb 48 (length payload)
      then (runtime, false)
      else (sent, went_out)

  -- The milliseconds since the last heartbeat, or UINT32_MAX where there is no session.
  abbrev pub heartbeat_age : Runtime → ℕ
  heartbeat_age runtime =
      if is_active runtime.privacy.state && runtime.privacy.last_heartbeat_ms != 0
      then sub_u32 env.now_ms runtime.privacy.last_heartbeat_ms
      else 0xFFFFFFFF

  unfoldable pub update_device_diagnostics : Runtime → Runtime
  update_device_diagnostics runtime =
      let network = get_status env.wifi runtime.network in
      let state = runtime.app_state in
      record runtime {
        app_state = revised (record state {
          device = record state.device {
            uptime_seconds = env.now_ms / 1000;
            free_internal_kb = u32 (env.free_internal / 1024);
            largest_internal_block_kb = u32 (env.largest_internal_block / 1024);
            free_psram_kb = u32 (env.free_psram / 1024);
            storage_mounted = runtime.storage.mounted;
            storage_last_error = env.error_value runtime.storage.last_error;
            log_written_entries = runtime.storage.written_entries;
            log_dropped_entries = runtime.storage.dropped_entries;
            log_queued_entries = queued_entries runtime.storage;
            wifi_reconnect_attempts = network.reconnect_attempts;
            wifi_last_disconnect_reason = network.last_reason;
            wifi_credentials_available = network.available;
            wifi_ssid = bounded 33 (c_string network.status_ssid);
            heartbeat_age_ms = heartbeat_age runtime;
          };
        });
      }

  -- desk_storage_log of a public message.
  abbrev pub log_public : LogLevel → List ℕ → List ℕ → Runtime → Runtime × Bool
  log_public level tag message runtime =
      let (storage, recorded) =
        storage_log env.log_send (entry_of level content_public tag message env.now_s env.now_ms)
          runtime.storage in
      (record runtime { storage = storage }, recorded)

  unfoldable pub on_wifi_reconnect : Runtime → Runtime
  on_wifi_reconnect runtime =
      let (network, result) = reconnect env.wifi runtime.network in
      let tried = record runtime { network = network } in
      let level : LogLevel = if is_esp_ok result then log_info else log_warning in
      update_device_diagnostics
        (log_public level (text "desk_console") (env.reconnect_text result) tried).0

  unfoldable pub on_public_refresh : Runtime → Runtime
  on_public_refresh runtime =
      let asked = record runtime {
        worker_calls = runtime.worker_calls ++ weather_refresh ∷ market_refresh ∷ [];
      } in
      if runtime.app_state.connection.wifi_connected
      then (log_public log_info (text "desk_console") (text "Manual public-data refresh requested")
          asked).0
      else runtime

  abbrev pub with_snapshot : Bool → Runtime → Runtime
  with_snapshot recorded runtime =
      let state = runtime.app_state in
      if recorded
      then record runtime {
        app_state = record state {
          device = record state.device {
            diagnostic_snapshots = u32 (state.device.diagnostic_snapshots + 1);
          };
        };
      }
      else runtime

  unfoldable pub on_diagnostic_snapshot : Runtime → Runtime
  on_diagnostic_snapshot runtime =
      let (logged, recorded) =
        log_public log_info (text "diagnostic") (env.snapshot_text runtime.app_state) runtime in
      update_device_diagnostics (with_snapshot recorded logged)

module _ {Node Float : Type 0} (env : Env Node) (panel : Panel Float) where
  -- One report to Codex, which goes out or not.
  abbrev pub with_reports : List (List ℕ) × EspErr → Runtime → Runtime × Bool
  with_reports (reports, result) runtime =
      (record runtime { codex_reports = runtime.codex_reports ++ reports }, is_esp_ok result)

  abbrev pub send_key : List ℕ → ℕ → ℤ → Runtime → Runtime × Bool
  send_key key action agent runtime =
      with_reports
        (codex_send_key panel.floats panel.print env.host panel.channel runtime.link key action
          agent)
        runtime

  abbrev pub send_joystick : ℕ → ℕ → Runtime → Runtime × Bool
  send_joystick angle distance runtime =
      with_reports
        (codex_send_joystick panel.floats panel.print env.host panel.channel runtime.link
          (panel.floats.quarters angle) (panel.floats.quarters distance))
        runtime

  unfoldable pub send_codex_key_tap : List ℕ → ℤ → Runtime → Runtime × Bool
  send_codex_key_tap key agent runtime =
      let (pressed, went_out) = send_key key 1 agent runtime in
      let released = send_key key 0 agent pressed in
      if not went_out then (pressed, false) else released

  -- The angle in quarters of a turn.
  unfoldable pub send_codex_direction : ℕ → Runtime → Runtime × Bool
  send_codex_direction angle runtime =
      let (pushed, went_out) = send_joystick angle 4 runtime in
      let centred = send_joystick angle 0 pushed in
      if not went_out then (pushed, false) else centred

  unfoldable pub on_codex_task : ℕ → Runtime → Runtime
  on_codex_task action_id runtime =
      let slot = u8 (action_id - 19) in
      let (tapped, native_sent) =
        send_codex_key_tap (text "AG" ++ padded 10 2 slot) (pos slot) runtime in
      if native_sent then tapped else (send_ui_action env action_id tapped).0

  abbrev pub codex_key : ℕ → List ℕ
  codex_key action_id =
      if action_id == 27
      then text "ACT06"
      else if action_id == 28
      then text "ACT07"
      else if action_id == 29
      then text "ACT08"
      else if action_id == 30
      then text "ACT09"
      else text "ACT12"

  abbrev pub quarter_of : ℕ → ℕ
  quarter_of action_id =
      if action_id == 35 then 0 else if action_id == 36 then 1 else if action_id == 37 then 2 else 3

  abbrev pub between : ℕ → ℕ → ℕ → Bool
  between first last action_id = leb first action_id && leb action_id last

  -- The actions of Codex and those that the Mac handles.
  unfoldable pub on_remote_action : ℕ → Runtime → Runtime
  on_remote_action action_id runtime =
      if between 19 24 action_id
      then on_codex_task action_id runtime
      else if between 27 30 action_id || action_id == 33
      then (send_codex_key_tap (codex_key action_id) (negsuc 0) runtime).0
      else if between 31 32 action_id
      then (send_key (text "ACT10") (if action_id == 31 then 1 else 0) (negsuc 0) runtime).0
      else if between 34 37 action_id
      then (send_codex_direction (quarter_of action_id) runtime).0
      else if between 38 39 action_id
      then (send_key (if action_id == 38 then text "ENC_CC" else text "ENC_CW") 2 (negsuc 0)
          runtime).0
      else if between 40 41 action_id
      then (send_key (text "ENC") (if action_id == 40 then 1 else 0) (negsuc 0) runtime).0
      else (send_ui_action env action_id runtime).0

  unfoldable pub handle_ui_action : ℕ → Runtime → Runtime
  handle_ui_action action_id runtime =
      if not (is_active runtime.privacy.state)
      then runtime
      else if action_id == 13
      then on_wifi_reconnect env runtime
      else if action_id == 14
      then on_public_refresh env runtime
      else if action_id == 15
      then update_device_diagnostics env runtime
      else if action_id == 16
      then on_diagnostic_snapshot env runtime
      else on_remote_action action_id runtime
