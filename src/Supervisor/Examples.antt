-- ===== src/Supervisor/Examples.antt =====
-- The supervisor at a concrete runtime, and its theorems there.
use esp32_monitor.Base.{
  ℕ, pos, arith, ◌≡◌, refl, Bool, true, false, Option, none, some, List, [], ◌∷◌, ◌++◌, replicate,
  text, leb, inl,
}
use esp32_monitor.Esp.{esp_ok}
use esp32_monitor.Json.{Kind, object, number, as_number}
use esp32_monitor.AppModel.{AppState, init, no_system, revised, clear_private}
use esp32_monitor.Network.Steps.{initial_network}
use esp32_monitor.Storage.{initial_storage}
use esp32_monitor.Privacy.{active, switch}
use esp32_monitor.BleLink.{BleEvent, disconnected, event_of, initial_link}
use esp32_monitor.BleLink.Send.{sent}
use esp32_monitor.Supervisor.{
  Runtime, Env, apply_privacy_actions, dispatch_privacy, turn_off, clear_data, set_touch, turn_on,
  terminate_link,
}
use esp32_monitor.Supervisor.Actions.{Panel}
use esp32_monitor.Supervisor.Events.{handle_ble_event, handle_event, on_disconnected}
use esp32_monitor.Supervisor.Darkness.{Answers, IsDark}
use esp32_monitor.Supervisor.Secrecy.{IsSecret}
use esp32_monitor.Supervisor.Runs.{Pass, run_passes, run_passes-IsDark, run_passes-IsSecret}
use esp32_monitor.Supervisor.Frames.{apply_state_payload}
use esp32_monitor.Supervisor.Payloads.{
  json_depth_within_limit, scan_within_limit, parse_json_object, json_read_u32,
}
use esp32_monitor.Supervisor.Payloads.States.{system_of, read_system, apply_system_state_payload}
use esp32_monitor.Supervisor.Payloads.Depth.{nesting, outside, json_depth_within_limit-nesting}
use esp32_monitor.Supervisor.Payloads.Ranges.{InRange}
use esp32_monitor.Supervisor.Values.{apply_state_payload-InRange}

-- A document of four bytes is a system state, and no other is a document.
abbrev parse : List ℕ → Option (Bool × ℕ)
parse (a ∷ b ∷ c ∷ d ∷ []) = some (true, 4)
parse _ = none

abbrev node_kind : Bool → Kind Bool
node_kind true = object []
node_kind false = number (record { negative = false; whole = 42; fraction = false; finite = true })

abbrev env : Env Bool
env = record {
  now_ms = 5000;
  host = record {
    queue_send = λ queue event. some (queue ++ event ∷ []);
    to_flat = λ packet. some packet;
    no_handle = 0xFFFF;
  };
  notify = λ packet. sent;
  md = record { hmac = λ key parts. none };
  nvs = record { set_blob = λ key. true; erase_key = true; commit = true };
  random = record { key = replicate 32 9; nonce = replicate 16 5; session = replicate 8 6 };
  allow_app_enrollment = false;
  ui_locks = true;
  backlight_goes_off = true;
  backlight_goes_on = true;
  cjson = record { parse = parse; kind = node_kind; member = λ node name. some false };
  wifi = record {
    queue_send = λ queue event. some (queue ++ event ∷ []);
    timer_starts = true;
    connect = esp_ok;
    disconnect = esp_ok;
    set_config = λ configuration. esp_ok;
    config_readable = true;
    ap_rssi = none;
    ip_text = λ address. [];
  };
  configure_qweather = λ host key longitude latitude. esp_ok;
  result_text = λ result. [];
  log_send = λ queue entry. some (queue ++ entry ∷ []);
  now_s = 0;
  free_internal = 0;
  largest_internal_block = 0;
  free_psram = 0;
  reconnect_text = λ result. [];
  snapshot_text = λ state. [];
  error_value = λ result. pos 0;
}

-- An active session.
abbrev running_session : Runtime
running_session = record {
  privacy = record { state = active; heartbeat_timeout_ms = 6000; last_heartbeat_ms = 4000 };
  rx_sequences = record { newest_sequence = 9; seen_bitmap = 1; initialized = true };
  auth = record {
    initialized = true;
    has_shared_key = true;
    migration_enrollment_pending = false;
    challenge_active = false;
    pending_enrollment = false;
    shared_key = replicate 32 1;
    pending_key = replicate 32 0;
    client_nonce = replicate 16 0;
    device_nonce = replicate 16 0;
    session_id = replicate 8 0;
  };
  link = initial_link 0xFFFF;
  app_state = record init {
    system = record no_system { system_valid = true; cpu_x10_percent = 300 };
  };
  network = initial_network (record { ssid = []; password = [] });
  storage = initial_storage;
  codex_reports = [];
  worker_calls = [];
  next_diagnostics_update_ms = 0;
  backlight = true;
  touch = true;
  has_touch_input = true;
  terminating = false;
  sent_packets = [];
  tx_sequence = 3;
  auth_started_ms = 0;
}

abbrev link_down : BleEvent
link_down = event_of (initial_link 0xFFFF) disconnected

screen_off : (handle_ble_event env link_down running_session).backlight ≡ false
unfolding handle_ble_event handle_event on_disconnected dispatch_privacy switch
    apply_privacy_actions turn_off clear_data set_touch turn_on terminate_link
screen_off = refl

data_gone : (handle_ble_event env link_down running_session).app_state.system ≡ no_system
unfolding handle_ble_event handle_event on_disconnected dispatch_privacy switch
    apply_privacy_actions turn_off clear_data set_touch turn_on terminate_link clear_private
data_gone = refl

abbrev panel : Panel (Unit {0})
panel = record {
  floats = record {
    is_finite = λ f. true;
    is_below_0 = λ f. false;
    is_above_1 = λ f. false;
    quarters = λ n. tt;
  };
  print = λ message. some [];
  channel = record {
    input_registered = true;
    semaphore_taken = true;
    link_in_round = λ round link. link;
    notify_report = λ round report. sent;
  };
}

-- The link goes down, then a pass with an action of the user and nothing else.
abbrev passes : List (Pass Bool (Unit {0}))
passes =
    record {
      host_task = λ link. link;
      network_events = λ network. network;
      log_task = λ storage. storage;
      before = env;
      after = env;
      panel = panel;
      arrivals = record {
        ble_event = some link_down;
        ui_actions = 13 ∷ [];
        network_events = [];
        weather_events = [];
        market_events = [];
      };
    }
    ∷ record {
      host_task = λ link. link;
      network_events = λ network. network;
      log_task = λ storage. storage;
      before = env;
      after = env;
      panel = panel;
      arrivals = record {
        ble_event = none;
        ui_actions = 20 ∷ [];
        network_events = [];
        weather_events = [];
        market_events = [];
      };
    }
    ∷ []

env-Answers : Answers env
env-Answers = record { locks = refl; goes_off = refl }

run_passes-IsDark_example : IsDark (run_passes passes running_session)
run_passes-IsDark_example =
    run_passes-IsDark passes running_session
      ((env-Answers, env-Answers), ((env-Answers, env-Answers), tt)) (λ e. ground (arith, e), refl)

run_passes-IsSecret_example : IsSecret (run_passes passes running_session)
run_passes-IsSecret_example =
    run_passes-IsSecret passes running_session (λ e. absurd (ground (arith, e)))

json_depth_within_limit-nesting_example :
    json_depth_within_limit (text "{[]}") 1 ≡ leb (nesting outside 0 (text "{[]}")) 1
json_depth_within_limit-nesting_example = json_depth_within_limit-nesting (text "{[]}") 1

too_deep : json_depth_within_limit (text "{[]}") 1 ≡ false
unfolding json_depth_within_limit scan_within_limit
too_deep = refl

abbrev next_state : AppState
next_state = revised (record init { system = system_of 0 42 42 42 42 42 42 })

applied : apply_state_payload env 0x0100 (1 ∷ 2 ∷ 3 ∷ 4 ∷ []) init ≡ some next_state
unfolding apply_state_payload apply_system_state_payload parse_json_object json_depth_within_limit
    scan_within_limit read_system json_read_u32 as_number
applied = refl

apply_state_payload-InRange_example : InRange next_state
apply_state_payload-InRange_example =
    apply_state_payload-InRange env 0x0100 (1 ∷ 2 ∷ 3 ∷ 4 ∷ []) init next_state
      (record {
        system_in_range = record {
          cpu = omega arith;
          memory = omega arith;
          battery = inl (omega arith);
        };
        control_in_range = record { app_fits = omega arith; actions = omega arith };
        media_in_range = record {
          volume = omega arith;
          position = inl refl;
          title_fits = omega arith;
          artist_fits = omega arith;
          source_fits = omega arith;
        };
      })
      applied
