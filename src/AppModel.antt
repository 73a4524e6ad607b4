-- ===== src/AppModel.antt =====
-- The data that the console shows, components/app_model: its records and how they begin and are
-- cleared.
mod Records
pub mod Texts
mod Mock
pub use Records.*
use esp32_monitor.Base.{ℕ, ◌+◌, ℤ, pos, Bool, false, List, [], replicate, u32}

-- What memset to 0 leaves of each structure.
abbrev pub no_connection : ConnectionState
no_connection = record {
  wifi_connected = false;
  wifi_rssi_dbm = 0;
  wifi_ipv4 = [];
  ble_connected = false;
  mac_authenticated = false;
}

abbrev pub no_hour : HourlyForecast
no_hour = record {
  hour = 0;
  temperature_c = pos 0;
  precipitation_percent = 0;
  code = weather_unknown;
}

abbrev pub no_day : DailyForecast
no_day = record {
  low_c = pos 0;
  high_c = pos 0;
  daily_precipitation_percent = 0;
  daily_code = weather_unknown;
}

abbrev pub no_alert : WeatherAlert
no_alert = record { alert_active = false; level = alert_none; alert_title = [] }

abbrev pub no_weather : WeatherState
no_weather = record {
  weather_valid = false;
  current_c = pos 0;
  feels_like_c = pos 0;
  humidity_percent = 0;
  current_code = weather_unknown;
  today = no_day;
  tomorrow = no_day;
  hourly = replicate hourly_forecast_count no_hour;
  alert = no_alert;
  weather_updated_at_epoch = 0;
}

abbrev pub no_index : MarketIndex
no_index = record {
  index_name = [];
  index_code = [];
  points_x100 = pos 0;
  change_basis_points = pos 0;
}

abbrev pub no_market : MarketState
no_market = record {
  market_valid = false;
  trading = false;
  indices = replicate market_index_count no_index;
  market_updated_at_epoch = 0;
}

abbrev pub no_system : SystemState
no_system = record {
  system_valid = false;
  sample_sequence = 0;
  cpu_x10_percent = 0;
  memory_x10_percent = 0;
  disk_free_gb = 0;
  network_up_kbps = 0;
  network_down_kbps = 0;
  battery_percent = 0;
}

abbrev pub no_control : ControlState
no_control = record { active_app = []; action_count = 0 }

abbrev pub no_provider : AiProviderState
no_provider = record {
  provider = [];
  usage_available = false;
  secondary_usage_available = false;
  primary_usage_percent = 0;
  secondary_usage_percent = 0;
  primary_window_minutes = 0;
  secondary_window_minutes = 0;
  primary_reset_seconds = 0;
  secondary_reset_seconds = 0;
  active_task_count = 0;
  available_task_slots = 0;
  task_status = ai_idle;
  elapsed_seconds = 0;
}

abbrev pub no_slot : AiTaskSlot
no_slot = record { assigned = false; name = []; status = ai_idle; detail = [] }

abbrev pub no_slots : List AiTaskSlot
no_slots = replicate ai_task_slot_count no_slot

abbrev pub no_ai : AiState
no_ai = record {
  ai_valid = false;
  codex = no_provider;
  claude = no_provider;
  codex_tasks = no_slots;
  claude_tasks = no_slots;
}

abbrev pub no_media : MediaState
no_media = record {
  media_valid = false;
  metadata_available = false;
  playing = false;
  title_hidden = false;
  muted = false;
  volume_percent = 0;
  position_seconds = 0;
  duration_seconds = 0;
  title = [];
  artist = [];
  source = [];
}

abbrev pub no_device : DeviceState
no_device = record {
  firmware_version = [];
  board_name = [];
  uptime_seconds = 0;
  free_internal_kb = 0;
  largest_internal_block_kb = 0;
  free_psram_kb = 0;
  storage_mounted = false;
  storage_last_error = pos 0;
  log_written_entries = 0;
  log_dropped_entries = 0;
  log_queued_entries = 0;
  wifi_reconnect_attempts = 0;
  wifi_last_disconnect_reason = 0;
  wifi_credentials_available = false;
  wifi_ssid = [];
  ble_bonded = false;
  ble_mtu = 0;
  heartbeat_age_ms = 0;
  diagnostic_snapshots = 0;
}

-- desk_app_state_init, on a state that is there.
abbrev pub init : AppState
init = record {
  revision = 0;
  connection = no_connection;
  weather = no_weather;
  market = no_market;
  system = no_system;
  control = no_control;
  ai = no_ai;
  media = no_media;
  device = no_device;
}

-- revision++.
abbrev pub revised : AppState → AppState
revised state = record state { revision = u32 (state.revision + 1) }

-- desk_app_state_clear_private, on a state that is there.
unfoldable pub clear_private : AppState → AppState
clear_private state = revised (record state {
  system = no_system;
  control = no_control;
  ai = no_ai;
  media = no_media;
  connection = record state.connection { ble_connected = false; mac_authenticated = false };
})
