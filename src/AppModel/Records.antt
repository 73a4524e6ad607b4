-- ===== src/AppModel/Records.antt =====
-- The records of components/app_model/include/app_model/app_model.h. An array of char is the string
-- in it, an array of structures the list of them.
use esp32_monitor.Base.{ℕ, ℤ, Bool, List}

abbrev pub hourly_forecast_count : ℕ
hourly_forecast_count = 6

abbrev pub market_index_count : ℕ
market_index_count = 6

abbrev pub ai_provider_count : ℕ
ai_provider_count = 2

abbrev pub ai_task_slot_count : ℕ
ai_task_slot_count = 6

pub data WeatherCode : Type 0 where
  weather_unknown clear cloudy rain storm snow fog : WeatherCode

pub data AlertLevel : Type 0 where
  alert_none blue yellow orange red : AlertLevel

pub data AiTaskStatus : Type 0 where
  ai_idle ai_running ai_waiting_permission ai_waiting_input ai_completed ai_failed : AiTaskStatus

pub record ConnectionState : Type 0 where
  pub wifi_connected : Bool
  -- The byte of an int8_t.
  pub wifi_rssi_dbm : ℕ
  pub wifi_ipv4 : List ℕ
  pub ble_connected : Bool
  pub mac_authenticated : Bool

pub record HourlyForecast : Type 0 where
  pub hour : ℕ
  pub temperature_c : ℤ
  pub precipitation_percent : ℕ
  pub code : WeatherCode

pub record DailyForecast : Type 0 where
  pub low_c : ℤ
  pub high_c : ℤ
  pub daily_precipitation_percent : ℕ
  pub daily_code : WeatherCode

pub record WeatherAlert : Type 0 where
  pub alert_active : Bool
  pub level : AlertLevel
  pub alert_title : List ℕ

pub record WeatherState : Type 0 where
  pub weather_valid : Bool
  pub current_c : ℤ
  pub feels_like_c : ℤ
  pub humidity_percent : ℕ
  pub current_code : WeatherCode
  pub today : DailyForecast
  pub tomorrow : DailyForecast
  pub hourly : List HourlyForecast
  pub alert : WeatherAlert
  pub weather_updated_at_epoch : ℕ

pub record MarketIndex : Type 0 where
  pub index_name : List ℕ
  pub index_code : List ℕ
  pub points_x100 : ℤ
  pub change_basis_points : ℤ

pub record MarketState : Type 0 where
  pub market_valid : Bool
  pub trading : Bool
  pub indices : List MarketIndex
  pub market_updated_at_epoch : ℕ

pub record SystemState : Type 0 where
  pub system_valid : Bool
  pub sample_sequence : ℕ
  pub cpu_x10_percent : ℕ
  pub memory_x10_percent : ℕ
  pub disk_free_gb : ℕ
  pub network_up_kbps : ℕ
  pub network_down_kbps : ℕ
  pub battery_percent : ℕ

pub record DeviceState : Type 0 where
  pub firmware_version : List ℕ
  pub board_name : List ℕ
  pub uptime_seconds : ℕ
  pub free_internal_kb : ℕ
  pub largest_internal_block_kb : ℕ
  pub free_psram_kb : ℕ
  pub storage_mounted : Bool
  pub storage_last_error : ℤ
  pub log_written_entries : ℕ
  pub log_dropped_entries : ℕ
  pub log_queued_entries : ℕ
  pub wifi_reconnect_attempts : ℕ
  pub wifi_last_disconnect_reason : ℕ
  pub wifi_credentials_available : Bool
  pub wifi_ssid : List ℕ
  pub ble_bonded : Bool
  pub ble_mtu : ℕ
  pub heartbeat_age_ms : ℕ
  pub diagnostic_snapshots : ℕ

pub record AiProviderState : Type 0 where
  pub provider : List ℕ
  pub usage_available : Bool
  pub secondary_usage_available : Bool
  pub primary_usage_percent : ℕ
  pub secondary_usage_percent : ℕ
  pub primary_window_minutes : ℕ
  pub secondary_window_minutes : ℕ
  pub primary_reset_seconds : ℕ
  pub secondary_reset_seconds : ℕ
  pub active_task_count : ℕ
  pub available_task_slots : ℕ
  pub task_status : AiTaskStatus
  pub elapsed_seconds : ℕ

pub record AiTaskSlot : Type 0 where
  pub assigned : Bool
  pub name : List ℕ
  pub status : AiTaskStatus
  pub detail : List ℕ

-- `codex` and `claude` are the two elements of the array providers.
pub record AiState : Type 0 where
  pub ai_valid : Bool
  pub codex : AiProviderState
  pub claude : AiProviderState
  pub codex_tasks : List AiTaskSlot
  pub claude_tasks : List AiTaskSlot

pub record MediaState : Type 0 where
  pub media_valid : Bool
  pub metadata_available : Bool
  pub playing : Bool
  pub title_hidden : Bool
  pub muted : Bool
  pub volume_percent : ℕ
  pub position_seconds : ℕ
  pub duration_seconds : ℕ
  pub title : List ℕ
  pub artist : List ℕ
  pub source : List ℕ

pub record ControlState : Type 0 where
  pub active_app : List ℕ
  pub action_count : ℕ

pub record AppState : Type 0 where
  pub revision : ℕ
  pub connection : ConnectionState
  pub weather : WeatherState
  pub market : MarketState
  pub system : SystemState
  pub control : ControlState
  pub ai : AiState
  pub media : MediaState
  pub device : DeviceState
