-- ===== src/AppModel/Mock.antt =====
-- components/app_model/mock_data.c, the state that is shown without any source of data.
use esp32_monitor.Base.{
  ℕ, ◌+◌, ◌*◌, true, ◌||◌, ℤ, pos, negsuc, List, [], ◌∷◌, ◌==◌, ◌≡◌, refl, if◌then◌else◌, bounded,
  text, get_or,
}
use esp32_monitor.AppModel.{
  AppState, WeatherState, SystemState, AiProviderState, MediaState, MarketIndex, HourlyForecast,
  init, no_connection, no_weather, no_market, no_provider, no_device, no_ai, no_media,
  clear_private, cloudy, rain, ai_running, ai_idle,
}
use esp32_monitor.Market.Parser.{names}

-- On an index that is all written.
abbrev pub market_index : List ℕ → List ℕ → ℤ → ℤ → MarketIndex
market_index name code points change = record {
  index_name = bounded 20 name;
  index_code = bounded 8 code;
  points_x100 = points;
  change_basis_points = change;
}

-- The hour i of the loop, with its temperature and its rain.
abbrev pub mock_hour : ℕ → ℕ → ℕ → HourlyForecast
mock_hour i temperature percent = record {
  hour = 16 + i;
  temperature_c = pos temperature;
  precipitation_percent = percent;
  code = if i == 2 || i == 3 then rain else cloudy;
}

abbrev pub mock_indices : List MarketIndex
mock_indices =
    market_index (get_or names 0 []) (text "000001") (pos 337452) (pos 42)
    ∷ market_index (get_or names 1 []) (text "399001") (pos 1062831) (pos 61)
    ∷ market_index (get_or names 2 []) (text "399006") (pos 217645) (pos 33)
    ∷ market_index (get_or names 3 []) (text "000688") (pos 102186) (negsuc 17)
    ∷ market_index (get_or names 4 []) (text "000300") (pos 394825) (pos 25)
    ∷ market_index (get_or names 5 []) (text "000905") (pos 581239) (negsuc 10)
    ∷ []

abbrev pub mock_weather : WeatherState
mock_weather = record no_weather {
  weather_valid = true;
  current_c = pos 26;
  feels_like_c = pos 28;
  humidity_percent = 72;
  current_code = cloudy;
  today = record {
    low_c = pos 23;
    high_c = pos 29;
    daily_precipitation_percent = 60;
    daily_code = cloudy;
  };
  tomorrow = record {
    low_c = pos 22;
    high_c = pos 28;
    daily_precipitation_percent = 40;
    daily_code = rain;
  };
  hourly =
      mock_hour 0 28 20
      ∷ mock_hour 1 27 30
      ∷ mock_hour 2 26 60
      ∷ mock_hour 3 25 50
      ∷ mock_hour 4 24 20
      ∷ mock_hour 5 24 10
      ∷ [];
}

abbrev pub mock_system : SystemState
mock_system = record {
  system_valid = true;
  sample_sequence = 1;
  cpu_x10_percent = 184;
  memory_x10_percent = 632;
  disk_free_gb = 412;
  network_up_kbps = 320;
  network_down_kbps = 2450;
  battery_percent = 86;
}

abbrev pub mock_codex : AiProviderState
mock_codex = record no_provider {
  provider = text "Codex";
  usage_available = true;
  secondary_usage_available = true;
  primary_usage_percent = 72;
  secondary_usage_percent = 28;
  primary_window_minutes = 300;
  secondary_window_minutes = 10080;
  active_task_count = 1;
  task_status = ai_running;
  elapsed_seconds = 18 * 60 + 42;
}

abbrev pub mock_claude : AiProviderState
mock_claude = record no_provider {
  provider = text "Claude Code";
  usage_available = true;
  secondary_usage_available = true;
  primary_usage_percent = 41;
  secondary_usage_percent = 63;
  primary_window_minutes = 300;
  secondary_window_minutes = 10080;
  task_status = ai_idle;
}

abbrev pub mock_media : MediaState
mock_media = record no_media {
  media_valid = true;
  playing = true;
  volume_percent = 42;
  position_seconds = 88;
  duration_seconds = 246;
  title = text "Private media title hidden in production";
}

-- desk_app_state_load_mock, on a state that is there; -52 dBm is the byte 204.
unfoldable pub load_mock : AppState
load_mock = record init {
  revision = 1;
  connection = record no_connection {
    wifi_connected = true;
    wifi_rssi_dbm = 204;
    wifi_ipv4 = text "192.168.1.88";
  };
  weather = mock_weather;
  market = record no_market { market_valid = true; trading = true; indices = mock_indices };
  system = mock_system;
  control = record { active_app = text "Safari"; action_count = 6 };
  ai = record no_ai { ai_valid = true; codex = mock_codex; claude = mock_claude };
  media = mock_media;
  device = record no_device {
    firmware_version = text "0.1.0";
    board_name = text "ESP32-S3 4.3";
    uptime_seconds = 3723;
    free_internal_kb = 168;
    largest_internal_block_kb = 92;
    free_psram_kb = 5820;
  };
}

-- Clearing leaves the public part.
cleared_weather : (clear_private load_mock).weather ≡ mock_weather
unfolding clear_private load_mock
cleared_weather = refl

cleared_media : (clear_private load_mock).media ≡ no_media
unfolding clear_private load_mock
cleared_media = refl
