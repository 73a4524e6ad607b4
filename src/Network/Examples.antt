-- ===== src/Network/Examples.antt =====
-- The station at concrete answers of the driver, and its theorems there.
use esp32_monitor.Base.{ℕ, ◌≡◌, refl, min, ◌*◌, ◌^◌, true, some, List, [], ◌∷◌, ◌++◌, replicate}
use esp32_monitor.Esp.{esp_ok, is_esp_ok, wifi_not_connect}
use esp32_monitor.Network.{
  Wifi, WifiConfig, NetworkState, stopped, armed, reconnect_delay_ms, reconnect_base_delay_ms,
  reconnect_max_delay_ms, double_delay, queue_network_event, schedule_reconnect,
  reconnect_timer_callback,
}
use esp32_monitor.Network.Backoff.{reconnect_delay_ms-min}
use esp32_monitor.Network.Events.{
  sta_disconnected, on_sta_disconnected, respond_to_loss, network_event_handler,
}
use esp32_monitor.Network.Outage.{lose_all, lose_again}
use esp32_monitor.Network.Control.{Setup, start}
use esp32_monitor.Network.Kept.{IsNetwork}
use esp32_monitor.Network.Steps.{initial, booted, handled, initial_network, Reached-IsNetwork}

abbrev wifi : Wifi
wifi = record {
  queue_send = λ queue event. some (queue ++ event ∷ []);
  timer_starts = true;
  connect = esp_ok;
  disconnect = wifi_not_connect;
  set_config = λ configuration. esp_ok;
  config_readable = true;
  ap_rssi = some 200;
  ip_text = λ address. [];
}

abbrev home : WifiConfig
home = record { ssid = 104 ∷ replicate 31 0; password = replicate 64 0 }

abbrev online : NetworkState
online = record (initial_network home) {
  event_queue = some [];
  timer = stopped;
  started = true;
  credentials_available = true;
  station_connected = true;
}

third_delay : reconnect_delay_ms 3 ≡ 8000
unfolding reconnect_delay_ms double_delay
third_delay = refl

reconnect_delay_ms-min_example :
    reconnect_delay_ms 7 ≡ min (reconnect_base_delay_ms * 2 ^ 7) reconnect_max_delay_ms
reconnect_delay_ms-min_example = reconnect_delay_ms-min 7

lost_twice : (lose_all wifi (2 ∷ []) (on_sta_disconnected wifi (some 1) online)).timer ≡ armed 2000
unfolding lose_all lose_again is_esp_ok on_sta_disconnected respond_to_loss queue_network_event
    schedule_reconnect reconnect_timer_callback reconnect_delay_ms double_delay
lost_twice = refl

abbrev reasons : List ℕ
reasons = 2 ∷ 3 ∷ 4 ∷ 5 ∷ 6 ∷ 7 ∷ 8 ∷ []

abbrev setup : Setup
setup = record {
  queue_created = true;
  netif_init = esp_ok;
  event_loop = esp_ok;
  sta_created = true;
  sntp_init = esp_ok;
  wifi_init = esp_ok;
  register_wifi = esp_ok;
  register_ip = esp_ok;
  set_storage = esp_ok;
  set_mode = esp_ok;
  timer_create = esp_ok;
  wifi_start = esp_ok;
}

Reached-IsNetwork_example : IsNetwork (
    network_event_handler wifi
      (sta_disconnected (some 8))
      (start wifi setup (initial_network home)).0)
Reached-IsNetwork_example =
    Reached-IsNetwork
      (network_event_handler wifi (sta_disconnected (some 8))
        (start wifi setup (initial_network home)).0)
      (handled wifi (sta_disconnected (some 8)) (start wifi setup (initial_network home)).0
        (booted wifi setup (initial_network home) (initial home)))
