-- ===== src/Network.antt =====
-- The Wi-Fi station, firmware/components/network/network.c: its shared state, its event queue and
-- the reconnect timer. A call or a callback is one step. What the Wi-Fi driver, the timers and
-- FreeRTOS answer during a step is the record Wifi.
pub mod Backoff
pub mod Events
pub mod Control
pub mod Outage
pub mod Kept
pub mod Calls
pub mod Steps
mod Examples
use esp32_monitor.Base.{
  ℕ, suc, ◌+◌, ◌*◌, Bool, true, false, Option, none, some, List, ltb, if◌then◌else◌, u32,
}
use esp32_monitor.Esp.{EspErr, esp_ok, fail}

abbrev pub fast_retry_limit : ℕ
fast_retry_limit = 5

abbrev pub reconnect_base_delay_ms : ℕ
reconnect_base_delay_ms = 1000

abbrev pub reconnect_max_delay_ms : ℕ
reconnect_max_delay_ms = 60000

abbrev pub ssid_max_bytes : ℕ
ssid_max_bytes = 32

abbrev pub password_max_bytes : ℕ
password_max_bytes = 63

pub data NetworkEventType : Type 0 where
  event_started event_connected event_disconnected event_retry_exhausted : NetworkEventType

-- desk_network_event_t; rssi_dbm is the byte of an int8_t.
pub record NetworkEvent : Type 0 where
  pub type : NetworkEventType
  pub status : EspErr
  pub rssi_dbm : ℕ
  pub disconnect_reason : ℕ
  pub ipv4_address : ℕ
  pub ipv4 : List ℕ

abbrev pub event_of : NetworkEventType → EspErr → NetworkEvent
event_of type status = record {
  type = type;
  status = status;
  rssi_dbm = 0;
  disconnect_reason = 0;
  ipv4_address = 0;
  ipv4 = List.[];
}

-- reconnect_timer: NULL, not running, or to fire after so many milliseconds.
pub data Timer : Type 0 where
  no_timer stopped : Timer
  armed : (delay_ms : ℕ) → Timer

-- The arrays `ssid` and `password` of a station's configuration.
pub record WifiConfig : Type 0 where
  pub ssid : List ℕ
  pub password : List ℕ

-- The static variables, the driver's stored configuration, and how often the driver was asked to
-- connect.
pub record NetworkState : Type 0 where
  pub event_queue : Option (List NetworkEvent)
  pub timer : Timer
  pub started : Bool
  pub credentials_available : Bool
  pub station_connected : Bool
  pub provisioning_disconnect_pending : Bool
  pub exhausted_notified : Bool
  pub retry_count : ℕ
  pub last_disconnect_reason : ℕ
  pub configuration : WifiConfig
  pub connects : ℕ

-- The answers of what one step calls.
pub record Wifi : Type 0 where
  -- xQueueSend with no waiting: the queue after it, or `none` where it is full.
  pub queue_send : List NetworkEvent → NetworkEvent → Option (List NetworkEvent)
  pub timer_starts : Bool
  pub connect : EspErr
  pub disconnect : EspErr
  pub set_config : WifiConfig → EspErr
  -- Whether esp_wifi_get_config succeeds.
  pub config_readable : Bool
  -- The signal of the access point, where it can be read.
  pub ap_rssi : Option ℕ
  -- esp_ip4addr_ntoa.
  pub ip_text : ℕ → List ℕ

-- The loop of reconnect_delay_ms with so many rounds left.
unfoldable pub double_delay : ℕ → ℕ → ℕ
double_delay ℕ.zero delay = delay
double_delay (suc rounds) delay =
    let doubled = double_delay rounds (u32 (delay * 2)) in
    if ltb delay reconnect_max_delay_ms then doubled else delay

unfoldable pub reconnect_delay_ms : ℕ → ℕ
unfolding double_delay
reconnect_delay_ms attempts =
    let delay = double_delay attempts reconnect_base_delay_ms in
    if ltb reconnect_max_delay_ms delay then reconnect_max_delay_ms else delay

module _ (wifi : Wifi) where
  unfoldable pub queue_network_event : NetworkEvent → NetworkState → NetworkState
  queue_network_event event state = elim state.event_queue [
    | none ↦ state
    | some queue ↦ elim (wifi.queue_send queue event) [
      | some queue' ↦ record state { event_queue = some queue' }
      | none ↦ state
    ]
  ]

  abbrev pub stop_timer : Timer → Timer
  stop_timer no_timer = no_timer
  stop_timer _ = stopped

  -- esp_timer_start_once on a timer that is there and stopped.
  abbrev pub start_timer : ℕ → Timer → Timer
  start_timer delay_ms no_timer = no_timer
  start_timer delay_ms _ = if wifi.timer_starts then armed delay_ms else stopped

  unfoldable pub schedule_reconnect : NetworkState → NetworkState
  schedule_reconnect state =
      let delay_ms = reconnect_delay_ms state.retry_count in
      record state {
        retry_count =
            if ltb state.retry_count 0xFFFFFFFF then state.retry_count + 1 else state.retry_count;
        timer = start_timer delay_ms (stop_timer state.timer);
      }

  -- esp_wifi_connect, without what becomes of it.
  abbrev pub call_connect : NetworkState → NetworkState
  call_connect state = record state { connects = state.connects + 1 }

  -- The timer has fired, so it no longer runs.
  unfoldable pub reconnect_timer_callback : NetworkState → NetworkState
  reconnect_timer_callback state =
      let fired = record state { timer = stop_timer state.timer } in
      if state.credentials_available then call_connect fired else fired
