-- ===== src/Network/Events.antt =====
-- network_event_handler.
use esp32_monitor.Base.{
  ℕ, Bool, true, false, not, Option, none, some, List, ◌&&◌, ◌||◌, leb, if◌then◌else◌,
}
use esp32_monitor.Esp.{esp_ok, fail}
use esp32_monitor.Network.{
  NetworkState, Wifi, event_started, event_connected, event_disconnected, event_retry_exhausted,
  event_of, queue_network_event, schedule_reconnect, call_connect, stop_timer, fast_retry_limit,
}

-- The events that the handler is registered for; the data of the last two may be NULL.
pub data WifiEvent : Type 0 where
  sta_start : WifiEvent
  sta_disconnected : (reason : Option ℕ) → WifiEvent
  sta_got_ip : (address : Option ℕ) → WifiEvent
  other_event : WifiEvent

abbrev pub or_zero : Option ℕ → ℕ
or_zero none = 0
or_zero (some n) = n

module _ (wifi : Wifi) where
  unfoldable pub on_sta_start : NetworkState → NetworkState
  on_sta_start state =
      let state' = queue_network_event wifi (event_of event_started esp_ok) state in
      if state'.credentials_available then call_connect wifi state' else state'

  -- Whether this loss of the connection is the one that is told of.
  abbrev pub notifies_exhausted : NetworkState → Bool
  notifies_exhausted state =
      state.credentials_available
      && not state.provisioning_disconnect_pending
      && leb fast_retry_limit state.retry_count
      && not state.exhausted_notified

  -- The critical section of the case WIFI_EVENT_STA_DISCONNECTED.
  abbrev pub after_loss : Option ℕ → NetworkState → NetworkState
  after_loss reason state = record state {
    station_connected = false;
    last_disconnect_reason = or_zero reason;
    provisioning_disconnect_pending = false;
    exhausted_notified = state.exhausted_notified || notifies_exhausted state;
  }

  -- From the critical section on.
  unfoldable pub respond_to_loss : Option ℕ → NetworkState → NetworkState
  respond_to_loss reason state =
      let lost = after_loss reason state in
      if state.provisioning_disconnect_pending || not state.credentials_available
      then lost
      else if notifies_exhausted state
      then schedule_reconnect wifi
          (queue_network_event wifi (event_of event_retry_exhausted fail) lost)
      else schedule_reconnect wifi lost

  unfoldable pub on_sta_disconnected : Option ℕ → NetworkState → NetworkState
  unfolding respond_to_loss
  on_sta_disconnected reason state = respond_to_loss reason (
      queue_network_event wifi
        (record (event_of event_disconnected fail) { disconnect_reason = or_zero reason }) state)

  abbrev pub text_of : Option ℕ → List ℕ
  text_of none = List.[]
  text_of (some address) = wifi.ip_text address

  unfoldable pub on_sta_got_ip : Option ℕ → NetworkState → NetworkState
  on_sta_got_ip address state =
      queue_network_event wifi
        (record (event_of event_connected esp_ok) {
          rssi_dbm = or_zero wifi.ap_rssi;
          ipv4_address = or_zero address;
          ipv4 = text_of address;
        })
        (record state {
          station_connected = true;
          retry_count = 0;
          exhausted_notified = false;
          timer = stop_timer wifi state.timer;
        })

  unfoldable pub network_event_handler : WifiEvent → NetworkState → NetworkState
  unfolding on_sta_start on_sta_disconnected on_sta_got_ip
  network_event_handler sta_start state = on_sta_start state
  network_event_handler (sta_disconnected reason) state = on_sta_disconnected reason state
  network_event_handler (sta_got_ip address) state = on_sta_got_ip address state
  network_event_handler other_event state = state
