-- ===== src/Network/Control.antt =====
-- The calls that the supervisor makes: start, provision, reconnect, and the status.
use esp32_monitor.Base.{
  ℕ, Bool, true, false, not, Option, none, some, List, [], ◌&&◌, ◌||◌, ltb, ◌==◌, ◌!=◌,
  if◌then◌else◌, get_or, copy_to, replicate, length, take,
}
use esp32_monitor.Esp.{
  EspErr, esp_ok, no_mem, invalid_arg, invalid_state, not_found, is_esp_ok, is_invalid_state,
  is_not_connect,
}
use esp32_monitor.Network.{
  NetworkState, NetworkEvent, Wifi, WifiConfig, stopped, schedule_reconnect, call_connect,
  stop_timer, ssid_max_bytes, password_max_bytes,
}

-- What the calls of desk_network_start answer, in their order.
pub record Setup : Type 0 where
  pub queue_created : Bool
  pub netif_init : EspErr
  pub event_loop : EspErr
  pub sta_created : Bool
  pub sntp_init : EspErr
  pub wifi_init : EspErr
  pub register_wifi : EspErr
  pub register_ip : EspErr
  pub set_storage : EspErr
  pub set_mode : EspErr
  pub timer_create : EspErr
  pub wifi_start : EspErr

-- The first of some results that is not esp_ok.
abbrev pub first_error : List EspErr → EspErr
first_error [] = esp_ok
first_error (List.◌∷◌ result results) = if is_esp_ok result then first_error results else result

abbrev pub is_ready : EspErr → Bool
is_ready result = is_esp_ok result || is_invalid_state result

module _ (wifi : Wifi) where
  unfoldable pub stored_credentials_available : NetworkState → Bool
  stored_credentials_available state =
      wifi.config_readable && get_or state.configuration.ssid 0 0 != 0

  -- After the queue is made: the first steps return their own errors, the later ones as a chain.
  abbrev pub setup_result : Setup → EspErr
  setup_result setup =
      if not (is_ready setup.netif_init)
      then setup.netif_init
      else if not (is_ready setup.event_loop)
      then setup.event_loop
      else if not setup.sta_created
      then no_mem
      else first_error (
          List.◌∷◌ setup.sntp_init (
            List.◌∷◌ setup.wifi_init (
              List.◌∷◌ setup.register_wifi (
                List.◌∷◌ setup.register_ip (
                  List.◌∷◌ setup.set_storage
                    (List.◌∷◌ setup.set_mode (List.◌∷◌ setup.timer_create [])))))))

  unfoldable pub start : Setup → NetworkState → NetworkState × EspErr
  unfolding stored_credentials_available
  start setup state =
      let queued = record state { event_queue = some [] } in
      let ready = record queued {
        timer = stopped;
        credentials_available = stored_credentials_available queued;
        station_connected = false;
        retry_count = 0;
        exhausted_notified = false;
        provisioning_disconnect_pending = false;
        last_disconnect_reason = 0;
      } in
      if state.started
      then (state, esp_ok)
      else if not setup.queue_created
      then (record state { event_queue = none }, no_mem)
      else if not (is_esp_ok (setup_result setup))
      then (queued, setup_result setup)
      else if not (is_esp_ok setup.wifi_start)
      then (ready, setup.wifi_start)
      else (record ready { started = true }, esp_ok)

  -- memcpy into the zeroed arrays of a configuration.
  abbrev pub config_of : List ℕ → List ℕ → WifiConfig
  config_of ssid password = record {
    ssid = copy_to (replicate 32 0) 0 ssid;
    password = copy_to (replicate 64 0) 0 password;
  }

  abbrev pub is_provisionable : List ℕ → List ℕ → Bool
  is_provisionable ssid password = not (
      length ssid == 0
      || ltb ssid_max_bytes (length ssid)
      || ltb password_max_bytes (length password)
      || ltb 0 (length password) && ltb (length password) 8)

  -- Until esp_wifi_set_config: what was known of the old network is put aside.
  abbrev pub set_aside : NetworkState → NetworkState
  set_aside state = record state {
    credentials_available = false;
    provisioning_disconnect_pending = is_esp_ok wifi.disconnect;
    timer = stop_timer wifi state.timer;
  }

  -- The configuration was refused: the old one is written back.
  unfoldable pub roll_back : NetworkState → NetworkState → NetworkState
  roll_back before state =
      let restored = record state {
        configuration =
            if wifi.config_readable && is_esp_ok (wifi.set_config before.configuration)
            then before.configuration
            else state.configuration;
        credentials_available = before.credentials_available;
        provisioning_disconnect_pending = false;
        retry_count = 0;
        exhausted_notified = false;
      } in
      if before.credentials_available then schedule_reconnect wifi restored else restored

  unfoldable pub connect_new : WifiConfig → NetworkState → NetworkState × EspErr
  connect_new configuration state =
      let accepted = call_connect wifi (record state {
        configuration = configuration;
        credentials_available = true;
        retry_count = 0;
        exhausted_notified = false;
      }) in
      (if is_esp_ok wifi.connect then accepted else schedule_reconnect wifi accepted, wifi.connect)

  -- The pointers to the name and the password are not NULL.
  unfoldable pub provision : List ℕ → List ℕ → NetworkState → NetworkState × EspErr
  provision ssid password state =
      let configuration = config_of ssid password in
      let result = wifi.set_config configuration in
      if not state.started || not (is_provisionable ssid password)
      then (state, invalid_arg)
      else if not (is_esp_ok result)
      then (roll_back state (set_aside state), result)
      else connect_new configuration (set_aside state)

  -- The call to the driver at the end of desk_network_reconnect.
  abbrev pub connect_again : NetworkState → NetworkState × EspErr
  connect_again state = (
    if is_esp_ok wifi.connect
        then call_connect wifi state
        else schedule_reconnect wifi (call_connect wifi state),
    wifi.connect,
  )

  unfoldable pub reconnect : NetworkState → NetworkState × EspErr
  reconnect state =
      let fresh = record state { retry_count = 0; exhausted_notified = false } in
      let quiet = record fresh { timer = stop_timer wifi state.timer } in
      if not state.started
      then (state, invalid_state)
      else if not state.credentials_available
      then (fresh, not_found)
      else if not state.station_connected
      then connect_again quiet
      else if is_esp_ok wifi.disconnect
      then (quiet, esp_ok)
      else if not (is_not_connect wifi.disconnect)
      then (quiet, wifi.disconnect)
      else connect_again quiet

-- desk_network_status_t.
pub record NetworkStatus : Type 0 where
  pub connected : Bool
  pub available : Bool
  pub reconnect_attempts : ℕ
  pub last_reason : ℕ
  pub status_ssid : List ℕ

unfoldable pub get_status : Wifi → NetworkState → NetworkStatus
get_status wifi state = record {
  connected = state.station_connected;
  available = state.credentials_available;
  reconnect_attempts = state.retry_count;
  last_reason = state.last_disconnect_reason;
  status_ssid =
      if wifi.config_readable
      then copy_to (replicate 33 0) 0 (take ssid_max_bytes state.configuration.ssid)
      else replicate 33 0;
}

-- With a pointer to the event that is not NULL. `receive` is xQueueReceive.
unfoldable pub receive_event :
    (List NetworkEvent → Option (NetworkEvent × List NetworkEvent))
    → NetworkState
    → NetworkState × Option NetworkEvent
receive_event receive state = elim state.event_queue [
  | none ↦ (state, none)
  | some queue ↦ elim (receive queue) [
    | none ↦ (state, none)
    | some taken ↦ (record state { event_queue = some taken.1 }, some taken.0)
  ]
]
