-- ===== src/Network/Calls.antt =====
-- What the public calls of the network keep.
use esp32_monitor.Base.{
  ℕ, ◌+◌, ◌≡◌, refl, arith, Bool, true, false, not, Option, none, some, List, [], if◌then◌else◌,
  if_either, ◌&&◌, ◌||◌,
}
use esp32_monitor.Esp.{EspErr, is_esp_ok, is_not_connect}
use esp32_monitor.Network.{
  NetworkState, NetworkEvent, Wifi, WifiConfig, stopped, call_connect, stop_timer,
}
use esp32_monitor.Network.Control.{
  Setup, setup_result, stored_credentials_available, is_provisionable, config_of, start, provision,
  reconnect, receive_event, set_aside, roll_back, connect_new, connect_again,
}
use esp32_monitor.Network.Kept.{IsNetwork, Keeps, stop_timer-IsTimely, schedule_reconnect-IsNetwork}

module _ (wifi : Wifi) where
  -- A state that starts to count again.
  recounted-IsNetwork :
      (state : NetworkState)
      → IsNetwork state
      → (available pending : Bool) (configuration : WifiConfig) (connects : ℕ)
      → IsNetwork (record state {
        credentials_available = available;
        provisioning_disconnect_pending = pending;
        configuration = configuration;
        connects = connects;
        retry_count = 0;
        exhausted_notified = false;
      })
  recounted-IsNetwork state h available pending configuration connects = record {
    timely = h.timely;
    counted = omega arith;
    told = λ e. absurd (ground (arith, e));
  }

  set_aside-IsNetwork : Keeps wifi (set_aside wifi)
  set_aside-IsNetwork state h = record {
    timely = stop_timer-IsTimely wifi state.timer;
    counted = h.counted;
    told = h.told;
  }

  roll_back-IsNetwork : (before : NetworkState) → Keeps wifi (roll_back wifi before)
  unfolding roll_back
  roll_back-IsNetwork before state h =
      let again =
        recounted-IsNetwork state h before.credentials_available false
          (if wifi.config_readable && is_esp_ok (wifi.set_config before.configuration)
            then before.configuration
            else state.configuration)
          state.connects in
      if_either IsNetwork before.credentials_available (schedule_reconnect-IsNetwork wifi _ again)
        again

  connect_new-IsNetwork :
      (configuration : WifiConfig) → Keeps wifi (λ state. (connect_new wifi configuration state).0)
  unfolding connect_new
  connect_new-IsNetwork configuration state h =
      let again =
        recounted-IsNetwork state h true state.provisioning_disconnect_pending configuration
          (state.connects + 1) in
      if_either IsNetwork (is_esp_ok wifi.connect) again (schedule_reconnect-IsNetwork wifi _ again)

  pub provision-IsNetwork :
      (ssid password : List ℕ) → Keeps wifi (λ state. (provision wifi ssid password state).0)
  unfolding provision
  provision-IsNetwork ssid password state h =
      let P : NetworkState × EspErr → Type 0 = λ r. IsNetwork r.0 in
      let aside = set_aside-IsNetwork state h in
      if_either P (not state.started || not (is_provisionable wifi ssid password)) h (
        if_either P (not (is_esp_ok (wifi.set_config (config_of wifi ssid password))))
          (roll_back-IsNetwork state (set_aside wifi state) aside)
          (connect_new-IsNetwork (config_of wifi ssid password) (set_aside wifi state) aside))

  connect_again-IsNetwork : Keeps wifi (λ state. (connect_again wifi state).0)
  connect_again-IsNetwork state h =
      let called : IsNetwork (call_connect wifi state) = record {
        timely = h.timely;
        counted = h.counted;
        told = h.told;
      } in
      if_either IsNetwork (is_esp_ok wifi.connect) called
        (schedule_reconnect-IsNetwork wifi (call_connect wifi state) called)

  pub reconnect-IsNetwork : Keeps wifi (λ state. (reconnect wifi state).0)
  unfolding reconnect
  reconnect-IsNetwork state h =
      let P : NetworkState × EspErr → Type 0 = λ r. IsNetwork r.0 in
      let fresh = record state { retry_count = 0; exhausted_notified = false } in
      let quiet = record fresh { timer = stop_timer wifi state.timer } in
      let again =
        recounted-IsNetwork state h state.credentials_available
          state.provisioning_disconnect_pending state.configuration state.connects in
      let still : IsNetwork quiet = record {
        timely = stop_timer-IsTimely wifi state.timer;
        counted = again.counted;
        told = again.told;
      } in
      let called = connect_again-IsNetwork quiet still in
      if_either P (not state.started) h (
        if_either P (not state.credentials_available) again (
          if_either P (not state.station_connected) called (
            if_either P (is_esp_ok wifi.disconnect) still
              (if_either P (not (is_not_connect wifi.disconnect)) still called))))

  pub start-IsNetwork : (setup : Setup) → Keeps wifi (λ state. (start wifi setup state).0)
  unfolding start
  start-IsNetwork setup state h =
      let P : NetworkState × EspErr → Type 0 = λ r. IsNetwork r.0 in
      let queued : (queue : Option (List NetworkEvent))
          → IsNetwork (record state { event_queue = queue }) =
        λ queue. record { timely = h.timely; counted = h.counted; told = h.told } in
      let ready : (started : Bool)
          → IsNetwork (record state {
            event_queue = some [];
            timer = stopped;
            credentials_available =
                stored_credentials_available wifi (record state { event_queue = some [] });
            station_connected = false;
            retry_count = 0;
            exhausted_notified = false;
            provisioning_disconnect_pending = false;
            last_disconnect_reason = 0;
            started = started;
          }) =
        λ started. record {
          timely = tt;
          counted = omega arith;
          told = λ e. absurd (ground (arith, e));
        } in
      if_either P state.started h (
        if_either P (not setup.queue_created) (queued none) (
          if_either P (not (is_esp_ok (setup_result wifi setup))) (queued (some []))
            (if_either P (not (is_esp_ok setup.wifi_start)) (ready state.started) (ready true))))

  received-IsNetwork :
      (receive : List NetworkEvent → Option (NetworkEvent × List NetworkEvent))
      (queue : List NetworkEvent) (answer : Option (NetworkEvent × List NetworkEvent))
      (state : NetworkState)
      → receive queue ≡ answer
      → IsNetwork state
      → IsNetwork (receive_event receive (record state { event_queue = some queue })).0
  unfolding receive_event
  received-IsNetwork receive queue none state e h =
      rw (e, receive_event) (record { timely = h.timely; counted = h.counted; told = h.told })
  received-IsNetwork receive queue (some taken) state e h =
      rw (e, receive_event) (record { timely = h.timely; counted = h.counted; told = h.told })

pub receive_event-IsNetwork :
    (receive : List NetworkEvent → Option (NetworkEvent × List NetworkEvent))
    (queue : Option (List NetworkEvent)) (wifi : Wifi) (state : NetworkState)
    → IsNetwork state
    → IsNetwork (receive_event receive (record state { event_queue = queue })).0
unfolding receive_event
receive_event-IsNetwork receive none wifi state h = record {
  timely = h.timely;
  counted = h.counted;
  told = h.told;
}
receive_event-IsNetwork receive (some queue) wifi state h =
    received-IsNetwork wifi receive queue (receive queue) state refl h
