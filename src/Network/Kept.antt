-- ===== src/Network/Kept.antt =====
-- What the events of the network and its timer keep.
use esp32_monitor.Base.{
  ℕ, ◌≤◌, ◌<◌, ◌^◌, ◌≡◌, refl, arith, true, not, Option, none, some, List, if_either, ◌||◌,
}
use esp32_monitor.Esp.{EspErr, fail}
use esp32_monitor.Network.{
  NetworkState, NetworkEvent, Wifi, Timer, no_timer, stopped, armed, queue_network_event,
  schedule_reconnect, stop_timer, start_timer, reconnect_timer_callback, fast_retry_limit,
  reconnect_delay_ms, event_of, event_started, event_retry_exhausted,
}
use esp32_monitor.Network.Backoff.{reconnect_delay_ms-bounds}
use esp32_monitor.Network.Events.{
  WifiEvent, sta_start, sta_disconnected, sta_got_ip, other_event, network_event_handler,
  on_sta_start, on_sta_disconnected, on_sta_got_ip, after_loss, respond_to_loss, notifies_exhausted,
}

-- A running timer fires after one second at least and one minute at most.
abbrev pub IsTimely : Timer → Type 0
IsTimely (armed delay_ms) = (1000 ≤ delay_ms) × (delay_ms ≤ 60000)
IsTimely _ = Unit

pub record IsNetwork (state : NetworkState) : Type 0 where
  pub timely : IsTimely state.timer
  pub counted : state.retry_count < 2 ^ 32
  pub told : state.exhausted_notified ≡ true → fast_retry_limit ≤ state.retry_count

module _ (wifi : Wifi) where
  abbrev pub Keeps : (NetworkState → NetworkState) → Type 0
  Keeps f = (state : NetworkState) → IsNetwork state → IsNetwork (f state)

  pub stop_timer-IsTimely : (timer : Timer) → IsTimely (stop_timer wifi timer)
  stop_timer-IsTimely no_timer = tt
  stop_timer-IsTimely stopped = tt
  stop_timer-IsTimely (armed d) = tt

  start_timer-IsTimely :
      (d : ℕ) (timer : Timer) → 1000 ≤ d → d ≤ 60000 → IsTimely (start_timer wifi d timer)
  start_timer-IsTimely d no_timer h k = tt
  start_timer-IsTimely d stopped h k = if_either IsTimely wifi.timer_starts (h, k) tt
  start_timer-IsTimely d (armed d') h k = if_either IsTimely wifi.timer_starts (h, k) tt

  sent-IsNetwork :
      (event : NetworkEvent) (queue : List NetworkEvent) (answer : Option (List NetworkEvent))
      (state : NetworkState)
      → wifi.queue_send queue event ≡ answer
      → IsNetwork state
      → IsNetwork (queue_network_event wifi event (record state { event_queue = some queue }))
  unfolding queue_network_event
  sent-IsNetwork event queue none state e h =
      rw (e, queue_network_event) (record { timely = h.timely; counted = h.counted; told = h.told })
  sent-IsNetwork event queue (some queue') state e h =
      rw (e, queue_network_event) (record { timely = h.timely; counted = h.counted; told = h.told })

  queued-IsNetwork :
      (event : NetworkEvent) (queue : Option (List NetworkEvent)) (state : NetworkState)
      → IsNetwork state
      → IsNetwork (queue_network_event wifi event (record state { event_queue = queue }))
  unfolding queue_network_event
  queued-IsNetwork event none state h = record {
    timely = h.timely;
    counted = h.counted;
    told = h.told;
  }
  queued-IsNetwork event (some queue) state h =
      sent-IsNetwork event queue (wifi.queue_send queue event) state refl h

  queue_network_event-IsNetwork : (event : NetworkEvent) → Keeps (queue_network_event wifi event)
  queue_network_event-IsNetwork event state h = queued-IsNetwork event state.event_queue state h

  pub schedule_reconnect-IsNetwork : Keeps (schedule_reconnect wifi)
  unfolding schedule_reconnect
  schedule_reconnect-IsNetwork state h =
      let (least, most) = reconnect_delay_ms-bounds state.retry_count in
      record {
        timely =
            start_timer-IsTimely (reconnect_delay_ms state.retry_count)
              (stop_timer wifi state.timer) least most;
        counted = ground (arith, h.counted);
        told = λ e. let far = h.told e in ground (arith, far);
      }

  on_sta_start-IsNetwork : Keeps (on_sta_start wifi)
  unfolding on_sta_start
  on_sta_start-IsNetwork state h =
      let state' = queue_network_event wifi (event_of event_started EspErr.esp_ok) state in
      let h' = queue_network_event-IsNetwork (event_of event_started EspErr.esp_ok) state h in
      if_either IsNetwork state'.credentials_available
        (record { timely = h'.timely; counted = h'.counted; told = h'.told }) h'

  after_loss-IsNetwork : (reason : Option ℕ) → Keeps (after_loss wifi reason)
  after_loss-IsNetwork reason state h = record {
    timely = h.timely;
    counted = h.counted;
    told = λ e. let far = h.told in ground (arith, e, far);
  }

  respond_to_loss-IsNetwork : (reason : Option ℕ) → Keeps (respond_to_loss wifi reason)
  unfolding respond_to_loss
  respond_to_loss-IsNetwork reason state h =
      let lost = after_loss wifi reason state in
      let h' = after_loss-IsNetwork reason state h in
      let exhausted = queue_network_event wifi (event_of event_retry_exhausted fail) lost in
      let h'' = queue_network_event-IsNetwork (event_of event_retry_exhausted fail) lost h' in
      if_either IsNetwork (state.provisioning_disconnect_pending || not state.credentials_available)
        h'
        (if_either IsNetwork (notifies_exhausted wifi state)
          (schedule_reconnect-IsNetwork exhausted h'') (schedule_reconnect-IsNetwork lost h'))

  on_sta_disconnected-IsNetwork : (reason : Option ℕ) → Keeps (on_sta_disconnected wifi reason)
  unfolding on_sta_disconnected
  on_sta_disconnected-IsNetwork reason state h =
      respond_to_loss-IsNetwork reason _ (queue_network_event-IsNetwork _ state h)

  on_sta_got_ip-IsNetwork : (address : Option ℕ) → Keeps (on_sta_got_ip wifi address)
  unfolding on_sta_got_ip
  on_sta_got_ip-IsNetwork address state h = queue_network_event-IsNetwork _ _ (record {
    timely = stop_timer-IsTimely state.timer;
    counted = omega arith;
    told = λ e. absurd (ground (arith, e));
  })

  pub handler-IsNetwork : (event : WifiEvent) → Keeps (network_event_handler wifi event)
  unfolding network_event_handler
  handler-IsNetwork sta_start = on_sta_start-IsNetwork
  handler-IsNetwork (sta_disconnected reason) = on_sta_disconnected-IsNetwork reason
  handler-IsNetwork (sta_got_ip address) = on_sta_got_ip-IsNetwork address
  handler-IsNetwork other_event = λ state h. h

  pub callback-IsNetwork : Keeps (reconnect_timer_callback wifi)
  unfolding reconnect_timer_callback
  callback-IsNetwork state h =
      let fired : IsNetwork (record state { timer = stop_timer wifi state.timer }) = record {
        timely = stop_timer-IsTimely state.timer;
        counted = h.counted;
        told = h.told;
      } in
      if_either IsNetwork state.credentials_available
        (record { timely = fired.timely; counted = fired.counted; told = fired.told }) fired
