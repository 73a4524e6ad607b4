-- ===== src/Network/Outage.antt =====
-- A network that stays away: every attempt fails, and another one is always under way.
use esp32_monitor.Base.{
  ℕ, ◌+◌, ◌-◌, ◌≡◌, ◌≢◌, Bool, true, false, some, List, [], ◌∷◌, ◌++◌, ltb, if◌then◌else◌, ◌==◌,
}
use esp32_monitor.Esp.{fail, is_esp_ok}
use esp32_monitor.Network.{
  NetworkState, NetworkEvent, Wifi, no_timer, armed, schedule_reconnect, reconnect_timer_callback,
  fast_retry_limit, reconnect_delay_ms, event_of, event_disconnected, event_retry_exhausted,
}
use esp32_monitor.Network.Events.{on_sta_disconnected, after_loss}

abbrev pub loss_of : ℕ → NetworkEvent
loss_of reason = record (event_of event_disconnected fail) { disconnect_reason = reason }

-- The events of one loss: the loss, and that the attempts are exhausted where it is told of.
abbrev pub notice : Bool → ℕ → List NetworkEvent
notice true reason = loss_of reason ∷ event_of event_retry_exhausted fail ∷ []
notice false reason = loss_of reason ∷ []

-- The events of losses for these reasons, where so many came before them: the sixth loss, and no
-- other, is told of.
abbrev pub notices : ℕ → List ℕ → List NetworkEvent
notices losses [] = []
notices losses (reason ∷ reasons) =
    notice (losses == fast_retry_limit) reason ++ notices (losses + 1) reasons

-- xQueueSend to a queue that has room for every event.
abbrev pub TakesAll : Wifi → Type 0
TakesAll wifi =
    (queue : List NetworkEvent) (event : NetworkEvent)
    → wifi.queue_send queue event ≡ some (queue ++ event ∷ [])

module _ (wifi : Wifi) where
  -- The n-th loss of the connection in a row, with a running timer, has been answered, and these
  -- events are in the queue.
  pub record IsOffline (losses : ℕ) (heard : List NetworkEvent) (state : NetworkState)
      : Type 0 where
    pub available : state.credentials_available ≡ true
    pub settled : state.provisioning_disconnect_pending ≡ false
    pub counted : state.retry_count ≡ losses
    pub told : state.exhausted_notified ≡ ltb fast_retry_limit losses
    pub waiting : state.timer ≡ armed (reconnect_delay_ms (losses - 1))
    pub queued : state.event_queue ≡ some heard

  -- The timer fires. Where the driver accepts the attempt, it fails later, and the loss is handled;
  -- where esp_wifi_connect itself fails, no event follows.
  unfoldable pub lose_again : ℕ → NetworkState → NetworkState
  lose_again reason state =
      let tried = reconnect_timer_callback wifi state in
      if is_esp_ok wifi.connect then on_sta_disconnected wifi (some reason) tried else tried

  unfoldable pub lose_all : List ℕ → NetworkState → NetworkState
  lose_all [] state = state
  lose_all (reason ∷ reasons) state = lose_all reasons (lose_again reason state)

  -- So many losses have been counted, these events are in the queue, and a timer can be started.
  pub record IsReady (losses : ℕ) (heard : List NetworkEvent) (state : NetworkState) : Type 0 where
    pub still_available : state.credentials_available ≡ true
    pub still_settled : state.provisioning_disconnect_pending ≡ false
    pub still_counted : state.retry_count ≡ losses
    pub still_told : state.exhausted_notified ≡ ltb fast_retry_limit losses
    pub still_queued : state.event_queue ≡ some heard
    pub has_timer : state.timer ≢ no_timer

  module _ (takes : TakesAll wifi) where
    -- What a loss leaves for the reconnect timer to be scheduled in.
    abbrev lost_with : ℕ → List NetworkEvent → NetworkState → NetworkState
    lost_with reason queue state = record (after_loss wifi (some reason) state) {
      event_queue = some queue;
    }

    abbrev IsTold : Bool → ℕ → List NetworkEvent → NetworkState → NetworkState → Type 0
    IsTold told reason queue state after =
        after
        ≡ schedule_reconnect wifi (
            lost_with reason
              (if told then queue ++ event_of event_retry_exhausted fail ∷ [] else queue) state)
