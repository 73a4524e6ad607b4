-- ===== src/Worker.antt =====
-- What the two workers, components/market and components/weather, have in common: their events, the
-- queue to the supervisor, and the time for which their tasks wait.
use esp32_monitor.Base.{
  ℕ, ◌<◌, ◌≤◌, ◌≡◌, refl, true, Bool-cases, inl, inr, Option, none, some, List, [], ◌∷◌, ◌++◌, ltb,
  if◌then◌else◌, length, drop, length-drop, lt→ltb, arith,
}
use esp32_monitor.Esp.{EspErr, is_esp_ok}

-- An event of a worker: a new state, or an error.
pub data WorkerEvent (A : Type 0) : Type 0 where
  updated : (state : A) → WorkerEvent A
  fetch_failed : (status : EspErr) → WorkerEvent A

-- portMAX_DELAY, or a number of milliseconds.
pub data Wait : Type 0 where
  forever : Wait
  milliseconds : (n : ℕ) → Wait

-- ESP_RETURN_ON_ERROR over a state that the calls write.
abbrev pub and_then : {S : Type 0} → S × EspErr → (S → S × EspErr) → S × EspErr
and_then (state, result) next = if is_esp_ok result then next state else (state, result)

-- xQueueSend with no waiting: the queue after it, or `none` where it does not take the event.
abbrev pub Send : Type 0 → Type 0
Send E = List E → E → Option (List E)

abbrev pub sent_or : {E : Type 0} → List E → Option (List E) → List E
sent_or queue none = queue
sent_or queue (some queue') = queue'

abbrev pub retry_send : {E : Type 0} → Send E → E → List E → Option (List E) → List E
retry_send send event queue none = sent_or (drop 1 queue) (send (drop 1 queue) event)
retry_send send event queue (some queue') = queue'

-- Where the queue does not take an event, the oldest is taken out and it is sent once more.
unfoldable pub queue_event : {E : Type 0} → Send E → E → Option (List E) → Option (List E)
queue_event send event none = none
queue_event send event (some queue) = some (retry_send send event queue (send queue event))

-- A queue of FreeRTOS with room for so many events.
abbrev pub IsQueue : {E : Type 0} → ℕ → Send E → Type 0
IsQueue {E} capacity send =
    (queue : List E) (event : E)
    → send queue event ≡ (if ltb (length queue) capacity then some (queue ++ event ∷ []) else none)

-- The queue with an event at its end, without its oldest where it was full.
abbrev pub with_newest : {E : Type 0} → ℕ → List E → E → List E
with_newest capacity queue event =
    (if ltb (length queue) capacity then queue else drop 1 queue) ++ event ∷ []

module _ {E : Type 0} (capacity : ℕ) (send : Send E) (is_queue : IsQueue capacity send) where
  -- An event of a worker is never lost when it is queued: it comes last in the queue, and what
  -- waits before it stays in its order, but for the oldest event of a queue that was full.
  pub queue_event_lem :
      (event : E) (queue : List E)
      → 0 < capacity
      → length queue ≤ capacity
      → queue_event send event (some queue) ≡ some (with_newest capacity queue event)
  unfolding queue_event
  queue_event_lem event queue room h = elim (Bool-cases (ltb (length queue) capacity)) [
    | inl fits ↦ rw (is_queue queue event, fits) refl
    | inr full ↦
        let fits : ltb (length (drop 1 queue)) capacity ≡ true =
          lt→ltb _ _ (ground (arith, length-drop 1 queue)) in
        rw (is_queue queue event, full, is_queue (drop 1 queue) event, fits) refl
  ]
