-- ===== src/BleLink/Session.antt =====
-- What holds of the link through any callbacks, writes, reports of Codex, sends and receives.
pub mod Callbacks
pub mod Packets
pub mod Reports
pub mod Reached
use esp32_monitor.Base.{
  ℕ, ◌+◌, ◌≤◌, ◌<◌, ◌≡◌, ◌⊎◌, inl, inr, refl, sym, ap, ◌∙◌, arith, Bool, true, false, Option, none,
  some, List, [], ◌∷◌, ◌++◌, All, All-append, if_either, if_cases, ◌==◌, ◌!=◌, ◌||◌, ◌&&◌, take,
  drop, copy_to, replicate, take_all, take-append, length-take, length-drop, length-append,
  length as list_length,
}
use esp32_monitor.Protocol.{ok, max_frame_size}
use esp32_monitor.Protocol.Codec.{decode_into}
use esp32_monitor.BleLink.{
  Host, LinkState, Assembly, BleEvent, EventType, frame_received, connected, disconnected,
  security_changed, subscription_changed, mtu_changed, ready, transport_error, event_of, post_event,
  post_simple_event, reset_reassembly, initial_link, no_assembly,
}
use esp32_monitor.BleLink.Reassembly.{
  unset_frame, begun, finish_assembly, append_fragment, take_fragment, handle_rx_fragment,
}
use esp32_monitor.BleLink.Gap.{
  Security, opened, closed, with_security, with_subscription, security_of, Radio, Handles, GapEvent,
  gap_event, start_advertising, on_connect, on_disconnect, on_enc_change, on_subscribe, on_sync,
  on_reset,
}
use esp32_monitor.BleLink.Send.{Notified, send_frame}
use esp32_monitor.BleLink.Startup.{receive_event}

-- The buffer is whole, filled no further than it is long, and the next fragment is one of those announced.
pub record IsAssembly (assembly : Assembly) : Type 0 where
  pub whole : list_length assembly.bytes ≡ max_frame_size
  pub filled : assembly.length ≤ max_frame_size
  pub announced : assembly.active ≡ true → assembly.next_fragment < assembly.fragment_count

abbrev pub is_frame : EventType → Bool
is_frame frame_received = true
is_frame _ = false

-- An event that says that a frame arrived holds one that the decoder accepts.
abbrev pub IsSound : BleEvent → Type 0
IsSound event =
    event.type ≡ frame_received
    → (decode_into (take event.frame_length event.frame) unset_frame).0 ≡ ok

unfoldable pub queued : LinkState → List BleEvent
queued link = elim link.event_queue [ none ↦ [] | some queue ↦ queue ]

-- Without a connection the link has no trace of one.
pub record IsLink (no_handle : ℕ) (link : LinkState) : Type 0 where
  pub assembled : IsAssembly link.assembly
  pub detached :
      link.connected ≡ false
      → (link.encrypted ≡ false) × (link.bonded ≡ false) × (link.connection_handle ≡ no_handle)
  pub sound : All IsSound (queued link)

-- What the proofs ask of xQueueSend: an event goes to the end of the queue.
abbrev pub Appends : Host → Type 0
Appends host =
    (queue queue' : List BleEvent) (event : BleEvent)
    → host.queue_send queue event ≡ some queue'
    → queue' ≡ queue ++ event ∷ []

module _ (host : Host) (appends : Appends host) where
  post_event_keeps :
      (link : LinkState) (event : BleEvent)
      → ((post_event host link event).assembly ≡ link.assembly)
        × ((post_event host link event).connected ≡ link.connected)
        × ((post_event host link event).encrypted ≡ link.encrypted)
        × ((post_event host link event).bonded ≡ link.bonded)
        × ((post_event host link event).connection_handle ≡ link.connection_handle)
  unfolding post_event
  post_event_keeps link event = ground arith

  sent_to :
      (link : LinkState) (event : BleEvent) (queue : List BleEvent)
      (answer : Option (List BleEvent))
      → host.queue_send queue event ≡ answer
      → let link' = post_event host (record link { event_queue = some queue }) event in
        (queued link' ≡ queue) ⊎ (queued link' ≡ queue ++ event ∷ [])
  unfolding post_event queued
  sent_to link event queue none e = rw (e, queued, post_event) (inl refl)
  sent_to link event queue (some queue') e =
      rw (e, queued, post_event) (inr (appends queue queue' event e))

  queued-post_event :
      (link : LinkState) (queue : Option (List BleEvent)) (event : BleEvent)
      → let before = record link { event_queue = queue } in
        let after = post_event host before event in
        (queued after ≡ queued before) ⊎ (queued after ≡ queued before ++ event ∷ [])
  unfolding post_event queued
  queued-post_event link none event = inl refl
  queued-post_event link (some queue) event =
      sent_to link event queue (host.queue_send queue event) refl

  pub post_event-IsLink :
      (link : LinkState) (event : BleEvent)
      → IsLink host.no_handle link
      → IsSound event
      → IsLink host.no_handle (post_event host link event)
  post_event-IsLink link event h s =
      let (a, c, e, b, n) = post_event_keeps link event in
      record {
        assembled = rw a h.assembled;
        detached = rw (c, e, b, n) h.detached;
        sound = elim (queued-post_event link link.event_queue event) [
          | inl e ↦ rw e h.sound
          | inr e ↦ rw e (All-append IsSound (queued link) (event ∷ []) h.sound (s, tt))
        ];
      }

  pub post_simple_event-IsLink :
      (link : LinkState) (type : EventType) (status : ℕ)
      → is_frame type ≡ false
      → IsLink host.no_handle link
      → IsLink host.no_handle (post_simple_event host link type status)
  unfolding post_simple_event
  post_simple_event-IsLink link type status other h =
      post_event-IsLink link (record (event_of link type) { status = status }) h
        (λ e. absurd (grind (arith, other, ap is_frame e)))

  pub no_assembly-IsAssembly : IsAssembly no_assembly
  no_assembly-IsAssembly = record { whole = refl; filled = omega arith; announced = ground arith }

  abbrev pub Keeps : (LinkState → LinkState) → Type 0
  Keeps f = (link : LinkState) → IsLink host.no_handle link → IsLink host.no_handle (f link)
