-- ===== src/BleLink/Session/Reached.antt =====
-- The link as the steps of the host task and of the supervisor change it.
use esp32_monitor.Base.{
  ℕ, ◌≡◌, refl, Bool, true, false, Option, none, some, List, [], ◌∷◌, All, if_either, arith, take,
  ltb, ◌==◌, ◌!=◌, ◌||◌, not, if◌then◌else◌, length as list_length,
}
use esp32_monitor.Esp.{EspErr, is_esp_ok}
use mathlib.Core.Option.{some-injective}
use mathlib.Core.Path.{subst}
use esp32_monitor.Protocol.{ok, max_frame_size}
use esp32_monitor.Protocol.Codec.{decode_into}
use esp32_monitor.BleLink.{Host, LinkState, BleEvent, frame_received, initial_link}
use esp32_monitor.BleLink.Reassembly.{unset_frame, handle_rx_fragment}
use esp32_monitor.BleLink.Gap.{Radio, Handles, GapEvent, gap_event, on_sync, on_reset}
use esp32_monitor.BleLink.Send.{Notified, not_ok, send_frame}
use esp32_monitor.BleLink.Startup.{Platform, host_result, start, receive_event}
use esp32_monitor.BleLink.Session.{IsLink, IsSound, Appends, Keeps, queued, no_assembly-IsAssembly}
use esp32_monitor.BleLink.Session.Callbacks.{gap_event-IsLink, on_reset-IsLink, on_sync-IsLink}
use esp32_monitor.BleLink.Session.Packets.{handle_rx_fragment-IsLink}
use esp32_monitor.BleLink.Session.Reports.{codex_report_written-IsLink}
use esp32_monitor.BleLink.Codex.{Channel}
use esp32_monitor.BleLink.Codex.Requests.{Rpc}
use esp32_monitor.BleLink.Codex.Buffer.{Inbox, codex_report_written}

-- What xQueueReceive does: it takes the first event, or nothing.
abbrev pub TakesFirst : (List BleEvent → Option (BleEvent × List BleEvent)) → Type 0
TakesFirst receive =
    (queue queue' : List BleEvent) (event : BleEvent)
    → receive queue ≡ some (event, queue')
    → queue ≡ event ∷ queue'

-- The link after the call; the environment may answer each call as it likes.
pub data Reached (Node : Type 0) (host : Host) : LinkState → Type 0 where
  initial : Reached Node host (initial_link host.no_handle)
  started :
      (platform : Platform) (link : LinkState)
      → Reached Node host link
      → Reached Node host (start platform link).0
  synced :
      (radio : Radio) (link : LinkState)
      → Reached Node host link
      → Reached Node host (on_sync host radio link)
  reset :
      (radio : Radio) (reason : ℕ) (link : LinkState)
      → Reached Node host link
      → Reached Node host (on_reset host radio link reason)
  called_back :
      (radio : Radio) (allow : Bool) (handles : Handles) (event : GapEvent) (link : LinkState)
      → Reached Node host link
      → Reached Node host (gap_event host radio allow handles link event).0
  written :
      (packet : List ℕ) (now_ms : ℕ) (link : LinkState)
      → Reached Node host link
      → Reached Node host (handle_rx_fragment host link packet now_ms).0
  sent_out :
      (notify : List ℕ → Notified) (frame : Option (List ℕ)) (link : LinkState)
      → Reached Node host link
      → Reached Node host (send_frame host notify link frame).0
  received :
      (receive : List BleEvent → Option (BleEvent × List BleEvent)) (link : LinkState)
      → TakesFirst receive
      → Reached Node host link
      → Reached Node host (receive_event receive link).0
  codex_written :
      (rpc : Rpc Node) (channel : Channel) (is_output : Bool) (report_id : ℕ)
      (report : Option (List ℕ)) (inbox : Inbox)
      → Reached Node host inbox.inbox_link
      → Reached Node host
          (codex_report_written rpc host channel is_output report_id report inbox).inbox_link

module _ (host : Host) (appends : Appends host) where
  initial-IsLink : IsLink host.no_handle (initial_link host.no_handle)
  unfolding queued
  initial-IsLink = record {
    assembled = no_assembly-IsAssembly host appends;
    detached = λ _. (refl, refl, refl);
    sound = tt;
  }

  start-IsLink : (platform : Platform) → Keeps host appends (λ link. (start platform link).0)
  unfolding start queued
  start-IsLink platform link h =
      let P : LinkState × EspErr → Type 0 = λ r. IsLink host.no_handle r.0 in
      let fresh : (made locked run : Bool)
          → IsLink host.no_handle (record link {
            event_queue = if made then some [] else none;
            codex_send_mutex = locked;
            started = run;
          }) =
        λ made locked run. record {
          assembled = h.assembled;
          detached = h.detached;
          sound =
              elim made
                as (λ k.
                  All IsSound
                    (queued (record link { event_queue = if k then some [] else none }))) [
                      | true ↦ tt
                      | false ↦ tt
                    ];
        } in
      let made = fresh true true link.started in
      if_either P link.started h (
        if_either P (not platform.queue_created) (fresh false link.codex_send_mutex link.started) (
          if_either P (not platform.mutex_created) (fresh true false link.started) (
            if_either P (not (is_esp_ok platform.nvs_flash_init)) made (
              if_either P (not (is_esp_ok platform.nimble_port_init)) made
                (if_either P (host_result platform != 0) made (fresh true true true))))))

  send_frame-IsLink :
      (notify : List ℕ → Notified) (frame : Option (List ℕ))
      → Keeps host appends (λ link. (send_frame host notify link frame).0)
  unfolding send_frame queued
  send_frame-IsLink notify none link h = h
  send_frame-IsLink notify (some frame) link h =
      if_either (λ (r : LinkState × List (List ℕ) × EspErr). IsLink host.no_handle r.0)
        (list_length frame == 0
          || ltb max_frame_size (list_length frame)
          || not_ok (decode_into frame unset_frame).0)
        h (record { assembled = h.assembled; detached = h.detached; sound = h.sound })

  taken-IsLink :
      (receive : List BleEvent → Option (BleEvent × List BleEvent)) (queue : List BleEvent)
      (answer : Option (BleEvent × List BleEvent)) (link : LinkState)
      → TakesFirst receive
      → receive queue ≡ answer
      → IsLink host.no_handle (record link { event_queue = some queue })
      → let (link', event) = receive_event receive (record link { event_queue = some queue }) in
        IsLink host.no_handle link' × ((event' : BleEvent) → event ≡ some event' → IsSound event')
  unfolding receive_event queued
  taken-IsLink receive queue none link t e h =
      rw (e, receive_event) (h, λ event' n. absurd (ground (arith, n)))
  taken-IsLink receive queue (some (event, queue')) link t e h =
      let all : All IsSound (event ∷ queue') =
        subst (All IsSound) (t queue queue' event e) h.sound in
      rw (e, receive_event)
        (
          record { assembled = h.assembled; detached = h.detached; sound = all.1 },
          λ event' n. subst IsSound (some-injective event event' n) all.0,
        )

  receive_event-IsLink :
      (receive : List BleEvent → Option (BleEvent × List BleEvent)) (queue : Option (List BleEvent))
      (link : LinkState)
      → TakesFirst receive
      → IsLink host.no_handle (record link { event_queue = queue })
      → let (link', event) = receive_event receive (record link { event_queue = queue }) in
        IsLink host.no_handle link' × ((event' : BleEvent) → event ≡ some event' → IsSound event')
  unfolding receive_event
  receive_event-IsLink receive none link t h = (h, λ event' n. absurd (ground (arith, n)))
  receive_event-IsLink receive (some queue) link t h =
      taken-IsLink receive queue (receive queue) link t refl h

  -- After any start, callbacks, writes of packets and of reports of Codex, sends and receives, from
  -- the initial link on, the buffer of the assembly is whole and never overfilled, an active assembly waits for a fragment below its
  -- count, a link without a connection is neither encrypted nor bonded and has no handle, and every
  -- queued frame is one that the decoder accepts.
  pub Reached-IsLink :
      {Node : Type 0} (link : LinkState) → Reached Node host link → IsLink host.no_handle link
  Reached-IsLink _ initial = initial-IsLink
  Reached-IsLink _ (started platform link r) = start-IsLink platform link (Reached-IsLink link r)
  Reached-IsLink _ (synced radio link r) =
      on_sync-IsLink host appends radio link (Reached-IsLink link r)
  Reached-IsLink _ (reset radio reason link r) =
      on_reset-IsLink host appends radio reason link (Reached-IsLink link r)
  Reached-IsLink _ (called_back radio allow handles event link r) =
      gap_event-IsLink host appends radio allow handles event link (Reached-IsLink link r)
  Reached-IsLink _ (written packet now_ms link r) =
      handle_rx_fragment-IsLink host appends packet now_ms link (Reached-IsLink link r)
  Reached-IsLink _ (sent_out notify frame link r) =
      send_frame-IsLink notify frame link (Reached-IsLink link r)
  Reached-IsLink _ (received receive link t r) =
      (receive_event-IsLink receive link.event_queue link t (Reached-IsLink link r)).0
  Reached-IsLink _ (codex_written rpc channel is_output report_id report inbox r) =
      codex_report_written-IsLink host appends rpc channel is_output report_id report inbox
        (Reached-IsLink inbox.inbox_link r)

  -- From any reached link, an event that the supervisor receives as a frame holds, in its first
  -- frame_length bytes, a frame that the decoder accepts.
  pub receive_event-IsSound :
      {Node : Type 0} (link : LinkState)
      (receive : List BleEvent → Option (BleEvent × List BleEvent)) (event : BleEvent)
      → Reached Node host link
      → TakesFirst receive
      → (receive_event receive link).1 ≡ some event
      → event.type ≡ frame_received
      → (decode_into (take event.frame_length event.frame) unset_frame).0 ≡ ok
  receive_event-IsSound link receive event r t e =
      (receive_event-IsLink receive link.event_queue link t (Reached-IsLink link r)).1 event e
