-- ===== src/BleLink/Session/Callbacks.antt =====
-- The callbacks of NimBLE and the link.
use esp32_monitor.Base.{
  ℕ, ◌≡◌, refl, arith, Bool, true, Option, none, some, if_either, if_cases, ◌==◌, ◌!=◌, ◌||◌, ◌&&◌,
}
use esp32_monitor.BleLink.{
  Host, LinkState, connected, disconnected, security_changed, subscription_changed, mtu_changed,
  ready, transport_error, post_simple_event, reset_reassembly,
}
use esp32_monitor.BleLink.Gap.{
  connect, disconnect, enc_change, subscribe, mtu_exchanged, repeat_pairing, adv_complete, other,
  Security, opened, with_security, with_subscription, security_of, Radio, Handles, GapEvent,
  gap_event, start_advertising, on_connect, on_disconnect, on_enc_change, on_subscribe, on_sync,
  on_reset,
}
use esp32_monitor.BleLink.Session.{
  IsLink, Appends, Keeps, queued, post_simple_event-IsLink, no_assembly-IsAssembly,
}

module _ (host : Host) (appends : Appends host) where
  start_advertising-IsLink :
      (radio : Radio) (link : LinkState)
      → IsLink host.no_handle link
      → IsLink host.no_handle (start_advertising host radio link).0
  unfolding start_advertising
  start_advertising-IsLink radio link h =
      let P : LinkState × Bool → Type 0 = λ r. IsLink host.no_handle r.0 in
      let posted : (status : ℕ)
          → IsLink host.no_handle (post_simple_event host link transport_error status) =
        λ status. post_simple_event-IsLink host appends link transport_error status refl h in
      search (posted, h, if_either P)

  pub reset_reassembly-IsLink : Keeps host appends reset_reassembly
  unfolding reset_reassembly queued
  reset_reassembly-IsLink link h = record {
    assembled = no_assembly-IsAssembly host appends;
    detached = h.detached;
    sound = h.sound;
  }

  opened-IsLink :
      (handle : ℕ) (security : Security)
      → Keeps host appends (λ link.
        post_simple_event host (reset_reassembly (opened link handle security)) connected 0)
  unfolding reset_reassembly queued
  opened-IsLink handle security link h =
      post_simple_event-IsLink host appends (reset_reassembly (opened link handle security))
        connected 0 refl
        (record {
          assembled = no_assembly-IsAssembly host appends;
          detached = λ e. absurd (grind (arith, e));
          sound = h.sound;
        })

  on_connect-IsLink :
      (radio : Radio) (status handle : ℕ)
      → Keeps host appends (λ link. on_connect host radio link status handle)
  unfolding on_connect
  on_connect-IsLink radio status handle link h =
      let P : LinkState → Type 0 = IsLink host.no_handle in
      let security = security_of (radio.conn_find handle) in
      let link' =
        post_simple_event host (reset_reassembly (opened link handle security)) connected 0 in
      let connects = opened-IsLink handle security link h in
      let result = radio.security_initiate handle in
      let secured = post_simple_event-IsLink host appends link' security_changed 0 refl connects in
      let failed =
        post_simple_event-IsLink host appends link' transport_error result refl connects in
      let idle = start_advertising-IsLink radio link h in
      if_either P (status != 0) idle (
        if_either P security.encrypted secured
          (if_either P (result != 0 && result != radio.already) failed connects))

  on_disconnect-IsLink :
      (radio : Radio) (reason : ℕ)
      → Keeps host appends (λ link. on_disconnect host radio link reason)
  unfolding on_disconnect reset_reassembly queued
  on_disconnect-IsLink radio reason link h = start_advertising-IsLink radio _ (
      post_simple_event-IsLink host appends _ disconnected reason refl (record {
        assembled = no_assembly-IsAssembly host appends;
        detached = λ _. (refl, refl, refl);
        sound = h.sound;
      }))

  with_security-IsLink :
      (security : Option Security) (link : LinkState)
      → link.connected ≡ true
      → IsLink host.no_handle link
      → IsLink host.no_handle (with_security link security)
  unfolding queued
  with_security-IsLink none link current h = h
  with_security-IsLink (some security) link current h = record {
    assembled = h.assembled;
    detached = λ e. absurd (grind (arith, e, current));
    sound = h.sound;
  }

  on_enc_change-IsLink :
      (radio : Radio) (status handle : ℕ)
      → Keeps host appends (λ link. on_enc_change host radio link status handle)
  unfolding on_enc_change
  on_enc_change-IsLink radio status handle link h =
      if_cases (IsLink host.no_handle) (link.connected && link.connection_handle == handle)
        (λ current.
          post_simple_event-IsLink host appends (with_security link (radio.conn_find handle))
            security_changed status refl
            (with_security-IsLink (radio.conn_find handle) link (ground (arith, current)) h))
        (λ _. h)

  with_subscription-IsLink :
      (handles : Handles) (attr_handle cur_notify : ℕ)
      → Keeps host appends (λ link. with_subscription handles link attr_handle cur_notify)
  unfolding queued
  with_subscription-IsLink handles attr_handle cur_notify link h =
      let P : LinkState → Type 0 = IsLink host.no_handle in
      let changed : (b c : Bool) → P (record link { subscribed = b; codex_subscribed = c }) =
        λ b c. record { assembled = h.assembled; detached = h.detached; sound = h.sound } in
      if_either P (attr_handle == handles.tx) (changed (cur_notify != 0) link.codex_subscribed) (
        if_either P (attr_handle == handles.codex_input) (changed link.subscribed (cur_notify != 0))
          h)

  on_subscribe-IsLink :
      (radio : Radio) (handles : Handles) (attr_handle cur_notify : ℕ)
      → Keeps host appends (λ link. on_subscribe host radio handles link attr_handle cur_notify)
  unfolding on_subscribe
  on_subscribe-IsLink radio handles attr_handle cur_notify link h =
      let P : LinkState → Type 0 = IsLink host.no_handle in
      let posted =
        post_simple_event-IsLink host appends
          (with_subscription handles link attr_handle cur_notify) subscription_changed 0 refl
          (with_subscription-IsLink handles attr_handle cur_notify link h) in
      if_either P
        (attr_handle == handles.tx
          || attr_handle == handles.status
          || attr_handle == handles.codex_input)
        posted h

  pub gap_event-IsLink :
      (radio : Radio) (allow : Bool) (handles : Handles) (event : GapEvent)
      → Keeps host appends (λ link. (gap_event host radio allow handles link event).0)
  unfolding gap_event queued
  gap_event-IsLink radio allow handles (connect status handle) link h =
      on_connect-IsLink radio status handle link h
  gap_event-IsLink radio allow handles (disconnect reason) link h =
      on_disconnect-IsLink radio reason link h
  gap_event-IsLink radio allow handles (enc_change status handle) link h =
      on_enc_change-IsLink radio status handle link h
  gap_event-IsLink radio allow handles (subscribe attr_handle cur_notify) link h =
      on_subscribe-IsLink radio handles attr_handle cur_notify link h
  gap_event-IsLink radio allow handles (mtu_exchanged value) link h =
      post_simple_event-IsLink host appends (record link { mtu = value }) mtu_changed 0 refl
        (record { assembled = h.assembled; detached = h.detached; sound = h.sound })
  gap_event-IsLink radio allow handles (repeat_pairing handle) link h = h
  gap_event-IsLink radio allow handles adv_complete link h = start_advertising-IsLink radio link h
  gap_event-IsLink radio allow handles other link h = h

  pub on_reset-IsLink :
      (radio : Radio) (reason : ℕ) → Keeps host appends (λ link. on_reset host radio link reason)
  unfolding on_reset
  on_reset-IsLink radio reason link h =
      post_simple_event-IsLink host appends link transport_error reason refl h

  pub on_sync-IsLink : (radio : Radio) → Keeps host appends (on_sync host radio)
  unfolding on_sync queued
  on_sync-IsLink radio link h =
      let P : LinkState → Type 0 = IsLink host.no_handle in
      let addressed = record link { own_address_type = radio.infer_auto.1 } in
      let h' : P addressed = record {
        assembled = h.assembled;
        detached = h.detached;
        sound = h.sound;
      } in
      let advertising = start_advertising host radio addressed in
      let h'' = start_advertising-IsLink radio addressed h' in
      if_either P (radio.ensure_addr != 0)
        (post_simple_event-IsLink host appends link transport_error radio.ensure_addr refl h)
        (if_either P (radio.infer_auto.0 != 0)
          (post_simple_event-IsLink host appends addressed transport_error radio.infer_auto.0 refl
            h')
          (if_either P advertising.1
            (post_simple_event-IsLink host appends advertising.0 ready 0 refl h'') h''))
