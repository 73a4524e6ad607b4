-- ===== src/BleLink/Gap.antt =====
-- gap_event and what it calls: the connection's life as NimBLE reports it.
use esp32_monitor.Base.{
  ℕ, Bool, true, false, Option, none, some, ◌&&◌, ◌||◌, ◌==◌, ◌!=◌, if◌then◌else◌,
}
use esp32_monitor.BleLink.{
  Host, LinkState, default_att_mtu, ready, connected, disconnected, security_changed,
  subscription_changed, mtu_changed, transport_error, reset_reassembly, post_simple_event,
}

-- sec_state of a connection's description.
pub record Security : Type 0 where
  pub encrypted : Bool
  pub bonded : Bool

-- What NimBLE answers during one callback; a status is 0 where the call succeeded.
pub record Radio : Type 0 where
  pub conn_find : ℕ → Option Security
  pub security_initiate : ℕ → ℕ
  pub adv_set_fields : ℕ
  pub adv_rsp_set_fields : ℕ
  pub adv_start : ℕ → ℕ
  pub ensure_addr : ℕ
  -- The status and the type of address that ble_hs_id_infer_auto writes.
  pub infer_auto : ℕ × ℕ
  -- BLE_HS_EALREADY.
  pub already : ℕ

-- tx_value_handle, status_value_handle and codex_input_value_handle.
pub record Handles : Type 0 where
  pub tx : ℕ
  pub status : ℕ
  pub codex_input : ℕ

pub data GapEvent : Type 0 where
  connect : (status handle : ℕ) → GapEvent
  disconnect : (reason : ℕ) → GapEvent
  enc_change : (status handle : ℕ) → GapEvent
  subscribe : (attr_handle cur_notify : ℕ) → GapEvent
  mtu_exchanged : (value : ℕ) → GapEvent
  repeat_pairing : (handle : ℕ) → GapEvent
  adv_complete other : GapEvent

-- What the callback returns. `retry` comes with the connection whose peer was deleted from the
-- store of bonds.
pub data GapAnswer : Type 0 where
  done ignore : GapAnswer
  retry : (deleted : ℕ) → GapAnswer

-- The fields that a new connection sets; `subscribed` stays as it is.
abbrev pub opened : LinkState → ℕ → Security → LinkState
opened link handle security = record link {
  connected = true;
  encrypted = security.encrypted;
  bonded = security.bonded;
  connection_handle = handle;
  mtu = default_att_mtu;
}

-- The fields that the end of a connection resets.
abbrev pub closed : ℕ → LinkState → LinkState
closed no_handle link = record link {
  connected = false;
  encrypted = false;
  bonded = false;
  subscribed = false;
  codex_subscribed = false;
  connection_handle = no_handle;
  mtu = default_att_mtu;
}

abbrev pub with_security : LinkState → Option Security → LinkState
with_security link none = link
with_security link (some security) = record link {
  encrypted = security.encrypted;
  bonded = security.bonded;
}

abbrev pub with_subscription : Handles → LinkState → ℕ → ℕ → LinkState
with_subscription handles link attr_handle cur_notify =
    if attr_handle == handles.tx
    then record link { subscribed = cur_notify != 0 }
    else if attr_handle == handles.codex_input
    then record link { codex_subscribed = cur_notify != 0 }
    else link

abbrev pub security_of : Option Security → Security
security_of (some security) = security
security_of none = record { encrypted = false; bonded = false }

module _ (host : Host) (radio : Radio) where
  unfoldable pub start_advertising : LinkState → LinkState × Bool
  start_advertising link =
      let started = radio.adv_start link.own_address_type in
      if radio.adv_set_fields != 0
      then (post_simple_event host link transport_error radio.adv_set_fields, false)
      else if radio.adv_rsp_set_fields != 0
      then (post_simple_event host link transport_error radio.adv_rsp_set_fields, false)
      else if started != 0 && started != radio.already
      then (post_simple_event host link transport_error started, false)
      else (link, true)

  unfoldable pub on_connect : LinkState → ℕ → ℕ → LinkState
  unfolding start_advertising
  on_connect link status handle =
      let security = security_of (radio.conn_find handle) in
      let link' =
        post_simple_event host (reset_reassembly (opened link handle security)) connected 0 in
      let result = radio.security_initiate handle in
      if status != 0
      then (start_advertising link).0
      else if security.encrypted
      then post_simple_event host link' security_changed 0
      else if result != 0 && result != radio.already
      then post_simple_event host link' transport_error result
      else link'

  unfoldable pub on_disconnect : LinkState → ℕ → LinkState
  unfolding start_advertising
  on_disconnect link reason =
      (start_advertising (
        post_simple_event host (reset_reassembly (closed host.no_handle link)) disconnected
          reason)).0

  unfoldable pub on_enc_change : LinkState → ℕ → ℕ → LinkState
  on_enc_change link status handle =
      if link.connected && link.connection_handle == handle
      then post_simple_event host (with_security link (radio.conn_find handle)) security_changed
          status
      else link

  unfoldable pub on_subscribe : Handles → LinkState → ℕ → ℕ → LinkState
  on_subscribe handles link attr_handle cur_notify =
      if attr_handle == handles.tx
        || attr_handle == handles.status
        || attr_handle == handles.codex_input
      then post_simple_event host (with_subscription handles link attr_handle cur_notify)
          subscription_changed 0
      else link

  -- `allow_enrollment` is CONFIG_DESK_ALLOW_APP_ENROLLMENT.
  unfoldable pub on_repeat_pairing : Bool → LinkState → ℕ → GapAnswer
  on_repeat_pairing allow_enrollment link handle =
      let found : GapAnswer = elim (radio.conn_find handle) [
        | some _ ↦ retry handle
        | none ↦ ignore
      ] in
      if allow_enrollment || link.connected && link.encrypted && link.connection_handle == handle
      then found
      else ignore

  unfoldable pub gap_event : Bool → Handles → LinkState → GapEvent → LinkState × GapAnswer
  unfolding on_connect on_disconnect on_enc_change on_subscribe on_repeat_pairing start_advertising
  gap_event allow handles link (connect status handle) = (on_connect link status handle, done)
  gap_event allow handles link (disconnect reason) = (on_disconnect link reason, done)
  gap_event allow handles link (enc_change status handle) = (on_enc_change link status handle, done)
  gap_event allow handles link (subscribe attr_handle cur_notify) =
      (on_subscribe handles link attr_handle cur_notify, done)
  gap_event allow handles link (mtu_exchanged value) =
      (post_simple_event host (record link { mtu = value }) mtu_changed 0, done)
  gap_event allow handles link (repeat_pairing handle) = (link, on_repeat_pairing allow link handle)
  gap_event allow handles link adv_complete = ((start_advertising link).0, done)
  gap_event allow handles link other = (link, done)

  unfoldable pub on_reset : LinkState → ℕ → LinkState
  on_reset link reason = post_simple_event host link transport_error reason

  unfoldable pub on_sync : LinkState → LinkState
  unfolding start_advertising
  on_sync link =
      let (status, type) = radio.infer_auto in
      let addressed = record link { own_address_type = type } in
      let (link', advertising) = start_advertising addressed in
      if radio.ensure_addr != 0
      then post_simple_event host link transport_error radio.ensure_addr
      else if status != 0
      then post_simple_event host addressed transport_error status
      else if advertising
      then post_simple_event host link' ready 0
      else link'
