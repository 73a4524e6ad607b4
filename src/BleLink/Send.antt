-- ===== src/BleLink/Send.antt =====
-- desk_ble_link_send_frame: a frame is cut into notifications that fit the link.
use esp32_monitor.Base.{
  ℕ, zero, suc, ◌+◌, ◌-◌, ◌/◌, Bool, true, false, not, Option, none, some, List, [], ◌∷◌, ◌++◌,
  ◌&&◌, ◌||◌, ltb, ◌==◌, if◌then◌else◌, u8, u16, take, drop, length as list_length,
}
use esp32_monitor.Protocol.{Status, ok, write_u16_le, max_frame_size}
use esp32_monitor.Protocol.Codec.{decode_into}
use esp32_monitor.Esp.{EspErr, esp_ok, invalid_arg, invalid_state, invalid_size, no_mem, fail}
use esp32_monitor.BleLink.{Host, LinkState, default_att_mtu, att_header_size, fragment_header_size}
use esp32_monitor.BleLink.Reassembly.{unset_frame}

-- What becomes of one notification: handed over, no buffer for it, or refused.
pub data Notified : Type 0 where
  sent no_buffer refused : Notified

unfoldable pub not_ok : Status → Bool
not_ok ok = false
not_ok _ = true

-- The bytes of `packet` that go out for one index.
unfoldable pub fragment : ℕ → ℕ → ℕ → List ℕ → List ℕ
fragment frame_id index count chunk = write_u16_le frame_id ++ index ∷ count ∷ chunk

abbrev pub chunk_of : ℕ → List ℕ → ℕ → ℕ
chunk_of capacity frame offset =
    let remaining = list_length frame - offset in
    if ltb remaining capacity then remaining else capacity

-- One round's notification and what the rounds after it come to, which run only if it went out.
abbrev pub handed : Notified → List ℕ → List (List ℕ) × EspErr → List (List ℕ) × EspErr
handed sent packet rest = (packet ∷ rest.0, rest.1)
handed no_buffer packet rest = ([], no_mem)
handed refused packet rest = ([], fail)

module _ (notify : List ℕ → Notified) (frame : List ℕ) (frame_id count capacity : ℕ) where
  -- The loop with `rounds` rounds left: the notifications handed over, and the result.
  unfoldable pub send_fragments : ℕ → ℕ → ℕ → List (List ℕ) × EspErr
  send_fragments zero index offset = ([], esp_ok)
  send_fragments (suc rounds) index offset =
      let chunk = chunk_of capacity frame offset in
      let packet = fragment frame_id index count (take chunk (drop offset frame)) in
      let rest = send_fragments rounds (u8 (index + 1)) (offset + chunk) in
      handed (notify packet) packet rest

-- packet_capacity - DESK_BLE_FRAGMENT_HEADER_SIZE.
unfoldable pub fragment_capacity : ℕ → ℕ
fragment_capacity mtu =
    (if ltb (att_header_size + fragment_header_size) mtu
      then mtu - att_header_size
      else default_att_mtu - att_header_size)
    - fragment_header_size

abbrev pub fragment_count : ℕ → ℕ → ℕ
fragment_count frame_length capacity = (frame_length + capacity - 1) / capacity

module _ (host : Host) (notify : List ℕ → Notified) where
  -- With a frame that was checked and its identifier taken.
  unfoldable pub send_checked : LinkState → List ℕ → ℕ → List (List ℕ) × EspErr
  send_checked link frame frame_id =
      let capacity = fragment_capacity link.mtu in
      let count = fragment_count (list_length frame) capacity in
      if not (link.connected && link.encrypted && link.subscribed)
        || link.connection_handle == host.no_handle
      then ([], invalid_state)
      else if count == 0 || ltb 255 count
      then ([], invalid_size)
      else send_fragments notify frame frame_id count capacity count 0 0

  -- The link after the call, the notifications handed over, and the result.
  unfoldable pub send_frame : LinkState → Option (List ℕ) → LinkState × List (List ℕ) × EspErr
  unfolding not_ok
  send_frame link none = (link, [], invalid_arg)
  send_frame link (some frame) =
      let (packets, result) = send_checked link frame link.next_tx_frame_id in
      if list_length frame == 0
        || ltb max_frame_size (list_length frame)
        || not_ok (decode_into frame unset_frame).0
      then (link, [], invalid_arg)
      else (record link { next_tx_frame_id = u16 (link.next_tx_frame_id + 1) }, packets, result)
