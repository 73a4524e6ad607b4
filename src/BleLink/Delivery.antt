-- ===== src/BleLink/Delivery.antt =====
-- A frame that one side sends in fragments arrives whole on the other.
pub mod Counts
pub mod Midway
pub mod Rounds
pub mod Whole
use esp32_monitor.Base.{
  ℕ, zero, suc, ◌+◌, ◌-◌, ◌*◌, ◌/◌, ◌^◌, ◌≤◌, ◌<◌, ◌≡◌, ◌≢◌, refl, sym, ap, ap₂, ◌∙◌, arith, Bool,
  true, false, Option, none, some, List, [], ◌∷◌, ◌++◌, u8, u16, sub_u32, take, drop, replicate,
  copy_to, copy_to_next, take_all, take-append, take-take-drop, length-take, length-drop, eq→!=,
  ne→!=, le→ltb, ltb, leb, ◌==◌, ◌!=◌, if◌then◌else◌, get_or, length as list_length,
}
use esp32_monitor.Esp.{esp_ok}
use esp32_monitor.Protocol.{ok, read_u16_le, write_u16_le, max_frame_size}
use esp32_monitor.Protocol.Codec.{decode_into}
use esp32_monitor.Protocol.Codec.Wire.{read-write_u16_le}
use esp32_monitor.BleLink.{
  default_att_mtu, max_att_mtu, Host, LinkState, BleEvent, frame_received, event_of, post_event,
  reset_reassembly, fragment_header_size, packet_size, reassembly_timeout_ms,
}
use esp32_monitor.BleLink.Reassembly.{
  AttStatus, success, unset_frame, finish_assembly, append_fragment, take_fragment,
  handle_rx_fragment,
}
use esp32_monitor.BleLink.Send.{
  fragment_capacity, fragment_count, send_frame, fragment, chunk_of, send_fragments, Notified, sent,
}

-- Packets that arrive one after another, the i-th at `clock i`.
pub deliver : Host → (ℕ → ℕ) → LinkState → ℕ → List (List ℕ) → LinkState
deliver host clock link i [] = link
deliver host clock link i (packet ∷ packets) =
    deliver host clock (handle_rx_fragment host link packet (clock i)).0 (i + 1) packets

abbrev pub zeros : List ℕ
zeros = replicate max_frame_size 0

-- The event of a frame that arrived.
abbrev pub frame_event : LinkState → List ℕ → BleEvent
frame_event link frame = record (event_of link frame_received) {
  frame_length = list_length frame;
  frame = copy_to zeros 0 frame;
}
