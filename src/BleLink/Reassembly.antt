-- ===== src/BleLink/Reassembly.antt =====
-- handle_rx_fragment: the fragments of a frame are put together in order.
use esp32_monitor.Base.{
  ℕ, ◌+◌, Bool, true, false, not, none, some, List, ◌&&◌, ◌||◌, ltb, leb, ◌==◌, ◌!=◌, if◌then◌else◌,
  u8, sub_u32, get_or, take, drop, copy_to, replicate, length as list_length,
}
use esp32_monitor.Protocol.{Status, ok, Frame, read_u16_le, max_frame_size}
use esp32_monitor.Protocol.Codec.{decode_into}
use esp32_monitor.BleLink.{
  Host, LinkState, Assembly, frame_received, no_assembly, reset_reassembly, event_of, post_event,
  fragment_header_size, packet_size, reassembly_timeout_ms,
}

-- The return values of an attribute access; `success` is 0.
pub data AttStatus : Type 0 where
  success invalid_attr_value_len unlikely insufficient_res : AttStatus

unfoldable pub is_ok : Status → Bool
is_ok ok = true
is_ok _ = false

-- An assembly begun by the fragment of index 0.
abbrev pub begun : ℕ → ℕ → ℕ → Assembly
begun frame_id fragment_count now_ms = record no_assembly {
  active = true;
  frame_id = frame_id;
  fragment_count = fragment_count;
  started_ms = now_ms;
}

-- `decoded` before desk_protocol_decode writes it, which nothing reads.
abbrev pub unset_frame : Frame
unset_frame = record {
  flags = 0;
  message_type = 0;
  sequence = 0;
  payload = none;
  payload_length = 0;
}

module _ (host : Host) where
  -- The last fragment is in: the frame is checked and handed to the supervisor.
  unfoldable pub finish_assembly : LinkState → LinkState × AttStatus
  unfolding is_ok
  finish_assembly link =
      let frame = take link.assembly.length link.assembly.bytes in
      let event = record (event_of link frame_received) {
        frame_length = link.assembly.length;
        frame = copy_to (replicate max_frame_size 0) 0 frame;
      } in
      if is_ok (decode_into frame unset_frame).0
      then (post_event host (reset_reassembly link) event, success)
      else (reset_reassembly link, unlikely)

  -- From the second test of the assembly on, with the assembly as the first tests left it.
  unfoldable pub append_fragment : LinkState → List ℕ → LinkState × AttStatus
  append_fragment link flat =
      let assembly = link.assembly in
      let fragment = drop fragment_header_size flat in
      let next = u8 (assembly.next_fragment + 1) in
      let grown = record link {
        assembly = record assembly {
          bytes = copy_to assembly.bytes assembly.length fragment;
          length = assembly.length + list_length fragment;
          next_fragment = next;
        };
      } in
      if not assembly.active
        || assembly.frame_id != read_u16_le flat 0
        || assembly.fragment_count != get_or flat 3 0
        || assembly.next_fragment != get_or flat 2 0
        || ltb max_frame_size (assembly.length + list_length fragment)
      then (reset_reassembly link, invalid_attr_value_len)
      else if next != assembly.fragment_count
      then (grown, success)
      else finish_assembly grown

  -- The fragment is in `flat`.
  unfoldable pub take_fragment : LinkState → List ℕ → ℕ → LinkState × AttStatus
  take_fragment link flat now_ms =
      let index = get_or flat 2 0 in
      let count = get_or flat 3 0 in
      let current =
        if link.assembly.active
          && ltb reassembly_timeout_ms (sub_u32 now_ms link.assembly.started_ms)
        then reset_reassembly link
        else link in
      if count == 0 || leb count index
      then (reset_reassembly current, invalid_attr_value_len)
      else if index == 0
      then append_fragment (record current { assembly = begun (read_u16_le flat 0) count now_ms })
          flat
      else append_fragment current flat

  unfoldable pub handle_rx_fragment : LinkState → List ℕ → ℕ → LinkState × AttStatus
  handle_rx_fragment link packet now_ms =
      if leb (list_length packet) fragment_header_size || ltb packet_size (list_length packet)
      then (link, invalid_attr_value_len)
      else elim (host.to_flat packet) [
        | none ↦ (link, unlikely)
        | some flat ↦
            if list_length flat != list_length packet
            then (link, unlikely)
            else take_fragment link flat now_ms
      ]
