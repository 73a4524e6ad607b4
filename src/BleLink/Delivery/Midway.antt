-- ===== src/BleLink/Delivery/Midway.antt =====
-- The receiver in the middle of a frame.
use esp32_monitor.Base.{
  ℕ, ◌+◌, ◌^◌, ◌≤◌, ◌<◌, ◌≡◌, ◌≢◌, refl, sym, ap, ap₂, ◌∙◌, arith, true, some, List, ◌++◌, u8,
  sub_u32, take, drop, copy_to, copy_to_next, take_all, take-append, take-take-drop, length-take,
  length-drop, eq→!=, ne→!=, ◌!=◌, if◌then◌else◌, get_or, length as list_length,
}
use esp32_monitor.Protocol.{ok, read_u16_le, write_u16_le, max_frame_size}
use esp32_monitor.Protocol.Codec.{decode_into}
use esp32_monitor.Protocol.Codec.Wire.{read-write_u16_le}
use esp32_monitor.BleLink.{
  Host, LinkState, post_event, reset_reassembly, fragment_header_size, packet_size,
  reassembly_timeout_ms,
}
use esp32_monitor.BleLink.Reassembly.{
  AttStatus, success, unset_frame, finish_assembly, append_fragment, take_fragment,
  handle_rx_fragment,
}
use esp32_monitor.BleLink.Send.{fragment}
use esp32_monitor.BleLink.Delivery.{zeros, frame_event}

ap₃ :
    {A B C D : Type 0} (f : A → B → C → D) {a a' : A} {b b' : B} {c c' : C}
    → a ≡ a'
    → b ≡ b'
    → c ≡ c'
    → f a b c ≡ f a' b' c'
ap₃ f p q r = λ i. f (p i) (q i) (r i)

-- A fragment that fits the assembly is appended.
abbrev pub grown : Host → LinkState → List ℕ → ℕ → ℕ → LinkState × AttStatus
grown host link bytes length next =
    let link' = record link {
      assembly = record link.assembly { bytes = bytes; length = length; next_fragment = next };
    } in
    if next != link.assembly.fragment_count then (link', success) else finish_assembly host link'

append_matching :
    (host : Host) (link : LinkState) (flat : List ℕ)
    → link.assembly.active ≡ true
    → link.assembly.frame_id ≡ read_u16_le flat 0
    → link.assembly.fragment_count ≡ get_or flat 3 0
    → link.assembly.next_fragment ≡ get_or flat 2 0
    → link.assembly.length + list_length (drop fragment_header_size flat) ≤ max_frame_size
    → append_fragment host link flat
      ≡ grown host link
          (copy_to link.assembly.bytes link.assembly.length (drop fragment_header_size flat))
          (link.assembly.length + list_length (drop fragment_header_size flat))
          (u8 (link.assembly.next_fragment + 1))
unfolding append_fragment
append_matching host link flat a b c d e = ground arith

module _ (host : Host) (link : LinkState) (frame : List ℕ) (frame_id count started : ℕ)
    (fid : frame_id < 2 ^ 16) (few : count < 256) (fits : list_length frame ≤ max_frame_size) where
  -- `index` fragments are in, which are the first `offset` bytes of the frame.
  abbrev pub midway : ℕ → ℕ → LinkState
  midway index offset = record link {
    assembly = record {
      active = true;
      frame_id = frame_id;
      fragment_count = count;
      next_fragment = index;
      started_ms = started;
      length = offset;
      bytes = take offset frame ++ drop offset zeros;
    };
  }

  bytes_grow :
      (offset n : ℕ)
      → offset + n ≤ list_length frame
      → copy_to (take offset frame ++ drop offset zeros) offset (take n (drop offset frame))
        ≡ take (offset + n) frame ++ drop (offset + n) zeros
  bytes_grow offset n h =
      let chunk = take n (drop offset frame) in
      let o : list_length (take offset frame) ≡ offset =
        omega (arith, length-take {0} offset frame) in
      let whole = take-take-drop offset n (offset + n) frame refl in
      let o' : list_length (take (offset + n) frame) ≡ offset + n =
        omega (arith, length-take {0} (offset + n) frame) in
      ap (λ (k : ℕ). copy_to (take offset frame ++ drop k zeros) offset chunk) (sym o)
      ∙ copy_to_next (take offset frame) chunk zeros offset (sym o)
      ∙ ap (λ w. w ++ drop (list_length w) zeros) whole
      ∙ ap (λ (k : ℕ). take (offset + n) frame ++ drop k zeros) o'

  pub append_midway :
      (index offset n : ℕ)
      → index < count
      → offset + n ≤ list_length frame
      → append_fragment host
          (midway index offset)
          (fragment frame_id index count (take n (drop offset frame)))
        ≡ grown host
            (midway index offset)
            (take (offset + n) frame ++ drop (offset + n) zeros)
            (offset + n)
            (index + 1)
  unfolding fragment write_u16_le
  append_midway index offset n h k =
      let chunk = take n (drop offset frame) in
      let size : list_length chunk ≡ n =
        omega (arith, length-take {0} n (drop offset frame), length-drop {0} offset frame) in
      append_matching host (midway index offset) (fragment frame_id index count chunk) refl
        (sym (read-write_u16_le (fragment frame_id index count chunk) 0 frame_id fid refl refl))
        refl refl (omega (arith, size))
      ∙ ap₃ (grown host (midway index offset)) (bytes_grow offset n k)
          (ap (λ (m : ℕ). offset + m) size) (omega arith)

  module _
      (flattens : (packet : List ℕ)
        → list_length packet ≤ packet_size
        → host.to_flat packet ≡ some packet) where
    -- A packet with a fragment gets to the assembly.
    pub enter_later :
        (index offset now : ℕ) (chunk : List ℕ)
        → index ≢ 0
        → index < count
        → 0 < list_length chunk
        → list_length chunk + fragment_header_size ≤ packet_size
        → sub_u32 now started ≤ reassembly_timeout_ms
        → handle_rx_fragment host (midway index offset) (fragment frame_id index count chunk) now
          ≡ append_fragment host (midway index offset) (fragment frame_id index count chunk)
    unfolding handle_rx_fragment take_fragment fragment write_u16_le
    enter_later index offset now chunk later below some_bytes short soon =
        ground (arith, flattens (fragment frame_id index count chunk))

    pub enter_first :
        (chunk : List ℕ)
        → 0 < count
        → 0 < list_length chunk
        → list_length chunk + fragment_header_size ≤ packet_size
        → handle_rx_fragment host link (fragment frame_id 0 count chunk) started
          ≡ append_fragment host (midway 0 0) (fragment frame_id 0 count chunk)
    unfolding handle_rx_fragment take_fragment fragment write_u16_le reset_reassembly
    enter_first chunk below some_bytes short = ground (
      arith,
      flattens (fragment frame_id 0 count chunk),
      read-write_u16_le (fragment frame_id 0 count chunk) 0 frame_id fid refl refl,
    )

  pub finish_midway :
      (decode_into frame unset_frame).0 ≡ ok
      → finish_assembly host (midway count (list_length frame))
        ≡ (post_event host (reset_reassembly link) (frame_event link frame), success)
  unfolding finish_assembly reset_reassembly
  finish_midway checked =
      let whole : take (list_length frame)
            (take (list_length frame) frame ++ drop (list_length frame) zeros)
          ≡ frame =
        take-append (list_length frame) (take (list_length frame) frame) _
          (omega (arith, length-take {0} (list_length frame) frame))
        ∙ take_all (list_length frame) frame (omega arith) in
      rw (whole, checked) refl

  -- What the appended fragment leads to, at the end and before it.
  pub grown_last :
      (index offset : ℕ)
      → (decode_into frame unset_frame).0 ≡ ok
      → index + 1 ≡ count
      → (next_offset : ℕ) → next_offset ≡ list_length frame
      → grown host
          (midway index offset)
          (take next_offset frame ++ drop next_offset zeros)
          next_offset
          (index + 1)
        ≡ (post_event host (reset_reassembly link) (frame_event link frame), success)
  grown_last index offset checked last next_offset whole =
      rw (eq→!= (index + 1) count last)
        (ap₂ (λ (i o : ℕ). finish_assembly host (midway i o)) last whole ∙ finish_midway checked)

  pub grown_more :
      (index offset next_offset : ℕ)
      → index + 1 < count
      → grown host
          (midway index offset)
          (take next_offset frame ++ drop next_offset zeros)
          next_offset
          (index + 1)
        ≡ (midway (index + 1) next_offset, success)
  grown_more index offset next_offset h = rw (ne→!= (index + 1) count (λ e. omega arith)) refl
