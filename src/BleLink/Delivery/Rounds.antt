-- ===== src/BleLink/Delivery/Rounds.antt =====
-- The packets of a frame, from the sender to the receiver, round by round.
use esp32_monitor.Base.{
  ℕ, zero, suc, ◌+◌, ◌-◌, ◌*◌, ◌^◌, ◌≤◌, ◌<◌, ◌≡◌, ◌≢◌, refl, ap, ◌∙◌, arith, some, List, [], ◌∷◌,
  ◌++◌, u8, sub_u32, take, drop, length-take, length-drop, le→ltb, length as list_length,
}
use esp32_monitor.Esp.{esp_ok}
use esp32_monitor.Protocol.{ok, max_frame_size}
use esp32_monitor.Protocol.Codec.{decode_into}
use esp32_monitor.BleLink.{
  Host, LinkState, post_event, reset_reassembly, fragment_header_size, packet_size,
  reassembly_timeout_ms,
}
use esp32_monitor.BleLink.Reassembly.{AttStatus, unset_frame, handle_rx_fragment}
use esp32_monitor.BleLink.Send.{fragment, chunk_of, send_fragments, Notified, sent}
use esp32_monitor.BleLink.Delivery.{zeros, frame_event, deliver}
use esp32_monitor.BleLink.Delivery.Midway.{
  midway, append_midway, enter_later, enter_first, grown, grown_last, grown_more,
}

module _ (host : Host) (link : LinkState) (frame : List ℕ) (frame_id count started : ℕ)
    (fid : frame_id < 2 ^ 16) (few : count < 256) (fits : list_length frame ≤ max_frame_size) where
  module _
      (flattens : (packet : List ℕ)
        → list_length packet ≤ packet_size
        → host.to_flat packet ≡ some packet)
      (notify : List ℕ → Notified) (hands_over : (packet : List ℕ) → notify packet ≡ sent)
      (capacity : ℕ) (room : 0 < capacity) (small : capacity + fragment_header_size ≤ packet_size)
      (checked : (decode_into frame unset_frame).0 ≡ ok) (clock : ℕ → ℕ)
      (soon : (i : ℕ) → sub_u32 (clock i) started ≤ reassembly_timeout_ms) where
    unfoldable pub packets_from : ℕ → ℕ → ℕ → List (List ℕ)
    packets_from rounds index offset =
        (send_fragments notify frame frame_id count capacity rounds index offset).0

    next_packet :
        (rounds index offset : ℕ)
        → index < 255
        → packets_from (suc rounds) index offset
          ≡ fragment frame_id index count
              (take (chunk_of capacity frame offset) (drop offset frame))
            ∷ packets_from rounds (index + 1) (offset + chunk_of capacity frame offset)
    unfolding packets_from send_fragments
    next_packet rounds index offset h =
        let packet =
          fragment frame_id index count
            (take (chunk_of capacity frame offset) (drop offset frame)) in
        let index' : u8 (index + 1) ≡ index + 1 = omega arith in
        rw (hands_over packet, packets_from, send_fragments)
          (ap (λ (k : ℕ). packet ∷ packets_from rounds k (offset + chunk_of capacity frame offset))
            index')

    no_packet : (index offset : ℕ) → packets_from 0 index offset ≡ []
    unfolding packets_from send_fragments
    no_packet index offset = refl

    last_chunk :
        (offset : ℕ)
        → list_length frame ≤ offset + capacity
        → chunk_of capacity frame offset ≡ list_length frame - offset
    last_chunk offset h = ground arith

    full_chunk :
        (offset : ℕ)
        → offset + capacity ≤ list_length frame
        → chunk_of capacity frame offset ≡ capacity
    full_chunk offset h =
        let far : capacity ≤ list_length frame - offset = omega arith in
        rw (le→ltb (list_length frame - offset) capacity far) refl

    -- One round now and `further` ones after it carry the rest of the frame.
    pub record IsLeft (further index offset : ℕ) : Type 0 where
      pub counted : index + suc further ≡ count
      pub too_few : offset + further * capacity < list_length frame
      pub enough : list_length frame ≤ offset + further * capacity + capacity

    IsLeft-next :
        (further index offset : ℕ)
        → IsLeft (suc further) index offset
        → (offset + capacity ≤ list_length frame) × IsLeft further (index + 1) (offset + capacity)
    IsLeft-next further index offset left = omega arith

    arrives :
        (index offset n : ℕ)
        → index ≢ 0
        → index < count
        → 0 < n
        → n ≤ capacity
        → offset + n ≤ list_length frame
        → handle_rx_fragment host
            (midway host link frame frame_id count started fid few fits index offset)
            (fragment frame_id index count (take n (drop offset frame)))
            (clock index)
          ≡ grown host
              (midway host link frame frame_id count started fid few fits index offset)
              (take (offset + n) frame ++ drop (offset + n) zeros)
              (offset + n)
              (index + 1)
    arrives index offset n later below some_bytes short inside =
        let size : list_length (take n (drop offset frame)) ≡ n =
          omega (arith, length-take {0} n (drop offset frame), length-drop {0} offset frame) in
        enter_later host link frame frame_id count started fid few fits flattens index offset
          (clock index) (take n (drop offset frame)) later below (omega (arith, size))
          (omega (arith, size)) (soon index)
        ∙ append_midway host link frame frame_id count started fid few fits index offset n below
            inside

    deliver_rest :
        (further index offset : ℕ)
        → index ≢ 0
        → IsLeft further index offset
        → deliver host clock
            (midway host link frame frame_id count started fid few fits index offset)
            index
            (packets_from (suc further) index offset)
          ≡ post_event host (reset_reassembly link) (frame_event link frame)
    unfolding deliver
    deliver_rest zero index offset later left =
        let n = last_chunk offset (omega (arith, left.enough)) in
        let rest = list_length frame - offset in
        rw (next_packet 0 index offset (omega arith), no_packet, n)
          (ap (λ (r : LinkState × AttStatus). r.0)
            (arrives index offset rest later (omega arith) (omega arith)
                (omega (arith, left.enough)) (omega arith)
              ∙ grown_last host link frame frame_id count started fid few fits index offset checked
                  (omega arith) (offset + rest) (omega arith)))
    deliver_rest (suc further) index offset later left =
        let (inside, next) = IsLeft-next further index offset left in
        let n = full_chunk offset inside in
        let step =
          ap (λ (r : LinkState × AttStatus). r.0)
            (arrives index offset capacity later (omega arith) room (omega arith) inside
              ∙ grown_more host link frame frame_id count started fid few fits index offset
                  (offset + capacity) (omega arith)) in
        rw (next_packet (suc further) index offset (omega arith), n)
          (ap
              (λ l.
                deliver host clock l (index + 1)
                  (packets_from (suc further) (index + 1) (offset + capacity)))
              step
            ∙ deliver_rest further (index + 1) (offset + capacity) (λ e. omega arith) next)

    -- The first fragment begins the assembly, whatever was there.
    arrives_first :
        (n : ℕ)
        → clock 0 ≡ started
        → 0 < count
        → 0 < n
        → n ≤ capacity
        → n ≤ list_length frame
        → handle_rx_fragment host link (fragment frame_id 0 count (take n frame)) (clock 0)
          ≡ grown host
              (midway host link frame frame_id count started fid few fits 0 0)
              (take (0 + n) frame ++ drop (0 + n) zeros)
              (0 + n)
              (0 + 1)
    arrives_first n now below some_bytes short inside =
        let size : list_length (take n frame) ≡ n = omega (arith, length-take {0} n frame) in
        ap (handle_rx_fragment host link (fragment frame_id 0 count (take n frame))) now
        ∙ enter_first host link frame frame_id count started fid few fits flattens (take n frame)
            below (omega (arith, size)) (omega (arith, size))
        ∙ append_midway host link frame frame_id count started fid few fits 0 0 n below
            (omega arith)

    pub deliver_all :
        (further : ℕ)
        → clock 0 ≡ started
        → IsLeft further 0 0
        → deliver host clock link 0 (packets_from (suc further) 0 0)
          ≡ post_event host (reset_reassembly link) (frame_event link frame)
    unfolding deliver
    deliver_all zero now left =
        let n = last_chunk 0 (omega (arith, left.enough)) in
        rw (next_packet 0 0 0 (omega arith), no_packet, n)
          (ap (λ (r : LinkState × AttStatus). r.0)
            (arrives_first (list_length frame - 0) now (omega arith) (omega arith)
                (omega (arith, left.enough)) (omega arith)
              ∙ grown_last host link frame frame_id count started fid few fits 0 0 checked
                  (omega arith) (0 + (list_length frame - 0)) (omega arith)))
    deliver_all (suc further) now left =
        let (inside, next) = IsLeft-next further 0 0 left in
        let n = full_chunk 0 inside in
        let step =
          ap (λ (r : LinkState × AttStatus). r.0)
            (arrives_first capacity now (omega arith) room (omega arith) (omega arith)
              ∙ grown_more host link frame frame_id count started fid few fits 0 0 (0 + capacity)
                  (omega arith)) in
        rw (next_packet (suc further) 0 0 (omega arith), n)
          (ap
              (λ l.
                deliver host clock l (0 + 1) (packets_from (suc further) (0 + 1) (0 + capacity)))
              step
            ∙ deliver_rest further (0 + 1) (0 + capacity) (λ e. omega arith) next)

    pub send_fragments-ok :
        (rounds index offset : ℕ)
        → (send_fragments notify frame frame_id count capacity rounds index offset).1 ≡ esp_ok
    unfolding send_fragments
    send_fragments-ok zero index offset = refl
    send_fragments-ok (suc rounds) index offset =
        rw
          (
            hands_over (
                fragment frame_id index count
                  (take (chunk_of capacity frame offset) (drop offset frame))),
            send_fragments,
          )
          (send_fragments-ok rounds (u8 (index + 1)) (offset + chunk_of capacity frame offset))
