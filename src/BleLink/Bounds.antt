-- ===== src/BleLink/Bounds.antt =====
-- The size of what the sender hands over, and when it hands over anything.
use esp32_monitor.Base.{
  ℕ, zero, suc, ◌+◌, ◌≤◌, ◌≡◌, ◌≢◌, refl, arith, true, not, Option, none, some, List, [], All, u8,
  take, drop, length-take, if_either, if_cases, ltb, ◌==◌, ◌&&◌, ◌||◌, length as list_length,
}
use esp32_monitor.Esp.{EspErr}
use esp32_monitor.Protocol.{write_u16_le, max_frame_size}
use esp32_monitor.Protocol.Codec.{decode_into}
use esp32_monitor.BleLink.{Host, LinkState, max_att_mtu, fragment_header_size, packet_size}
use esp32_monitor.BleLink.Reassembly.{unset_frame}
use esp32_monitor.BleLink.Send.{
  Notified, sent, no_buffer, refused, not_ok, handed, fragment, chunk_of, fragment_capacity,
  fragment_count, send_fragments, send_checked, send_frame,
}

abbrev pub Fits : List ℕ → Type 0
Fits packet = list_length packet ≤ packet_size

capacity_fits :
    (mtu : ℕ) → mtu ≤ max_att_mtu → fragment_capacity mtu + fragment_header_size ≤ packet_size
unfolding fragment_capacity
capacity_fits mtu h = ground arith

fragment-Fits :
    (frame_id index count n : ℕ) (bytes : List ℕ)
    → n + fragment_header_size ≤ packet_size
    → Fits (fragment frame_id index count (take n bytes))
unfolding fragment write_u16_le
fragment-Fits frame_id index count n bytes h = omega (arith, length-take n bytes)

module _ (notify : List ℕ → Notified) (frame : List ℕ) (frame_id count capacity : ℕ)
    (small : capacity + fragment_header_size ≤ packet_size) where
  kept :
      (answer : Notified) (packet : List ℕ) (rest : List (List ℕ) × EspErr)
      → Fits packet
      → All Fits rest.0
      → All Fits (handed answer packet rest).0
  kept sent packet rest h k = (h, k)
  kept no_buffer packet rest h k = tt
  kept refused packet rest h k = tt

  send_fragments-Fits :
      (rounds index offset : ℕ)
      → All Fits (send_fragments notify frame frame_id count capacity rounds index offset).0
  unfolding send_fragments
  send_fragments-Fits zero index offset = tt
  send_fragments-Fits (suc rounds) index offset =
      let chunk = chunk_of capacity frame offset in
      let packet = fragment frame_id index count (take chunk (drop offset frame)) in
      kept (notify packet) packet _
        (fragment-Fits frame_id index count chunk (drop offset frame) (ground (arith, small)))
        (send_fragments-Fits rounds (u8 (index + 1)) (offset + chunk))

module _ (host : Host) (notify : List ℕ → Notified) where
  send_checked-Fits :
      (link : LinkState) (frame : List ℕ) (frame_id : ℕ)
      → link.mtu ≤ max_att_mtu
      → All Fits (send_checked host notify link frame frame_id).0
  unfolding send_checked
  send_checked-Fits link frame frame_id h =
      let P : List (List ℕ) × EspErr → Type 0 = λ r. All Fits r.0 in
      let capacity = fragment_capacity link.mtu in
      let count = fragment_count (list_length frame) capacity in
      if_either P
        (not (link.connected && link.encrypted && link.subscribed)
          || link.connection_handle == host.no_handle)
        tt
        (if_either P (count == 0 || ltb 255 count) tt (
          send_fragments-Fits notify frame frame_id count capacity (capacity_fits link.mtu h) count
            0 0))

  send_checked_allowed :
      (link : LinkState) (frame : List ℕ) (frame_id : ℕ)
      → (send_checked host notify link frame frame_id).0 ≢ []
      → (link.connected ≡ true) × (link.encrypted ≡ true) × (link.subscribed ≡ true)
  unfolding send_checked
  send_checked_allowed link frame frame_id out =
      let P : List (List ℕ) × EspErr → Type 0 = λ r.
        r.0 ≢ [] → (link.connected ≡ true) × (link.encrypted ≡ true) × (link.subscribed ≡ true) in
      if_cases P
        (not (link.connected && link.encrypted && link.subscribed)
          || link.connection_handle == host.no_handle)
        (λ _ n. absurd (n refl)) (λ passed _. ground (arith, passed)) out

  send_frame-All :
      (link : LinkState) (frame : Option (List ℕ))
      → link.mtu ≤ max_att_mtu
      → All Fits (send_frame host notify link frame).1
  unfolding send_frame
  send_frame-All link none h = tt
  send_frame-All link (some frame) h =
      if_either (λ (r : LinkState × List (List ℕ) × EspErr). All Fits r.1)
        (list_length frame == 0
          || ltb max_frame_size (list_length frame)
          || not_ok (decode_into frame unset_frame).0)
        tt (send_checked-Fits link frame link.next_tx_frame_id h)

  send_frame_allowed :
      (link : LinkState) (frame : Option (List ℕ))
      → (send_frame host notify link frame).1 ≢ []
      → (link.connected ≡ true) × (link.encrypted ≡ true) × (link.subscribed ≡ true)
  unfolding send_frame
  send_frame_allowed link none out = absurd (out refl)
  send_frame_allowed link (some frame) out =
      if_either
        (λ (r : LinkState × List (List ℕ) × EspErr).
          r.1 ≢ [] → (link.connected ≡ true) × (link.encrypted ≡ true) × (link.subscribed ≡ true))
        (list_length frame == 0
          || ltb max_frame_size (list_length frame)
          || not_ok (decode_into frame unset_frame).0)
        (λ n. absurd (n refl)) (send_checked_allowed link frame link.next_tx_frame_id) out

  -- On a link whose MTU is 247 at most, every packet fits the buffer of 244 bytes that it is put
  -- together in, whatever becomes of the notifications, and there are packets only while the link
  -- is connected, encrypted and subscribed.
  pub send_frame-Fits :
      (link : LinkState) (frame : Option (List ℕ))
      → link.mtu ≤ max_att_mtu
      → let (link', packets, result) = send_frame host notify link frame in
        All Fits packets
        × (packets ≢ []
            → (link.connected ≡ true) × (link.encrypted ≡ true) × (link.subscribed ≡ true))
  send_frame-Fits link frame h = (send_frame-All link frame h, send_frame_allowed link frame)
