-- ===== src/BleLink/Delivery/Whole.antt =====
-- A frame that one side sends in fragments arrives whole on the other, in one theorem.
use esp32_monitor.Base.{
  ℕ, suc, ◌+◌, ◌-◌, ◌^◌, ◌≤◌, ◌<◌, ◌≡◌, ◌≢◌, refl, sym, ap, ◌∙◌, arith, true, some, List, sub_u32,
  length as list_length,
}
use esp32_monitor.Esp.{EspErr, esp_ok}
use esp32_monitor.Protocol.{ok}
use esp32_monitor.Protocol.Codec.{decode_into}
use esp32_monitor.Protocol.Codec.Inverse.{decode_into-Accepts_inv}
use esp32_monitor.BleLink.{
  Host, LinkState, default_att_mtu, max_att_mtu, post_event, reset_reassembly, packet_size,
  reassembly_timeout_ms,
}
use esp32_monitor.BleLink.Reassembly.{unset_frame}
use esp32_monitor.BleLink.Send.{
  Notified, sent, fragment_capacity, fragment_count, send_fragments, send_checked, send_frame,
}
use esp32_monitor.BleLink.Delivery.{deliver, frame_event}
use esp32_monitor.BleLink.Delivery.Counts.{IsCount, capacity_of, fragment_count-IsCount}
use esp32_monitor.BleLink.Delivery.Rounds.{deliver_all, packets_from, send_fragments-ok}

-- A link that a frame can go out on.
pub record IsOpen (host : Host) (link : LinkState) : Type 0 where
  pub is_connected : link.connected ≡ true
  pub is_encrypted : link.encrypted ≡ true
  pub is_subscribed : link.subscribed ≡ true
  pub has_handle : link.connection_handle ≢ host.no_handle
  pub least_mtu : default_att_mtu ≤ link.mtu
  pub most_mtu : link.mtu ≤ max_att_mtu
  pub is_u16 : link.next_tx_frame_id < 2 ^ 16

-- Where it does, the rounds of the loop are what the call hands over.
send_checked_rounds :
    (host : Host) (notify : List ℕ → Notified) (link : LinkState) (frame : List ℕ) (frame_id : ℕ)
    → IsOpen host link
    → let capacity = fragment_capacity link.mtu in
      let count = fragment_count (list_length frame) capacity in
      IsCount (list_length frame) capacity count
      → send_checked host notify link frame frame_id
        ≡ send_fragments notify frame frame_id count capacity count 0 0
unfolding send_checked
send_checked_rounds host notify link frame frame_id o c = ground (arith, c.some_rounds, c.few)

send_frame-send_checked :
    (host : Host) (notify : List ℕ → Notified) (link : LinkState) (frame : List ℕ)
    → (decode_into frame unset_frame).0 ≡ ok
    → let (link', packets, result) = send_frame host notify link (some frame) in
      (packets, result) ≡ send_checked host notify link frame link.next_tx_frame_id
unfolding send_frame
send_frame-send_checked host notify link frame checked =
    let accepts = decode_into-Accepts_inv frame unset_frame checked in
    ground (arith, accepts.long, accepts.exact, accepts.short)

-- A frame that the decoder accepts, sent on an open link whose notifications all go out, returns
-- esp_ok; the packets, received in their order within two seconds of the first and each copied
-- whole, leave the receiver as it was but for a cleared assembly and one posted event, which
-- holds the frame. Whatever the receiver was assembling before is dropped.
pub deliver-send_frame :
    (host : Host)
    → ((packet : List ℕ) → list_length packet ≤ packet_size → host.to_flat packet ≡ some packet)
    → (notify : List ℕ → Notified) → ((packet : List ℕ) → notify packet ≡ sent)
    → (sender receiver : LinkState) (frame : List ℕ) (clock : ℕ → ℕ) → IsOpen host sender
    → (decode_into frame unset_frame).0 ≡ ok
    → ((i : ℕ) → sub_u32 (clock i) (clock 0) ≤ reassembly_timeout_ms)
    → let (link, packets, result) = send_frame host notify sender (some frame) in
      (result ≡ esp_ok)
      × (deliver host clock receiver 0 packets
          ≡ post_event host (reset_reassembly receiver) (frame_event receiver frame))
unfolding packets_from
deliver-send_frame host flattens notify hands_over sender receiver frame clock o checked soon =
    let n = list_length frame in
    let capacity = fragment_capacity sender.mtu in
    let count = fragment_count n capacity in
    let accepts = decode_into-Accepts_inv frame unset_frame checked in
    let fits : n ≤ 524 = omega (arith, accepts.exact, accepts.short) in
    let size = capacity_of sender.mtu o.least_mtu o.most_mtu in
    let c =
      fragment_count-IsCount n capacity (omega (arith, size, o.least_mtu))
        (omega (arith, accepts.long)) fits in
    let one_more : suc (count - 1) ≡ count = omega (arith, c.some_rounds) in
    let (link', packets, result) = send_frame host notify sender (some frame) in
    let rounds : (packets, result)
        ≡ send_fragments notify frame sender.next_tx_frame_id count capacity (suc (count - 1)) 0 0 =
      send_frame-send_checked host notify sender frame checked
      ∙ send_checked_rounds host notify sender frame sender.next_tx_frame_id o c
      ∙ ap (λ (k : ℕ). send_fragments notify frame sender.next_tx_frame_id count capacity k 0 0)
          (sym one_more) in
    let few : count < 256 = omega (arith, c.few) in
    let room : 0 < capacity = omega (arith, size, o.least_mtu) in
    let small : capacity + 4 ≤ packet_size = omega (arith, size, o.most_mtu) in
    (
      ap (λ (r : List (List ℕ) × EspErr). r.1) rounds
          ∙ send_fragments-ok host receiver frame sender.next_tx_frame_id count (clock 0) o.is_u16
              few fits flattens notify hands_over capacity room small checked clock soon
              (suc (count - 1)) 0 0,
      ap (λ (r : List (List ℕ) × EspErr). deliver host clock receiver 0 r.0) rounds
          ∙ deliver_all host receiver frame sender.next_tx_frame_id count (clock 0) o.is_u16 few
              fits flattens notify hands_over capacity room small checked clock soon (count - 1)
              refl
              (record {
                counted = omega (arith, one_more);
                too_few = omega (arith, c.too_few);
                enough = omega (arith, c.enough);
              }),
    )
