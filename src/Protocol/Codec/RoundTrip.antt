-- ===== src/Protocol/Codec/RoundTrip.antt =====
-- desk_protocol_encode and desk_protocol_decode undo one another, and fail as they should.
use esp32_monitor.Base.{
  ℕ, ap₂, length-take, length-drop, ◌≤◌, ◌≡◌, ◌≢◌, ◌↔◌, sym, ap, arith, Option, none, some, List,
  ◌++◌, length, take, drop, IsBytes,
}
use esp32_monitor.Protocol.{Status, ok, read_u16_le, Frame, header_size, max_payload_size}
use esp32_monitor.Protocol.Codec.{bytes_at, encode, encode_into, decode}
use esp32_monitor.Protocol.Codec.Wire.{wire, IsSendable, length-wire}
use esp32_monitor.Protocol.Codec.Inverse.{
  IsFrame, Accepts, decoded, decode_into-Accepts, decode_into-Accepts_inv, wire-Accepts,
  decoded-wire, wire-decoded, total_length, encode_into-wire,
}

-- Encoding a frame whose fields have their widths, whose payload is at most 512 bytes and is
-- there, into a buffer with room for it, succeeds, reports 12 bytes more than the payload, and
-- changes nothing behind them. Decoding those bytes succeeds and gives back the frame, its payload
-- cut to payload_length.
pub decode-encode :
    (frame before : Frame) (output : List ℕ) (n : ℕ)
    → IsFrame frame
    → total_length frame ≤ length output
    → (sent : List ℕ) × (length sent ≡ total_length frame)
      × (encode (some frame) (some output) (some n)
          ≡ (ok, some (sent ++ drop (total_length frame) output), some (total_length frame)))
      × (decode (some sent) (some before) ≡ (
        ok,
        some (record frame { payload = some (take frame.payload_length (bytes_at frame.payload)) }),
      ))
unfolding encode decode
decode-encode frame before output n h room = (
  wire frame,
  length-wire frame h.sendable,
  rw (encode_into-wire frame output n h.sendable room),
  rw (decode_into-Accepts (wire frame) before (wire-Accepts frame h), decoded-wire frame h),
)

module _ (input : List ℕ) (before frame : Frame)
    (h : decode (some input) (some before) ≡ (ok, some frame)) where
  decode-Accepts : Accepts input
  unfolding decode
  decode-Accepts = decode_into-Accepts_inv input before (ap (λ (r : Status × Option Frame). r.0) h)

  frame_of_ok : Accepts input → frame ≡ decoded input
  unfolding decode
  frame_of_ok a = ground (arith, decode_into-Accepts input before a)

decoded-IsSendable : (input : List ℕ) → Accepts input → IsSendable (decoded input)
decoded-IsSendable input h = record {
  short = h.short;
  there = omega (
    arith,
    h.exact,
    length-take {0} (read_u16_le input 8) (drop header_size input),
    length-drop {0} header_size input,
  );
}

-- What the decoder accepts is canonical: encoding the decoded frame gives the same bytes again.
pub encode-decode :
    (input output : List ℕ) (before frame : Frame) (n : ℕ)
    → IsBytes input
    → decode (some input) (some before) ≡ (ok, some frame)
    → length input ≤ length output
    → encode (some frame) (some output) (some n)
      ≡ (ok, some (input ++ drop (length input) output), some (length input))
unfolding encode decode
encode-decode input output before frame n bytes accepted room =
    let h = decode-Accepts input before frame accepted in
    let back = wire-decoded input bytes h in
    rw (frame_of_ok input before frame accepted h) (
      rw
        (encode_into-wire (decoded input) output n (decoded-IsSendable input h)
          (omega (arith, h.exact)))
        (ap₂ {C = Status × Option (List ℕ) × Option ℕ}
          (λ w k. (ok, some (w ++ drop k output), some k)) back (sym h.exact)))

abbrev pub CanEncode : Option Frame → Option (List ℕ) → Option ℕ → Type 0
CanEncode (some frame) (some output) (some n) =
    (frame.payload_length ≤ max_payload_size)
    × (frame.payload ≡ none → frame.payload_length ≡ 0)
    × (total_length frame ≤ length output)
CanEncode _ _ _ = ⊥

-- The encoder succeeds exactly when its three pointers are there, the payload length is at most
-- 512, a NULL payload has length 0, and the buffer has room for 12 bytes more than the payload.
-- In every other case it leaves the buffer and the length as they are.
pub encode_outcomes :
    (frame : Option Frame) (output : Option (List ℕ)) (n : Option ℕ)
    → (((encode frame output n).0 ≡ ok) ↔ CanEncode frame output n)
      × ((encode frame output n).0 ≢ ok
          → ((encode frame output n).1 ≡ output) × ((encode frame output n).2 ≡ n))
unfolding encode encode_into
encode_outcomes none output n = ground arith
encode_outcomes (some frame) none n = ground arith
encode_outcomes (some frame) (some output) none = ground arith
encode_outcomes (some frame) (some output) (some n) = ground arith
