-- ===== src/Protocol/Codec/Inverse.antt =====
-- The lemmas of the round trip: what the decoder accepts, and that it reads back what was written.
use esp32_monitor.Base.{
  ℕ, suc, ◌+◌, ◌^◌, ◌≤◌, ◌<◌, ◌≡◌, refl, sym, ap, ap₂, ◌∙◌, arith, some, List, [], ◌∷◌, ◌++◌,
  length, take, drop, get_or, gets, gets-take-drop, get_or-All, get_or-append, length-take,
  length-drop, take-append, take_all, take-append-drop, take-take-drop, IsBytes,
}
use esp32_monitor.Protocol.{
  ok, Frame, header_size, crc_size, max_payload_size, magic_0, magic_1, version, write_u16_le,
  read_u16_le,
}
use esp32_monitor.Protocol.Crc.{crc16, crc16-lt}
use esp32_monitor.Protocol.Codec.{bytes_at, encode_into, decode_into}
use esp32_monitor.Protocol.Codec.Wire.{
  write_u16_le_digits, read_u16_le_digits, read-write_u16_le, header, body, wire, IsSendable,
  length-body, length-wire, crc16_prefix, write_frame-wire,
}

-- The fields of a frame hold values of their widths.
pub record IsFrame (frame : Frame) : Type 0 where
  pub sendable : IsSendable frame
  pub flags_byte : frame.flags < 2 ^ 8
  pub type_word : frame.message_type < 2 ^ 16
  pub sequence_word : frame.sequence < 2 ^ 16

-- What the guards of the decoder ask of an input.
pub record Accepts (input : List ℕ) : Type 0 where
  pub long : header_size + crc_size ≤ length input
  pub magic : (get_or input 0 0 ≡ magic_0) × (get_or input 1 0 ≡ magic_1)
  pub known : get_or input 2 0 ≡ version
  pub short : read_u16_le input 8 ≤ max_payload_size
  pub exact : length input ≡ header_size + read_u16_le input 8 + crc_size
  pub checked :
      crc16 (some input) (header_size + read_u16_le input 8)
      ≡ read_u16_le input (header_size + read_u16_le input 8)

abbrev pub decoded : List ℕ → Frame
decoded input = record {
  flags = get_or input 3 0;
  message_type = read_u16_le input 4;
  sequence = read_u16_le input 6;
  payload = some (take (read_u16_le input 8) (drop header_size input));
  payload_length = read_u16_le input 8;
}

pub decode_into-Accepts :
    (input : List ℕ) (frame : Frame) → Accepts input → decode_into input frame ≡ (ok, decoded input)
unfolding decode_into
decode_into-Accepts input frame h = ground arith

pub decode_into-Accepts_inv :
    (input : List ℕ) (frame : Frame) → (decode_into input frame).0 ≡ ok → Accepts input
unfolding decode_into
decode_into-Accepts_inv input frame h = ground arith

-- The header of a wire form reads back.
wire_fields :
    (frame : Frame)
    → IsFrame frame
    → (read_u16_le (wire frame) 4 ≡ frame.message_type)
      × (read_u16_le (wire frame) 6 ≡ frame.sequence)
      × (read_u16_le (wire frame) 8 ≡ frame.payload_length)
unfolding write_u16_le
wire_fields frame h = (
  read-write_u16_le (wire frame) 4 frame.message_type h.type_word refl refl,
  read-write_u16_le (wire frame) 6 frame.sequence h.sequence_word refl refl,
  read-write_u16_le (wire frame) 8 frame.payload_length (omega arith) refl refl,
)

wire_checksum :
    (frame : Frame)
    → IsFrame frame
    → read_u16_le (wire frame) (header_size + frame.payload_length)
      ≡ crc16 (some (wire frame)) (header_size + frame.payload_length)
wire_checksum frame h =
    let crc = crc16 (some (body frame)) (length (body frame)) in
    let at = length-body frame h.sendable in
    read-write_u16_le (wire frame) (header_size + frame.payload_length) crc
      (crc16-lt (body frame) (length (body frame)))
      (get_or-append (body frame) (write_u16_le crc) 0 (header_size + frame.payload_length) 0
        (omega arith))
      (get_or-append (body frame) (write_u16_le crc) 1 (suc (header_size + frame.payload_length)) 0
        (omega arith))
    ∙ sym (crc16_prefix (body frame) (write_u16_le crc) _ (sym at))

pub wire-Accepts : (frame : Frame) → IsFrame frame → Accepts (wire frame)
wire-Accepts frame h =
    let fields = wire_fields frame h in
    let size = length-wire frame h.sendable in
    record {
      long = omega arith;
      magic = (refl, refl);
      known = refl;
      short = omega arith;
      exact = omega arith;
      checked = rw (fields.2) (sym (wire_checksum frame h));
    }

-- The payload that a receiver reads is the one sent.
wire_payload :
    (frame : Frame)
    → IsFrame frame
    → take frame.payload_length (drop header_size (wire frame))
      ≡ take frame.payload_length (bytes_at frame.payload)
wire_payload frame h =
    let sent = take frame.payload_length (bytes_at frame.payload) in
    let crc = write_u16_le (crc16 (some (body frame)) (length (body frame))) in
    ap (take frame.payload_length) (drop_header sent crc)
    ∙ take-append frame.payload_length sent crc (
        omega
          (arith, length-take {0} frame.payload_length (bytes_at frame.payload), h.sendable.there))
  where
    drop_header : (sent crc : List ℕ) → drop header_size (header frame ++ sent ++ crc) ≡ sent ++ crc
    drop_header sent crc = unfold write_u16_le in refl

pub decoded-wire :
    (frame : Frame)
    → IsFrame frame
    → decoded (wire frame)
      ≡ record frame { payload = some (take frame.payload_length (bytes_at frame.payload)) }
decoded-wire frame h = λ i. record {
  flags = frame.flags;
  message_type = (wire_fields frame h).0 i;
  sequence = (wire_fields frame h).1 i;
  payload = some (read_payload i);
  payload_length = (wire_fields frame h).2 i;
}
  where
    read_payload :
        take (read_u16_le (wire frame) 8) (drop header_size (wire frame))
        ≡ take frame.payload_length (bytes_at frame.payload)
    read_payload =
        ap (λ (n : ℕ). take n (drop header_size (wire frame))) (wire_fields frame h).2
        ∙ wire_payload frame h

-- Conversely, an accepted input is the wire form of the frame read from it.
word_back :
    (input : List ℕ) (i : ℕ) → IsBytes input → write_u16_le (read_u16_le input i) ≡ gets 2 i input 0
word_back input i h =
    let lo = get_or-All (λ (b : ℕ). b < 256) input i 0 h (omega arith) in
    let hi = get_or-All (λ (b : ℕ). b < 256) input (suc i) 0 h (omega arith) in
    write_u16_le_digits (read_u16_le input i)
    ∙ ap₂ (λ (a b : ℕ). a ∷ b ∷ []) (omega (arith, read_u16_le_digits input i))
        (omega (arith, read_u16_le_digits input i))

header_back :
    (input : List ℕ)
    → IsBytes input
    → Accepts input
    → header (decoded input) ≡ take header_size input
header_back input bytes h =
    rw (word_back input 4 bytes, word_back input 6 bytes, word_back input 8 bytes)
      (opening ∙ gets-take-drop header_size 0 input 0 (omega arith))
  where
    opening : magic_0 ∷ magic_1 ∷ version ∷ gets 7 3 input 0 ≡ gets 10 0 input 0
    opening = λ i. sym h.magic.0 i ∷ sym h.magic.1 i ∷ sym h.known i ∷ gets 7 3 input 0

module _ (input : List ℕ) (bytes : IsBytes input) (h : Accepts input) where
  abbrev size : ℕ
  size = read_u16_le input 8

  payload_back : take size (take size (drop header_size input)) ≡ take size (drop header_size input)
  payload_back = take_all size _ (omega (arith, length-take {0} size (drop header_size input)))

  body_back : body (decoded input) ≡ take (header_size + size) input
  body_back =
      ap₂ (λ a b. a ++ b) (header_back input bytes h) payload_back
      ∙ take-take-drop header_size size (header_size + size) input refl

  split_back : take (header_size + size) input ++ drop (header_size + size) input ≡ input
  split_back = take-append-drop (header_size + size) input

  length_back : length (take (header_size + size) input) ≡ header_size + size
  length_back = omega (arith, length-take {0} (header_size + size) input, h.exact)

  checksum_back :
      crc16 (some (body (decoded input))) (length (body (decoded input)))
      ≡ read_u16_le input (header_size + size)
  checksum_back =
      ap (λ b. crc16 (some b) (length b)) body_back
      ∙ sym (
          crc16_prefix (take (header_size + size) input) (drop (header_size + size) input) _
            (sym length_back))
      ∙ ap (λ b. crc16 (some b) (header_size + size)) split_back
      ∙ h.checked

  trailer_back : gets 2 (header_size + size) input 0 ≡ drop (header_size + size) input
  trailer_back =
      gets-take-drop 2 (header_size + size) input 0 (omega (arith, h.exact))
      ∙ take_all 2 (drop (header_size + size) input)
          (omega (arith, length-drop {0} (header_size + size) input, h.exact))

  pub wire-decoded : wire (decoded input) ≡ input
  wire-decoded =
      ap₂ (λ b crc. b ++ write_u16_le crc) body_back checksum_back
      ∙ ap (λ t. take (header_size + size) input ++ t)
          (word_back input (header_size + size) bytes ∙ trailer_back)
      ∙ split_back

abbrev pub total_length : Frame → ℕ
total_length frame = header_size + frame.payload_length + crc_size

pub encode_into-wire :
    (frame : Frame) (output : List ℕ) (n : ℕ)
    → IsSendable frame
    → total_length frame ≤ length output
    → encode_into frame output n
      ≡ (ok, wire frame ++ drop (total_length frame) output, total_length frame)
unfolding encode_into
encode_into-wire frame output n h room =
    ground (arith, write_frame-wire frame output h, length-wire frame h)
