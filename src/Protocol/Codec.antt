-- ===== src/Protocol/Codec.antt =====
-- desk_protocol_encode and desk_protocol_decode.
pub mod Wire
pub mod Inverse
pub mod RoundTrip
pub mod Corruption
use esp32_monitor.Base.{
  ℕ, ◌+◌, Option, none, some, Bool, not, List, [], ◌∷◌, ◌||◌, ◌&&◌, ltb, ◌!=◌, if◌then◌else◌,
  is_some, length, take, drop, get_or, copy_to,
}
use esp32_monitor.Protocol.{
  Status, ok, invalid_argument, buffer_too_small, bad_magic, unsupported_version, bad_length,
  bad_crc, Frame, header_size, crc_size, max_payload_size, magic_0, magic_1, version, write_u16_le,
  read_u16_le,
}
use esp32_monitor.Protocol.Crc.{crc16}

-- The bytes behind a pointer that is not NULL.
abbrev pub bytes_at : Option (List ℕ) → List ℕ
bytes_at none = []
bytes_at (some bytes) = bytes

-- The stores of desk_protocol_encode, in their order, into a buffer that is large enough.
unfoldable pub write_frame : Frame → List ℕ → List ℕ
write_frame frame output =
    let o1 = copy_to output 0 (magic_0 ∷ magic_1 ∷ version ∷ frame.flags ∷ []) in
    let o2 = copy_to o1 4 (write_u16_le frame.message_type) in
    let o3 = copy_to o2 6 (write_u16_le frame.sequence) in
    let o4 = copy_to o3 8 (write_u16_le frame.payload_length) in
    let o5 =
      if ltb 0 frame.payload_length
      then copy_to o4 header_size (take frame.payload_length (bytes_at frame.payload))
      else o4 in
    let crc = crc16 (some o5) (header_size + frame.payload_length) in
    copy_to o5 (header_size + frame.payload_length) (write_u16_le crc)

-- With the three pointers not NULL: the status, the buffer and *output_length.
unfoldable pub encode_into : Frame → List ℕ → ℕ → Status × List ℕ × ℕ
encode_into frame output output_length =
    let total_length = header_size + frame.payload_length + crc_size in
    if ltb max_payload_size frame.payload_length
      || (ltb 0 frame.payload_length && not (is_some frame.payload))
    then (bad_length, output, output_length)
    else if ltb (length output) total_length
    then (buffer_too_small, output, output_length)
    else (ok, write_frame frame output, total_length)

unfoldable pub encode :
    Option Frame → Option (List ℕ) → Option ℕ → Status × Option (List ℕ) × Option ℕ
encode (some frame) (some output) (some output_length) =
    let (status, output', output_length') = encode_into frame output output_length in
    (status, some output', some output_length')
encode _ output output_length = (invalid_argument, output, output_length)

-- With both pointers not NULL: the status and *frame, which only an accepted input changes.
unfoldable pub decode_into : List ℕ → Frame → Status × Frame
decode_into input frame =
    let payload_length = read_u16_le input 8 in
    let body_length = header_size + payload_length in
    if ltb (length input) (header_size + crc_size)
    then (bad_length, frame)
    else if get_or input 0 0 != magic_0 || get_or input 1 0 != magic_1
    then (bad_magic, frame)
    else if get_or input 2 0 != version
    then (unsupported_version, frame)
    else if ltb max_payload_size payload_length
    then (bad_length, frame)
    else if length input != body_length + crc_size
    then (bad_length, frame)
    else if crc16 (some input) body_length != read_u16_le input body_length
    then (bad_crc, frame)
    else (
      ok,
      record {
        flags = get_or input 3 0;
        message_type = read_u16_le input 4;
        sequence = read_u16_le input 6;
        payload = some (take payload_length (drop header_size input));
        payload_length = payload_length;
      },
    )

unfoldable pub decode : Option (List ℕ) → Option Frame → Status × Option Frame
decode (some input) (some frame) =
    let (status, frame') = decode_into input frame in (status, some frame')
decode _ frame = (invalid_argument, frame)
