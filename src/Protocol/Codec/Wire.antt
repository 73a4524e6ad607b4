-- ===== src/Protocol/Codec/Wire.antt =====
-- The bytes of a frame on the wire, as one expression, and what the code writes and reads of it.
use esp32_monitor.Base.{
  ℕ, zero, suc, ◌+◌, ◌*◌, ◌/◌, ◌%◌, ◌^◌, ◌≤◌, ◌<◌, ◌≡◌, refl, sym, ap, ap₂, ◌∙◌, arith, some, List,
  [], ◌∷◌, ◌++◌, length, take, drop, get_or, copy_to, copy_to_next, copy_to_then, length-append,
  length-take, take-append, take_all, bit_and_mask, bit_or_shifted, IsBytes, lt→ltb, ltb,
  if◌then◌else◌,
}
use esp32_monitor.Protocol.{
  Frame, header_size, crc_size, max_payload_size, magic_0, magic_1, version, write_u16_le,
  read_u16_le,
}
use esp32_monitor.Protocol.Crc.{crc16, crc_bytes}
use mathlib.Core.List.{append-nil}
use esp32_monitor.Protocol.Codec.{bytes_at, write_frame}

pub write_u16_le_digits : (v : ℕ) → write_u16_le v ≡ (v % 256) ∷ (v / 256 % 256) ∷ []
unfolding write_u16_le
write_u16_le_digits v = ap₂ (λ (a b : ℕ). a ∷ b ∷ []) (omega (arith, bit_and_mask 8 v)) refl

pub length-write_u16_le : (v : ℕ) → length (write_u16_le v) ≡ 2
unfolding write_u16_le
length-write_u16_le v = refl

pub write_u16_le-IsBytes : (v : ℕ) → IsBytes (write_u16_le v)
unfolding write_u16_le
write_u16_le-IsBytes v = omega arith

-- What read_u16_le makes of the two bytes.
pub read_u16_le_digits :
    (input : List ℕ) (i : ℕ)
    → get_or input i 0 < 256
    → get_or input (suc i) 0 < 256
    → read_u16_le input i ≡ get_or input i 0 + get_or input (suc i) 0 * 256
unfolding read_u16_le
read_u16_le_digits input i p q =
    omega (arith, bit_or_shifted 8 (get_or input i 0) (get_or input (suc i) 0) p)

-- Reading the two bytes that were written gives the value back.
pub read-write_u16_le :
    (input : List ℕ) (i v : ℕ)
    → v < 2 ^ 16
    → get_or input i 0 ≡ get_or (write_u16_le v) 0 0
    → get_or input (suc i) 0 ≡ get_or (write_u16_le v) 1 0
    → read_u16_le input i ≡ v
unfolding write_u16_le
read-write_u16_le input i v h lo hi = omega (arith, bit_and_mask 8 v, read_u16_le_digits input i)

abbrev pub header : Frame → List ℕ
header frame =
    (magic_0 ∷ magic_1 ∷ version ∷ frame.flags ∷ [])
    ++ write_u16_le frame.message_type
    ++ write_u16_le frame.sequence
    ++ write_u16_le frame.payload_length

abbrev pub body : Frame → List ℕ
body frame = header frame ++ take frame.payload_length (bytes_at frame.payload)

abbrev pub wire : Frame → List ℕ
wire frame = body frame ++ write_u16_le (crc16 (some (body frame)) (length (body frame)))

-- A frame that the encoder takes: a length within the limit, and that many bytes to send.
pub record IsSendable (frame : Frame) : Type 0 where
  pub short : frame.payload_length ≤ max_payload_size
  pub there : frame.payload_length ≤ length (bytes_at frame.payload)

pub length-header : (frame : Frame) → length (header frame) ≡ header_size
unfolding write_u16_le
length-header frame = refl

pub length-body :
    (frame : Frame) → IsSendable frame → length (body frame) ≡ header_size + frame.payload_length
length-body frame h = ground (
  arith,
  length-append {0} (header frame) (take frame.payload_length (bytes_at frame.payload)),
  length-header frame,
  length-take {0} frame.payload_length (bytes_at frame.payload),
)

pub length-wire :
    (frame : Frame)
    → IsSendable frame
    → length (wire frame) ≡ header_size + frame.payload_length + crc_size
length-wire frame h = ground (
  arith,
  length-append {0} (body frame) (write_u16_le (crc16 (some (body frame)) (length (body frame)))),
  length-body frame h,
  length-write_u16_le (crc16 (some (body frame)) (length (body frame))),
)

-- The checksum of a prefix does not look behind it.
pub crc16_prefix :
    (xs ys : List ℕ) (k : ℕ)
    → k ≡ length xs
    → crc16 (some (xs ++ ys)) k ≡ crc16 (some xs) (length xs)
unfolding crc16
crc16_prefix xs ys k e =
    ap (crc_bytes 0xFFFF) (take-append k xs ys e ∙ sym (take_all (length xs) xs (omega arith)))

copy_payload :
    {buffer : List ℕ} (written bytes xs : List ℕ) (n : ℕ)
    → buffer ≡ written ++ drop (length written) xs
    → header_size ≡ length written
    → (if ltb 0 n then copy_to buffer header_size (take n bytes) else buffer)
      ≡ (written ++ take n bytes) ++ drop (length (written ++ take n bytes)) xs
copy_payload written bytes xs zero e at =
    e ∙ ap (λ w. w ++ drop (length w) xs) (sym (append-nil written))
copy_payload written bytes xs (suc n) e at =
    rw (lt→ltb 0 (suc n) (omega arith))
      (copy_to_then written (take (suc n) bytes) xs header_size e at)

-- The stores of the encoder put the wire form at the front of the buffer and leave the rest.
pub write_frame-wire :
    (frame : Frame) (output : List ℕ)
    → IsSendable frame
    → write_frame frame output ≡ wire frame ++ drop (length (wire frame)) output
unfolding write_frame
write_frame-wire frame output h =
    let magic = magic_0 ∷ magic_1 ∷ version ∷ frame.flags ∷ [] in
    let type = write_u16_le frame.message_type in
    let sequence = write_u16_le frame.sequence in
    let size = write_u16_le frame.payload_length in
    let e1 = copy_to_next [] magic output 0 refl in
    let e2 = copy_to_then magic type output 4 e1 refl in
    let e3 = copy_to_then (magic ++ type) sequence output 6 e2 (unfold write_u16_le in refl) in
    let e4 =
      copy_to_then (magic ++ type ++ sequence) size output 8 e3 (unfold write_u16_le in refl) in
    let e5 =
      copy_payload (header frame) (bytes_at frame.payload) output frame.payload_length e4
        (sym (length-header frame)) in
    let at = sym (length-body frame h) in
    let checksum =
      ap (λ b. crc16 (some b) (header_size + frame.payload_length)) e5
      ∙ crc16_prefix (body frame) (drop (length (body frame)) output) _ at in
    copy_to_then (body frame) _ output (header_size + frame.payload_length) e5 at
    ∙ ap
        (λ (crc : ℕ).
          (body frame ++ write_u16_le crc) ++ drop (length (body frame ++ write_u16_le crc)) output)
        checksum
