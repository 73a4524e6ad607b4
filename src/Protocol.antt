-- ===== src/Protocol.antt =====
-- The framing of the Bluetooth protocol, firmware/components/ble_protocol/ble_protocol.c and its
-- header. A buffer with its length is a list of bytes; a pointer that may be NULL is an option.
pub mod Crc
pub mod Codec
pub mod Window
mod Examples
use esp32_monitor.Base.{
  ℕ, suc, ◌+◌, bit_and, bit_or, Option, none, some, List, [], ◌∷◌, u8, u16, ◌<<◌, ◌>>◌, get_or,
}

abbrev pub header_size : ℕ
header_size = 10

abbrev pub crc_size : ℕ
crc_size = 2

abbrev pub max_payload_size : ℕ
max_payload_size = 512

abbrev pub max_frame_size : ℕ
max_frame_size = header_size + max_payload_size + crc_size

abbrev pub magic_0 : ℕ
magic_0 = 0x44

abbrev pub magic_1 : ℕ
magic_1 = 0x43

abbrev pub version : ℕ
version = 1

abbrev pub sequence_window_size : ℕ
sequence_window_size = 32

-- `ok` is DESK_PROTOCOL_OK.
pub data Status : Type 0 where
  ok invalid_argument buffer_too_small bad_magic unsupported_version bad_length bad_crc : Status

pub record Frame : Type 0 where
  pub flags : ℕ
  pub message_type : ℕ
  pub sequence : ℕ
  pub payload : Option (List ℕ)
  pub payload_length : ℕ

-- The two bytes that write_u16_le stores.
unfoldable pub write_u16_le : ℕ → List ℕ
write_u16_le value = u8 (bit_and value 0xFF) ∷ u8 (value >> 8) ∷ []

-- read_u16_le at an offset of a buffer.
unfoldable pub read_u16_le : List ℕ → ℕ → ℕ
read_u16_le input offset = u16 (bit_or (get_or input offset 0) (get_or input (suc offset) 0 << 8))
