-- ===== src/Protocol/Crc.antt =====
-- desk_protocol_crc16: CRC-16 with the polynomial 0x1021, most significant bit first.
pub mod Detection
use esp32_monitor.Base.{
  ℕ, zero, suc, ◌+◌, ◌^◌, ◌<◌, ◌≡◌, refl, arith, Option, none, some, List, [], ◌∷◌, ◌++◌, bit_and,
  bit_xor, ◌!=◌, if◌then◌else◌, u16, ◌<<◌, take,
}

-- The body of the inner loop.
unfoldable pub crc_bit : ℕ → ℕ
crc_bit crc = if bit_and crc 0x8000 != 0 then u16 (bit_xor (crc << 1) 0x1021) else u16 (crc << 1)

pub crc_bits : ℕ → ℕ → ℕ
crc_bits zero crc = crc
crc_bits (suc rounds) crc = crc_bits rounds (crc_bit crc)

pub crc_byte : ℕ → ℕ → ℕ
crc_byte crc byte = crc_bits 8 (u16 (bit_xor crc (u16 (byte << 8))))

-- The outer loop over the bytes that are left.
unfoldable pub crc_bytes : ℕ → List ℕ → ℕ
crc_bytes crc [] = crc
crc_bytes crc (byte ∷ bytes) = crc_bytes (crc_byte crc byte) bytes

unfoldable pub crc16 : Option (List ℕ) → ℕ → ℕ
unfolding crc_bytes crc_byte crc_bits crc_bit
crc16 none count = if count != 0 then 0 else 0xFFFF
crc16 (some bytes) count = crc_bytes 0xFFFF (take count bytes)

-- The check value of the CRC-16/CCITT-FALSE catalogue entry, over the text "123456789".
check_value :
    crc16 (some (0x31 ∷ 0x32 ∷ 0x33 ∷ 0x34 ∷ 0x35 ∷ 0x36 ∷ 0x37 ∷ 0x38 ∷ 0x39 ∷ [])) 9 ≡ 0x29B1
unfolding crc16
check_value = refl

pub crc_bit-lt : (crc : ℕ) → crc_bit crc < 2 ^ 16
unfolding crc_bit
crc_bit-lt crc = ground arith

pub crc_bits-lt : (rounds crc : ℕ) → crc < 2 ^ 16 → crc_bits rounds crc < 2 ^ 16
unfolding crc_bits
crc_bits-lt zero crc h = h
crc_bits-lt (suc rounds) crc h = crc_bits-lt rounds (crc_bit crc) (crc_bit-lt crc)

pub crc_byte-lt : (crc byte : ℕ) → crc_byte crc byte < 2 ^ 16
unfolding crc_byte
crc_byte-lt crc byte = crc_bits-lt 8 (u16 (bit_xor crc (u16 (byte << 8)))) (omega arith)

pub crc_bytes-lt : (crc : ℕ) (bytes : List ℕ) → crc < 2 ^ 16 → crc_bytes crc bytes < 2 ^ 16
unfolding crc_bytes
crc_bytes-lt crc [] h = h
crc_bytes-lt crc (byte ∷ bytes) h = crc_bytes-lt (crc_byte crc byte) bytes (crc_byte-lt crc byte)

pub crc16-lt : (bytes : List ℕ) (count : ℕ) → crc16 (some bytes) count < 2 ^ 16
unfolding crc16
crc16-lt bytes count = crc_bytes-lt 0xFFFF (take count bytes) (omega arith)
