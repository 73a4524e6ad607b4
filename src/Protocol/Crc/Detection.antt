-- ===== src/Protocol/Crc/Detection.antt =====
-- Each round of the checksum loses nothing, so a single changed byte changes the result.
use esp32_monitor.Base.{
  ℕ, zero, suc, ◌*◌, ◌%◌, ◌^◌, ◌≤◌, ◌<◌, ◌≡◌, refl, ◌∙◌, arith, List, [], ◌∷◌, ◌++◌, bit_xor,
  bit_and_power, bit_xor-lt, bit_xor_undo, bit_xor_cancel_right, bit_xor_cancel_left, ltb,
  bit_xor_parts, u16, ◌<<◌, if◌then◌else◌,
}
use esp32_monitor.Protocol.Crc.{crc_bit, crc_bits, crc_byte, crc_bytes, crc_bit-lt, crc_byte-lt}

-- A word with its highest bit set is doubled and reduced, another one only doubled.
crc_bit_cases :
    (crc : ℕ)
    → crc < 2 ^ 16
    → crc_bit crc ≡ (if ltb crc (2 ^ 15) then crc * 2 else u16 (bit_xor (crc * 2) 0x1021))
unfolding crc_bit
crc_bit_cases crc h = ground (arith, bit_and_power crc 15)

-- The reduced words lie between 2 ^ 16 and 2 ^ 17 before they are cut.
reduced_bounds :
    (crc : ℕ)
    → 2 ^ 15 ≤ crc
    → crc < 2 ^ 16
    → (2 ^ 16 ≤ bit_xor (crc * 2) 0x1021)
      × (bit_xor (crc * 2) 0x1021 < 2 ^ 17)
      × (bit_xor (crc * 2) 0x1021 % 2 ≡ 1)
reduced_bounds crc p q = (lower, bit_xor-lt 17 (crc * 2) 0x1021 (omega arith) (omega arith), odd)
  where
    lower : 2 ^ 16 ≤ bit_xor (crc * 2) 0x1021
    lower = ground (
      arith,
      bit_xor_undo 17 (crc * 2) 0x1021 (omega arith) (omega arith),
      bit_xor-lt 16 (bit_xor (crc * 2) 0x1021) 0x1021,
    )

    odd : bit_xor (crc * 2) 0x1021 % 2 ≡ 1
    odd =
        (bit_xor_parts (crc * 2) 0x1021).1
        ∙ (let even : crc * 2 % 2 ≡ 0 = omega arith in rw even refl)

crc_bit-injective : (a b : ℕ) → a < 2 ^ 16 → b < 2 ^ 16 → crc_bit a ≡ crc_bit b → a ≡ b
crc_bit-injective a b p q e = ground (
  arith,
  crc_bit_cases a p,
  crc_bit_cases b q,
  reduced_bounds a,
  reduced_bounds b,
  bit_xor_cancel_right 17 {a = a * 2} {b = b * 2} {c = 0x1021},
)

crc_bits-injective :
    (rounds a b : ℕ) → a < 2 ^ 16 → b < 2 ^ 16 → crc_bits rounds a ≡ crc_bits rounds b → a ≡ b
unfolding crc_bits
crc_bits-injective zero a b p q e = e
crc_bits-injective (suc rounds) a b p q e =
    crc_bit-injective a b p q
      (crc_bits-injective rounds (crc_bit a) (crc_bit b) (crc_bit-lt a) (crc_bit-lt b) e)

mod_back : (a b : ℕ) → a < 2 ^ 16 → b < 2 ^ 16 → u16 a ≡ u16 b → a ≡ b
mod_back a b p q e = omega arith

-- One byte: injective in the checksum so far, and in the byte.
crc_byte-injective_left :
    (a b byte : ℕ) → a < 2 ^ 16 → b < 2 ^ 16 → crc_byte a byte ≡ crc_byte b byte → a ≡ b
unfolding crc_byte
crc_byte-injective_left a b byte p q e = bit_xor_cancel_right 16 p q (omega arith) (
    mod_back _ _ (bit_xor-lt 16 a (u16 (byte << 8)) p (omega arith))
      (bit_xor-lt 16 b (u16 (byte << 8)) q (omega arith))
      (crc_bits-injective 8 _ _ (omega arith) (omega arith) e))

crc_byte-injective_right :
    (crc x y : ℕ) → crc < 2 ^ 16 → x < 256 → y < 256 → crc_byte crc x ≡ crc_byte crc y → x ≡ y
unfolding crc_byte
crc_byte-injective_right crc x y r p q e =
    let same = bit_xor_cancel_left 16 (omega arith) (omega arith) r (
      mod_back _ _ (bit_xor-lt 16 crc (u16 (x << 8)) r (omega arith))
        (bit_xor-lt 16 crc (u16 (y << 8)) r (omega arith))
        (crc_bits-injective 8 _ _ (omega arith) (omega arith) e)) in
    omega (arith, same)

crc_bytes-injective :
    (a b : ℕ) (bytes : List ℕ)
    → a < 2 ^ 16
    → b < 2 ^ 16
    → crc_bytes a bytes ≡ crc_bytes b bytes
    → a ≡ b
unfolding crc_bytes
crc_bytes-injective a b [] p q e = e
crc_bytes-injective a b (byte ∷ bytes) p q e = crc_byte-injective_left a b byte p q (
    crc_bytes-injective (crc_byte a byte) (crc_byte b byte) bytes (crc_byte-lt a byte)
      (crc_byte-lt b byte) e)

-- Two inputs that differ in one byte have different checksums.
pub crc_bytes-detects :
    (crc : ℕ) (before after : List ℕ) (x y : ℕ)
    → crc < 2 ^ 16
    → x < 256
    → y < 256
    → crc_bytes crc (before ++ x ∷ after) ≡ crc_bytes crc (before ++ y ∷ after)
    → x ≡ y
unfolding crc_bytes
crc_bytes-detects crc [] after x y r p q e = crc_byte-injective_right crc x y r p q (
    crc_bytes-injective (crc_byte crc x) (crc_byte crc y) after (crc_byte-lt crc x)
      (crc_byte-lt crc y) e)
crc_bytes-detects crc (byte ∷ before) after x y r p q e =
    crc_bytes-detects (crc_byte crc byte) before after x y (crc_byte-lt crc byte) p q e
