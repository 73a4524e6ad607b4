-- ===== src/Base/Words.antt =====
-- Casts and wrapping subtraction at the widths of <stdint.h>, shifts, and the values of bytes.
use Prim.Native.Nat.{ℕ, ◌+◌, ◌-◌, ◌*◌, ◌/◌, ◌%◌, ◌^◌, ◌<◌}
use mathlib.Core.List.{List}
use esp32_monitor.Base.Lists.{All}

abbrev pub u8 : ℕ → ℕ
u8 n = n % 2 ^ 8

abbrev pub u16 : ℕ → ℕ
u16 n = n % 2 ^ 16

abbrev pub u32 : ℕ → ℕ
u32 n = n % 2 ^ 32

-- (uint16_t)(a - b) and (uint32_t)(a - b) for operands of that width.
abbrev pub sub_u16 : ℕ → ℕ → ℕ
sub_u16 a b = u16 (a + 2 ^ 16 - b)

abbrev pub sub_u32 : ℕ → ℕ → ℕ
sub_u32 a b = u32 (a + 2 ^ 32 - b)

infixl 72 ◌<<◌ ◌>>◌
abbrev pub ◌<<◌ : ℕ → ℕ → ℕ
x << k = x * 2 ^ k

abbrev pub ◌>>◌ : ℕ → ℕ → ℕ
x >> k = x / 2 ^ k

abbrev pub IsBytes : List ℕ → Type 0
IsBytes = All (λ x. x < 256)
