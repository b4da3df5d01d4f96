-- ===== src/Base/Words.antt =====
-- Limits and casts of the fixed-width integer types.
use Prim.Native.Nat.{ℕ, ◌%◌}

abbrev pub uint8_max : ℕ
uint8_max = 0xff

abbrev pub uint16_max : ℕ
uint16_max = 0xffff

abbrev pub uint32_max : ℕ
uint32_max = 0xffff_ffff

abbrev pub uint64_max : ℕ
uint64_max = 0xffff_ffff_ffff_ffff

-- `(uint8_t)x`, `(uint16_t)x`, `(uint32_t)x`
abbrev pub as_u8 : ℕ → ℕ
as_u8 x = x % 256

abbrev pub as_u16 : ℕ → ℕ
as_u16 x = x % 65536

abbrev pub as_u32 : ℕ → ℕ
as_u32 x = x % 4294967296
