-- ===== src/Base/Words.antt =====
-- Machine words as native numbers: the casts, the complements and the single-bit tests.
use Prim.Native.Nat.{ℕ, ◌-◌, ◌%◌, bit_and}
use mathlib.Core.Bool.{Bool, not}
use ue2_c64u_emulator.Base.Tests.{◌==◌}

-- `as u8`, `as u16`, `as u32`
abbrev pub u8 : ℕ → ℕ
u8 n = n % 256

abbrev pub u16 : ℕ → ℕ
u16 n = n % 65536

abbrev pub u32 : ℕ → ℕ
u32 n = n % 4294967296

-- `!x` of a byte, of a half word and of a word
abbrev pub not8 : ℕ → ℕ
not8 x = 255 - x

abbrev pub not16 : ℕ → ℕ
not16 x = 65535 - x

abbrev pub not32 : ℕ → ℕ
not32 x = 4294967295 - x

-- `x & mask != 0`
unfoldable pub has : ℕ → ℕ → Bool
has x mask = not (bit_and x mask == 0)
