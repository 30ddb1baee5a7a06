-- ===== src/Base/Words.antt =====
-- Unsigned words as native numbers: casts, differences, and tests on masks.
use Prim.Native.Nat.{ℕ, ◌+◌, ◌-◌, ◌%◌, ◌^◌, bit_and}
use mathlib.Core.Bool.{Bool, not}
use red_monkey_mpg_firmware.Base.Tests.{◌==◌}

abbrev pub u8 : ℕ → ℕ
u8 n = n % 2 ^ 8

abbrev pub u16 : ℕ → ℕ
u16 n = n % 2 ^ 16

abbrev pub u32 : ℕ → ℕ
u32 n = n % 2 ^ 32

-- The differences of two words of the width, which wrap.
abbrev pub sub16 : ℕ → ℕ → ℕ
sub16 a b = u16 (a + 2 ^ 16 - b)

abbrev pub sub32 : ℕ → ℕ → ℕ
sub32 a b = u32 (a + 2 ^ 32 - b)

-- (value & mask) != 0
abbrev pub has_bits : ℕ → ℕ → Bool
has_bits value mask = not (bit_and value mask == 0)
