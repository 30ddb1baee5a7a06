-- ===== src/Base/Int.antt =====
-- Signed integers over the native numbers. `negsuc n` is -(n + 1).
use Prim.Native.Nat.{ℕ, suc, ◌-◌, ◌≤◌}
use mathlib.Core.Bool.{Bool, true, false}
use red_monkey_mpg_firmware.Base.Tests.{leb, ltb, if◌then◌else◌}

pub data ℤ : Type 0 where
  pos : ℕ → ℤ
  negsuc : ℕ → ℤ

-- a - b, as an integer.
abbrev pub sub_ℕ : ℕ → ℕ → ℤ
sub_ℕ a b = if leb b a then pos (a - b) else negsuc (b - a - 1)

-- `std::abs` of a value promoted to `int`, so -32768 has the magnitude 32768.
abbrev pub magnitude : ℤ → ℕ
magnitude (pos n) = n
magnitude (negsuc n) = suc n

-- value > 0
abbrev pub is_positive : ℤ → Bool
is_positive (pos n) = ltb 0 n
is_positive (negsuc n) = false

-- value < 0
abbrev pub is_negative : ℤ → Bool
is_negative (pos n) = false
is_negative (negsuc n) = true

-- m <= limit, for a magnitude and a signed limit
abbrev pub within : ℕ → ℤ → Bool
within m (pos d) = leb m d
within m (negsuc d) = false

-- The range of `std::int16_t`.
abbrev pub IsInt16 : ℤ → Type 0
IsInt16 (pos n) = n ≤ 32767
IsInt16 (negsuc n) = n ≤ 32767
