-- ===== src/Bridge/Chord/Mask.antt =====
-- The buttons of the confirmation chord, of which the code tests all three by one mask.
use red_monkey_mpg_firmware.Base.{
  ℕ, ◌+◌, ◌*◌, ◌/◌, ◌%◌, ◌^◌, Bool, ◌&&◌, ◌==◌, bit_and, ◌≡◌, ap, refl, arith,
}
use red_monkey_mpg_firmware.Base.Bits.{bit_and_digits, bit_and-zero}
use red_monkey_mpg_firmware.Bridge.{confirmation_chord}

-- Whether the button of this number is down.
abbrev is_down : ℕ → ℕ → Bool
is_down k buttons = buttons / 2 ^ k % 2 == 1

-- L2, R2 and Plus are down together.
unfoldable pub chord_is_down : ℕ → Bool
chord_is_down buttons = is_down 8 buttons && is_down 9 buttons && is_down 11 buttons

bit_and_even : (a m h : ℕ) → m ≡ 2 * h → bit_and a m ≡ 2 * bit_and (a / 2) h
bit_and_even a m h e =
    let half : m / 2 ≡ h = omega (arith, e) in
    omega (arith, e, bit_and_digits a m, ap (bit_and (a / 2)) half)

bit_and_odd : (a m h : ℕ) → m ≡ 2 * h + 1 → bit_and a m ≡ a % 2 + 2 * bit_and (a / 2) h
bit_and_odd a m h e =
    let half : m / 2 ≡ h = omega (arith, e) in
    omega (arith, e, bit_and_digits a m, ap (bit_and (a / 2)) half)

-- The bits below the lowest of the mask do not count.
bit_and_chord : (b : ℕ) → bit_and b 0xb00 ≡ 256 * bit_and (b / 2 / 2 / 2 / 2 / 2 / 2 / 2 / 2) 0xb
bit_and_chord b = omega (
  arith,
  bit_and_even b 0xb00 0x580 refl,
  bit_and_even (b / 2) 0x580 0x2c0 refl,
  bit_and_even (b / 2 / 2) 0x2c0 0x160 refl,
  bit_and_even (b / 2 / 2 / 2) 0x160 0xb0 refl,
  bit_and_even (b / 2 / 2 / 2 / 2) 0xb0 0x58 refl,
  bit_and_even (b / 2 / 2 / 2 / 2 / 2) 0x58 0x2c refl,
  bit_and_even (b / 2 / 2 / 2 / 2 / 2 / 2) 0x2c 0x16 refl,
  bit_and_even (b / 2 / 2 / 2 / 2 / 2 / 2 / 2) 0x16 0xb refl,
)

bit_and_eleven : (c : ℕ) → bit_and c 0xb ≡ c % 2 + 2 * (c / 2 % 2) + 8 * (c / 8 % 2)
bit_and_eleven c = omega (
  arith,
  bit_and_odd c 0xb 0x5 refl,
  bit_and_odd (c / 2) 0x5 0x2 refl,
  bit_and_even (c / 2 / 2) 0x2 0x1 refl,
  bit_and_odd (c / 2 / 2 / 2) 0x1 0x0 refl,
  bit_and-zero (c / 2 / 2 / 2 / 2),
)

-- The test by the mask is that of the three buttons.
pub chord_mask : (b : ℕ) → (bit_and b confirmation_chord == confirmation_chord) ≡ chord_is_down b
unfolding chord_is_down
chord_mask b =
    let high = b / 2 / 2 / 2 / 2 / 2 / 2 / 2 / 2 in
    let shift : high ≡ b / 256 = omega arith in
    ground (arith, bit_and_chord b, bit_and_eleven high, shift)
