-- ===== src/Lite2/Report.antt =====
-- What the Lite 2 parser reads from the bytes of a report.
use mathlib.Core.Path.{◌≡⟨◌⟩◌, ◌∎}
use native.Mathlib.Nat.{one-le-pow}
use red_monkey_mpg_firmware.Base.{
  ℕ, ◌+◌, ◌*◌, ◌/◌, ◌%◌, ◌^◌, ◌<◌, ◌≤◌, ◌-◌, ℤ, negsuc, true, false, ◌&&◌, some, List, ◌==◌, ltb,
  leb, if◌then◌else◌, bit_and, bit_or, has_bits, pos, length, get_or, magnitude, within,
  is_positive, is_negative, IsInt16, ◌≡◌, arith, ap, ◌∙◌, ◌⊎◌, inl, inr,
}
use red_monkey_mpg_firmware.Base.Bits.{bit_or_shifted, bit_and_digit, bit_and_nibble}
use red_monkey_mpg_firmware.Types.{GamepadState, no_input}
use red_monkey_mpg_firmware.Lite2.{normalize, parse, report_buttons}

-- A raw byte and a center that is a byte give a 16-bit value whose sign is the side of the center,
-- within the default dead zone exactly when the byte is at most 35 away from the center.
pub normalize_lem :
    (raw center : ℕ)
    → raw < 256
    → center < 256
    → IsInt16 (normalize raw center)
      × (is_positive (normalize raw center) ≡ ltb center raw)
      × (is_negative (normalize raw center) ≡ ltb raw center)
      × (within (magnitude (normalize raw center)) (pos 9000)
          ≡ (leb raw (center + 35) && leb center (raw + 35)))
unfolding normalize
normalize_lem raw center h k = ground arith

-- A stick by its byte: 256 for each step from the center, with the sign of its side, and cut at
-- 32767.
abbrev pub stick_value : ℕ → ℕ → ℤ
stick_value center raw =
    if ltb raw center
    then negsuc ((center - raw) * 256 - 1)
    else pos (if ltb 127 (raw - center) then 32767 else (raw - center) * 256)

normalize-stick_value :
    (raw center : ℕ) → center ≤ 128 → normalize raw center ≡ stick_value center raw
unfolding normalize
normalize-stick_value raw center h = ground arith

-- A mask of one bit tests that binary digit.
has_digit : (k v : ℕ) → has_bits v (2 ^ k) ≡ (v / 2 ^ k % 2 == 1)
has_digit k v =
    let digit : (v / 2 ^ k % 2 ≡ 0) ⊎ (v / 2 ^ k % 2 ≡ 1) = omega arith in
    elim digit [
      | inl off ↦ ground (arith, bit_and_digit k v, off, ap (λ (t : ℕ). t * 2 ^ k) off)
      | inr on ↦ ground (arith, bit_and_digit k v, on, ap (λ (t : ℕ). t * 2 ^ k) on, one-le-pow k 2)
    ]

module _ (report : List ℕ) where
  abbrev byte : ℕ → ℕ
  byte i = get_or report i 0

  -- The 20 buttons as one number, and one button of them.
  abbrev pub button_word : ℕ
  button_word = byte 2 + byte 3 * 2 ^ 8 + byte 4 % 16 * 2 ^ 16

  report_buttons_lem : byte 2 < 256 → byte 3 < 256 → report_buttons report ≡ button_word
  report_buttons_lem h k =
      bit_or (bit_or (byte 2) (byte 3 * 2 ^ 8)) (bit_and (byte 4) 0x0f * 2 ^ 16)
      ≡⟨ ap (λ (t : ℕ). bit_or t (bit_and (byte 4) 0x0f * 2 ^ 16))
          (bit_or_shifted 8 (byte 2) (byte 3) h) ⟩
        bit_or (byte 2 + byte 3 * 2 ^ 8) (bit_and (byte 4) 0x0f * 2 ^ 16)
      ≡⟨ ap (λ (t : ℕ). bit_or (byte 2 + byte 3 * 2 ^ 8) (t * 2 ^ 16)) (bit_and_nibble (byte 4)) ⟩
        bit_or (byte 2 + byte 3 * 2 ^ 8) (byte 4 % 16 * 2 ^ 16)
      ≡⟨ bit_or_shifted 16 (byte 2 + byte 3 * 2 ^ 8) (byte 4 % 16) (omega arith) ⟩
        byte 2 + byte 3 * 2 ^ 8 + byte 4 % 16 * 2 ^ 16 ∎

  -- The control state by arithmetic on the bytes.
  abbrev pub decoded : ℕ → GamepadState
  decoded sample_ms = record no_input {
    buttons = button_word;
    hat = byte 4 / 16;
    left_x = stick_value 127 (byte 5);
    left_y = stick_value 127 (byte 6);
    right_x = stick_value 127 (byte 7);
    right_y = stick_value 128 (byte 8);
    right_trigger = byte 9;
    left_trigger = byte 10;
    deadman = byte 3 % 2 == 1;
    rapid = byte 3 / 2 % 2 == 1;
    precision = byte 2 / 128 % 2 == 1;
    cycle_resolution = byte 2 % 2 == 1;
    cancel = byte 2 / 2 % 2 == 1;
    connected = true;
    sample_ms = sample_ms;
  }

  digit_lem :
      (k n : ℕ)
      → byte 2 < 256
      → byte 3 < 256
      → button_word / 2 ^ k % 2 ≡ n
      → has_bits (report_buttons report) (2 ^ k) ≡ (n == 1)
  digit_lem k n h h' e =
      ap (λ (t : ℕ). has_bits t (2 ^ k)) (report_buttons_lem h h')
      ∙ has_digit k button_word
      ∙ ap (λ (t : ℕ). t == 1) e

  -- A report of eleven bytes with the right header is parsed as arithmetic on its bytes says, each
  -- button from its own bit and each stick as 256 for each step from its center (127, and 128 for
  -- the right stick up and down) cut at 32767, where bytes 2 and 3 are bytes; any other report
  -- leaves the output.
  pub parse-decoded :
      (sample_ms : ℕ) (output : GamepadState)
      → byte 2 < 256
      → byte 3 < 256
      → parse (some report) sample_ms output ≡ (
          if length report == 11 && byte 0 == 0xa1 && byte 1 == 0x01
          then (true, decoded sample_ms)
          else (false, output))
  unfolding parse
  parse-decoded sample_ms output h k = ground (
    arith,
    report_buttons_lem h k,
    digit_lem 8 (byte 3 % 2) h k (omega arith),
    digit_lem 9 (byte 3 / 2 % 2) h k (omega arith),
    digit_lem 7 (byte 2 / 128 % 2) h k (omega arith),
    digit_lem 0 (byte 2 % 2) h k (omega arith),
    digit_lem 1 (byte 2 / 2 % 2) h k (omega arith),
    normalize-stick_value (byte 5) 127 (omega arith),
    normalize-stick_value (byte 6) 127 (omega arith),
    normalize-stick_value (byte 7) 127 (omega arith),
    normalize-stick_value (byte 8) 128 (omega arith),
  )
