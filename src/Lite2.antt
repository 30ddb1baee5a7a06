-- ===== src/Lite2.antt =====
-- The 8BitDo Lite 2 report and its profile, firmware/src/lite2_report.cpp, and the registry of
-- firmware/src/controller_profile.cpp that holds it.
pub mod Report
pub mod Builtin
use Prim.Native.String.{String}
use text.Mathlib.Text.{◌==◌ as str_eq}
use red_monkey_mpg_firmware.Base.{
  ℕ, ◌+◌, ◌-◌, ◌*◌, ◌/◌, ◌^◌, Bool, true, false, not, ◌&&◌, ◌||◌, Option, none, some, List, [], ◌∷◌,
  ◌==◌, ltb, leb, if◌then◌else◌, bit_and, bit_or, has_bits, ℤ, pos, negsuc, sub_ℕ, length, get_or,
  is_some,
}
use red_monkey_mpg_firmware.Types.{GamepadState, no_input}
use red_monkey_mpg_firmware.Profile.{
  ProfileMatch, unsupported, compatible, exact, bluetooth_classic_hid, is_classic, ControllerProbe,
  ControllerProfile, community_tested,
}

-- `lite2_button`, the buttons that the parser reads.
abbrev pub button_a : ℕ
button_a = 0x00001

abbrev pub button_b : ℕ
button_b = 0x00002

abbrev pub button_right_shoulder : ℕ
button_right_shoulder = 0x00080

abbrev pub button_left_trigger : ℕ
button_left_trigger = 0x00100

abbrev pub button_right_trigger : ℕ
button_right_trigger = 0x00200

-- `(raw - center) * 256` in `int`.
abbrev pub scaled : ℤ → ℤ
scaled (pos n) = pos (n * 256)
scaled (negsuc n) = negsuc (n * 256 + 255)

-- `std::clamp(scaled, -32768, 32767)`
abbrev pub clamp16 : ℤ → ℤ
clamp16 (pos n) = pos (if ltb 32767 n then 32767 else n)
clamp16 (negsuc n) = negsuc (if ltb 32767 n then 32767 else n)

unfoldable pub normalize : ℕ → ℕ → ℤ
normalize raw center = clamp16 (scaled (sub_ℕ raw center))

abbrev pub report_buttons : List ℕ → ℕ
report_buttons report =
    bit_or (bit_or (get_or report 2 0) (get_or report 3 0 * 2 ^ 8))
      (bit_and (get_or report 4 0) 0x0f * 2 ^ 16)

abbrev pub is_report : List ℕ → Bool
is_report report = length report == 11 && get_or report 0 0 == 0xa1 && get_or report 1 0 == 0x01

-- `parsed`, field by field.
parsed : List ℕ → ℕ → GamepadState
parsed report sample_ms =
    let buttons = report_buttons report in
    record no_input {
      buttons = buttons;
      hat = get_or report 4 0 / 2 ^ 4;
      left_x = normalize (get_or report 5 0) 127;
      left_y = normalize (get_or report 6 0) 127;
      right_x = normalize (get_or report 7 0) 127;
      right_y = normalize (get_or report 8 0) 128;
      right_trigger = get_or report 9 0;
      left_trigger = get_or report 10 0;
      deadman = has_bits buttons button_left_trigger;
      rapid = has_bits buttons button_right_trigger;
      precision = has_bits buttons button_right_shoulder;
      cycle_resolution = has_bits buttons button_a;
      cancel = has_bits buttons button_b;
      connected = true;
      sample_ms = sample_ms;
    }

-- `Lite2ReportParser::parse`: the result, and the output parameter afterwards. A report is the
-- buffer of its `length` bytes, and `none` the null pointer.
unfoldable pub parse : Option (List ℕ) → ℕ → GamepadState → Bool × GamepadState
unfolding parsed
parse none sample_ms output = (false, output)
parse (some report) sample_ms output =
    if is_report report then (true, parsed report sample_ms) else (false, output)

unfoldable pub match_name : Option String → ℕ → ProfileMatch
match_name (some name) device_class =
    if str_eq name "8BitDo Lite 2" || str_eq name "8BitDo Lite 2 (D mode)"
    then exact
    else unsupported
match_name none device_class = if device_class == 0x002508 then exact else compatible

unfoldable pub match_lite2_d : ControllerProbe → ProfileMatch
unfolding match_name
match_lite2_d probe =
    if not (is_classic probe.transport)
      || not (is_some probe.hid_descriptor)
      || not (probe.hid_descriptor_length == 83)
    then unsupported
    else match_name probe.advertised_name probe.bluetooth_device_class

abbrev pub lite2_d_profile : ControllerProfile
lite2_d_profile = record {
  id = some "8bitdo.lite2.dinput";
  display_name = some "8BitDo Lite 2 — D-input";
  transport = bluetooth_classic_hid;
  maturity = community_tested;
  capabilities = record {
    x_axis = true;
    y_axis = true;
    z_axis = true;
    held_deadman_candidate = true;
    continuous_modifier_candidate = true;
    precision_modifier_candidate = true;
  };
  probe_match = some match_lite2_d;
  parse_report = some parse;
}

-- The table of the registry that the receiver uses.
abbrev pub builtin_controller_profiles : List (Option ControllerProfile)
builtin_controller_profiles = some lite2_d_profile ∷ []
