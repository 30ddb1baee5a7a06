-- ===== src/Tests/Gamepad.antt =====
-- The Lite 2 report, the choice of its profile, and the default mapping on it.
use mathlib.Core.Option
use mathlib.Core.List.{Permᴰ}
use red_monkey_mpg_firmware.Base.{
  ℕ, true, false, ◌&&◌, none, some, List, [], ◌∷◌, ◌==◌, if◌then◌else◌, ◌≡◌, ◌≢◌, ◌↔◌, refl, arith,
  is_some, has_bits, get_or, length, Option,
}
use red_monkey_mpg_firmware.Types.{GamepadState, no_input}
use red_monkey_mpg_firmware.Production.{
  default_mapping, validate_production_mapping, valid, is_motion_control, is_safe_face_action,
  is_step_action, apply_production_mapping, face_buttons, unnamed,
}
use red_monkey_mpg_firmware.Production.Valid.{IsProduction, validate_valid_iff}
use red_monkey_mpg_firmware.Production.Apply.{
  any_pressed, is_cancel, is_cycle, last_step, apply-valid,
}
use red_monkey_mpg_firmware.Profile.{
  ControllerProbe, ControllerProfile, bluetooth_classic_hid, bluetooth_le_hid, select,
  profile_supports_safe_motion, matched,
}
use red_monkey_mpg_firmware.Profile.Choice.Describe.{IsChoice, select-IsChoice}
use red_monkey_mpg_firmware.Lite2.{lite2_d_profile, match_lite2_d, parse}
use red_monkey_mpg_firmware.Lite2.Report.{decoded, parse-decoded}

-- The stick to the right, with L2 and A.
abbrev report : List ℕ
report = 0xa1 ∷ 1 ∷ 1 ∷ 1 ∷ 0x80 ∷ 255 ∷ 127 ∷ 127 ∷ 128 ∷ 0 ∷ 90 ∷ []

parse-decoded_example : parse (some report) 40 no_input ≡ (
    if length report == 11 && get_or report 0 0 == 0xa1 && get_or report 1 0 == 0x01
    then (true, decoded report 40)
    else (false, no_input))
parse-decoded_example = parse-decoded report 40 no_input (ground arith) (ground arith)

abbrev pad : GamepadState
pad = (parse (some report) 40 no_input).1

default-valid : validate_production_mapping default_mapping ≡ valid
unfolding validate_production_mapping is_motion_control is_safe_face_action is_step_action
default-valid = refl

apply-valid_example : apply_production_mapping pad default_mapping ≡ record pad {
  deadman = has_bits pad.buttons 0x100;
  rapid = has_bits pad.buttons 0x200;
  precision = has_bits pad.buttons 0x80;
  cycle_resolution = any_pressed is_cycle pad.buttons (face_buttons default_mapping);
  select_resolution = is_some (last_step pad.buttons (face_buttons default_mapping));
  selected_resolution =
      Option.get_or (last_step pad.buttons (face_buttons default_mapping)) pad.selected_resolution;
  cancel = any_pressed is_cancel pad.buttons (face_buttons default_mapping);
}
apply-valid_example = apply-valid pad default_mapping default-valid

validate_valid_iff_example :
    (validate_production_mapping default_mapping ≡ valid) ↔ IsProduction default_mapping
validate_valid_iff_example = validate_valid_iff default_mapping

-- An action byte that the enum does not name is refused.
unnamed_refused :
    validate_production_mapping (record default_mapping { face_y = unnamed 9 }) ≢ valid
unfolding validate_production_mapping is_motion_control is_safe_face_action is_step_action
unnamed_refused = ground arith

abbrev probe : ControllerProbe
probe = record {
  transport = bluetooth_classic_hid;
  advertised_name = some "8BitDo Lite 2";
  bluetooth_device_class = 0x002508;
  hid_descriptor = some [];
  hid_descriptor_length = 83;
}

abbrev le_profile : ControllerProfile
le_profile = record lite2_d_profile { transport = bluetooth_le_hid }

abbrev table : List (Option ControllerProfile)
table = some lite2_d_profile ∷ some le_profile ∷ none ∷ []

abbrev swapped : List (Option ControllerProfile)
swapped = some le_profile ∷ some lite2_d_profile ∷ none ∷ []

lite2_matched : select table probe ≡ record { status = matched; profile = some lite2_d_profile }
unfolding select match_lite2_d profile_supports_safe_motion
lite2_matched = refl

table-perm : Permᴰ table swapped
table-perm = Permᴰ.swap refl refl

select-IsChoice_example : IsChoice probe table (select table probe)
select-IsChoice_example = select-IsChoice table probe
