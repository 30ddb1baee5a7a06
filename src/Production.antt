-- ===== src/Production.antt =====
-- The production mapping, firmware/src/production_config.cpp: its validation, and the control
-- state that it makes of a raw gamepad report.
pub mod Valid
pub mod Apply
use red_monkey_mpg_firmware.Base.{
  ℕ, ◌-◌, Bool, true, false, not, ◌&&◌, ◌||◌, Option, none, some, List, [], ◌∷◌, ◌==◌,
  if◌then◌else◌, bit_and, has_bits,
}
use red_monkey_mpg_firmware.Types.{GamepadState, StepResolution, mm_0_01, mm_0_10, mm_0_50, mm_1_00}
use red_monkey_mpg_firmware.Keyboard.{
  CncControllerProfileId, CncControllerProfile, masso_g3_touch_5_13, cnc_controller_profile,
}

-- The underlying byte may be one that the enum does not name.
pub data ButtonAction : Type 0 where
  unassigned cancel cycle_resolution step_0_01 step_0_10 step_0_50 step_1_00 : ButtonAction
  unnamed : ℕ → ButtonAction

pub record ProductionMapping : Type 0 where
  pub cnc_profile : CncControllerProfileId
  pub deadman_mask : ℕ
  pub continuous_mask : ℕ
  pub precision_mask : ℕ
  pub resolution_mask : ℕ
  pub face_a : ButtonAction
  pub face_b : ButtonAction
  pub face_x : ButtonAction
  pub face_y : ButtonAction

-- `ProductionMapping{}`
abbrev pub default_mapping : ProductionMapping
default_mapping = record {
  cnc_profile = masso_g3_touch_5_13;
  deadman_mask = 0x00100;
  continuous_mask = 0x00200;
  precision_mask = 0x00080;
  resolution_mask = 0;
  face_a = cycle_resolution;
  face_b = cancel;
  face_x = unassigned;
  face_y = unassigned;
}

pub data ConfigValidation : Type 0 where
  valid invalid_control duplicate_motion_control unsafe_face_action : ConfigValidation
  unsupported_cnc_profile unsupported_profile_action : ConfigValidation

-- L1, R1, L2, R2
abbrev pub motion_controls : ℕ
motion_controls = 0x003c0

abbrev pub is_single_mask : ℕ → Bool
is_single_mask value = not (value == 0) && bit_and value (value - 1) == 0

unfoldable pub is_safe_face_action : ButtonAction → Bool
is_safe_face_action (unnamed n) = false
is_safe_face_action _ = true

unfoldable pub is_step_action : ButtonAction → Bool
is_step_action cycle_resolution = true
is_step_action step_0_01 = true
is_step_action step_0_10 = true
is_step_action step_0_50 = true
is_step_action step_1_00 = true
is_step_action _ = false

unfoldable pub is_motion_control : ℕ → Bool
is_motion_control mask = is_single_mask mask && has_bits mask motion_controls

-- `validate_production_mapping` behind the lookup of the profile.
validate_with : Option CncControllerProfile → ProductionMapping → ConfigValidation
validate_with none m = unsupported_cnc_profile
validate_with (some profile) m =
    if not (is_motion_control m.deadman_mask)
      || not (is_motion_control m.continuous_mask)
      || not (is_motion_control m.precision_mask)
      || not (m.resolution_mask == 0)
    then invalid_control
    else if m.deadman_mask == m.continuous_mask
        || m.deadman_mask == m.precision_mask
        || m.continuous_mask == m.precision_mask
    then duplicate_motion_control
    else if not (is_safe_face_action m.face_a)
        || not (is_safe_face_action m.face_b)
        || not (is_safe_face_action m.face_x)
        || not (is_safe_face_action m.face_y)
    then unsafe_face_action
    else if not profile.supports_step_resolution
        && (is_step_action m.face_a
            || is_step_action m.face_b
            || is_step_action m.face_x
            || is_step_action m.face_y)
    then unsupported_profile_action
    else valid

unfoldable pub validate_production_mapping : ProductionMapping → ConfigValidation
unfolding cnc_controller_profile validate_with
validate_production_mapping m = validate_with (cnc_controller_profile m.cnc_profile) m

abbrev pub is_valid : ConfigValidation → Bool
is_valid valid = true
is_valid _ = false

abbrev select : StepResolution → GamepadState → GamepadState
select r s = record s { select_resolution = true; selected_resolution = r }

-- The `switch` on the action of a pressed face button.
press : ButtonAction → GamepadState → GamepadState
press unassigned s = s
press cancel s = record s { cancel = true }
press cycle_resolution s = record s { cycle_resolution = true }
press step_0_01 s = select mm_0_01 s
press step_0_10 s = select mm_0_10 s
press step_0_50 s = select mm_0_50 s
press step_1_00 s = select mm_1_00 s
press (unnamed n) s = s

-- `kFaceMasks` beside the actions, in the order of the loop.
abbrev pub face_buttons : ProductionMapping → List (ℕ × ButtonAction)
face_buttons m =
    (0x00001, m.face_a) ∷ (0x00002, m.face_b) ∷ (0x00008, m.face_x) ∷ (0x00010, m.face_y) ∷ []

unfoldable pub press_faces : ℕ → List (ℕ × ButtonAction) → GamepadState → GamepadState
unfolding press
press_faces buttons [] s = s
press_faces buttons ((mask, action) ∷ fs) s =
    press_faces buttons fs (if has_bits buttons mask then press action s else s)

abbrev pub refused : GamepadState → GamepadState
refused raw = record raw {
  deadman = false;
  rapid = false;
  precision = false;
  cycle_resolution = false;
  select_resolution = false;
  cancel = true;
}

abbrev pub with_controls : GamepadState → ProductionMapping → GamepadState
with_controls raw m = record raw {
  deadman = has_bits raw.buttons m.deadman_mask;
  rapid = has_bits raw.buttons m.continuous_mask;
  precision = has_bits raw.buttons m.precision_mask;
  cycle_resolution = not (m.resolution_mask == 0) && has_bits raw.buttons m.resolution_mask;
  cancel = false;
  select_resolution = false;
}

unfoldable pub apply_production_mapping : GamepadState → ProductionMapping → GamepadState
apply_production_mapping raw m =
    if is_valid (validate_production_mapping m)
    then press_faces raw.buttons (face_buttons m) (with_controls raw m)
    else refused raw
