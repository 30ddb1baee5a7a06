-- ===== src/Production/Apply.antt =====
-- What `apply_production_mapping` makes of the buttons.
use mathlib.Core.Option
use red_monkey_mpg_firmware.Base.{
  ℕ, Bool, true, false, ◌&&◌, ◌||◌, ◌≡◌, Option, none, some, List, [], ◌∷◌, arith, if◌then◌else◌,
  has_bits, is_some,
}
use red_monkey_mpg_firmware.Types.{GamepadState, StepResolution, mm_0_01, mm_0_10, mm_0_50, mm_1_00}
use red_monkey_mpg_firmware.Production.{
  ButtonAction, cancel, cycle_resolution, step_0_01, step_0_10, step_0_50, step_1_00,
  ProductionMapping, validate_production_mapping, valid, press, press_faces, face_buttons,
  apply_production_mapping, with_controls,
}
use red_monkey_mpg_firmware.Production.Valid.{validate_valid_iff}

abbrev pub is_cancel : ButtonAction → Bool
is_cancel cancel = true
is_cancel _ = false

abbrev pub is_cycle : ButtonAction → Bool
is_cycle cycle_resolution = true
is_cycle _ = false

abbrev pub step_of : ButtonAction → Option StepResolution
step_of step_0_01 = some mm_0_01
step_of step_0_10 = some mm_0_10
step_of step_0_50 = some mm_0_50
step_of step_1_00 = some mm_1_00
step_of _ = none

-- Some pressed button has an action of the kind.
abbrev pub any_pressed : (ButtonAction → Bool) → ℕ → List (ℕ × ButtonAction) → Bool
any_pressed kind buttons [] = false
any_pressed kind buttons ((mask, action) ∷ fs) =
    (has_bits buttons mask && kind action) || any_pressed kind buttons fs

abbrev later : Option StepResolution → Option StepResolution → Option StepResolution
later none first = first
later (some r) first = some r

-- The step of the last pressed button that has one.
abbrev pub last_step : ℕ → List (ℕ × ButtonAction) → Option StepResolution
last_step buttons [] = none
last_step buttons ((mask, action) ∷ fs) =
    later (last_step buttons fs) (if has_bits buttons mask then step_of action else none)

-- `t` is `s` after the buttons, with every field that they do not concern as in `s`.
abbrev pub AfterFaces : ℕ → List (ℕ × ButtonAction) → GamepadState → GamepadState → Type 0
AfterFaces buttons fs s t = t ≡ record s {
  cancel = s.cancel || any_pressed is_cancel buttons fs;
  cycle_resolution = s.cycle_resolution || any_pressed is_cycle buttons fs;
  select_resolution = s.select_resolution || is_some (last_step buttons fs);
  selected_resolution = Option.get_or (last_step buttons fs) s.selected_resolution;
}

press_faces_lem :
    (buttons : ℕ) (fs : List (ℕ × ButtonAction)) (s : GamepadState)
    → AfterFaces buttons fs s (press_faces buttons fs s)
unfolding press_faces
press_faces_lem buttons [] s = ground arith
press_faces_lem buttons ((mask, action) ∷ fs) s =
    ground (arith, press_faces_lem buttons fs (if has_bits buttons mask then press action s else s))

-- Under a valid mapping each motion control is held by its button, any pressed face button with
-- the action cancels or cycles, the last pressed one with a step selects it, and all else is kept.
pub apply-valid :
    (raw : GamepadState) (m : ProductionMapping)
    → validate_production_mapping m ≡ valid
    → apply_production_mapping raw m ≡ record raw {
      deadman = has_bits raw.buttons m.deadman_mask;
      rapid = has_bits raw.buttons m.continuous_mask;
      precision = has_bits raw.buttons m.precision_mask;
      cycle_resolution = any_pressed is_cycle raw.buttons (face_buttons m);
      select_resolution = is_some (last_step raw.buttons (face_buttons m));
      selected_resolution =
          Option.get_or (last_step raw.buttons (face_buttons m)) raw.selected_resolution;
      cancel = any_pressed is_cancel raw.buttons (face_buttons m);
    }
unfolding apply_production_mapping
apply-valid raw m h = ground (
  arith,
  ((validate_valid_iff m).0 h).no_resolution,
  press_faces_lem raw.buttons (face_buttons m) (with_controls raw m),
)
