-- ===== src/Types.antt =====
-- The shared control state and the semantic output, firmware/include/red_monkey_mpg/types.hpp.
use red_monkey_mpg_firmware.Base.{ℕ, Bool, true, false, ℤ, pos}

pub data Axis : Type 0 where
  x y z : Axis

pub data Direction : Type 0 where
  negative positive : Direction

pub data JogRate : Type 0 where
  precision normal rapid : JogRate

pub data StepResolution : Type 0 where
  mm_0_01 mm_0_10 mm_0_50 mm_1_00 : StepResolution

-- Sticks are `std::int16_t`; `buttons` and `sample_ms` are `std::uint32_t`, the rest bytes.
pub record GamepadState : Type 0 where
  pub left_x : ℤ
  pub left_y : ℤ
  pub right_x : ℤ
  pub right_y : ℤ
  pub buttons : ℕ
  pub hat : ℕ
  pub left_trigger : ℕ
  pub right_trigger : ℕ
  pub deadman : Bool
  pub rapid : Bool
  pub precision : Bool
  pub cycle_resolution : Bool
  pub select_resolution : Bool
  pub selected_resolution : StepResolution
  pub cancel : Bool
  pub connected : Bool
  pub sample_ms : ℕ

-- `GamepadState{}`
abbrev pub no_input : GamepadState
no_input = record {
  left_x = pos 0;
  left_y = pos 0;
  right_x = pos 0;
  right_y = pos 0;
  buttons = 0;
  hat = 8;
  left_trigger = 0;
  right_trigger = 0;
  deadman = false;
  rapid = false;
  precision = false;
  cycle_resolution = false;
  select_resolution = false;
  selected_resolution = mm_0_01;
  cancel = false;
  connected = false;
  sample_ms = 0;
}

pub record JogCommand : Type 0 where
  pub axis : Axis
  pub direction : Direction
  pub rate : JogRate

pub record OutputFrame : Type 0 where
  pub release_all : Bool
  pub has_jog : Bool
  pub jog : JogCommand
  pub has_step_resolution : Bool
  pub step_resolution : StepResolution

-- `OutputFrame{}`: release every key.
abbrev pub released : OutputFrame
released = record {
  release_all = true;
  has_jog = false;
  jog = record { axis = x; direction = positive; rate = normal };
  has_step_resolution = false;
  step_resolution = mm_0_01;
}
