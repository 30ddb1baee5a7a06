-- ===== src/Mapper.antt =====
-- `ControlMapper`, firmware/src/control_mapper.cpp: from the control state to one output frame.
pub mod Safety
pub mod Phase
pub mod Trace
pub mod Steps
pub mod Moves
use red_monkey_mpg_firmware.Base.{
  ℕ, Bool, true, false, not, ◌&&◌, ◌||◌, Option, none, some, ltb, leb, if◌then◌else◌, ℤ, pos,
  magnitude, is_positive, is_negative, within, sub32,
}
use red_monkey_mpg_firmware.Types.{
  Axis, x, y, z, Direction, negative, positive, JogRate, precision, normal, rapid, StepResolution,
  mm_0_01, mm_0_10, mm_0_50, mm_1_00, GamepadState, OutputFrame, released,
}

pub record MapperConfig : Type 0 where
  pub deadzone : ℤ
  pub stale_timeout_ms : ℕ

-- `MapperConfig{}`
abbrev pub default_config : MapperConfig
default_config = record { deadzone = pos 9000; stale_timeout_ms = 150 }

pub record ControlMapper : Type 0 where
  pub config : MapperConfig
  pub locked_axis : Option Axis
  pub awaiting_center : Bool
  pub resolution_button_was_pressed : Bool
  pub selection_button_was_pressed : Bool
  pub next_resolution : StepResolution

-- `ControlMapper(config)`
abbrev pub new_mapper : MapperConfig → ControlMapper
new_mapper c = record {
  config = c;
  locked_axis = none;
  awaiting_center = false;
  resolution_button_was_pressed = false;
  selection_button_was_pressed = false;
  next_resolution = mm_0_01;
}

abbrev pub is_stale : MapperConfig → GamepadState → ℕ → Bool
is_stale c s now_ms = ltb c.stale_timeout_ms (sub32 now_ms s.sample_ms)

abbrev pub all_centered : MapperConfig → GamepadState → Bool
all_centered c s =
    within (magnitude s.left_x) c.deadzone
    && within (magnitude s.left_y) c.deadzone
    && within (magnitude s.right_y) c.deadzone

abbrev pub axis_value : GamepadState → Axis → ℤ
axis_value s x = s.left_x
axis_value s y = s.left_y
axis_value s z = s.right_y

-- The `switch` on `next_resolution_`.
abbrev pub resolution_after : StepResolution → StepResolution
resolution_after mm_0_01 = mm_0_10
resolution_after mm_0_10 = mm_0_50
resolution_after mm_0_50 = mm_1_00
resolution_after mm_1_00 = mm_0_01

abbrev pub step_frame : StepResolution → OutputFrame
step_frame r = record released {
  release_all = false;
  has_step_resolution = true;
  step_resolution = r;
}

-- Gamepad Y is positive downward, so Y and Z are inverted.
abbrev pub direction_of : Axis → ℤ → Direction
direction_of x v = if is_positive v then positive else negative
direction_of y v = if is_negative v then positive else negative
direction_of z v = if is_negative v then positive else negative

abbrev pub rate_of : GamepadState → JogRate
rate_of s = if s.precision then precision else if s.rapid then rapid else normal

abbrev pub jog_frame : GamepadState → Axis → OutputFrame
jog_frame s a = record released {
  release_all = false;
  has_jog = true;
  jog = record { axis = a; direction = direction_of a (axis_value s a); rate = rate_of s };
}

-- The axis that is locked when none was, with some stick off its center.
abbrev pub choose_axis : MapperConfig → GamepadState → Axis
choose_axis c s =
    if not (within (magnitude s.right_y) c.deadzone)
    then z
    else if leb (magnitude s.left_y) (magnitude s.left_x)
    then x
    else y

-- With the dead-man released: at most one edge selects a step.
select_step : ControlMapper → GamepadState → Bool → Bool → Bool → OutputFrame × ControlMapper
select_step m s centered selection_edge resolution_edge =
    if centered && selection_edge
    then (step_frame s.selected_resolution, m)
    else if centered && resolution_edge
    then (
      step_frame m.next_resolution,
      record m { next_resolution = resolution_after m.next_resolution },
    )
    else (released, m)

-- The locked axis, from `const Axis axis = *locked_axis_` on.
drive : ControlMapper → GamepadState → Axis → OutputFrame × ControlMapper
drive m s a =
    if within (magnitude (axis_value s a)) m.config.deadzone
    then (released, record m { locked_axis = none; awaiting_center = true })
    else (jog_frame s a, m)

lock_and_drive : ControlMapper → GamepadState → Option Axis → OutputFrame × ControlMapper
unfolding drive
lock_and_drive m s (some a) = drive m s a
lock_and_drive m s none =
    if all_centered m.config s
    then (released, m)
    else drive (record m { locked_axis = some (choose_axis m.config s) }) s (choose_axis m.config s)

-- Connected and fresh; `m` has this report's button latches.
respond : ControlMapper → GamepadState → Bool → Bool → OutputFrame × ControlMapper
unfolding select_step lock_and_drive
respond m s selection_edge resolution_edge =
    if s.cancel
    then (released, record m { locked_axis = none; awaiting_center = true })
    else if not s.deadman
    then select_step (record m { locked_axis = none; awaiting_center = false }) s
        (all_centered m.config s) selection_edge resolution_edge
    else if m.awaiting_center
    then (released, if all_centered m.config s then record m { awaiting_center = false } else m)
    else lock_and_drive m s m.locked_axis

-- `ControlMapper::update`
unfoldable pub update : ControlMapper → GamepadState → ℕ → OutputFrame × ControlMapper
unfolding respond
update m s now_ms =
    if not s.connected || is_stale m.config s now_ms
    then (
      released,
      record m {
        locked_axis = none;
        awaiting_center = false;
        resolution_button_was_pressed = false;
        selection_button_was_pressed = false;
      },
    )
    else respond
        (record m {
          resolution_button_was_pressed = s.cycle_resolution;
          selection_button_was_pressed = s.select_resolution;
        })
        s (s.select_resolution && not m.selection_button_was_pressed)
        (s.cycle_resolution && not m.resolution_button_was_pressed)
