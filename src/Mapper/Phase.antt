-- ===== src/Mapper/Phase.antt =====
-- The abstract machine that `ControlMapper::update` implements: three phases of arming, with
-- the latches and the step cycle left out.
use red_monkey_mpg_firmware.Base.{
  ℕ, Bool, true, false, not, ◌||◌, Option, none, some, ◌≡◌, arith, magnitude, within, if◌then◌else◌,
}
use red_monkey_mpg_firmware.Types.{Axis, GamepadState, OutputFrame}
use red_monkey_mpg_firmware.Mapper.{
  MapperConfig, ControlMapper, is_stale, all_centered, axis_value, choose_axis, update,
}
use red_monkey_mpg_firmware.Mapper.Safety.{IsValid}

pub data Phase : Type 0 where
  free : Phase
  locked : Axis → Phase
  waiting : Phase

abbrev lock_phase : Option Axis → Phase
lock_phase none = free
lock_phase (some a) = locked a

abbrev pub phase : ControlMapper → Phase
phase m = if m.awaiting_center then waiting else lock_phase m.locked_axis

abbrev pub is_deflected : MapperConfig → GamepadState → Axis → Bool
is_deflected c s a = not (within (magnitude (axis_value s a)) c.deadzone)

-- One report of the abstract machine: the axis that moves, and the phase afterwards.
advance_armed : MapperConfig → GamepadState → Phase → Option Axis × Phase
advance_armed c s waiting = (none, if all_centered c s then free else waiting)
advance_armed c s (locked a) = if is_deflected c s a then (some a, locked a) else (none, waiting)
advance_armed c s free =
    if all_centered c s then (none, free) else (some (choose_axis c s), locked (choose_axis c s))

unfoldable pub advance : MapperConfig → GamepadState → ℕ → Phase → Option Axis × Phase
unfolding advance_armed
advance c s now_ms p =
    if not s.connected || is_stale c s now_ms
    then (none, free)
    else if s.cancel
    then (none, waiting)
    else if not s.deadman
    then (none, free)
    else advance_armed c s p

-- The axis that a frame moves.
abbrev pub motion : OutputFrame → Option Axis
motion f = if f.has_jog then some f.jog.axis else none

-- With some stick off its center, the axis that is chosen is off its center.
pub choose_axis_deflected :
    (c : MapperConfig) (s : GamepadState)
    → all_centered c s ≡ false
    → is_deflected c s (choose_axis c s) ≡ true
choose_axis_deflected c s h = ground arith

pub update-advance :
    (m : ControlMapper) (s : GamepadState) (now_ms : ℕ)
    → IsValid m
    → (motion (update m s now_ms).0 ≡ (advance m.config s now_ms (phase m)).0)
      × (phase (update m s now_ms).1 ≡ (advance m.config s now_ms (phase m)).1)
unfolding update advance
update-advance m s now_ms v = ground (arith, choose_axis_deflected m.config s)
