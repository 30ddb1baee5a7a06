-- ===== src/Keyboard/Masso.antt =====
-- What a MASSO G3 reads from a keyboard report, and that it reads what the frame means.
use red_monkey_mpg_firmware.Base.{
  ℕ, zero, true, false, not, Option, none, some, [], ◌∷◌, ◌==◌, ◌≡◌, ◌⊎◌, arith, if◌then◌else◌,
}
use red_monkey_mpg_firmware.Types.{
  Axis, x, y, z, Direction, negative, positive, JogRate, precision, normal, rapid, StepResolution,
  mm_0_01, mm_0_10, mm_0_50, mm_1_00, OutputFrame,
}
use red_monkey_mpg_firmware.Keyboard.{
  KeyboardReport, empty_report, masso_g3_keyboard_report, CncControllerProfileId,
  cnc_controller_keyboard_report, is_supported_cnc_controller_profile,
}

pub data Command : Type 0 where
  idle : Command
  select : StepResolution → Command
  step_jog continuous_jog : Axis → Direction → Command

-- The key table of docs/cnc-profiles: what a pressed usage asks for, without Shift.
usage_command : ℕ → Option Command
usage_command key =
    if key == 0
    then some idle
    else if key == 0x1e
    then some (select mm_1_00)
    else if key == 0x1f
    then some (select mm_0_50)
    else if key == 0x20
    then some (select mm_0_10)
    else if key == 0x21
    then some (select mm_0_01)
    else if key == 0x4f
    then some (step_jog x positive)
    else if key == 0x50
    then some (step_jog x negative)
    else if key == 0x52
    then some (step_jog y positive)
    else if key == 0x51
    then some (step_jog y negative)
    else if key == 0x18
    then some (step_jog z positive)
    else if key == 0x07
    then some (step_jog z negative)
    else none

-- Shift turns a step jog into a continuous one, and has no use with another key.
shifted : Option Command → Option Command
shifted (some (step_jog a d)) = some (continuous_jog a d)
shifted _ = none

-- A report with at most one key and at most Shift; `none` for any other report.
unfoldable pub read_command : KeyboardReport → Option Command
unfolding usage_command shifted
read_command (m ∷ zero ∷ k ∷ zero ∷ zero ∷ zero ∷ zero ∷ zero ∷ []) =
    if m == 0 then usage_command k else if m == 0x02 then shifted (usage_command k) else none
read_command _ = none

jog_command : JogRate → Axis → Direction → Command
jog_command rapid a d = continuous_jog a d
jog_command normal a d = step_jog a d
jog_command precision a d = step_jog a d

-- What a frame asks for.
unfoldable pub frame_command : OutputFrame → Command
unfolding jog_command
frame_command f =
    if f.release_all
    then idle
    else if f.has_step_resolution
    then select f.step_resolution
    else if not f.has_jog
    then idle
    else jog_command f.jog.rate f.jog.axis f.jog.direction

-- The machine reads from the keyboard report of a frame exactly the command that the frame means.
pub read_command-masso_g3_keyboard_report :
    (f : OutputFrame) → read_command (masso_g3_keyboard_report f) ≡ some (frame_command f)
unfolding read_command masso_g3_keyboard_report frame_command
read_command-masso_g3_keyboard_report f = ground arith

-- A listed profile sends the command of the frame, and one that is not listed sends no key.
pub cnc_controller_keyboard_report-supported :
    (id : CncControllerProfileId) (f : OutputFrame)
    → ((is_supported_cnc_controller_profile id ≡ true)
        × (read_command (cnc_controller_keyboard_report id f) ≡ some (frame_command f)))
      ⊎ ((is_supported_cnc_controller_profile id ≡ false)
          × (cnc_controller_keyboard_report id f ≡ empty_report))
unfolding cnc_controller_keyboard_report is_supported_cnc_controller_profile
cnc_controller_keyboard_report-supported id f =
    ground (arith, read_command-masso_g3_keyboard_report f)
