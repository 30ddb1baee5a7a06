-- ===== src/Keyboard.antt =====
-- The registry of CNC profiles and the MASSO translation, firmware/src/masso_keyboard.cpp.
pub mod Masso
use Prim.Native.String.{String}
use text.Mathlib.Text.{◌==◌ as str_eq}
use red_monkey_mpg_firmware.Base.{
  ℕ, zero, suc, Bool, true, Option, none, some, List, [], ◌∷◌, ◌==◌, ltb, if◌then◌else◌, length,
  set, replicate, is_some, get_elem?,
}
use red_monkey_mpg_firmware.Types.{
  Axis, x, y, z, Direction, negative, positive, JogRate, precision, normal, rapid, StepResolution,
  mm_0_01, mm_0_10, mm_0_50, mm_1_00, OutputFrame,
}

-- `std::array<std::uint8_t, 8>`: modifier, reserved, six key usages.
abbrev pub KeyboardReport : Type 0
KeyboardReport = List ℕ

-- `KeyboardReport{}`
abbrev pub empty_report : KeyboardReport
empty_report = replicate 8 0

abbrev pub left_shift : ℕ
left_shift = 0x02

abbrev pub key_d : ℕ
key_d = 0x07

abbrev pub key_u : ℕ
key_u = 0x18

abbrev pub key_right : ℕ
key_right = 0x4f

abbrev pub key_left : ℕ
key_left = 0x50

abbrev pub key_down : ℕ
key_down = 0x51

abbrev pub key_up : ℕ
key_up = 0x52

abbrev pub key_1 : ℕ
key_1 = 0x1e

abbrev pub key_2 : ℕ
key_2 = 0x1f

abbrev pub key_3 : ℕ
key_3 = 0x20

abbrev pub key_4 : ℕ
key_4 = 0x21

-- The `switch` on the step resolution.
step_key : StepResolution → ℕ
step_key mm_0_01 = key_4
step_key mm_0_10 = key_3
step_key mm_0_50 = key_2
step_key mm_1_00 = key_1

-- The `switch` on the axis.
jog_key : Axis → Direction → ℕ
jog_key x positive = key_right
jog_key x negative = key_left
jog_key y positive = key_up
jog_key y negative = key_down
jog_key z positive = key_u
jog_key z negative = key_d

abbrev with_rate : JogRate → KeyboardReport → KeyboardReport
with_rate rapid report = set report 0 left_shift
with_rate normal report = report
with_rate precision report = report

unfoldable pub masso_g3_keyboard_report : OutputFrame → KeyboardReport
unfolding step_key jog_key
masso_g3_keyboard_report frame =
    if frame.release_all
    then empty_report
    else if frame.has_step_resolution
    then set empty_report 2 (step_key frame.step_resolution)
    else if frame.has_jog
    then set (with_rate frame.jog.rate empty_report) 2 (jog_key frame.jog.axis frame.jog.direction)
    else empty_report

-- A value of the enum is its byte, listed or not.
abbrev pub CncControllerProfileId : Type 0
CncControllerProfileId = ℕ

abbrev pub masso_g3_touch_5_13 : CncControllerProfileId
masso_g3_touch_5_13 = 0

pub record CncControllerProfile : Type 0 where
  pub id : CncControllerProfileId
  pub key : String
  pub name : String
  pub description : String
  pub supports_step_resolution : Bool
  pub keyboard_report : OutputFrame → KeyboardReport

-- `kProfiles`
abbrev pub profiles : List CncControllerProfile
profiles =
    record {
      id = masso_g3_touch_5_13;
      key = "masso-g3-touch-5.13";
      name = "MASSO G3 Touch 5.13";
      description = "Arrow/U/D jogging, Shift continuous jog, 1-4 step selection";
      supports_step_resolution = true;
      keyboard_report = masso_g3_keyboard_report;
    }
    ∷ []

pub cnc_controller_profile_count : ℕ
cnc_controller_profile_count = length profiles

unfoldable pub cnc_controller_profile_at : ℕ → Option CncControllerProfile
unfolding cnc_controller_profile_count
cnc_controller_profile_at index =
    if ltb index cnc_controller_profile_count then get_elem? profiles index else none

find_id : CncControllerProfileId → List CncControllerProfile → Option CncControllerProfile
find_id id [] = none
find_id id (p ∷ ps) = if p.id == id then some p else find_id id ps

unfoldable pub cnc_controller_profile : CncControllerProfileId → Option CncControllerProfile
unfolding find_id
cnc_controller_profile id = find_id id profiles

find_key : String → List CncControllerProfile → Option CncControllerProfile
find_key key [] = none
find_key key (p ∷ ps) = if str_eq p.key key then some p else find_key key ps

-- `none` is the null pointer.
unfoldable pub cnc_controller_profile_by_key : Option String → Option CncControllerProfile
unfolding find_key
cnc_controller_profile_by_key none = none
cnc_controller_profile_by_key (some key) = find_key key profiles

unfoldable pub is_supported_cnc_controller_profile : CncControllerProfileId → Bool
unfolding cnc_controller_profile
is_supported_cnc_controller_profile id = is_some (cnc_controller_profile id)

report_of : Option CncControllerProfile → OutputFrame → KeyboardReport
report_of none frame = empty_report
report_of (some p) frame = p.keyboard_report frame

unfoldable pub cnc_controller_keyboard_report :
    CncControllerProfileId → OutputFrame → KeyboardReport
unfolding cnc_controller_profile report_of
cnc_controller_keyboard_report id frame = report_of (cnc_controller_profile id) frame
