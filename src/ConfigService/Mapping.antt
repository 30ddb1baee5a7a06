-- ===== src/ConfigService/Mapping.antt =====
-- The mapping of a request line and its words, firmware/src/config_service.cpp.
pub mod Words
pub mod Profiles
use Prim.Native.String.{String}
use red_monkey_mpg_firmware.Base.{
  ℕ, Bool, true, false, ◌&&◌, Option, none, some, List, [], ◌∷◌, ◌==◌, if◌then◌else◌, ◌>>=◌,
  is_some,
}
use red_monkey_mpg_firmware.Base.Codes.{codes}
use red_monkey_mpg_firmware.Keyboard.{CncControllerProfile, profiles}
use red_monkey_mpg_firmware.Persistent.{same_bytes}
use red_monkey_mpg_firmware.Production.{
  ProductionMapping, ButtonAction, unassigned, cancel, cycle_resolution, step_0_01, step_0_10,
  step_0_50, step_1_00, unnamed, validate_production_mapping, is_valid,
}
use red_monkey_mpg_firmware.ConfigService.Text.{strstr, read_string}

-- `std::strcmp(value, word) == 0`
abbrev pub is_word : List ℕ → String → Bool
is_word value word = same_bytes value (codes word)

unfoldable pub control_mask : List ℕ → Bool → ℕ
control_mask value allow_resolution =
    if is_word value "L1"
    then 0x00040
    else if is_word value "R1"
    then 0x00080
    else if is_word value "L2"
    then 0x00100
    else if is_word value "R2"
    then 0x00200
    else if allow_resolution && is_word value "MINUS"
    then 0x00400
    else if allow_resolution && is_word value "PLUS"
    then 0x00800
    else if allow_resolution && is_word value "UNASSIGNED"
    then 0
    else 0xffffffff

unfoldable pub button_action : List ℕ → ButtonAction
button_action value =
    if is_word value "UNASSIGNED"
    then unassigned
    else if is_word value "CANCEL"
    then cancel
    else if is_word value "CYCLE_RESOLUTION"
    then cycle_resolution
    else if is_word value "STEP_0_01"
    then step_0_01
    else if is_word value "STEP_0_10"
    then step_0_10
    else if is_word value "STEP_0_50"
    then step_0_50
    else if is_word value "STEP_1_00"
    then step_1_00
    else unnamed 0xff

unfoldable pub control_name : ℕ → String
control_name mask =
    if mask == 0x00040
    then "L1"
    else if mask == 0x00080
    then "R1"
    else if mask == 0x00100
    then "L2"
    else if mask == 0x00200
    then "R2"
    else if mask == 0x00400
    then "MINUS"
    else if mask == 0x00800
    then "PLUS"
    else "UNASSIGNED"

unfoldable pub action_name : ButtonAction → String
action_name unassigned = "UNASSIGNED"
action_name cancel = "CANCEL"
action_name cycle_resolution = "CYCLE_RESOLUTION"
action_name step_0_01 = "STEP_0_01"
action_name step_0_10 = "STEP_0_10"
action_name step_0_50 = "STEP_0_50"
action_name step_1_00 = "STEP_1_00"
action_name (unnamed n) = "UNASSIGNED"

profile_of : List ℕ → List CncControllerProfile → Option CncControllerProfile
profile_of text [] = none
profile_of text (p ∷ ps) = if is_word text p.key then some p else profile_of text ps

-- `cnc_controller_profile_by_key` on the bytes of a text.
unfoldable pub profile_by_text : List ℕ → Option CncControllerProfile
unfolding profile_of
profile_by_text text = profile_of text profiles

adopt_profile : ProductionMapping → Option CncControllerProfile → Option ProductionMapping
adopt_profile mapping none = none
adopt_profile mapping (some selected) = some (record mapping { cnc_profile = selected.id })

-- The candidate with the profile that the line names.
named_profile : List ℕ → ProductionMapping → Option ProductionMapping
unfolding read_string profile_by_text adopt_profile
named_profile line mapping = read_string line (codes "\"cncProfile\":\"") 48 >>= λ text.
    adopt_profile mapping (profile_by_text text)

-- A line may leave the profile out.
with_profile : List ℕ → ProductionMapping → Option ProductionMapping
unfolding strstr named_profile
with_profile line mapping =
    if is_some (strstr line (codes "\"cncProfile\":\""))
    then named_profile line mapping
    else some mapping

checked : ProductionMapping → Option ProductionMapping
checked candidate =
    if is_valid (validate_production_mapping candidate) then some candidate else none

-- The texts of the members that a line must have.
pub record Texts : Type 0 where
  pub deadman : List ℕ
  pub continuous : List ℕ
  pub resolution : List ℕ
  pub face_a : List ℕ
  pub face_b : List ℕ
  pub face_x : List ℕ
  pub face_y : List ℕ

unfoldable pub read_texts : List ℕ → Option Texts
unfolding read_string
read_texts line = do
  deadman ← read_string line (codes "\"deadman\":\"") 16
  continuous ← read_string line (codes "\"continuous\":\"") 16
  resolution ← read_string line (codes "\"resolution\":\"") 20
  face_a ← read_string line (codes "\"faceA\":\"") 24
  face_b ← read_string line (codes "\"faceB\":\"") 24
  face_x ← read_string line (codes "\"faceX\":\"") 24
  face_y ← read_string line (codes "\"faceY\":\"") 24
  some (record {
    deadman = deadman;
    continuous = continuous;
    resolution = resolution;
    face_a = face_a;
    face_b = face_b;
    face_x = face_x;
    face_y = face_y;
  })

unfoldable pub assign : Texts → ProductionMapping → ProductionMapping
unfolding control_mask button_action
assign texts candidate = record candidate {
  deadman_mask = control_mask texts.deadman false;
  continuous_mask = control_mask texts.continuous false;
  resolution_mask = control_mask texts.resolution true;
  face_a = button_action texts.face_a;
  face_b = button_action texts.face_b;
  face_x = button_action texts.face_x;
  face_y = button_action texts.face_y;
}

-- `parse_mapping` after the members are read.
parse_texts : List ℕ → ProductionMapping → Texts → Option ProductionMapping
unfolding with_profile checked assign
parse_texts line mapping texts =
    with_profile line mapping >>= λ candidate. checked (assign texts candidate)

-- `parse_mapping`: the mapping that the line gives in place of the old one.
unfoldable pub parse_mapping : List ℕ → ProductionMapping → Option ProductionMapping
unfolding read_texts parse_texts
parse_mapping line mapping = read_texts line >>= parse_texts line mapping
