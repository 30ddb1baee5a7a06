-- ===== src/Profile.antt =====
-- Controller profiles and the choice of one, firmware/src/controller_profile.cpp.
pub mod Choice
use Prim.Native.String.{String}
use red_monkey_mpg_firmware.Base.{
  ℕ, Bool, true, false, not, ◌&&◌, ◌||◌, Option, none, some, List, [], ◌∷◌, ◌==◌, ltb,
  if◌then◌else◌, is_some,
}
use red_monkey_mpg_firmware.Types.{GamepadState}

pub data ControllerTransport : Type 0 where
  bluetooth_classic_hid bluetooth_le_hid usb_hid : ControllerTransport

pub data ProfileMaturity : Type 0 where
  experimental community_tested qualified : ProfileMaturity

pub data ProfileMatch : Type 0 where
  unsupported compatible exact : ProfileMatch

pub record ControllerCapabilities : Type 0 where
  pub x_axis : Bool
  pub y_axis : Bool
  pub z_axis : Bool
  pub held_deadman_candidate : Bool
  pub continuous_modifier_candidate : Bool
  pub precision_modifier_candidate : Bool

-- A null pointer is `none`.
pub record ControllerProbe : Type 0 where
  pub transport : ControllerTransport
  pub advertised_name : Option String
  pub bluetooth_device_class : ℕ
  pub hid_descriptor : Option (List ℕ)
  pub hid_descriptor_length : ℕ

abbrev pub ControllerMatcher : Type 0
ControllerMatcher = ControllerProbe → ProfileMatch

-- The report, the time, and the output parameter before; the result and the output after.
abbrev pub ControllerReportParser : Type 0
ControllerReportParser = Option (List ℕ) → ℕ → GamepadState → Bool × GamepadState

pub record ControllerProfile : Type 0 where
  pub id : Option String
  pub display_name : Option String
  pub transport : ControllerTransport
  pub maturity : ProfileMaturity
  pub capabilities : ControllerCapabilities
  pub probe_match : Option ControllerMatcher
  pub parse_report : Option ControllerReportParser

pub data ProfileSelectionStatus : Type 0 where
  matched unsupported ambiguous : ProfileSelectionStatus

pub record ProfileSelection : Type 0 where
  pub status : ProfileSelectionStatus
  pub profile : Option ControllerProfile

abbrev pub is_classic : ControllerTransport → Bool
is_classic bluetooth_classic_hid = true
is_classic _ = false

abbrev pub same_transport : ControllerTransport → ControllerTransport → Bool
same_transport bluetooth_classic_hid bluetooth_classic_hid = true
same_transport bluetooth_le_hid bluetooth_le_hid = true
same_transport usb_hid usb_hid = true
same_transport _ _ = false

-- The underlying value of the enum.
abbrev pub strength : ProfileMatch → ℕ
strength ProfileMatch.unsupported = 0
strength compatible = 1
strength exact = 2

unfoldable pub profile_supports_safe_motion : ControllerProfile → Bool
profile_supports_safe_motion p =
    is_some p.id
    && is_some p.display_name
    && is_some p.probe_match
    && is_some p.parse_report
    && p.capabilities.x_axis
    && p.capabilities.y_axis
    && p.capabilities.z_axis
    && p.capabilities.held_deadman_candidate

-- The variables of the loop of `select`.
pub record Search : Type 0 where
  pub best : Option ControllerProfile
  pub best_match : ProfileMatch
  pub ambiguous : Bool

-- The call through the function pointer; a profile without one is skipped before.
abbrev call_match : Option ControllerMatcher → ControllerProbe → ProfileMatch
call_match none probe = ProfileMatch.unsupported
call_match (some f) probe = f probe

is_unsupported : ProfileMatch → Bool
is_unsupported ProfileMatch.unsupported = true
is_unsupported _ = false

-- One round of the loop; `none` is a null entry of the table.
consider : ControllerProbe → Search → Option ControllerProfile → Search
unfolding is_unsupported
consider probe s none = s
consider probe s (some candidate) =
    let found = call_match candidate.probe_match probe in
    if not (profile_supports_safe_motion candidate)
      || not (same_transport candidate.transport probe.transport)
    then s
    else if is_unsupported found
    then s
    else if not (is_some s.best) || ltb (strength s.best_match) (strength found)
    then record { best = some candidate; best_match = found; ambiguous = false }
    else if strength found == strength s.best_match
    then record s { ambiguous = true }
    else s

run_search : ControllerProbe → Search → List (Option ControllerProfile) → Search
run_search probe s [] = s
run_search probe s (c ∷ cs) = run_search probe (consider probe s c) cs

conclude : Search → ProfileSelection
conclude s =
    if not (is_some s.best)
    then record { status = ProfileSelectionStatus.unsupported; profile = none }
    else if s.ambiguous
    then record { status = ProfileSelectionStatus.ambiguous; profile = none }
    else record { status = matched; profile = s.best }

-- `ControllerProfileRegistry::select` over the registry's table.
unfoldable pub select : List (Option ControllerProfile) → ControllerProbe → ProfileSelection
unfolding run_search consider conclude
select profiles probe = conclude (
    run_search probe
      (record { best = none; best_match = ProfileMatch.unsupported; ambiguous = false }) profiles)
