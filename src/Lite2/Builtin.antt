-- ===== src/Lite2/Builtin.antt =====
-- What the built-in registry selects.
use Prim.Native.String.{String}
use text.Mathlib.Text.{◌==◌ as str_eq}
use red_monkey_mpg_firmware.Base.{
  Bool, true, ◌&&◌, ◌||◌, Option, none, some, ◌==◌, if◌then◌else◌, is_some, ◌≡◌, arith,
}
use red_monkey_mpg_firmware.Profile.{
  ControllerProbe, is_classic, select, ProfileSelectionStatus, matched,
  profile_supports_safe_motion,
}
use red_monkey_mpg_firmware.Lite2.{builtin_controller_profiles, lite2_d_profile, match_lite2_d}

-- A bonded reconnect, which brings no name, or one of the two names.
abbrev pub is_lite2_name : Option String → Bool
is_lite2_name none = true
is_lite2_name (some name) = str_eq name "8BitDo Lite 2" || str_eq name "8BitDo Lite 2 (D mode)"

-- The built-in registry selects the Lite 2 exactly for a Classic HID probe with a descriptor of 83
-- bytes and no other name than its two, and is unsupported for any other probe.
pub select-builtin :
    (probe : ControllerProbe)
    → select builtin_controller_profiles probe ≡ (
        if is_classic probe.transport
          && is_some probe.hid_descriptor
          && probe.hid_descriptor_length == 83
          && is_lite2_name probe.advertised_name
        then record { status = matched; profile = some lite2_d_profile }
        else record { status = ProfileSelectionStatus.unsupported; profile = none })
unfolding select match_lite2_d profile_supports_safe_motion
select-builtin probe = ground arith
