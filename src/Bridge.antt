-- ===== src/Bridge.antt =====
-- The gamepad bridge, firmware/diagnostics/live_bridge_bench.cpp, as the product with a setup
-- port and a polled Bluetooth stack builds it: its variables, and the path of a gamepad report to
-- the wanted keyboard report.
pub mod Pairing
pub mod Packets
pub mod Loop
pub mod Lock
pub mod Kept
pub mod Keys
pub mod Silent
pub mod Motion
pub mod Chord
pub mod Target
pub mod Bonds
pub mod Timing
pub mod Setup
use Prim.Native.String.{String}
use red_monkey_mpg_firmware.Base.{
  ℕ, Bool, true, false, not, ◌&&◌, ◌||◌, Option, none, some, List, [], ◌∷◌, ◌==◌, leb,
  if◌then◌else◌, is_some, sub32, bit_and, ℤ, magnitude, replicate,
}
use red_monkey_mpg_firmware.Types.{GamepadState, no_input}
use red_monkey_mpg_firmware.Mapper.{ControlMapper, new_mapper, default_config, update}
use red_monkey_mpg_firmware.Keyboard.{KeyboardReport, empty_report, cnc_controller_keyboard_report}
use red_monkey_mpg_firmware.Production.{
  ProductionMapping, default_mapping, apply_production_mapping,
}
use red_monkey_mpg_firmware.Profile.{ControllerProfile, ControllerReportParser}
use red_monkey_mpg_firmware.Persistent.{PersistentConfig, new_config}

abbrev pub reconnect_ms : ℕ
reconnect_ms = 3000

abbrev pub stale_ms : ℕ
stale_ms = 150

abbrev pub center_limit : ℕ
center_limit = 9000

-- What the bridge uses of the Bluetooth library and of the build: reading an address into an
-- array, comparing and printing addresses, the digest of the chip, and two build constants.
pub record Platform : Type 0 where
  pub sscanf_bd_addr : List ℕ → List ℕ → Bool × List ℕ
  pub bd_addr_cmp : List ℕ → List ℕ → ℕ
  pub bd_addr_to_str : List ℕ → List ℕ
  pub sha256 : List ℕ → Option (List ℕ)
  pub lite2_descriptor_sha256 : List ℕ
  pub configured_address : List ℕ

-- The calls that leave the program, other than timers; addresses are six bytes or a text. The
-- setup service writes an emitted event only while it is active.
pub data Call : Type 0 where
  gap_inquiry_stop : Call
  gap_inquiry_start : ℕ → Call
  hid_host_connect : List ℕ → Call
  hid_host_disconnect hid_host_decline_connection hid_host_accept_connection : ℕ → Call
  gap_drop_link_key_for_bd_addr gap_pin_code_negative : List ℕ → Call
  gap_ssp_confirmation_response gap_ssp_confirmation_negative : List ℕ → Call
  emit_pairing_state : String → Call
  emit_scan_result : String → List ℕ → ℤ → Call

-- What `ConfigService::address_` points to: nothing, the buffer of the stored address, or
-- `active_controller_address`.
pub data AddressPointer : Type 0 where
  null_address stored_address active_address : AddressPointer

-- The variables of the file. Texts are without their NUL, a timer that is set holds its delay, and
-- `calls` has the last call first. `config_active` is the service's `active_`, `controller` and
-- `address` are its `controller_` and `address_`.
pub record Bridge (Flash : Type 0) : Type 0 where
  pub controller_address : List ℕ
  pub hid_cid : ℕ
  pub last_hid_cid : ℕ
  pub reconnect_timer : Option ℕ
  pub pairing_scan_timer : Option ℕ
  pub descriptor_ready : Bool
  pub controller_connected : Bool
  pub controller_address_valid : Bool
  pub rearm_required : Bool
  pub last_valid_report_ms : ℕ
  pub active_profile : Option ControllerProfile
  pub mapper : ControlMapper
  pub production_mapping : ProductionMapping
  pub active_controller_name : String
  pub active_controller_device_class : ℕ
  pub persistent_config : PersistentConfig
  pub flash : Flash
  pub active_controller_address : List ℕ
  pub candidate_controller_address : List ℕ
  pub candidate_controller_name : String
  pub candidate_controller_device_class : ℕ
  pub pairing_scan_active : Bool
  pub pairing_scan_requested : Bool
  pub pairing_candidate_selected : Bool
  pub pairing_chord_confirmed : Bool
  pub pairing_chord_started_ms : ℕ
  pub pairing_scan_requested_ms : ℕ
  pub desired_report : KeyboardReport
  pub sent_report : KeyboardReport
  pub was_mounted : Bool
  pub config_active : Bool
  pub config_was_active : Bool
  pub controller : Option String
  pub address : AddressPointer
  pub calls : List Call

-- The initial values of the variables.
abbrev pub new_bridge : {Flash : Type 0} → Flash → Bridge Flash
new_bridge flash = record {
  controller_address = replicate 6 0;
  hid_cid = 0;
  last_hid_cid = 0;
  reconnect_timer = none;
  pairing_scan_timer = none;
  descriptor_ready = false;
  controller_connected = false;
  controller_address_valid = false;
  rearm_required = true;
  last_valid_report_ms = 0;
  active_profile = none;
  mapper = new_mapper default_config;
  production_mapping = default_mapping;
  active_controller_name = "";
  active_controller_device_class = 0;
  persistent_config = new_config;
  flash = flash;
  active_controller_address = [];
  candidate_controller_address = [];
  candidate_controller_name = "";
  candidate_controller_device_class = 0;
  pairing_scan_active = false;
  pairing_scan_requested = false;
  pairing_candidate_selected = false;
  pairing_chord_confirmed = false;
  pairing_chord_started_ms = 0;
  pairing_scan_requested_ms = 0;
  desired_report = empty_report;
  sent_report = empty_report;
  was_mounted = false;
  config_active = false;
  config_was_active = false;
  controller = none;
  address = null_address;
  calls = [];
}

-- An update with a disconnected state, for its effect on the mapper.
unfoldable pub reset_mapper : ℕ → ControlMapper → ControlMapper
reset_mapper now_ms m = (update m (record no_input { sample_ms = now_ms }) now_ms).1

unfoldable pub controls_are_safe_to_arm : GamepadState → Bool
controls_are_safe_to_arm input =
    not input.deadman
    && leb (magnitude input.left_x) center_limit
    && leb (magnitude input.left_y) center_limit
    && leb (magnitude input.right_y) center_limit

-- L2, R2 and PLUS.
abbrev pub confirmation_chord : ℕ
confirmation_chord = 0x00b00

abbrev pub chord_hold_ms : ℕ
chord_hold_ms = 3000

-- The call through the pointers; a null one is not called.
abbrev pub call_parser : Option ControllerReportParser → Option (List ℕ) → ℕ → Bool × GamepadState
call_parser none report now_ms = (false, no_input)
call_parser (some parse) report now_ms = parse report now_ms no_input

abbrev pub parse_with : Option ControllerProfile → Option (List ℕ) → ℕ → Bool × GamepadState
parse_with none report now_ms = (false, no_input)
parse_with (some profile) report now_ms = call_parser profile.parse_report report now_ms

module _ {Flash : Type 0} where
  abbrev pub publish_release : Bridge Flash → Bridge Flash
  publish_release s = record s { desired_report = empty_report }

  abbrev pub call : Call → Bridge Flash → Bridge Flash
  call c s = record s { calls = c ∷ s.calls }

  -- A report that no profile reads.
  unfoldable pub lose_input : ℕ → Bridge Flash → Bridge Flash
  lose_input now_ms s = record s {
    rearm_required = true;
    last_valid_report_ms = 0;
    mapper = reset_mapper now_ms s.mapper;
    desired_report = empty_report;
  }

  -- The chord is held since a time; at three seconds it confirms, once.
  unfoldable pub hold_chord : ℕ → ℕ → Bridge Flash → Bridge Flash
  hold_chord now_ms started s =
      let t = record s { pairing_chord_started_ms = started } in
      if not s.pairing_chord_confirmed && leb chord_hold_ms (sub32 now_ms started)
      then call (emit_pairing_state "physical_confirmation_complete")
          (record t { pairing_chord_confirmed = true })
      else t

  unfoldable pub watch_chord : GamepadState → ℕ → Bridge Flash → Bridge Flash
  unfolding hold_chord
  watch_chord input now_ms s =
      if bit_and input.buttons confirmation_chord == confirmation_chord
      then hold_chord now_ms
          (if s.pairing_chord_started_ms == 0 then now_ms else s.pairing_chord_started_ms) s
      else record s { pairing_chord_started_ms = 0 }

  -- From `if (rearm_required.load())` on.
  unfoldable pub drive_keys : GamepadState → ℕ → Bridge Flash → Bridge Flash
  drive_keys input now_ms s =
      if s.rearm_required
      then record s {
        mapper = (update (reset_mapper now_ms s.mapper) input now_ms).1;
        desired_report = empty_report;
        rearm_required = if controls_are_safe_to_arm input then false else s.rearm_required;
      }
      else let (output, m) = update s.mapper input now_ms in
        record s {
          mapper = m;
          desired_report = cnc_controller_keyboard_report s.production_mapping.cnc_profile output;
        }

  -- From `apply_production_mapping` on.
  unfoldable pub take_input : GamepadState → ℕ → Bridge Flash → Bridge Flash
  unfolding watch_chord drive_keys
  take_input input now_ms s =
      if s.pairing_candidate_selected
      then publish_release (if s.config_active then watch_chord input now_ms s else s)
      else if s.config_active
      then publish_release s
      else drive_keys input now_ms (record s { last_valid_report_ms = now_ms })

  unfoldable pub consume_controller_report : Option (List ℕ) → ℕ → Bridge Flash → Bridge Flash
  unfolding lose_input take_input
  consume_controller_report report now_ms s =
      let (parsed, raw) = parse_with s.active_profile report now_ms in
      if not s.descriptor_ready || not (is_some s.active_profile) || not parsed
      then lose_input now_ms s
      else take_input (apply_production_mapping raw s.production_mapping) now_ms s
