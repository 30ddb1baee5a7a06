-- ===== src/Receiver.antt =====
-- The iPhone receiver with its USB keyboard, firmware/diagnostics/mobile_ble_bench.cpp as the
-- mobile production target builds it (RED_MONKEY_MPG_MOBILE_USB_KEYBOARD is 1).
pub mod Handlers
use red_monkey_mpg_firmware.Base.{
  ℕ, ◌+◌, ◌/◌, ◌^◌, Bool, true, false, not, ◌&&◌, ◌||◌, Option, none, some, List, [], ◌∷◌, ◌++◌,
  ◌==◌, if◌then◌else◌, is_some, u8, bit_or, get_or,
}
use red_monkey_mpg_firmware.Types.{
  GamepadState, no_input, StepResolution, mm_0_01, mm_0_10, mm_0_50, mm_1_00,
}
use red_monkey_mpg_firmware.Mapper.{ControlMapper, new_mapper, default_config, update}
use red_monkey_mpg_firmware.Keyboard.{
  KeyboardReport, empty_report, masso_g3_touch_5_13, cnc_controller_keyboard_report,
}
use red_monkey_mpg_firmware.Mobile.{
  MobileInputSession, MobileFrameResult, reset, consume, masso, mobile_crc8,
  mobile_protocol_version,
}
use red_monkey_mpg_firmware.Usb.{UsbKeyboard, usb_keyboard_mounted, usb_keyboard_ready}

abbrev pub stale_ms : ℕ
stale_ms = 150

-- The status bits and the error codes.
abbrev pub status_bluetooth_ready : ℕ
status_bluetooth_ready = 1

abbrev pub status_usb_ready : ℕ
status_usb_ready = 2

abbrev pub status_output_locked : ℕ
status_output_locked = 4

abbrev pub status_neutral_required : ℕ
status_neutral_required = 8

abbrev pub error_none : ℕ
error_none = 0

abbrev pub error_malformed : ℕ
error_malformed = 1

abbrev pub error_stale : ℕ
error_stale = 2

abbrev pub error_usb_unavailable : ℕ
error_usb_unavailable = 5

-- The variables of the file; a connection handle of `none` is HCI_CON_HANDLE_INVALID, and
-- `notifications` counts the calls of `att_server_request_can_send_now_event`.
pub record Receiver : Type 0 where
  pub session : MobileInputSession
  pub connection_handle : Option ℕ
  pub last_sequence : ℕ
  pub last_valid_ms : ℕ
  pub active_direction : ℕ
  pub resolution : ℕ
  pub error_code : ℕ
  pub controller_profile : ℕ
  pub notify_enabled : Bool
  pub neutral_required : Bool
  pub mapper : ControlMapper
  pub desired_report : KeyboardReport
  pub sent_report : KeyboardReport
  pub was_mounted : Bool
  pub notifications : ℕ

abbrev pub new_receiver : Receiver
new_receiver = record {
  session = reset;
  connection_handle = none;
  last_sequence = 0;
  last_valid_ms = 0;
  active_direction = 0;
  resolution = 1;
  error_code = error_none;
  controller_profile = masso;
  notify_enabled = false;
  neutral_required = true;
  mapper = new_mapper default_config;
  desired_report = empty_report;
  sent_report = empty_report;
  was_mounted = false;
  notifications = 0;
}

abbrev pub publish_release : Receiver → Receiver
publish_release s = record s { desired_report = empty_report }

-- An update with a disconnected state, for its effect on the mapper.
unfoldable pub reset_mapper : ℕ → ControlMapper → ControlMapper
reset_mapper now_ms m = (update m (record no_input { sample_ms = now_ms }) now_ms).1

unfoldable pub usb_ready : UsbKeyboard → Bool
usb_ready u = usb_keyboard_mounted u && usb_keyboard_ready u

abbrev flag : Bool → ℕ → ℕ
flag b n = if b then n else 0

status_bytes : Receiver → Bool → List ℕ
status_bytes s ready =
    0x53
    ∷ mobile_protocol_version
    ∷ u8 s.last_sequence
    ∷ u8 (s.last_sequence / 2 ^ 8)
    ∷ u8 (
        bit_or
          (bit_or (bit_or status_bluetooth_ready (flag ready status_usb_ready))
            (flag (s.neutral_required || not ready) status_output_locked))
          (flag s.neutral_required status_neutral_required))
    ∷ s.active_direction
    ∷ s.resolution
    ∷ s.error_code
    ∷ s.controller_profile
    ∷ []

unfoldable pub status_frame : Receiver → UsbKeyboard → List ℕ
unfolding status_bytes
status_frame s u = let bytes = status_bytes s (usb_ready u) in bytes ++ (mobile_crc8 bytes 9 ∷ [])

unfoldable pub request_status_notification : Receiver → Receiver
request_status_notification s =
    if s.notify_enabled && is_some s.connection_handle
    then record s { notifications = s.notifications + 1 }
    else s

-- The attribute of a request, by its handle.
pub data Attribute : Type 0 where
  client_configuration command_value status_value other_attribute : Attribute

pub data AttResult : Type 0 where
  success invalid_attribute_value_length request_not_supported value_not_allowed : AttResult

pub record WriteRequest : Type 0 where
  pub attribute : Attribute
  pub in_transaction : Bool
  pub offset : ℕ
  pub buffer : List ℕ

-- `static_cast<std::uint8_t>` of a step.
abbrev pub resolution_code : StepResolution → ℕ
resolution_code mm_0_01 = 0
resolution_code mm_0_10 = 1
resolution_code mm_0_50 = 2
resolution_code mm_1_00 = 3

unfoldable pub reject_frame : Receiver → ℕ → Receiver
reject_frame s now_ms = record s {
  active_direction = 0;
  neutral_required = true;
  error_code = error_malformed;
  mapper = reset_mapper now_ms s.mapper;
  desired_report = empty_report;
}

-- The direction and the neutral flag of an accepted frame.
unfoldable pub note_direction : GamepadState → ℕ → Receiver → Receiver
note_direction input direction s =
    if not input.deadman || direction == 0
    then record s { active_direction = 0; neutral_required = false }
    else if s.neutral_required
    then record s { active_direction = 0 }
    else record s { active_direction = direction }

unfoldable pub note_events : GamepadState → Receiver → Receiver
note_events input s =
    let t =
      if input.select_resolution
      then record s { resolution = resolution_code input.selected_resolution }
      else s in
    if input.cancel then record t { active_direction = 0; neutral_required = true } else t

-- The USB half of an accepted frame.
unfoldable pub drive_output : GamepadState → ℕ → ℕ → Receiver → Receiver
drive_output input direction now_ms s =
    if s.neutral_required && input.deadman && not (direction == 0)
    then record s { mapper = reset_mapper now_ms s.mapper; desired_report = empty_report }
    else let (output, m) = update s.mapper input now_ms in
      record s {
        mapper = m;
        desired_report = cnc_controller_keyboard_report masso_g3_touch_5_13 output;
        active_direction = if output.has_jog then direction else 0;
      }

unfoldable pub accept_frame : MobileFrameResult → ℕ → ℕ → Receiver → Receiver
accept_frame parsed direction now_ms s = drive_output parsed.input direction now_ms (
    note_events parsed.input (
      note_direction parsed.input direction (record s {
        last_sequence = parsed.sequence;
        controller_profile = parsed.controller_profile;
        last_valid_ms = now_ms;
        error_code = error_none;
      })))

-- A write of the command value, from `const std::uint32_t now_ms` on.
unfoldable pub write_command : List ℕ → ℕ → Receiver → AttResult × Receiver
write_command buffer now_ms s =
    let (parsed, session) = consume s.session (some buffer) now_ms in
    let t = record s { session = session } in
    if parsed.accepted
    then (success, request_status_notification (accept_frame parsed (get_or buffer 4 0) now_ms t))
    else (value_not_allowed, request_status_notification (reject_frame t now_ms))
