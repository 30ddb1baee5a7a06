-- ===== src/Tests/Receiver.antt =====
-- The receiver from power-on: a neutral frame, a held direction, the host, and the timeout.
use red_monkey_mpg_firmware.Base.{
  ℕ, true, false, some, List, [], ◌∷◌, ◌≡◌, refl, arith, get_or, take, All, ◌+◌, ◌*◌,
}
use red_monkey_mpg_firmware.Mapper.{update}
use red_monkey_mpg_firmware.Keyboard.{
  empty_report, cnc_controller_keyboard_report, masso_g3_keyboard_report,
}
use red_monkey_mpg_firmware.Mobile.{consume, check_frame, mobile_crc8, with_direction, with_event}
use red_monkey_mpg_firmware.Usb.{
  UsbKeyboard, report_has_key, usb_keyboard_send, usb_keyboard_mounted, same_report,
}
use red_monkey_mpg_firmware.Usb.Outputs.{
  same_bool, taken_report, mount_changed, took, Separated, HasNoKey,
}
use red_monkey_mpg_firmware.Receiver.{
  Receiver, accept_frame, drive_output, note_events, note_direction, new_receiver, WriteRequest,
  command_value, write_command, request_status_notification, reset_mapper,
}
use red_monkey_mpg_firmware.Receiver.Handlers.{
  Att, write_callback, packet_handler, service_timeout, service_usb_keyboard,
  le_connection_complete,
}
use red_monkey_mpg_firmware.Receiver.Handlers.Locked.{new_receiver-IsLocked}
use red_monkey_mpg_firmware.Receiver.Handlers.Trace.{
  Event, write, packet, timeout, usb, run, step, outputs, run-Separated,
}
use red_monkey_mpg_firmware.Receiver.Handlers.Trace.Silent.{NotNeutral, run_silent}
use red_monkey_mpg_firmware.Receiver.Handlers.Stale.{write_command_at_zero}

-- Little-endian words, the value 1 for notifications, and blobs by their slice.
abbrev att : Att
att = record {
  read_16 = λ bs. get_or bs 0 0 + get_or bs 1 0 * 256;
  notification = 1;
  read_blob = λ bs offset size. take size bs;
}

abbrev host : UsbKeyboard
host = record {
  usb_suspended = false;
  host = record {
    tud_mounted = true;
    tud_hid_ready = true;
    tud_hid_keyboard_report = λ m keys. true;
  };
}

abbrev neutral : List ℕ
neutral = 0x52 ∷ 2 ∷ 1 ∷ 0 ∷ 0 ∷ 0 ∷ 0 ∷ 0 ∷ 1 ∷ 147 ∷ []

abbrev to_right : List ℕ
to_right = 0x52 ∷ 2 ∷ 2 ∷ 0 ∷ 2 ∷ 1 ∷ 0 ∷ 0 ∷ 1 ∷ 39 ∷ []

abbrev command : List ℕ → WriteRequest
command bytes = record {
  attribute = command_value;
  in_transaction = false;
  offset = 0;
  buffer = bytes;
}

abbrev session : List Event
session =
    packet (le_connection_complete 64) host 5
    ∷ usb host 10
    ∷ write (command neutral) 20
    ∷ write (command to_right) 40
    ∷ usb host 50
    ∷ timeout 300
    ∷ usb host 310
    ∷ []

-- The right arrow, and its release by the timeout.
session_reports :
    run att new_receiver session
    ≡ mount_changed ∷ took (0 ∷ 0 ∷ 0x4f ∷ 0 ∷ 0 ∷ 0 ∷ 0 ∷ 0 ∷ []) ∷ took empty_report ∷ []
unfolding accept_frame drive_output note_events note_direction same_bool taken_report run step
    outputs write_callback packet_handler service_timeout service_usb_keyboard write_command
    request_status_notification reset_mapper consume check_frame mobile_crc8 with_direction
    with_event update cnc_controller_keyboard_report masso_g3_keyboard_report report_has_key
    same_report usb_keyboard_send usb_keyboard_mounted
session_reports = refl

run-Separated_example : Separated empty_report (run att new_receiver session)
run-Separated_example = run-Separated att session

abbrev held : List Event
held = usb host 10 ∷ write (command to_right) 40 ∷ usb host 50 ∷ []

held-NotNeutral : All NotNeutral held
held-NotNeutral = (tt, ((λ h. (ground arith, ground arith)), (tt, tt)))

run_silent_example : All HasNoKey (run att new_receiver held)
run_silent_example = run_silent att held new_receiver new_receiver-IsLocked refl held-NotNeutral

abbrev jogging : Receiver
jogging = record new_receiver {
  desired_report = 0 ∷ 0 ∷ 0x4f ∷ 0 ∷ 0 ∷ 0 ∷ 0 ∷ 0 ∷ [];
  last_valid_ms = 100;
  neutral_required = false;
}

to_right_accepted : (consume new_receiver.session (some to_right) 0).0.accepted ≡ true
unfolding consume check_frame mobile_crc8 with_direction with_event
to_right_accepted = refl

write_command_at_zero_example :
    service_timeout 100000 (write_command to_right 0 new_receiver).1
    ≡ (write_command to_right 0 new_receiver).1
write_command_at_zero_example = write_command_at_zero new_receiver to_right 100000 to_right_accepted
