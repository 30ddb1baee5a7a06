-- ===== src/Tests/Bridge.antt =====
-- The bridge from power-on: a controller, neutral sticks, a motion, the timeout, and a pairing.
use red_monkey_mpg_firmware.Base.{
  ℕ, true, false, none, some, List, [], ◌∷◌, ◌≡◌, refl, All, if◌then◌else◌,
}
use red_monkey_mpg_firmware.Types.{Axis, x, positive}
use red_monkey_mpg_firmware.Mapper.{update}
use red_monkey_mpg_firmware.Keyboard.{
  empty_report, cnc_controller_keyboard_report, masso_g3_keyboard_report,
}
use red_monkey_mpg_firmware.Keyboard.Masso.{step_jog, read_command}
use red_monkey_mpg_firmware.Production.{
  apply_production_mapping, press_faces, validate_production_mapping, is_motion_control,
  is_safe_face_action, is_step_action,
}
use red_monkey_mpg_firmware.Profile.{select, profile_supports_safe_motion}
use red_monkey_mpg_firmware.Lite2.{match_lite2_d, parse, normalize, lite2_d_profile}
use red_monkey_mpg_firmware.Address.{
  parse_address, format_address, hex_value, is_space, scan_hex2, address_bytes_valid,
}
use red_monkey_mpg_firmware.Usb.{
  UsbKeyboard, report_has_key, usb_keyboard_send, usb_keyboard_mounted, same_report,
}
use red_monkey_mpg_firmware.Usb.Outputs.{
  same_bool, taken_report, mount_changed, took, Separated, HasNoKey,
}
use red_monkey_mpg_firmware.Persistent.{same_bytes, load, read_record}
use red_monkey_mpg_firmware.Bridge.{
  Platform, Bridge, new_bridge, consume_controller_report, lose_input, take_input, reset_mapper,
  controls_are_safe_to_arm,
}
use red_monkey_mpg_firmware.Bridge.Pairing.{success, schedule_connect, fail_closed}
use red_monkey_mpg_firmware.Bridge.Packets.{
  connection_opened, descriptor_available, report, packet_handler, is_supported, probe_of,
}
use red_monkey_mpg_firmware.Bridge.Loop.{
  Event, packet, pass, Pass, start_scan, final, boot, step, before_usb, main_pass,
  service_stale_input, service_usb_keyboard,
}
use red_monkey_mpg_firmware.Bridge.Keys.{run, outputs, reports-Separated}
use red_monkey_mpg_firmware.Bridge.Lock.{IsLocked, run-IsLocked}
use red_monkey_mpg_firmware.Bridge.Silent.{arms, NeverArms, unarmed_silent, session_silent}
use red_monkey_mpg_firmware.Bridge.Motion.{Commands, is_jog, consume-Commands}
use red_monkey_mpg_firmware.Bridge.Timing.{TakesAll, consume_at_zero, two_services}
use red_monkey_mpg_firmware.Tests.Storage.{Flash, tlv, blank, fill}

abbrev pub platform : Platform
platform = record {
  sscanf_bd_addr = λ text out.
      let (read, bytes) = parse_address (some text) out in
      if read then (true, bytes) else (false, out);
  bd_addr_cmp = λ a b. if same_bytes a b then 0 else 1;
  bd_addr_to_str = λ a. format_address (fill 6 a);
  sha256 = λ bytes. none;
  lite2_descriptor_sha256 = [];
  configured_address = format_address (1 ∷ 2 ∷ 3 ∷ 4 ∷ 5 ∷ 6 ∷ []);
}

abbrev pub host : UsbKeyboard
host = record {
  usb_suspended = false;
  host = record {
    tud_mounted = true;
    tud_hid_ready = true;
    tud_hid_keyboard_report = λ m keys. true;
  };
}

-- Centered sticks; and L2 held with the left stick to the right.
abbrev neutral : List ℕ
neutral = 0xa1 ∷ 1 ∷ 0 ∷ 0 ∷ 0x80 ∷ 127 ∷ 127 ∷ 127 ∷ 128 ∷ 0 ∷ 0 ∷ []

abbrev to_right : List ℕ
to_right = 0xa1 ∷ 1 ∷ 0 ∷ 1 ∷ 0x80 ∷ 255 ∷ 127 ∷ 127 ∷ 128 ∷ 0 ∷ 255 ∷ []

abbrev pass_at : ℕ → Event
pass_at now_ms =
    pass (record { config_connected = false; requests = []; now_ms = now_ms; usb = host })

abbrev connected : List Event
connected =
    packet (connection_opened success 5) 5
    ∷ packet (descriptor_available (record { status = success; bytes = some []; length = 83 })) 6
    ∷ []

abbrev session : List Event
session =
    packet (connection_opened success 5) 5
    ∷ packet (descriptor_available (record { status = success; bytes = some []; length = 83 })) 6
    ∷ pass_at 7
    ∷ packet (report (some to_right)) 10
    ∷ pass_at 11
    ∷ packet (report (some neutral)) 20
    ∷ packet (report (some to_right)) 30
    ∷ pass_at 31
    ∷ pass_at 300
    ∷ []

session_reports :
    run platform (some tlv) (boot platform (some tlv) blank) session
    ≡ mount_changed ∷ took (0 ∷ 0 ∷ 0x4f ∷ 0 ∷ 0 ∷ 0 ∷ 0 ∷ 0 ∷ []) ∷ took empty_report ∷ []
unfolding run outputs step boot before_usb same_bool usb_keyboard_mounted usb_keyboard_send
    service_stale_input service_usb_keyboard report_has_key same_report taken_report packet_handler
    is_supported probe_of select profile_supports_safe_motion match_lite2_d
    consume_controller_report lose_input take_input parse apply_production_mapping press_faces
    validate_production_mapping is_motion_control is_safe_face_action is_step_action reset_mapper
    controls_are_safe_to_arm update cnc_controller_keyboard_report masso_g3_keyboard_report load
    read_record schedule_connect fail_closed parse_address hex_value is_space scan_hex2
    address_bytes_valid format_address fill main_pass normalize
session_reports = refl

reports-Separated_example :
    Separated empty_report (run platform (some tlv) (boot platform (some tlv) blank) session)
reports-Separated_example = reports-Separated platform (some tlv) blank session

run-IsLocked_example : IsLocked (final platform (some tlv) session (boot platform (some tlv) blank))
run-IsLocked_example = run-IsLocked platform (some tlv) blank session

-- A bridge with its controller, before any report.
abbrev ready : Bridge Flash
ready = record (new_bridge blank) {
  descriptor_ready = true;
  controller_connected = true;
  active_profile = some lite2_d_profile;
}

ready-IsLocked : IsLocked ready
ready-IsLocked = record {
  no_key = λ h. refl;
  chord_selected = λ h. cc;
  chord_no_key = λ h. refl;
  ready_profile = λ h. refl;
  mapper_valid = record { unlocked = λ h. refl };
}

abbrev held : List Event
held = packet (report (some to_right)) 10 ∷ pass_at 11 ∷ packet (report (some to_right)) 20 ∷ []

held-NeverArms : NeverArms platform (some tlv) ready held
unfolding arms step before_usb same_bool usb_keyboard_mounted usb_keyboard_send service_stale_input
    service_usb_keyboard report_has_key same_report packet_handler consume_controller_report
    lose_input take_input parse apply_production_mapping press_faces validate_production_mapping
    is_motion_control is_safe_face_action is_step_action reset_mapper controls_are_safe_to_arm
    update main_pass normalize
held-NeverArms = (refl, (refl, (refl, tt)))

unarmed_silent_example : All HasNoKey (run platform (some tlv) ready held)
unarmed_silent_example =
    unarmed_silent platform (some tlv) held ready ready-IsLocked refl held-NeverArms

abbrev open_pass : Pass
open_pass = record {
  config_connected = true;
  requests = start_scan 1000 ∷ [];
  now_ms = 1000;
  usb = host;
}

abbrev in_session : List Event
in_session =
    packet (report (some neutral)) 1010
    ∷ packet (report (some to_right)) 1020
    ∷ pass (record open_pass { requests = [] })
    ∷ []

session_silent_example : All HasNoKey (run platform (some tlv) ready (pass open_pass ∷ in_session))
session_silent_example =
    session_silent platform (some tlv) open_pass in_session ready ready-IsLocked refl
      (tt, (tt, (refl, tt)))

-- The same bridge after neutral controls.
abbrev armed : Bridge Flash
armed = record ready { rearm_required = false }

armed-IsLocked : IsLocked armed
armed-IsLocked = record {
  no_key = λ h. refl;
  chord_selected = λ h. cc;
  chord_no_key = λ h. refl;
  ready_profile = λ h. refl;
  mapper_valid = record { unlocked = λ h. refl };
}

armed_reads :
    read_command (consume_controller_report (some to_right) 30 armed).desired_report
    ≡ some (step_jog x positive)
unfolding read_command consume_controller_report take_input parse apply_production_mapping
    press_faces validate_production_mapping is_motion_control is_safe_face_action is_step_action
    update cnc_controller_keyboard_report masso_g3_keyboard_report normalize
armed_reads = refl

step_jog-is_jog : is_jog (step_jog x positive) ≡ true
unfolding is_jog
step_jog-is_jog = refl

consume-Commands_example : (a : Axis) × Commands to_right 30 armed a (step_jog x positive)
consume-Commands_example =
    consume-Commands to_right 30 armed (step_jog x positive) armed-IsLocked armed_reads
      step_jog-is_jog

consume_at_zero_example :
    service_stale_input 100000 (consume_controller_report (some to_right) 0 armed)
    ≡ consume_controller_report (some to_right) 0 armed
consume_at_zero_example = consume_at_zero (some to_right) 100000 armed refl refl

host-TakesAll : TakesAll host
unfolding usb_keyboard_mounted usb_keyboard_send
host-TakesAll = record { mounted = refl; ready = refl; takes = λ r. refl }

abbrev jogging : Bridge Flash
jogging = record armed {
  was_mounted = true;
  desired_report = 0 ∷ 0 ∷ 0x4f ∷ 0 ∷ 0 ∷ 0 ∷ 0 ∷ 0 ∷ [];
  sent_report = 0 ∷ 0 ∷ 0x52 ∷ 0 ∷ 0 ∷ 0 ∷ 0 ∷ 0 ∷ [];
}

two_services_example :
    let t = (service_usb_keyboard host (service_usb_keyboard host jogging).0).0 in
    (t.sent_report ≡ jogging.desired_report)
    × (t.desired_report ≡ jogging.desired_report)
    × (t.rearm_required ≡ jogging.rearm_required)
two_services_example = two_services host jogging host-TakesAll refl
