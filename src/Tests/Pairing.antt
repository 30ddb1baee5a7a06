-- ===== src/Tests/Pairing.antt =====
-- A pairing from the scan to the restart after it.
use red_monkey_mpg_firmware.Base.{ℕ, true, false, none, some, List, [], ◌∷◌, ◌++◌, ◌≡◌, refl, arith}
use red_monkey_mpg_firmware.Production.{
  apply_production_mapping, press_faces, validate_production_mapping, is_motion_control,
  is_safe_face_action, is_step_action,
}
use red_monkey_mpg_firmware.Profile.{select, profile_supports_safe_motion}
use red_monkey_mpg_firmware.Lite2.{match_lite2_d, parse, normalize}
use red_monkey_mpg_firmware.Address.{
  parse_address, format_address, hex_value, is_space, scan_hex2, address_bytes_valid,
}
use red_monkey_mpg_firmware.Storage.{
  record_of, record_bytes, encode, decode, candidate, crc32, action_of, unchecked, with_crc,
  body_bytes,
}
use red_monkey_mpg_firmware.Persistent.{
  same_bytes, load, store, restore, read_record, store_controller_address,
}
use red_monkey_mpg_firmware.Usb.{
  usb_keyboard_mounted, usb_keyboard_ready, same_report, report_has_key,
}
use red_monkey_mpg_firmware.Usb.Outputs.{same_bool}
use red_monkey_mpg_firmware.Bridge.{Bridge, new_bridge, consume_controller_report, take_input}
use red_monkey_mpg_firmware.Bridge.Pairing.{
  success, schedule_connect, fail_closed, connect_controller, begin_pairing_scan,
  start_pairing_scan, request_scan, select_pairing_candidate, confirm_pairing_candidate,
}
use red_monkey_mpg_firmware.Bridge.Packets.{
  inquiry_result, connection_opened, descriptor_available, report, user_confirmation_request,
  packet_handler, is_supported, probe_of,
}
use red_monkey_mpg_firmware.Bridge.Loop.{
  Event, packet, reconnect, scan, pass, Request, start_scan, select_candidate, confirm_pairing,
  serve_all, service_config, guard_session, final, boot, step, before_usb, main_pass,
  service_stale_input, service_usb_keyboard,
}
use red_monkey_mpg_firmware.Bridge.Chord.Held.{WasHeld, history, confirm-WasHeld}
use red_monkey_mpg_firmware.Bridge.Bonds.{bonds, granted, step-bonds}
use red_monkey_mpg_firmware.Bridge.Target.Printed.{ReadsAddress}
use red_monkey_mpg_firmware.Bridge.Target.Restart.{restart-final}
use red_monkey_mpg_firmware.Tests.Storage.{
  Flash, tlv, blank, fill, bytes, tlv-IsTlv, tlv-FillsRecord, length-fill, fill-AreBytes,
}
use red_monkey_mpg_firmware.Tests.Bridge.{platform, host}

abbrev chord : List ℕ
chord = 0xa1 ∷ 1 ∷ 0 ∷ 0x0b ∷ 0x80 ∷ 127 ∷ 127 ∷ 127 ∷ 128 ∷ 255 ∷ 255 ∷ []

abbrev open_pass : Request → Event
open_pass request =
    pass (record { config_connected = true; requests = request ∷ []; now_ms = 1000; usb = host })

abbrev pairing : List Event
pairing =
    open_pass (start_scan 1000)
    ∷ scan success 1800
    ∷ packet
        (inquiry_result
          (record { class_of_device = 0x002508; name = none; rssi = none; bd_addr = bytes }))
        2000
    ∷ open_pass (select_candidate (some (format_address bytes)))
    ∷ reconnect (success, 7)
    ∷ packet (connection_opened success 7) 3000
    ∷ packet (descriptor_available (record { status = success; bytes = some []; length = 83 })) 3100
    ∷ packet (report (some chord)) 10000
    ∷ packet (report (some chord)) 13000
    ∷ []

abbrev saved : List Event
saved = pairing ++ (open_pass (confirm_pairing true) ∷ [])

-- The candidate may be saved, and after the pass that saves it none is selected.
paired :
    ((confirm_pairing_candidate platform
        (some tlv)
        true
        (final platform (some tlv) pairing (boot platform (some tlv) blank))).0
      ≡ true)
    × ((final platform (some tlv) saved (boot platform (some tlv) blank)).pairing_candidate_selected
        ≡ false)
unfolding final step boot before_usb main_pass serve_all service_config guard_session
    service_stale_input service_usb_keyboard start_pairing_scan request_scan begin_pairing_scan
    packet_handler select_pairing_candidate confirm_pairing_candidate connect_controller
    is_supported probe_of select profile_supports_safe_motion match_lite2_d
    consume_controller_report take_input parse normalize apply_production_mapping press_faces
    validate_production_mapping is_motion_control is_safe_face_action is_step_action
    schedule_connect fail_closed parse_address hex_value is_space scan_hex2 address_bytes_valid
    format_address fill load store read_record store_controller_address same_bytes record_of
    record_bytes encode decode candidate crc32 action_of unchecked with_crc body_bytes restore
    usb_keyboard_mounted usb_keyboard_ready same_report same_bool report_has_key
paired = (refl, refl)

confirm-WasHeld_example :
    let s = final platform (some tlv) pairing (boot platform (some tlv) blank) in
    WasHeld (history platform (some tlv) pairing (boot platform (some tlv) blank) [])
    × (s.pairing_candidate_selected ≡ true)
    × (true ≡ true)
confirm-WasHeld_example = confirm-WasHeld platform (some tlv) blank pairing true paired.0

parse_address_fixed :
    (text out other : List ℕ)
    → (parse_address (some text) out).0 ≡ true
    → parse_address (some text) other ≡ parse_address (some text) out
unfolding parse_address
parse_address_fixed text out other h = ground arith

platform-ReadsAddress : ReadsAddress platform
platform-ReadsAddress = record {
  unread = λ text out h. ground arith;
  read = λ text out other h. ground (arith, parse_address_fixed text out other);
  printed = λ a. (fill 6 a, length-fill 6 a, fill-AreBytes 6 a, refl);
}

restart-final_example :
    let s = final platform (some tlv) saved (boot platform (some tlv) blank) in
    let b = boot platform (some tlv) s.flash in
    (b.production_mapping ≡ s.production_mapping)
    × (b.persistent_config ≡ s.persistent_config)
    × (b.active_controller_address ≡ s.active_controller_address)
    × (b.controller_address_valid ≡ s.controller_address_valid)
    × (s.controller_address_valid ≡ true → b.controller_address ≡ s.controller_address)
restart-final_example =
    restart-final platform platform-ReadsAddress tlv tlv-IsTlv tlv-FillsRecord blank saved paired.1

abbrev choosing : Bridge Flash
choosing = record (new_bridge blank) {
  config_active = true;
  pairing_candidate_selected = true;
  controller_address = bytes;
}

step-bonds_example :
    bonds (step platform (some tlv) (packet (user_confirmation_request bytes) 5) choosing).0.calls
    ≡ granted platform (packet (user_confirmation_request bytes) 5) choosing ++ bonds choosing.calls
step-bonds_example =
    step-bonds platform (some tlv) (packet (user_confirmation_request bytes) 5) choosing
