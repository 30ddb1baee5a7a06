-- ===== src/Receiver/Handlers.antt =====
-- The callbacks and the services of the receiver's main loop, and its events in sequence.
pub mod Locked
pub mod Trace
pub mod Stale
use red_monkey_mpg_firmware.Base.{
  ℕ, Bool, true, false, not, ◌&&◌, ◌||◌, Option, none, some, List, [], ◌==◌, ltb, if◌then◌else◌,
  is_some, sub32, length,
}
use red_monkey_mpg_firmware.Keyboard.{KeyboardReport, empty_report}
use red_monkey_mpg_firmware.Mobile.{reset}
use red_monkey_mpg_firmware.Usb.{
  UsbKeyboard, usb_keyboard_mounted, usb_keyboard_ready, usb_keyboard_send, report_has_key,
  same_report,
}
use red_monkey_mpg_firmware.Usb.Outputs.{Attempt, same_bool}
use red_monkey_mpg_firmware.Receiver.{
  Receiver, reset_mapper, request_status_notification, Attribute, client_configuration,
  command_value, status_value, other_attribute, AttResult, success, invalid_attribute_value_length,
  request_not_supported, WriteRequest, write_command, stale_ms, error_none, error_stale,
  error_usb_unavailable, status_frame,
}

-- What the receiver uses of the Bluetooth library: `little_endian_read_16` at offset 0, the
-- value that asks for notifications, and `att_read_callback_handle_blob`.
pub record Att : Type 0 where
  pub read_16 : List ℕ → ℕ
  pub notification : ℕ
  pub read_blob : List ℕ → ℕ → ℕ → List ℕ

module _ (att : Att) where
  write_to : Attribute → WriteRequest → ℕ → Receiver → AttResult × Receiver
  unfolding write_command
  write_to client_configuration r now_ms s =
      if r.in_transaction || not (r.offset == 0) || not (length r.buffer == 2)
      then (invalid_attribute_value_length, s)
      else (
        success,
        request_status_notification
            (record s { notify_enabled = att.read_16 r.buffer == att.notification }),
      )
  write_to command_value r now_ms s =
      if r.in_transaction || not (r.offset == 0)
      then (request_not_supported, s)
      else write_command r.buffer now_ms s
  write_to status_value r now_ms s = (success, s)
  write_to other_attribute r now_ms s = (success, s)

  unfoldable pub write_callback : WriteRequest → ℕ → Receiver → AttResult × Receiver
  unfolding write_to
  write_callback r now_ms s = write_to r.attribute r now_ms s

  read_of : Attribute → ℕ → ℕ → List ℕ → List ℕ
  read_of status_value offset size status = att.read_blob status offset size
  read_of _ offset size status = []

  -- The bytes that are read; none of another attribute.
  unfoldable pub read_callback : Attribute → ℕ → ℕ → Receiver → UsbKeyboard → List ℕ
  unfolding read_of
  read_callback a offset size s u = read_of a offset size (status_frame s u)

unfoldable pub fail_closed : ℕ → ℕ → Receiver → Receiver
fail_closed error now_ms s = request_status_notification (record s {
  active_direction = 0;
  last_valid_ms = 0;
  neutral_required = true;
  error_code = error;
  mapper = reset_mapper now_ms s.mapper;
  desired_report = empty_report;
})

-- The packets that `packet_handler` looks at.
pub data Packet : Type 0 where
  le_connection_complete : ℕ → Packet
  disconnection_complete can_send_now other_packet : Packet

-- The receiver after the packet, and the status frame that is notified, if any.
unfoldable pub packet_handler : Packet → UsbKeyboard → ℕ → Receiver → Receiver × Option (List ℕ)
unfolding fail_closed
packet_handler (le_connection_complete handle) u now_ms s = (
  fail_closed error_none now_ms
      (record s { connection_handle = some handle; session = reset; notify_enabled = false }),
  none,
)
packet_handler disconnection_complete u now_ms s = (
  fail_closed error_none now_ms
      (record s { connection_handle = none; notify_enabled = false; session = reset }),
  none,
)
packet_handler can_send_now u now_ms s =
    (s, if is_some s.connection_handle && s.notify_enabled then some (status_frame s u) else none)
packet_handler other_packet u now_ms s = (s, none)

unfoldable pub service_timeout : ℕ → Receiver → Receiver
unfolding fail_closed
service_timeout now_ms s =
    if report_has_key s.desired_report
      && not (s.last_valid_ms == 0)
      && ltb stale_ms (sub32 now_ms s.last_valid_ms)
    then fail_closed error_stale now_ms s
    else s

lock_output : ℕ → Receiver → Receiver
lock_output now_ms s = record s {
  neutral_required = true;
  mapper = reset_mapper now_ms s.mapper;
  desired_report = empty_report;
}

-- A change of the mount state.
note_mount : UsbKeyboard → ℕ → Receiver → Receiver
unfolding lock_output same_bool
note_mount u now_ms s =
    if same_bool (usb_keyboard_mounted u) s.was_mounted
    then s
    else request_status_notification (
        lock_output now_ms
          (record s { sent_report = empty_report; was_mounted = usb_keyboard_mounted u }))

-- Handing over a report: what was sent, or a locked output.
send_report : UsbKeyboard → ℕ → KeyboardReport → Receiver → Receiver × Option Attempt
unfolding lock_output
send_report u now_ms report s =
    let taken = usb_keyboard_send u report in
    (
      if taken then record s { sent_report = report } else lock_output now_ms s,
      some (record { report = report; taken = taken }),
    )

-- From the comparison of the desired with the sent report on.
exchange_report : UsbKeyboard → ℕ → Receiver → Receiver × Option Attempt
unfolding send_report
exchange_report u now_ms s =
    if same_report s.desired_report s.sent_report
    then (s, none)
    else if report_has_key s.sent_report && report_has_key s.desired_report
    then send_report u now_ms empty_report s
    else send_report u now_ms s.desired_report s

clear_usb_error : Receiver → Receiver
clear_usb_error s =
    if s.error_code == error_usb_unavailable then record s { error_code = error_none } else s

service_mounted : UsbKeyboard → ℕ → Receiver → Receiver × Option Attempt
unfolding exchange_report clear_usb_error
service_mounted u now_ms s =
    if not (usb_keyboard_mounted u) || not (usb_keyboard_ready u)
    then (
      if s.error_code == error_none then record s { error_code = error_usb_unavailable } else s,
      none,
    )
    else exchange_report u now_ms (clear_usb_error s)

unfoldable pub service_usb_keyboard : UsbKeyboard → ℕ → Receiver → Receiver × Option Attempt
unfolding note_mount service_mounted
service_usb_keyboard u now_ms s = service_mounted u now_ms (note_mount u now_ms s)
