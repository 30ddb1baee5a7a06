-- ===== src/Receiver/Handlers/Locked.antt =====
-- While neutral controls are required the receiver wants no key: kept by every handler.
use red_monkey_mpg_firmware.Base.{
  ℕ, true, false, none, some, ◌==◌, get_or, ◌≡◌, inl, inr, arith, refl, List, Bool-cases,
}
use red_monkey_mpg_firmware.Types.{GamepadState}
use red_monkey_mpg_firmware.Mapper.{ControlMapper, update}
use red_monkey_mpg_firmware.Mapper.Safety.{IsValid, update-IsValid}
use red_monkey_mpg_firmware.Keyboard.{
  KeyboardReport, empty_report, masso_g3_touch_5_13, cnc_controller_keyboard_report,
  masso_g3_keyboard_report,
}
use red_monkey_mpg_firmware.Mobile.{MobileFrameResult, consume, reset}
use red_monkey_mpg_firmware.Usb.{UsbKeyboard}
use red_monkey_mpg_firmware.Receiver.{
  Receiver, new_receiver, reset_mapper, request_status_notification, reject_frame, accept_frame,
  drive_output, note_events, note_direction, write_command, WriteRequest, Attribute,
  client_configuration, command_value, error_stale, error_none,
}
use red_monkey_mpg_firmware.Receiver.Handlers.{
  Att, write_callback, Packet, packet_handler, service_timeout, service_usb_keyboard, write_to,
  fail_closed, le_connection_complete, disconnection_complete, lock_output, note_mount, send_report,
  exchange_report, clear_usb_error,
}

-- What holds between any two events of the receiver.
pub record IsLocked (s : Receiver) : Type 0 where
  pub no_key : s.neutral_required ≡ true → s.desired_report ≡ empty_report
  pub mapper_valid : IsValid s.mapper

pub new_receiver-IsLocked : IsLocked new_receiver
new_receiver-IsLocked = record {
  no_key = λ h. refl;
  mapper_valid = record { unlocked = λ h. refl };
}

reset_mapper-IsValid :
    (now_ms : ℕ) (m : ControlMapper) → IsValid m → IsValid (reset_mapper now_ms m)
unfolding reset_mapper
reset_mapper-IsValid now_ms m v = (update-IsValid m _ now_ms v).0

cancel_released :
    (m : ControlMapper) (input : GamepadState) (now_ms : ℕ)
    → input.cancel ≡ true
    → cnc_controller_keyboard_report masso_g3_touch_5_13 (update m input now_ms).0 ≡ empty_report
unfolding update cnc_controller_keyboard_report masso_g3_keyboard_report
cancel_released m input now_ms h = ground arith

request-IsLocked : (s : Receiver) → IsLocked s → IsLocked (request_status_notification s)
unfolding request_status_notification
request-IsLocked s l = ground arith

accept_frame-IsLocked :
    (parsed : MobileFrameResult) (direction now_ms : ℕ) (s : Receiver)
    → IsLocked s
    → IsLocked (accept_frame parsed direction now_ms s)
unfolding accept_frame drive_output note_events note_direction
accept_frame-IsLocked parsed direction now_ms s l = ground (
  arith,
  update-IsValid s.mapper parsed.input now_ms l.mapper_valid,
  reset_mapper-IsValid now_ms s.mapper l.mapper_valid,
  cancel_released s.mapper parsed.input now_ms,
)

reject_frame-IsLocked : (s : Receiver) (now_ms : ℕ) → IsLocked s → IsLocked (reject_frame s now_ms)
unfolding reject_frame
reject_frame-IsLocked s now_ms l = record {
  no_key = λ h. refl;
  mapper_valid = reset_mapper-IsValid now_ms s.mapper l.mapper_valid;
}

write_command-IsLocked :
    (buffer : List ℕ) (now_ms : ℕ) (s : Receiver)
    → IsLocked s
    → IsLocked (write_command buffer now_ms s).1
unfolding write_command
write_command-IsLocked buffer now_ms s l =
    let parsed = (consume s.session (some buffer) now_ms).0 in
    let t = record s { session = (consume s.session (some buffer) now_ms).1 } in
    let kept : IsLocked t = record { no_key = l.no_key; mapper_valid = l.mapper_valid } in
    elim (Bool-cases parsed.accepted) [
      | inl a ↦
          rw a (request-IsLocked _ (accept_frame-IsLocked parsed (get_or buffer 4 0) now_ms t kept))
      | inr r ↦ rw r (request-IsLocked _ (reject_frame-IsLocked t now_ms kept))
    ]

write_to-IsLocked :
    (att : Att) (a : Attribute) (r : WriteRequest) (now_ms : ℕ) (s : Receiver)
    → IsLocked s
    → IsLocked (write_to att a r now_ms s).1
unfolding write_to
write_to-IsLocked att client_configuration r now_ms s l = ground (
  arith,
  request-IsLocked (record s { notify_enabled = att.read_16 r.buffer == att.notification }),
)
write_to-IsLocked att command_value r now_ms s l =
    ground (arith, write_command-IsLocked r.buffer now_ms s l)
write_to-IsLocked att _ r now_ms s l = l

-- A write of any attribute keeps the lock.
pub write_callback-IsLocked :
    (att : Att) (r : WriteRequest) (now_ms : ℕ) (s : Receiver)
    → IsLocked s
    → IsLocked (write_callback att r now_ms s).1
unfolding write_callback
write_callback-IsLocked att r now_ms s l = write_to-IsLocked att r.attribute r now_ms s l

fail_closed-IsLocked :
    (error now_ms : ℕ) (s : Receiver) → IsValid s.mapper → IsLocked (fail_closed error now_ms s)
unfolding fail_closed
fail_closed-IsLocked error now_ms s v =
    request-IsLocked _
      (record { no_key = λ h. refl; mapper_valid = reset_mapper-IsValid now_ms s.mapper v })

pub packet_handler-IsLocked :
    (p : Packet) (u : UsbKeyboard) (now_ms : ℕ) (s : Receiver)
    → IsLocked s
    → IsLocked (packet_handler p u now_ms s).0
unfolding packet_handler
packet_handler-IsLocked (le_connection_complete handle) u now_ms s l =
    fail_closed-IsLocked error_none now_ms
      (record s { connection_handle = some handle; session = reset; notify_enabled = false })
      l.mapper_valid
packet_handler-IsLocked disconnection_complete u now_ms s l =
    fail_closed-IsLocked error_none now_ms
      (record s { connection_handle = none; notify_enabled = false; session = reset })
      l.mapper_valid
packet_handler-IsLocked _ u now_ms s l = l

pub service_timeout-IsLocked :
    (now_ms : ℕ) (s : Receiver) → IsLocked s → IsLocked (service_timeout now_ms s)
unfolding service_timeout
service_timeout-IsLocked now_ms s l =
    ground (arith, fail_closed-IsLocked error_stale now_ms s l.mapper_valid)

lock_output-IsLocked :
    (now_ms : ℕ) (s : Receiver) → IsValid s.mapper → IsLocked (lock_output now_ms s)
unfolding lock_output
lock_output-IsLocked now_ms s v = record {
  no_key = λ h. refl;
  mapper_valid = reset_mapper-IsValid now_ms s.mapper v;
}

send_report-IsLocked :
    (u : UsbKeyboard) (now_ms : ℕ) (report : KeyboardReport) (s : Receiver)
    → IsLocked s
    → IsLocked (send_report u now_ms report s).0
unfolding send_report
send_report-IsLocked u now_ms report s l =
    ground (arith, reset_mapper-IsValid now_ms s.mapper l.mapper_valid)

exchange_report-IsLocked :
    (u : UsbKeyboard) (now_ms : ℕ) (s : Receiver)
    → IsLocked s
    → IsLocked (exchange_report u now_ms s).0
unfolding exchange_report
exchange_report-IsLocked u now_ms s l = ground (
  arith,
  send_report-IsLocked u now_ms empty_report s l,
  send_report-IsLocked u now_ms s.desired_report s l,
)

note_mount-IsLocked :
    (u : UsbKeyboard) (now_ms : ℕ) (s : Receiver) → IsLocked s → IsLocked (note_mount u now_ms s)
unfolding note_mount request_status_notification
note_mount-IsLocked u now_ms s l =
    ground (arith, reset_mapper-IsValid now_ms s.mapper l.mapper_valid)

clear_usb_error-IsLocked : (s : Receiver) → IsLocked s → IsLocked (clear_usb_error s)
unfolding clear_usb_error
clear_usb_error-IsLocked s l = ground arith

pub service_usb_keyboard-IsLocked :
    (u : UsbKeyboard) (now_ms : ℕ) (s : Receiver)
    → IsLocked s
    → IsLocked (service_usb_keyboard u now_ms s).0
unfolding service_usb_keyboard
service_usb_keyboard-IsLocked u now_ms s l =
    let t = note_mount u now_ms s in
    let k = note_mount-IsLocked u now_ms s l in
    ground
      (arith, exchange_report-IsLocked u now_ms (clear_usb_error t) (clear_usb_error-IsLocked t k))
