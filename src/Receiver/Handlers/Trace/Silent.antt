-- ===== src/Receiver/Handlers/Trace/Silent.antt =====
-- Re-arming: from a locked receiver no key is sent before the phone sends a neutral frame.
use red_monkey_mpg_firmware.Base.{
  ℕ, true, List, [], ◌∷◌, get_or, has_bits, ◌≡◌, ◌≢◌, inl, inr, arith, refl, Bool-cases, All,
}
use red_monkey_mpg_firmware.Keyboard.{empty_report}
use red_monkey_mpg_firmware.Mobile.Input.{consume-deadman}
use red_monkey_mpg_firmware.Usb.{UsbKeyboard, usb_keyboard_mounted, empty_report_no_key}
use red_monkey_mpg_firmware.Usb.Outputs.{same_bool, taken_report, HasNoKey, All-append}
use red_monkey_mpg_firmware.Receiver.{
  Receiver, WriteRequest, client_configuration, command_value, write_command, Attribute,
  request_status_notification, accept_frame, drive_output, note_events, note_direction,
  reject_frame,
}
use red_monkey_mpg_firmware.Receiver.Handlers.{
  Att, write_callback, write_to, Packet, packet_handler, service_timeout, service_usb_keyboard,
  note_mount, service_mounted,
}
use red_monkey_mpg_firmware.Receiver.Handlers.Locked.{IsLocked}
use red_monkey_mpg_firmware.Receiver.Handlers.Trace.{
  Event, write, packet, timeout, usb, step, outputs, run, usb_outputs, step-IsLocked,
  service_usb_keyboard_lem,
}

-- A command frame, well-formed or not, whose bytes hold a direction with the dead-man.
abbrev pub IsHolding : List ℕ → Type 0
IsHolding buffer = (has_bits (get_or buffer 5 0) 0x01 ≡ true) × (get_or buffer 4 0 ≢ 0)

-- No event but a write of the command value can re-arm the receiver.
abbrev pub NotNeutral : Event → Type 0
NotNeutral (write r now_ms) = r.attribute ≡ command_value → IsHolding r.buffer
NotNeutral _ = Unit

accept_frame_locked :
    (s : Receiver) (buffer : List ℕ) (now_ms : ℕ)
    → s.neutral_required ≡ true
    → IsHolding buffer
    → (write_command buffer now_ms s).1.neutral_required ≡ true
unfolding write_command accept_frame drive_output note_events note_direction reject_frame
    request_status_notification
accept_frame_locked s buffer now_ms n h = ground (arith, consume-deadman s.session buffer now_ms)

write_to_locked :
    (att : Att) (a : Attribute) (r : WriteRequest) (now_ms : ℕ) (s : Receiver)
    → s.neutral_required ≡ true
    → (a ≡ command_value → IsHolding r.buffer)
    → (write_to att a r now_ms s).1.neutral_required ≡ true
unfolding write_to request_status_notification
write_to_locked att client_configuration r now_ms s n h = ground arith
write_to_locked att command_value r now_ms s n h =
    ground (arith, accept_frame_locked s r.buffer now_ms n (h refl))
write_to_locked att _ r now_ms s n h = n

usb_locked :
    (u : UsbKeyboard) (now_ms : ℕ) (s : Receiver)
    → s.neutral_required ≡ true
    → (service_usb_keyboard u now_ms s).0.neutral_required ≡ true
unfolding service_usb_keyboard request_status_notification
usb_locked u now_ms s n = ground arith

packet_locked :
    (p : Packet) (u : UsbKeyboard) (now_ms : ℕ) (s : Receiver)
    → s.neutral_required ≡ true
    → (packet_handler p u now_ms s).0.neutral_required ≡ true
unfolding packet_handler request_status_notification
packet_locked p u now_ms s n = ground arith

step_locked :
    (att : Att) (e : Event) (s : Receiver)
    → s.neutral_required ≡ true
    → NotNeutral e
    → (step att e s).neutral_required ≡ true
unfolding step write_callback packet_handler service_timeout request_status_notification
step_locked att (write r now_ms) s n h = write_to_locked att r.attribute r now_ms s n h
step_locked att (packet p u now_ms) s n h = packet_locked p u now_ms s n
step_locked att (timeout now_ms) s n h = ground arith
step_locked att (usb u now_ms) s n h = usb_locked u now_ms s n

exchange_silent :
    (u : UsbKeyboard) (now_ms : ℕ) (s : Receiver)
    → s.desired_report ≡ empty_report
    → All HasNoKey (taken_report (service_mounted u now_ms s).1)
unfolding service_mounted taken_report
exchange_silent u now_ms s e = ground (arith, empty_report_no_key)

note_mount_silent :
    (u : UsbKeyboard) (now_ms : ℕ) (s : Receiver)
    → s.desired_report ≡ empty_report
    → (note_mount u now_ms s).desired_report ≡ empty_report
unfolding note_mount request_status_notification
note_mount_silent u now_ms s e = ground arith

usb_silent :
    (u : UsbKeyboard) (now_ms : ℕ) (s : Receiver)
    → s.desired_report ≡ empty_report
    → All HasNoKey (usb_outputs u now_ms s)
unfolding usb_outputs
usb_silent u now_ms s e =
    let quiet = exchange_silent u now_ms (note_mount u now_ms s) (note_mount_silent u now_ms s e) in
    elim (Bool-cases (same_bool (usb_keyboard_mounted u) s.was_mounted)) [
      | inl t ↦ rw (t, service_usb_keyboard_lem) quiet
      | inr t ↦ rw (t, service_usb_keyboard_lem) (tt, quiet)
    ]

outputs_silent :
    (att : Att) (e : Event) (s : Receiver)
    → IsLocked s
    → s.neutral_required ≡ true
    → All HasNoKey (outputs att e s)
unfolding outputs
outputs_silent att (usb u now_ms) s l n = usb_silent u now_ms s (l.no_key n)
outputs_silent att _ s l n = tt

-- A receiver that requires neutral controls and keeps the lock invariant sends no key over any
-- sequence of events in which every write of the command value holds a direction with the
-- dead-man.
pub run_silent :
    (att : Att) (es : List Event) (s : Receiver)
    → IsLocked s
    → s.neutral_required ≡ true
    → All NotNeutral es
    → All HasNoKey (run att s es)
unfolding run
run_silent att [] s l n h = tt
run_silent att (e ∷ es) s l n h =
    All-append (outputs att e s) _ (outputs_silent att e s l n)
      (run_silent att es (step att e s) (step-IsLocked att e s l) (step_locked att e s n h.0) h.1)
