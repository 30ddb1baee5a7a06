-- ===== src/Receiver/Handlers/Trace.antt =====
-- The receiver over any sequence of callbacks and services.
pub mod Silent
use mathlib.Core.Path.{subst}
use red_monkey_mpg_firmware.Base.{
  ℕ, Bool, false, ◌&&◌, Option, none, some, List, [], ◌∷◌, ◌++◌, if◌then◌else◌, ◌≡◌, inl, inr,
  arith, refl, Bool-cases, ap, ◌∙◌, sym,
}
use red_monkey_mpg_firmware.Keyboard.{KeyboardReport, empty_report}
use red_monkey_mpg_firmware.Usb.{
  UsbKeyboard, report_has_key, usb_keyboard_mounted, empty_report_no_key,
}
use red_monkey_mpg_firmware.Usb.Outputs.{
  Attempt, same_bool, Output, mount_changed, took, taken_report, Separated, held, Separated-append,
}
use red_monkey_mpg_firmware.Receiver.{
  Receiver, new_receiver, WriteRequest, request_status_notification, accept_frame, drive_output,
  note_events, note_direction, reject_frame,
}
use red_monkey_mpg_firmware.Receiver.Handlers.{
  Att, write_callback, Packet, packet_handler, service_timeout, service_usb_keyboard, note_mount,
  service_mounted, exchange_report,
}
use red_monkey_mpg_firmware.Receiver.Handlers.Locked.{
  IsLocked, write_callback-IsLocked, packet_handler-IsLocked, service_timeout-IsLocked,
  service_usb_keyboard-IsLocked,
}

-- Each event brings its time, and what the USB stack answers where it is asked.
pub data Event : Type 0 where
  write : WriteRequest → ℕ → Event
  packet : Packet → UsbKeyboard → ℕ → Event
  timeout : ℕ → Event
  usb : UsbKeyboard → ℕ → Event

unfoldable pub usb_outputs : UsbKeyboard → ℕ → Receiver → List Output
usb_outputs u now_ms s =
    let sent = taken_report (service_usb_keyboard u now_ms s).1 in
    if same_bool (usb_keyboard_mounted u) s.was_mounted then sent else mount_changed ∷ sent

module _ (att : Att) where
  unfoldable pub step : Event → Receiver → Receiver
  step (write r now_ms) s = (write_callback att r now_ms s).1
  step (packet p u now_ms) s = (packet_handler p u now_ms s).0
  step (timeout now_ms) s = service_timeout now_ms s
  step (usb u now_ms) s = (service_usb_keyboard u now_ms s).0

  unfoldable pub outputs : Event → Receiver → List Output
  unfolding usb_outputs
  outputs (usb u now_ms) s = usb_outputs u now_ms s
  outputs _ s = []

  -- All outputs of a sequence of events, in order.
  unfoldable pub run : Receiver → List Event → List Output
  run s [] = []
  run s (e ∷ es) = outputs e s ++ run (step e s) es

  unfoldable pub final : Receiver → List Event → Receiver
  final s [] = s
  final s (e ∷ es) = final (step e s) es

  pub step-IsLocked : (e : Event) (s : Receiver) → IsLocked s → IsLocked (step e s)
  unfolding step
  step-IsLocked (write r now_ms) s l = write_callback-IsLocked att r now_ms s l
  step-IsLocked (packet p u now_ms) s l = packet_handler-IsLocked p u now_ms s l
  step-IsLocked (timeout now_ms) s l = service_timeout-IsLocked now_ms s l
  step-IsLocked (usb u now_ms) s l = service_usb_keyboard-IsLocked u now_ms s l

  -- The lock invariant (no key is wanted while neutral controls are required, and the mapper is
  -- valid) is kept over any sequence of events.
  pub final-IsLocked : (es : List Event) (s : Receiver) → IsLocked s → IsLocked (final s es)
  unfolding final
  final-IsLocked [] s l = l
  final-IsLocked (e ∷ es) s l = final-IsLocked es (step e s) (step-IsLocked e s l)

-- The mounted half of the service.
exchange-Separated :
    (u : UsbKeyboard) (now_ms : ℕ) (s : Receiver)
    → Separated s.sent_report (taken_report (exchange_report u now_ms s).1)
      × (held s.sent_report (taken_report (exchange_report u now_ms s).1)
          ≡ (exchange_report u now_ms s).0.sent_report)
unfolding exchange_report taken_report
exchange-Separated u now_ms s = ground (arith, empty_report_no_key)

note_mount_sent :
    (u : UsbKeyboard) (now_ms : ℕ) (s : Receiver)
    → (note_mount u now_ms s).sent_report
      ≡ (if same_bool (usb_keyboard_mounted u) s.was_mounted then s.sent_report else empty_report)
unfolding note_mount request_status_notification
note_mount_sent u now_ms s = ground arith

service_mounted-Separated :
    (u : UsbKeyboard) (now_ms : ℕ) (s : Receiver)
    → Separated s.sent_report (taken_report (service_mounted u now_ms s).1)
      × (held s.sent_report (taken_report (service_mounted u now_ms s).1)
          ≡ (service_mounted u now_ms s).0.sent_report)
unfolding service_mounted taken_report
service_mounted-Separated u now_ms s = ground (arith, empty_report_no_key)

service_usb_keyboard_lem :
    (u : UsbKeyboard) (now_ms : ℕ) (s : Receiver)
    → service_usb_keyboard u now_ms s ≡ service_mounted u now_ms (note_mount u now_ms s)
unfolding service_usb_keyboard
service_usb_keyboard_lem u now_ms s = refl

usb-Separated :
    (u : UsbKeyboard) (now_ms : ℕ) (s : Receiver)
    → Separated s.sent_report (usb_outputs u now_ms s)
      × (held s.sent_report (usb_outputs u now_ms s)
          ≡ (service_usb_keyboard u now_ms s).0.sent_report)
unfolding usb_outputs
usb-Separated u now_ms s =
    let part = service_mounted-Separated u now_ms (note_mount u now_ms s) in
    let sent = note_mount_sent u now_ms s in
    let choose = λ (b : Bool). if b then s.sent_report else empty_report in
    let (after, attempt) = service_mounted u now_ms (note_mount u now_ms s) in
    let follows = λ (last : KeyboardReport).
      Separated last (taken_report attempt)
      × (held last (taken_report attempt) ≡ after.sent_report) in
    elim (Bool-cases (same_bool (usb_keyboard_mounted u) s.was_mounted)) [
      | inl e ↦ rw (e, service_usb_keyboard_lem) (subst follows (sent ∙ ap choose e) part)
      | inr e ↦ rw (e, service_usb_keyboard_lem) (subst follows (sent ∙ ap choose e) part)
    ]

write_sent :
    (att : Att) (r : WriteRequest) (now_ms : ℕ) (s : Receiver)
    → (write_callback att r now_ms s).1.sent_report ≡ s.sent_report
unfolding write_callback request_status_notification accept_frame drive_output note_events
    note_direction reject_frame
write_sent att r now_ms s = ground arith

packet_sent :
    (p : Packet) (u : UsbKeyboard) (now_ms : ℕ) (s : Receiver)
    → (packet_handler p u now_ms s).0.sent_report ≡ s.sent_report
unfolding packet_handler request_status_notification
packet_sent p u now_ms s = ground arith

timeout_sent : (now_ms : ℕ) (s : Receiver) → (service_timeout now_ms s).sent_report ≡ s.sent_report
unfolding service_timeout request_status_notification
timeout_sent now_ms s = ground arith

step-Separated :
    (att : Att) (e : Event) (s : Receiver)
    → Separated s.sent_report (outputs att e s)
      × (held s.sent_report (outputs att e s) ≡ (step att e s).sent_report)
unfolding outputs step
step-Separated att (write r now_ms) s = (tt, sym (write_sent att r now_ms s))
step-Separated att (packet p u now_ms) s = (tt, sym (packet_sent p u now_ms s))
step-Separated att (timeout now_ms) s = (tt, sym (timeout_sent now_ms s))
step-Separated att (usb u now_ms) s = usb-Separated u now_ms s

run-Separated_from :
    (att : Att) (es : List Event) (s : Receiver) → Separated s.sent_report (run att s es)
unfolding run
run-Separated_from att [] s = tt
run-Separated_from att (e ∷ es) s =
    let (here, last) = step-Separated att e s in
    Separated-append s.sent_report (outputs att e s) _ here
      (rw last (run-Separated_from att es (step att e s)))

-- From power-on, over any sequence of attribute writes, packets, timeouts and USB services, with
-- any answers of the host: of two reports that the host takes one after the other without a change
-- of the mount state between them, at most one has a key.
pub run-Separated : (att : Att) (es : List Event) → Separated empty_report (run att new_receiver es)
run-Separated att es = run-Separated_from att es new_receiver
