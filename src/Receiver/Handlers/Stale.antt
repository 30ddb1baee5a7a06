-- ===== src/Receiver/Handlers/Stale.antt =====
-- The timeout of the receiver, and the time 0 at which it does not work.
use red_monkey_mpg_firmware.Base.{
  ℕ, ◌≤◌, true, false, ◌≡◌, ◌⊎◌, arith, some, List, sub32, get_or, ◌∙◌,
}
use red_monkey_mpg_firmware.Types.{GamepadState}
use red_monkey_mpg_firmware.Mobile.{MobileFrameResult, consume}
use red_monkey_mpg_firmware.Usb.{report_has_key, empty_report_no_key}
use red_monkey_mpg_firmware.Receiver.{
  Receiver, write_command, accept_frame, drive_output, note_events, note_direction,
  request_status_notification, stale_ms,
}
use red_monkey_mpg_firmware.Receiver.Handlers.{service_timeout}

-- After the timeout service a key is wanted only if the last valid frame is at most 150 ms old or
-- came at the time 0, and a key that is given up leaves neutral controls required.
pub service_timeout_fresh :
    (now_ms : ℕ) (s : Receiver)
    → (report_has_key (service_timeout now_ms s).desired_report ≡ true
        → (s.last_valid_ms ≡ 0) ⊎ (sub32 now_ms s.last_valid_ms ≤ stale_ms))
      × (report_has_key s.desired_report ≡ true
          → report_has_key (service_timeout now_ms s).desired_report ≡ false
          → (service_timeout now_ms s).neutral_required ≡ true)
unfolding service_timeout request_status_notification
service_timeout_fresh now_ms s = ground (arith, empty_report_no_key)

drive_output_time :
    (input : GamepadState) (direction now_ms : ℕ) (s : Receiver)
    → (drive_output input direction now_ms s).last_valid_ms ≡ s.last_valid_ms
unfolding drive_output
drive_output_time input direction now_ms s = ground arith

note_events_time :
    (input : GamepadState) (s : Receiver) → (note_events input s).last_valid_ms ≡ s.last_valid_ms
unfolding note_events
note_events_time input s = ground arith

note_direction_time :
    (input : GamepadState) (direction : ℕ) (s : Receiver)
    → (note_direction input direction s).last_valid_ms ≡ s.last_valid_ms
unfolding note_direction
note_direction_time input direction s = ground arith

request_time : (s : Receiver) → (request_status_notification s).last_valid_ms ≡ s.last_valid_ms
unfolding request_status_notification
request_time s = ground arith

accept_frame_time :
    (parsed : MobileFrameResult) (direction now_ms : ℕ) (s : Receiver)
    → (accept_frame parsed direction now_ms s).last_valid_ms ≡ now_ms
unfolding accept_frame
accept_frame_time parsed direction now_ms s =
    drive_output_time parsed.input direction now_ms _
    ∙ note_events_time parsed.input _
    ∙ note_direction_time parsed.input direction _

write_command_time :
    (s : Receiver) (buffer : List ℕ) (now_ms : ℕ)
    → (consume s.session (some buffer) now_ms).0.accepted ≡ true
    → (write_command buffer now_ms s).1.last_valid_ms ≡ now_ms
unfolding write_command
write_command_time s buffer now_ms a =
    rw a (request_time _ ∙ accept_frame_time _ (get_or buffer 4 0) now_ms _)

timeout_zero : (now_ms : ℕ) (s : Receiver) → s.last_valid_ms ≡ 0 → service_timeout now_ms s ≡ s
unfolding service_timeout
timeout_zero now_ms s z = ground arith

-- A frame that is accepted when the millisecond counter stands at 0 turns the timeout off: the
-- service changes nothing at any later time before the next frame.
pub write_command_at_zero :
    (s : Receiver) (buffer : List ℕ) (later_ms : ℕ)
    → (consume s.session (some buffer) 0).0.accepted ≡ true
    → let s' = (write_command buffer 0 s).1 in service_timeout later_ms s' ≡ s'
write_command_at_zero s buffer later_ms a =
    timeout_zero later_ms _ (write_command_time s buffer 0 a)
