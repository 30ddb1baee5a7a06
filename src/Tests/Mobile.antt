-- ===== src/Tests/Mobile.antt =====
-- Command frames of the phone: one that steps, its replay, and one that repeats its event.
use red_monkey_mpg_firmware.Base.{
  ℕ, ◌<◌, true, false, none, some, List, [], ◌∷◌, ◌≡◌, ◌≢◌, ◌↔◌, refl, arith,
}
use red_monkey_mpg_firmware.Mobile.{
  mobile_crc8, consume, reset, MobileInputSession, frame_sequence, with_direction, with_event,
  check_frame,
}
use red_monkey_mpg_firmware.Mobile.Crc.{IsBytes, mobile_crc8_change}
use red_monkey_mpg_firmware.Mobile.Frame.{IsFrame, IsNewer, consume-accepted_iff}
use red_monkey_mpg_firmware.Mobile.Input.{
  is_new_event, frame_input, session_after, consume-input, consume_event_once,
}

-- To the right with the dead-man, and event 7: the step 0.50 mm.
abbrev step_right : List ℕ
step_right = 0x52 ∷ 2 ∷ 1 ∷ 0 ∷ 2 ∷ 1 ∷ 7 ∷ 3 ∷ 1 ∷ 104 ∷ []

-- A cancel under the same event number.
abbrev same_event : List ℕ
same_event = 0x52 ∷ 2 ∷ 2 ∷ 0 ∷ 0 ∷ 0 ∷ 7 ∷ 5 ∷ 1 ∷ 162 ∷ []

-- Still to the right, without an event.
abbrev still_right : List ℕ
still_right = 0x52 ∷ 2 ∷ 2 ∷ 0 ∷ 2 ∷ 1 ∷ 0 ∷ 0 ∷ 1 ∷ 39 ∷ []

-- Everything released.
abbrev neutral : List ℕ
neutral = 0x52 ∷ 2 ∷ 1 ∷ 0 ∷ 0 ∷ 0 ∷ 0 ∷ 0 ∷ 1 ∷ 147 ∷ []

flags_small : (n : ℕ) → n ≡ 1 → n < 256
flags_small n h = omega arith

step_right_accepted : (consume reset (some step_right) 500).0.accepted ≡ true
unfolding consume check_frame mobile_crc8 with_direction with_event
step_right_accepted = refl

abbrev session : MobileInputSession
session = (consume reset (some step_right) 500).1

same_event_accepted : (consume session (some same_event) 600).0.accepted ≡ true
unfolding consume check_frame mobile_crc8 with_direction with_event
same_event_accepted = refl

null_refused : (consume session none 600).0.accepted ≡ false
unfolding consume
null_refused = refl

consume-accepted_iff_example :
    ((consume reset (some step_right) 500).0.accepted ≡ true)
    ↔ (IsFrame step_right × IsNewer reset (frame_sequence step_right))
consume-accepted_iff_example = consume-accepted_iff reset step_right 500 (flags_small 1 refl)

consume-input_example :
    ((consume reset (some step_right) 500).0.input
      ≡ frame_input step_right (is_new_event reset step_right) 500)
    × ((consume reset (some step_right) 500).1 ≡ session_after reset step_right)
consume-input_example = consume-input reset step_right 500 (flags_small 1 refl) step_right_accepted

consume_event_once_example :
    ((consume session (some same_event) 600).0.input.cancel ≡ false)
    × ((consume session (some same_event) 600).0.input.select_resolution ≡ false)
consume_event_once_example =
    consume_event_once reset step_right same_event 500 600 (flags_small 1 refl) (omega arith)
      step_right_accepted (ground arith) refl same_event_accepted

head-IsBytes : IsBytes (0x52 ∷ 2 ∷ [])
head-IsBytes = ground arith

tail-IsBytes : IsBytes (0 ∷ 2 ∷ 1 ∷ [])
tail-IsBytes = ground arith

mobile_crc8_change_example :
    mobile_crc8 (0x52 ∷ 2 ∷ 1 ∷ 0 ∷ 2 ∷ 1 ∷ []) 6 ≢ mobile_crc8 (0x52 ∷ 2 ∷ 9 ∷ 0 ∷ 2 ∷ 1 ∷ []) 6
mobile_crc8_change_example =
    mobile_crc8_change (0x52 ∷ 2 ∷ []) (0 ∷ 2 ∷ 1 ∷ []) 1 9 head-IsBytes tail-IsBytes (omega arith)
      (omega arith) (ground arith)
