-- ===== src/Mobile/Input.antt =====
-- The control state that an accepted frame gives, and what the session keeps of the frame.
use red_monkey_mpg_firmware.Base.{
  ℕ, ◌/◌, ◌%◌, ◌≤◌, ◌<◌, Bool, true, false, not, ◌&&◌, ◌||◌, none, some, List, ◌==◌, leb,
  if◌then◌else◌, has_bits, get_or, ◌≡◌, ◌≢◌, inl, inr, arith, refl, ap, Option-cases, ℤ, pos,
}
use red_monkey_mpg_firmware.Base.Table.{same, holds_below_at}
use red_monkey_mpg_firmware.Types.{
  GamepadState, StepResolution, no_input, mm_0_01, mm_0_10, mm_0_50, mm_1_00,
}
use red_monkey_mpg_firmware.Mobile.{
  MobileInputSession, reject, check_frame, frame_sequence, is_replayed, consume, full_negative,
  full_positive, replayed_sequence, with_direction, with_event, consume_event, held_input,
}
use red_monkey_mpg_firmware.Mobile.Frame.{held_table, check_frame_range, consume-some}

-- A one-shot event is new unless the session has just seen its number.
abbrev pub is_new_event : MobileInputSession → List ℕ → Bool
is_new_event s bytes =
    not (get_or bytes 7 0 == 0) && not (s.has_event && get_or bytes 6 0 == s.last_event_sequence)

-- The stick that a direction byte deflects, fully, and no other.
abbrev pub stick_x : ℕ → ℤ
stick_x d = if d == 1 then full_negative else if d == 2 then full_positive else pos 0

abbrev pub stick_y : ℕ → ℤ
stick_y d = if d == 3 then full_positive else if d == 4 then full_negative else pos 0

abbrev pub stick_z : ℕ → ℤ
stick_z d = if d == 5 then full_positive else if d == 6 then full_negative else pos 0

abbrev pub step_of_event : ℕ → StepResolution
step_of_event e =
    if e == 2 then mm_0_10 else if e == 3 then mm_0_50 else if e == 4 then mm_1_00 else mm_0_01

-- The control state by the bytes of the frame, for an event that is new or not.
abbrev pub frame_input : List ℕ → Bool → ℕ → GamepadState
frame_input bytes new now_ms = record no_input {
  connected = true;
  sample_ms = now_ms;
  left_x = stick_x (get_or bytes 4 0);
  left_y = stick_y (get_or bytes 4 0);
  right_y = stick_z (get_or bytes 4 0);
  deadman = get_or bytes 5 0 % 2 == 1;
  rapid = get_or bytes 5 0 / 2 % 2 == 1;
  precision = get_or bytes 5 0 / 4 % 2 == 1;
  select_resolution = new && leb (get_or bytes 7 0) 4;
  selected_resolution =
      if new && leb (get_or bytes 7 0) 4 then step_of_event (get_or bytes 7 0) else mm_0_01;
  cancel = new && get_or bytes 7 0 == 5;
}

-- The session after an accepted frame.
abbrev pub session_after : MobileInputSession → List ℕ → MobileInputSession
session_after s bytes = record {
  has_sequence = true;
  last_sequence = frame_sequence bytes;
  has_event = s.has_event || is_new_event s bytes;
  last_event_sequence = if is_new_event s bytes then get_or bytes 6 0 else s.last_event_sequence;
}

with_direction_lem :
    (d : ℕ) (i : GamepadState)
    → d ≤ 6
    → i.left_x ≡ pos 0
    → i.left_y ≡ pos 0
    → i.right_y ≡ pos 0
    → with_direction d i
      ≡ some (record i { left_x = stick_x d; left_y = stick_y d; right_y = stick_z d })
unfolding with_direction
with_direction_lem d i h x0 y0 z0 = ground arith

with_event_lem :
    (e : ℕ) (i : GamepadState)
    → e ≢ 0
    → e ≤ 5
    → i.cancel ≡ false
    → i.select_resolution ≡ false
    → i.selected_resolution ≡ mm_0_01
    → with_event e i
      ≡ some (record i {
        cancel = e == 5;
        select_resolution = leb e 4;
        selected_resolution = if leb e 4 then step_of_event e else mm_0_01;
      })
unfolding with_event
with_event_lem e i h k c0 s0 r0 = ground arith

-- The frame's input before its event.
abbrev directed : List ℕ → ℕ → GamepadState
directed bytes now_ms = record (held_input bytes now_ms) {
  left_x = stick_x (get_or bytes 4 0);
  left_y = stick_y (get_or bytes 4 0);
  right_y = stick_z (get_or bytes 4 0);
}

consume-directed :
    (s : MobileInputSession) (bytes : List ℕ) (now_ms : ℕ)
    → check_frame bytes ≡ none
    → is_replayed s (frame_sequence bytes) ≡ false
    → get_or bytes 4 0 ≤ 6
    → consume s (some bytes) now_ms
      ≡ consume_event
          (record s { has_sequence = true; last_sequence = frame_sequence bytes })
          bytes
          (some (directed bytes now_ms))
unfolding consume
consume-directed s bytes now_ms e r d =
    ground (arith, with_direction_lem (get_or bytes 4 0) (held_input bytes now_ms) d)

consume_event_input :
    (s : MobileInputSession) (bytes : List ℕ) (i : GamepadState)
    → get_or bytes 7 0 ≤ 5
    → i.cancel ≡ false
    → i.select_resolution ≡ false
    → i.selected_resolution ≡ mm_0_01
    → let new = is_new_event s bytes in
      let e = get_or bytes 7 0 in
      ((consume_event s bytes (some i)).0.input ≡ record i {
        cancel = new && e == 5;
        select_resolution = new && leb e 4;
        selected_resolution = if new && leb e 4 then step_of_event e else mm_0_01;
      })
      × ((consume_event s bytes (some i)).1 ≡ record s {
        has_event = s.has_event || new;
        last_event_sequence = if new then get_or bytes 6 0 else s.last_event_sequence;
      })
unfolding consume_event
consume_event_input s bytes i v c0 s0 r0 = ground (arith, with_event_lem (get_or bytes 7 0) i)

consume_not_replayed :
    (s : MobileInputSession) (bytes : List ℕ) (now_ms : ℕ)
    → check_frame bytes ≡ none
    → (consume s (some bytes) now_ms).0.accepted ≡ true
    → is_replayed s (frame_sequence bytes) ≡ false
unfolding consume
consume_not_replayed s bytes now_ms e a = ground arith

and_three :
    {a b c d e f : Bool} → (same a b && same c d && same e f) ≡ true → (a ≡ b) × (c ≡ d) × (e ≡ f)
and_three h = ground arith

held_bits :
    (f : ℕ)
    → f < 256
    → (has_bits f 0x01 ≡ (f % 2 == 1))
      × (has_bits f 0x02 ≡ (f / 2 % 2 == 1))
      × (has_bits f 0x04 ≡ (f / 4 % 2 == 1))
held_bits f h = and_three (holds_below_at _ 256 f held_table h)

-- An accepted frame gives the control state that its bytes describe and the session that remembers
-- its sequence and its new event.
pub consume-input :
    (s : MobileInputSession) (bytes : List ℕ) (now_ms : ℕ)
    → get_or bytes 5 0 < 256
    → (consume s (some bytes) now_ms).0.accepted ≡ true
    → ((consume s (some bytes) now_ms).0.input ≡ frame_input bytes (is_new_event s bytes) now_ms)
      × ((consume s (some bytes) now_ms).1 ≡ session_after s bytes)
consume-input s bytes now_ms byte a = elim (Option-cases (check_frame bytes)) [
  | inl e ↦
      let (d, v) = check_frame_range bytes e in
      let r = consume_not_replayed s bytes now_ms e a in
      let start = record s { has_sequence = true; last_sequence = frame_sequence bytes } in
      let whole = consume-directed s bytes now_ms e r d in
      let part = consume_event_input start bytes (directed bytes now_ms) v refl refl refl in
      let bits = held_bits (get_or bytes 5 0) byte in rw whole (ground (arith, part, bits))
  | inr (e, bad) ↦
      let refused = consume-some s bytes now_ms e bad in absurd (ground (arith, refused))
]

consume_replay :
    (s : MobileInputSession) (bytes : List ℕ) (now_ms : ℕ)
    → check_frame bytes ≡ none
    → s.has_sequence ≡ true
    → s.last_sequence ≡ frame_sequence bytes
    → consume s (some bytes) now_ms ≡ (reject replayed_sequence, s)
unfolding consume
consume_replay s bytes now_ms e has last = ground arith

-- A frame that was accepted is refused as a replay when it comes again, at any time, and the
-- session stays.
pub consume_again :
    (s : MobileInputSession) (bytes : List ℕ) (now_ms later_ms : ℕ)
    → get_or bytes 5 0 < 256
    → (consume s (some bytes) now_ms).0.accepted ≡ true
    → let s' = (consume s (some bytes) now_ms).1 in
      consume s' (some bytes) later_ms ≡ (reject replayed_sequence, s')
consume_again s bytes now_ms later_ms byte a = elim (Option-cases (check_frame bytes)) [
  | inl e ↦
      let (_, after) = consume-input s bytes now_ms byte a in
      consume_replay (consume s (some bytes) now_ms).1 bytes later_ms e
        (ap (λ r. r.has_sequence) after) (ap (λ r. r.last_sequence) after)
  | inr (e, bad) ↦
      let refused = consume-some s bytes now_ms e bad in absurd (ground (arith, refused))
]

-- The next accepted frame that repeats the number of an event neither selects a step nor cancels.
pub consume_event_once :
    (s : MobileInputSession) (first second : List ℕ) (now_ms later_ms : ℕ)
    → get_or first 5 0 < 256
    → get_or second 5 0 < 256
    → (consume s (some first) now_ms).0.accepted ≡ true
    → get_or first 7 0 ≢ 0
    → get_or second 6 0 ≡ get_or first 6 0
    → let s' = (consume s (some first) now_ms).1 in
      (consume s' (some second) later_ms).0.accepted ≡ true
      → ((consume s' (some second) later_ms).0.input.cancel ≡ false)
        × ((consume s' (some second) later_ms).0.input.select_resolution ≡ false)
consume_event_once s first second now_ms later_ms b b' a ne same_id a' =
    let s' = (consume s (some first) now_ms).1 in
    ground (arith, consume-input s first now_ms b a, consume-input s' second later_ms b' a')

pub consume-deadman :
    (s : MobileInputSession) (bytes : List ℕ) (now_ms : ℕ)
    → (consume s (some bytes) now_ms).0.accepted ≡ true
    → (consume s (some bytes) now_ms).0.input.deadman ≡ has_bits (get_or bytes 5 0) 0x01
unfolding consume with_direction with_event
consume-deadman s bytes now_ms a = ground arith
