-- ===== src/Mobile.antt =====
-- The iPhone command frame, firmware/src/mobile_protocol.cpp.
pub mod Crc
pub mod Frame
pub mod Input
use red_monkey_mpg_firmware.Base.{
  ℕ, zero, suc, ◌+◌, ◌*◌, Bool, true, false, not, ◌&&◌, ◌||◌, Option, none, some, List, [], ◌∷◌,
  ◌==◌, ltb, if◌then◌else◌, bit_or, bit_and, bit_xor, has_bits, u8, u16, sub16, ℤ, pos, negsuc,
  length, get_or, take, ◌^◌,
}
use red_monkey_mpg_firmware.Types.{
  StepResolution, mm_0_01, mm_0_10, mm_0_50, mm_1_00, GamepadState, no_input,
}

abbrev pub mobile_frame_length : ℕ
mobile_frame_length = 10

abbrev pub mobile_protocol_version : ℕ
mobile_protocol_version = 2

-- `MobileControllerProfile::masso`, as its byte.
abbrev pub masso : ℕ
masso = 1

pub data MobileFrameError : Type 0 where
  no_error wrong_length bad_magic bad_version bad_crc invalid_flags : MobileFrameError
  invalid_direction invalid_event unsupported_profile ambiguous_rate : MobileFrameError
  replayed_sequence : MobileFrameError

pub record MobileFrameResult : Type 0 where
  pub accepted : Bool
  pub error : MobileFrameError
  pub sequence : ℕ
  pub controller_profile : ℕ
  pub input : GamepadState

pub record MobileInputSession : Type 0 where
  pub has_sequence : Bool
  pub last_sequence : ℕ
  pub has_event : Bool
  pub last_event_sequence : ℕ

-- A new session, and `MobileInputSession::reset`.
abbrev pub reset : MobileInputSession
reset = record {
  has_sequence = false;
  last_sequence = 0;
  has_event = false;
  last_event_sequence = 0;
}

abbrev pub reject : MobileFrameError → MobileFrameResult
reject e = record {
  accepted = false;
  error = e;
  sequence = 0;
  controller_profile = masso;
  input = no_input;
}

-- One round of the loop over the bits.
unfoldable pub crc_bit : ℕ → ℕ
crc_bit crc = u8 (if has_bits crc 0x80 then bit_xor (crc * 2) 0x07 else crc * 2)

unfoldable pub crc_bits : ℕ → ℕ → ℕ
unfolding crc_bit
crc_bits zero crc = crc
crc_bits (suc rounds) crc = crc_bits rounds (crc_bit crc)

-- The loop over the bytes.
unfoldable pub crc_bytes : ℕ → List ℕ → ℕ
unfolding crc_bits
crc_bytes crc [] = crc
crc_bytes crc (b ∷ bs) = crc_bytes (crc_bits 8 (bit_xor crc b)) bs

unfoldable pub mobile_crc8 : List ℕ → ℕ → ℕ
unfolding crc_bytes
mobile_crc8 bytes length = crc_bytes 0 (take length bytes)

-- The guards before the sequence number, in their order.
unfoldable pub check_frame : List ℕ → Option MobileFrameError
check_frame bytes =
    if not (length bytes == mobile_frame_length)
    then some wrong_length
    else if not (get_or bytes 0 0 == 0x52)
    then some bad_magic
    else if not (get_or bytes 1 0 == mobile_protocol_version)
    then some bad_version
    else if not (mobile_crc8 bytes 9 == get_or bytes 9 0)
    then some bad_crc
    else if not (get_or bytes 8 0 == masso)
    then some unsupported_profile
    else if has_bits (get_or bytes 5 0) 0xf8
    then some invalid_flags
    else if ltb 6 (get_or bytes 4 0)
    then some invalid_direction
    else if ltb 5 (get_or bytes 7 0)
    then some invalid_event
    else if bit_and (get_or bytes 5 0) 0x06 == 0x06
    then some ambiguous_rate
    else none

abbrev pub frame_sequence : List ℕ → ℕ
frame_sequence bytes = u16 (bit_or (get_or bytes 2 0) (get_or bytes 3 0 * 2 ^ 8))

-- `delta == 0 || delta > 0x7FFF`, behind `has_sequence_`.
abbrev pub is_replayed : MobileInputSession → ℕ → Bool
is_replayed s sequence =
    let delta = sub16 sequence s.last_sequence in s.has_sequence && (delta == 0 || ltb 0x7fff delta)

abbrev pub full_negative : ℤ
full_negative = negsuc 32766

abbrev pub full_positive : ℤ
full_positive = pos 32767

-- The `switch` on the direction; `none` is its default.
unfoldable pub with_direction : ℕ → GamepadState → Option GamepadState
with_direction d i =
    if d == 0
    then some i
    else if d == 1
    then some (record i { left_x = full_negative })
    else if d == 2
    then some (record i { left_x = full_positive })
    else if d == 3
    then some (record i { left_y = full_positive })
    else if d == 4
    then some (record i { left_y = full_negative })
    else if d == 5
    then some (record i { right_y = full_positive })
    else if d == 6
    then some (record i { right_y = full_negative })
    else none

abbrev pub with_step : StepResolution → GamepadState → GamepadState
with_step r i = record i { select_resolution = true; selected_resolution = r }

-- The `switch` on a new event; `none` is its default.
unfoldable pub with_event : ℕ → GamepadState → Option GamepadState
with_event e i =
    if e == 1
    then some (with_step mm_0_01 i)
    else if e == 2
    then some (with_step mm_0_10 i)
    else if e == 3
    then some (with_step mm_0_50 i)
    else if e == 4
    then some (with_step mm_1_00 i)
    else if e == 5
    then some (record i { cancel = true })
    else none

abbrev accept : ℕ → ℕ → GamepadState → MobileFrameResult
accept sequence profile input = record {
  accepted = true;
  error = no_error;
  sequence = sequence;
  controller_profile = profile;
  input = input;
}

or_reject : MobileFrameError → ℕ → ℕ → Option GamepadState → MobileFrameResult
or_reject e sequence profile none = reject e
or_reject e sequence profile (some input) = accept sequence profile input

abbrev pub held_input : List ℕ → ℕ → GamepadState
held_input bytes now_ms = record no_input {
  connected = true;
  sample_ms = now_ms;
  deadman = has_bits (get_or bytes 5 0) 0x01;
  rapid = has_bits (get_or bytes 5 0) 0x02;
  precision = has_bits (get_or bytes 5 0) 0x04;
}

-- From `const std::uint8_t event = data[7]` on.
consume_event :
    MobileInputSession → List ℕ → Option GamepadState → MobileFrameResult × MobileInputSession
unfolding or_reject
consume_event s bytes none = (reject invalid_direction, s)
consume_event s bytes (some input) =
    let event = get_or bytes 7 0 in
    let id = get_or bytes 6 0 in
    let sequence = frame_sequence bytes in
    let profile = get_or bytes 8 0 in
    if event == 0
    then (accept sequence profile input, s)
    else if s.has_event && id == s.last_event_sequence
    then (accept sequence profile input, s)
    else (
      or_reject invalid_event sequence profile (with_event event input),
      record s { has_event = true; last_event_sequence = id },
    )

consume_checked :
    MobileInputSession
    → List ℕ
    → ℕ
    → Option MobileFrameError
    → MobileFrameResult × MobileInputSession
unfolding consume_event
consume_checked s bytes now_ms (some e) = (reject e, s)
consume_checked s bytes now_ms none =
    let sequence = frame_sequence bytes in
    if is_replayed s sequence
    then (reject replayed_sequence, s)
    else consume_event (record s { has_sequence = true; last_sequence = sequence }) bytes
        (with_direction (get_or bytes 4 0) (held_input bytes now_ms))

-- `MobileInputSession::consume` on the buffer of its `length` bytes; `none` is the null pointer.
unfoldable pub consume :
    MobileInputSession → Option (List ℕ) → ℕ → MobileFrameResult × MobileInputSession
unfolding consume_checked
consume s none now_ms = (reject wrong_length, s)
consume s (some bytes) now_ms = consume_checked s bytes now_ms (check_frame bytes)
