-- ===== src/Mobile/Frame.antt =====
-- Which frames a session accepts, and what it reads from them.
use red_monkey_mpg_firmware.Base.{
  ℕ, ◌+◌, ◌-◌, ◌/◌, ◌%◌, ◌≤◌, ◌<◌, true, false, not, ◌&&◌, ◌||◌, Option, none, some, List, ◌==◌,
  ltb, bit_and, has_bits, length, get_or, ◌≡◌, ◌↔◌, inl, inr, arith, refl, ap, Option-cases,
}
use red_monkey_mpg_firmware.Base.Table.{same, same_sound, holds_below, holds_below_at}
use red_monkey_mpg_firmware.Mobile.{
  MobileFrameError, MobileInputSession, reject, mobile_crc8, with_direction, with_event,
  check_frame, frame_sequence, is_replayed, consume, replayed_sequence, wrong_length,
}

flags_table :
    holds_below 256 (λ f. same (has_bits f 0xf8 || bit_and f 0x06 == 0x06) (ltb 5 f)) ≡ true
unfolding holds_below
flags_table = refl

-- Reserved flags, or both rates at once, are exactly the bytes from 6 on.
flags_lem : (f : ℕ) → f < 256 → (has_bits f 0xf8 || bit_and f 0x06 == 0x06) ≡ ltb 5 f
flags_lem f h = same_sound _ _ (holds_below_at _ 256 f flags_table h)

pub held_table :
    holds_below 256 (λ f.
      same (has_bits f 0x01) (f % 2 == 1)
      && same (has_bits f 0x02) (f / 2 % 2 == 1)
      && same (has_bits f 0x04) (f / 4 % 2 == 1))
    ≡ true
unfolding holds_below
held_table = refl

-- A frame of ten bytes with the magic, the version, its check byte, the supported profile, and
-- flags, direction and event in range; flags above 5 are reserved or name both rates.
pub record IsFrame (bytes : List ℕ) : Type 0 where
  pub ten : length bytes ≡ 10
  pub magic : get_or bytes 0 0 ≡ 0x52
  pub version : get_or bytes 1 0 ≡ 2
  pub checked : mobile_crc8 bytes 9 ≡ get_or bytes 9 0
  pub profile : get_or bytes 8 0 ≡ 1
  pub flags : get_or bytes 5 0 ≤ 5
  pub direction : get_or bytes 4 0 ≤ 6
  pub event : get_or bytes 7 0 ≤ 5

check_frame_iff :
    (bytes : List ℕ) → get_or bytes 5 0 < 256 → (check_frame bytes ≡ none) ↔ IsFrame bytes
unfolding check_frame
check_frame_iff bytes h = (
  λ e. ground (arith, flags_lem (get_or bytes 5 0) h),
  λ f. ground (arith, flags_lem (get_or bytes 5 0) h),
)

-- A sequence number is newer by serial-number arithmetic: ahead by 1 to 32767, modulo 2^16.
abbrev pub IsNewer : MobileInputSession → ℕ → Type 0
IsNewer s sequence =
    s.has_sequence ≡ true
    → (1 ≤ (sequence + 65536 - s.last_sequence) % 65536)
      × ((sequence + 65536 - s.last_sequence) % 65536 ≤ 32767)

consume-none :
    (s : MobileInputSession) (bytes : List ℕ) (now_ms : ℕ)
    → check_frame bytes ≡ none
    → get_or bytes 4 0 ≤ 6
    → get_or bytes 7 0 ≤ 5
    → ((consume s (some bytes) now_ms).0.accepted ≡ not (is_replayed s (frame_sequence bytes)))
      × ((consume s (some bytes) now_ms).0.accepted ≡ false
          → consume s (some bytes) now_ms ≡ (reject replayed_sequence, s))
unfolding consume with_direction with_event
consume-none s bytes now_ms e d v = ground arith

pub consume-some :
    (s : MobileInputSession) (bytes : List ℕ) (now_ms : ℕ) (e : MobileFrameError)
    → check_frame bytes ≡ some e
    → consume s (some bytes) now_ms ≡ (reject e, s)
unfolding consume
consume-some s bytes now_ms e h = ground arith

pub is_replayed_iff :
    (s : MobileInputSession) (sequence : ℕ) → (is_replayed s sequence ≡ false) ↔ IsNewer s sequence
is_replayed_iff s sequence = ground arith

pub check_frame_range :
    (bytes : List ℕ) → check_frame bytes ≡ none → (get_or bytes 4 0 ≤ 6) × (get_or bytes 7 0 ≤ 5)
unfolding check_frame
check_frame_range bytes h = ground arith

-- A session accepts a buffer whose byte 5 is a byte exactly when it is a well-formed frame with a
-- newer sequence number in serial-number arithmetic.
pub consume-accepted_iff :
    (s : MobileInputSession) (bytes : List ℕ) (now_ms : ℕ)
    → get_or bytes 5 0 < 256
    → ((consume s (some bytes) now_ms).0.accepted ≡ true)
      ↔ (IsFrame bytes × IsNewer s (frame_sequence bytes))
consume-accepted_iff s bytes now_ms h = elim (Option-cases (check_frame bytes)) [
  | inl e ↦
      let (d, v) = check_frame_range bytes e in
      let (accepts, _) = consume-none s bytes now_ms e d v in
      let newer = is_replayed_iff s (frame_sequence bytes) in
      (
        λ a. ((check_frame_iff bytes h).0 e, newer.0 (ground arith)),
        λ f. ground (arith, newer.1 f.1),
      )
  | inr (e, bad) ↦
      let refused = consume-some s bytes now_ms e bad in
      (λ a. ground arith, λ f. ground (arith, (check_frame_iff bytes h).1 f.0))
]

-- A buffer that is not accepted leaves the session as it was, and the result is the rejection with
-- some error.
pub consume-refused :
    (s : MobileInputSession) (frame : Option (List ℕ)) (now_ms : ℕ)
    → (consume s frame now_ms).0.accepted ≡ false
    → ((consume s frame now_ms).1 ≡ s)
      × ((e : MobileFrameError) × ((consume s frame now_ms).0 ≡ reject e))
consume-refused s none now_ms h = (unfold consume in refl, (wrong_length, unfold consume in refl))
consume-refused s (some bytes) now_ms h = elim (Option-cases (check_frame bytes)) [
  | inl e ↦
      let (d, v) = check_frame_range bytes e in
      let (_, refused) = consume-none s bytes now_ms e d v in
      (ap (λ r. r.1) (refused h), (replayed_sequence, ap (λ r. r.0) (refused h)))
  | inr (e, bad) ↦
      let refused = consume-some s bytes now_ms e bad in
      (ap (λ r. r.1) refused, (e, ap (λ r. r.0) refused))
]
