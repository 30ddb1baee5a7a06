-- ===== src/Bridge/Chord.antt =====
-- What the events other than a gamepad report do to the confirmation chord of a pairing.
pub mod Held
pub mod Mask
use red_monkey_mpg_firmware.Base.{
  ℕ, ◌≤◌, Bool, true, false, not, ◌&&◌, ◌||◌, leb, Option, none, List, [], ◌∷◌, ◌++◌, ◌==◌, ◌≡◌,
  ◌⊎◌, ◌∙◌, arith, refl, inl, inr, if◌then◌else◌, is_some, sub32, has_bits, Bool-cases,
}
use red_monkey_mpg_firmware.Types.{GamepadState}
use red_monkey_mpg_firmware.Usb.{UsbKeyboard}
use red_monkey_mpg_firmware.Persistent.{Tlv}
use red_monkey_mpg_firmware.Bridge.{
  Platform, Bridge, call, emit_pairing_state, consume_controller_report, parse_with, take_input,
  watch_chord, confirmation_chord, chord_hold_ms, lose_input,
}
use red_monkey_mpg_firmware.Bridge.Pairing.{
  Status, connect_controller, begin_pairing_scan, cancel_pairing, start_pairing_scan, request_scan,
  select_pairing_candidate, confirm_pairing_candidate, fail_closed, schedule_connect,
}
use red_monkey_mpg_firmware.Bridge.Packets.{
  Packet, packet_handler, Descriptor, open_descriptor, refuse_descriptor, descriptor_available,
  report,
}
use red_monkey_mpg_firmware.Bridge.Loop.{
  service_stale_input, service_usb_keyboard, Request, start_scan, select_candidate, confirm_pairing,
  cancel_request, save_mapping, serve, serve_all, service_config, guard_session, before_usb,
  main_pass, Pass, Event, packet, reconnect, scan, pass, step, boot, fire_reconnect, fire_scan,
}
use red_monkey_mpg_firmware.Bridge.Silent.{mapped_input}
use red_monkey_mpg_firmware.Bridge.Kept.{IsNoReport}

module _ {Flash : Type 0} where
  abbrev pub IsReset : Bridge Flash → Type 0
  IsReset t = (t.pairing_chord_started_ms ≡ 0) × (t.pairing_chord_confirmed ≡ false)

  -- The chord is as it was, or forgotten.
  abbrev pub ChordKept : Bridge Flash → Bridge Flash → Type 0
  ChordKept s t =
      ((t.pairing_chord_started_ms ≡ s.pairing_chord_started_ms)
        × (t.pairing_chord_confirmed ≡ s.pairing_chord_confirmed))
      ⊎ IsReset t

  ChordKept-trans : (s t u : Bridge Flash) → ChordKept s t → ChordKept t u → ChordKept s u
  ChordKept-trans s t u h k = ground arith

  pub connect_chord :
      (answer : Status × ℕ) (s : Bridge Flash) → ChordKept s (connect_controller answer s)
  unfolding connect_controller
  connect_chord answer s = ground arith

  pub begin_chord :
      (status : Status) (now_ms : ℕ) (s : Bridge Flash)
      → ChordKept s (begin_pairing_scan status now_ms s)
  unfolding begin_pairing_scan
  begin_chord status now_ms s = ground arith

  module _ (platform : Platform) where
    cancel_chord : (s : Bridge Flash) → IsReset (cancel_pairing platform s)
    unfolding cancel_pairing
    cancel_chord s = ground arith

    refuse_chord : (s : Bridge Flash) → ChordKept s (refuse_descriptor platform s)
    unfolding refuse_descriptor
    refuse_chord s =
        ground (arith, cancel_chord (call (emit_pairing_state "unsupported_hid_descriptor") s))

    pub packet_chord :
        (p : Packet) (now_ms : ℕ) (s : Bridge Flash)
        → IsNoReport p
        → ChordKept s (packet_handler platform p now_ms s)
    unfolding packet_handler fail_closed schedule_connect open_descriptor
    packet_chord (report bytes) now_ms s n = absurd n
    packet_chord (descriptor_available d) now_ms s n = ground (
      arith,
      refuse_chord (fail_closed (record s { active_profile = none; descriptor_ready = false })),
    )
    packet_chord p now_ms s n = ground arith

    guard_chord : (s : Bridge Flash) → ChordKept s (guard_session platform s)
    unfolding guard_session
    guard_chord s = ground (arith, cancel_chord s)

    module _ (tlv : Option (Tlv Flash)) where
      serve_chord : (r : Request) (s : Bridge Flash) → ChordKept s (serve platform tlv r s)
      unfolding serve start_pairing_scan request_scan select_pairing_candidate
          confirm_pairing_candidate
      serve_chord cancel_request s = inr (cancel_chord s)
      serve_chord r s = ground arith

      serve_all_chord :
          (rs : List Request) (s : Bridge Flash) → ChordKept s (serve_all platform tlv rs s)
      unfolding serve_all
      serve_all_chord [] s = inl (refl, refl)
      serve_all_chord (r ∷ rs) s =
          ChordKept-trans s (serve platform tlv r s) (serve_all platform tlv (r ∷ rs) s)
            (serve_chord r s) (serve_all_chord rs (serve platform tlv r s))

      config_chord :
          (b : Bool) (rs : List Request) (s : Bridge Flash)
          → ChordKept s (service_config platform tlv b rs s)
      unfolding service_config
      config_chord true rs s = serve_all_chord rs (record s { config_active = true })
      config_chord false rs s = inl (refl, refl)

      stale_chord : (now_ms : ℕ) (s : Bridge Flash) → ChordKept s (service_stale_input now_ms s)
      unfolding service_stale_input
      stale_chord now_ms s = ground arith

      usb_chord : (u : UsbKeyboard) (s : Bridge Flash) → ChordKept s (service_usb_keyboard u s).0
      unfolding service_usb_keyboard
      usb_chord u s = ground arith

      before_usb_chord : (p : Pass) (s : Bridge Flash) → ChordKept s (before_usb platform tlv p s)
      unfolding before_usb
      before_usb_chord p s =
          let a = service_config platform tlv p.config_connected p.requests s in
          let b = guard_session platform a in
          ChordKept-trans s b (service_stale_input p.now_ms b)
            (ChordKept-trans s a b (config_chord p.config_connected p.requests s) (guard_chord a))
            (stale_chord p.now_ms b)

      pub pass_chord : (p : Pass) (s : Bridge Flash) → ChordKept s (main_pass platform tlv p s).0
      unfolding main_pass
      pass_chord p s =
          let a = before_usb platform tlv p s in
          ChordKept-trans s a (service_usb_keyboard p.usb a).0 (before_usb_chord p s)
            (usb_chord p.usb a)
