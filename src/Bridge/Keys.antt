-- ===== src/Bridge/Keys.antt =====
-- The reports that the bridge hands to the host over any sequence of events.
use mathlib.Core.Path.{subst}
use red_monkey_mpg_firmware.Base.{
  ℕ, Bool, true, false, Option, none, List, [], ◌∷◌, ◌++◌, if◌then◌else◌, ◌≡◌, inl, inr, arith,
  refl, Bool-cases, ap, ◌∙◌, sym, All,
}
use red_monkey_mpg_firmware.Keyboard.{KeyboardReport, empty_report}
use red_monkey_mpg_firmware.Usb.{UsbKeyboard, usb_keyboard_mounted, empty_report_no_key}
use red_monkey_mpg_firmware.Usb.Outputs.{
  same_bool, Output, mount_changed, taken_report, Separated, held, Separated-append, HasNoKey,
}
use red_monkey_mpg_firmware.Persistent.{Tlv}
use red_monkey_mpg_firmware.Bridge.{Platform, Bridge, consume_controller_report}
use red_monkey_mpg_firmware.Bridge.Packets.{Packet, packet_handler, report}
use red_monkey_mpg_firmware.Bridge.Loop.{
  service_stale_input, service_usb_keyboard, note_mount, service_mounted, Request, service_config,
  guard_session, before_usb, main_pass, Pass, Event, packet, reconnect, scan, pass, step, boot,
}
use red_monkey_mpg_firmware.Bridge.Kept.{
  connect_controller-Kept, begin_pairing_scan-Kept, cancel_pairing-Kept, packet_handler-Kept,
  serve_all-Kept,
}

module _ {Flash : Type 0} where
  unfoldable pub usb_outputs : UsbKeyboard → Bridge Flash → List Output
  usb_outputs u s =
      let sent = taken_report (service_usb_keyboard u s).1 in
      if same_bool (usb_keyboard_mounted u) s.was_mounted then sent else mount_changed ∷ sent

  -- The mounted half of the service.
  mounted-Separated :
      (u : UsbKeyboard) (s : Bridge Flash)
      → Separated s.sent_report (taken_report (service_mounted u s).1)
        × (held s.sent_report (taken_report (service_mounted u s).1)
            ≡ (service_mounted u s).0.sent_report)
  unfolding service_mounted taken_report
  mounted-Separated u s = ground (arith, empty_report_no_key)

  note_mount_sent :
      (u : UsbKeyboard) (s : Bridge Flash)
      → (note_mount u s).sent_report
        ≡ (if same_bool (usb_keyboard_mounted u) s.was_mounted then s.sent_report else empty_report)
  unfolding note_mount
  note_mount_sent u s = ground arith

  service_usb_keyboard_lem :
      (u : UsbKeyboard) (s : Bridge Flash)
      → service_usb_keyboard u s ≡ service_mounted u (note_mount u s)
  unfolding service_usb_keyboard
  service_usb_keyboard_lem u s = refl

  usb-Separated :
      (u : UsbKeyboard) (s : Bridge Flash)
      → Separated s.sent_report (usb_outputs u s)
        × (held s.sent_report (usb_outputs u s) ≡ (service_usb_keyboard u s).0.sent_report)
  unfolding usb_outputs
  usb-Separated u s =
      let part = mounted-Separated u (note_mount u s) in
      let sent = note_mount_sent u s in
      let choose = λ (b : Bool). if b then s.sent_report else empty_report in
      let (after, attempt) = service_mounted u (note_mount u s) in
      let follows = λ (last : KeyboardReport).
        Separated last (taken_report attempt)
        × (held last (taken_report attempt) ≡ after.sent_report) in
      elim (Bool-cases (same_bool (usb_keyboard_mounted u) s.was_mounted)) [
        | inl e ↦ rw (e, service_usb_keyboard_lem) (subst follows (sent ∙ ap choose e) part)
        | inr e ↦ rw (e, service_usb_keyboard_lem) (subst follows (sent ∙ ap choose e) part)
      ]

  mounted_silent :
      (u : UsbKeyboard) (s : Bridge Flash)
      → s.desired_report ≡ empty_report
      → All HasNoKey (taken_report (service_mounted u s).1)
  unfolding service_mounted taken_report
  mounted_silent u s e = ground (arith, empty_report_no_key)

  note_mount_silent :
      (u : UsbKeyboard) (s : Bridge Flash)
      → s.desired_report ≡ empty_report
      → (note_mount u s).desired_report ≡ empty_report
  unfolding note_mount
  note_mount_silent u s e = ground arith

  pub usb_silent :
      (u : UsbKeyboard) (s : Bridge Flash)
      → s.desired_report ≡ empty_report
      → All HasNoKey (usb_outputs u s)
  unfolding usb_outputs
  usb_silent u s e =
      let quiet = mounted_silent u (note_mount u s) (note_mount_silent u s e) in
      elim (Bool-cases (same_bool (usb_keyboard_mounted u) s.was_mounted)) [
        | inl t ↦ rw (t, service_usb_keyboard_lem) quiet
        | inr t ↦ rw (t, service_usb_keyboard_lem) (tt, quiet)
      ]

  consume_sent :
      (bytes : Option (List ℕ)) (now_ms : ℕ) (s : Bridge Flash)
      → (consume_controller_report bytes now_ms s).sent_report ≡ s.sent_report
  unfolding consume_controller_report
  consume_sent bytes now_ms s = ground arith

  module _ (platform : Platform) where
    packet_sent :
        (p : Packet) (now_ms : ℕ) (s : Bridge Flash)
        → (packet_handler platform p now_ms s).sent_report ≡ s.sent_report
    unfolding packet_handler
    packet_sent (report bytes) now_ms s = consume_sent bytes now_ms s
    packet_sent p now_ms s = (packet_handler-Kept platform p now_ms s tt).sent

    guard_sent : (s : Bridge Flash) → (guard_session platform s).sent_report ≡ s.sent_report
    unfolding guard_session
    guard_sent s = ground (arith, cancel_pairing-Kept platform s)

    module _ (tlv : Option (Tlv Flash)) where
      config_sent :
          (b : Bool) (rs : List Request) (s : Bridge Flash)
          → (service_config platform tlv b rs s).sent_report ≡ s.sent_report
      unfolding service_config
      config_sent true rs s =
          (serve_all-Kept platform tlv rs (record s { config_active = true })).sent
      config_sent false rs s = refl

      before_usb_sent :
          (p : Pass) (s : Bridge Flash) → (before_usb platform tlv p s).sent_report ≡ s.sent_report
      unfolding before_usb service_stale_input
      before_usb_sent p s = ground (
        arith,
        config_sent p.config_connected p.requests s,
        guard_sent (service_config platform tlv p.config_connected p.requests s),
      )

      -- What the host sees of an event.
      unfoldable pub outputs : Event → Bridge Flash → List Output
      unfolding usb_outputs
      outputs (pass p) s = usb_outputs p.usb (before_usb platform tlv p s)
      outputs _ s = []

      -- All outputs of a sequence of events, in order.
      unfoldable pub run : Bridge Flash → List Event → List Output
      run s [] = []
      run s (e ∷ es) = outputs e s ++ run (step platform tlv e s).0 es

      step-Separated :
          (e : Event) (s : Bridge Flash)
          → Separated s.sent_report (outputs e s)
            × (held s.sent_report (outputs e s) ≡ (step platform tlv e s).0.sent_report)
      unfolding outputs step main_pass
      step-Separated (packet p now_ms) s = (tt, sym (packet_sent p now_ms s))
      step-Separated (reconnect answer) s =
          (tt, ground (arith, connect_controller-Kept answer (record s { reconnect_timer = none })))
      step-Separated (scan status now_ms) s = (
        tt,
        ground
            (arith, begin_pairing_scan-Kept status now_ms (record s { pairing_scan_timer = none })),
      )
      step-Separated (pass p) s =
          let follows = λ (last : KeyboardReport).
            Separated last (usb_outputs p.usb (before_usb platform tlv p s))
            × (held last (usb_outputs p.usb (before_usb platform tlv p s))
                ≡ (service_usb_keyboard p.usb (before_usb platform tlv p s)).0.sent_report) in
          subst follows (before_usb_sent p s) (usb-Separated p.usb (before_usb platform tlv p s))

      reports-Separated_from :
          (es : List Event) (s : Bridge Flash) → Separated s.sent_report (run s es)
      unfolding run
      reports-Separated_from [] s = tt
      reports-Separated_from (e ∷ es) s =
          let (here, last) = step-Separated e s in
          Separated-append s.sent_report (outputs e s) _ here
            (rw last (reports-Separated_from es (step platform tlv e s).0))

      -- From the start of the program, over any sequence of packets, timers and passes of the main
      -- loop: of two reports that the host takes one after the other without a change of the mount
      -- state between them, at most one has a key.
      pub reports-Separated :
          (flash : Flash) (es : List Event)
          → Separated empty_report (run (boot platform tlv flash) es)
      unfolding boot
      reports-Separated flash es = reports-Separated_from es (boot platform tlv flash)
