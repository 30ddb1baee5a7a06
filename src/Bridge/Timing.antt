-- ===== src/Bridge/Timing.antt =====
-- The timeout, the delivery of a report and the light of the bridge.
use red_monkey_mpg_firmware.Base.{
  ℕ, ◌≤◌, true, false, Option, List, ◌≡◌, ◌⊎◌, ◌↔◌, ◌∙◌, ap, sym, arith, sub32, inl, inr,
}
use red_monkey_mpg_firmware.Keyboard.{KeyboardReport, empty_report}
use red_monkey_mpg_firmware.Usb.{
  UsbKeyboard, usb_keyboard_mounted, usb_keyboard_ready, usb_keyboard_send, report_has_key,
  same_report_iff, empty_report_no_key,
}
use red_monkey_mpg_firmware.Usb.Outputs.{same_bool}
use red_monkey_mpg_firmware.Bridge.{Bridge, consume_controller_report, stale_ms}
use red_monkey_mpg_firmware.Bridge.Loop.{service_stale_input, service_usb_keyboard, service_led}

-- The host is there and takes every report.
pub record TakesAll (u : UsbKeyboard) : Type 0 where
  pub mounted : usb_keyboard_mounted u ≡ true
  pub ready : usb_keyboard_ready u ≡ true
  pub takes : (r : KeyboardReport) → usb_keyboard_send u r ≡ true

module _ {Flash : Type 0} where
  -- After the timeout service a key is wanted only if the last report came at most 150 ms ago or at
  -- the time 0, and a key that is given up leaves re-arming required.
  pub service_stale_input_fresh :
      (now_ms : ℕ) (s : Bridge Flash)
      → (report_has_key (service_stale_input now_ms s).desired_report ≡ true
          → (s.last_valid_report_ms ≡ 0) ⊎ (sub32 now_ms s.last_valid_report_ms ≤ stale_ms))
        × (report_has_key s.desired_report ≡ true
            → report_has_key (service_stale_input now_ms s).desired_report ≡ false
            → (service_stale_input now_ms s).rearm_required ≡ true)
  unfolding service_stale_input
  service_stale_input_fresh now_ms s = ground (arith, empty_report_no_key)

  stale_zero :
      (now_ms : ℕ) (s : Bridge Flash)
      → s.last_valid_report_ms ≡ 0
      → service_stale_input now_ms s ≡ s
  unfolding service_stale_input
  stale_zero now_ms s z = ground arith

  consume_zero :
      (bytes : Option (List ℕ)) (s : Bridge Flash)
      → s.config_active ≡ false
      → s.pairing_candidate_selected ≡ false
      → (consume_controller_report bytes 0 s).last_valid_report_ms ≡ 0
  unfolding consume_controller_report
  consume_zero bytes s a c = ground arith

  -- A report that comes outside of setup when the millisecond counter stands at 0 turns the
  -- timeout off: the service changes nothing at any later time before the next report.
  pub consume_at_zero :
      (bytes : Option (List ℕ)) (later_ms : ℕ) (s : Bridge Flash)
      → s.config_active ≡ false
      → s.pairing_candidate_selected ≡ false
      → let t = consume_controller_report bytes 0 s in service_stale_input later_ms t ≡ t
  consume_at_zero bytes later_ms s a c = stale_zero later_ms _ (consume_zero bytes s a c)

  one_service :
      (u : UsbKeyboard) (s : Bridge Flash)
      → TakesAll u
      → s.was_mounted ≡ true
      → let t = (service_usb_keyboard u s).0 in
        (t.desired_report ≡ s.desired_report)
        × (t.was_mounted ≡ true)
        × (t.rearm_required ≡ s.rearm_required)
        × ((t.sent_report ≡ s.desired_report) ⊎ (t.sent_report ≡ empty_report))
        × (report_has_key s.sent_report ≡ false → t.sent_report ≡ s.desired_report)
        × (s.sent_report ≡ s.desired_report → t.sent_report ≡ s.desired_report)
  unfolding service_usb_keyboard same_bool
  one_service u s h m = ground (
    arith,
    h.mounted,
    h.ready,
    h.takes s.desired_report,
    h.takes empty_report,
    same_report_iff s.desired_report s.sent_report,
  )

  -- Two services hand over the wanted report to a host that is there, as at the last service, and
  -- takes every report: after the second one it is the report that was sent last, it is still
  -- wanted, and re-arming is required exactly if it was.
  pub two_services :
      (u : UsbKeyboard) (s : Bridge Flash)
      → TakesAll u
      → s.was_mounted ≡ true
      → let t = (service_usb_keyboard u (service_usb_keyboard u s).0).0 in
        (t.sent_report ≡ s.desired_report)
        × (t.desired_report ≡ s.desired_report)
        × (t.rearm_required ≡ s.rearm_required)
  two_services u s h m =
      let (wanted, mounted, armed, sent, _, _) = one_service u s h m in
      let t = (service_usb_keyboard u s).0 in
      let (wanted', mounted', armed', _, at_once, stays) = one_service u t h mounted in
      let arrives : (service_usb_keyboard u t).0.sent_report ≡ t.desired_report = elim sent [
        | inl e ↦ stays (e ∙ sym wanted)
        | inr e ↦ at_once (ap report_has_key e ∙ empty_report_no_key)
      ] in
      (arrives ∙ wanted, wanted' ∙ wanted, armed' ∙ armed)

  -- The light is on all the time exactly when a supported controller is connected and the output
  -- is armed.
  pub service_led_iff :
      (s : Bridge Flash)
      → ((now_ms : ℕ) → service_led now_ms s ≡ true) ↔ (
          (s.controller_connected ≡ true)
          × (s.descriptor_ready ≡ true)
          × (s.rearm_required ≡ false))
  unfolding service_led
  service_led_iff s = (λ h. ground (arith, h 200), λ h now_ms. ground arith)
