-- ===== src/Bridge/Silent.antt =====
-- When the bridge sends no key at all: until neutral controls arm it, and through a setup session.
use red_monkey_mpg_firmware.Base.{
  ℕ, Bool, true, false, not, ◌&&◌, Option, none, List, [], ◌∙◌, ◌∷◌, ◌≡◌, arith, All,
}
use red_monkey_mpg_firmware.Types.{GamepadState}
use red_monkey_mpg_firmware.Production.{apply_production_mapping}
use red_monkey_mpg_firmware.Usb.{UsbKeyboard}
use red_monkey_mpg_firmware.Usb.Outputs.{HasNoKey, All-append}
use red_monkey_mpg_firmware.Persistent.{Tlv}
use red_monkey_mpg_firmware.Bridge.{
  Platform, Bridge, consume_controller_report, parse_with, controls_are_safe_to_arm,
}
use red_monkey_mpg_firmware.Bridge.Packets.{Packet, packet_handler, report}
use red_monkey_mpg_firmware.Bridge.Loop.{
  service_stale_input, service_usb_keyboard, Request, service_config, guard_session, before_usb,
  main_pass, Pass, Event, packet, reconnect, scan, pass, step,
}
use red_monkey_mpg_firmware.Bridge.Lock.{IsLocked, step-IsLocked, before_usb-IsLocked}
use red_monkey_mpg_firmware.Bridge.Kept.{
  connect_controller-Kept, begin_pairing_scan-Kept, cancel_pairing-Kept, packet_handler-Kept,
  serve_all-Kept,
}
use red_monkey_mpg_firmware.Bridge.Keys.{usb_silent, outputs, run}

-- Every pass finds the setup port open.
abbrev pub IsOpen : Event → Type 0
IsOpen (pass p) = p.config_connected ≡ true
IsOpen _ = Unit

module _ {Flash : Type 0} where
  -- The control state that the profile and the mapping make of a report.
  abbrev pub mapped_input : Option (List ℕ) → ℕ → Bridge Flash → GamepadState
  mapped_input bytes now_ms s =
      apply_production_mapping (parse_with s.active_profile bytes now_ms).1 s.production_mapping

  packet_arms : Packet → ℕ → Bridge Flash → Bool
  packet_arms (report bytes) now_ms s =
      not s.config_active
      && not s.pairing_candidate_selected
      && (parse_with s.active_profile bytes now_ms).0
      && controls_are_safe_to_arm (mapped_input bytes now_ms s)
  packet_arms _ now_ms s = false

  -- A report that is read, with the dead-man released and the sticks centered, outside of a setup
  -- session and with no candidate selected.
  unfoldable pub arms : Event → Bridge Flash → Bool
  unfolding packet_arms
  arms (packet p now_ms) s = packet_arms p now_ms s
  arms _ s = false

  consume_locked :
      (bytes : Option (List ℕ)) (now_ms : ℕ) (s : Bridge Flash)
      → s.rearm_required ≡ true
      → packet_arms (report bytes) now_ms s ≡ false
      → (consume_controller_report bytes now_ms s).rearm_required ≡ true
  unfolding packet_arms consume_controller_report
  consume_locked bytes now_ms s n h = ground arith

  usb_locked :
      (u : UsbKeyboard) (s : Bridge Flash)
      → s.rearm_required ≡ true
      → (service_usb_keyboard u s).0.rearm_required ≡ true
  unfolding service_usb_keyboard
  usb_locked u s n = ground arith

  module _ (platform : Platform) (tlv : Option (Tlv Flash)) where
    packet_locked :
        (p : Packet) (now_ms : ℕ) (s : Bridge Flash)
        → s.rearm_required ≡ true
        → packet_arms p now_ms s ≡ false
        → (packet_handler platform p now_ms s).rearm_required ≡ true
    unfolding packet_handler
    packet_locked (report bytes) now_ms s n h = consume_locked bytes now_ms s n h
    packet_locked p now_ms s n h = (packet_handler-Kept platform p now_ms s tt).locked n

    config_locked :
        (b : Bool) (rs : List Request) (s : Bridge Flash)
        → s.rearm_required ≡ true
        → (service_config platform tlv b rs s).rearm_required ≡ true
    unfolding service_config
    config_locked true rs s n =
        (serve_all-Kept platform tlv rs (record s { config_active = true })).locked n
    config_locked false rs s n = n

    guard_locked :
        (s : Bridge Flash)
        → s.rearm_required ≡ true
        → (guard_session platform s).rearm_required ≡ true
    unfolding guard_session
    guard_locked s n = ground (arith, cancel_pairing-Kept platform s)

    before_usb_locked :
        (p : Pass) (s : Bridge Flash)
        → s.rearm_required ≡ true
        → (before_usb platform tlv p s).rearm_required ≡ true
    unfolding before_usb service_stale_input
    before_usb_locked p s n = ground (
      arith,
      config_locked p.config_connected p.requests s n,
      guard_locked (service_config platform tlv p.config_connected p.requests s),
    )

    step_locked :
        (e : Event) (s : Bridge Flash)
        → s.rearm_required ≡ true
        → arms e s ≡ false
        → (step platform tlv e s).0.rearm_required ≡ true
    unfolding step arms main_pass
    step_locked (packet p now_ms) s n h = packet_locked p now_ms s n h
    step_locked (reconnect answer) s n h =
        ground (arith, connect_controller-Kept answer (record s { reconnect_timer = none }))
    step_locked (scan status now_ms) s n h =
        ground
          (arith, begin_pairing_scan-Kept status now_ms (record s { pairing_scan_timer = none }))
    step_locked (pass p) s n h = usb_locked p.usb _ (before_usb_locked p s n)

    outputs_silent :
        (e : Event) (s : Bridge Flash)
        → IsLocked s
        → s.rearm_required ≡ true
        → All HasNoKey (outputs platform tlv e s)
    unfolding outputs
    outputs_silent (pass p) s l n =
        usb_silent p.usb _
          ((before_usb-IsLocked platform tlv p s l).no_key (before_usb_locked p s n))
    outputs_silent _ s l n = tt

    -- No event of the run arms the bridge.
    abbrev pub NeverArms : Bridge Flash → List Event → Type 0
    NeverArms s [] = Unit
    NeverArms s (e ∷ es) = (arms e s ≡ false) × NeverArms (step platform tlv e s).0 es

    -- A bridge that requires re-arming and keeps the lock invariant sends no key over any sequence
    -- of events until a report arms it: one that the profile reads, with the dead-man released and
    -- the sticks centered, outside of a setup session and with no candidate selected.
    pub unarmed_silent :
        (es : List Event) (s : Bridge Flash)
        → IsLocked s
        → s.rearm_required ≡ true
        → NeverArms s es
        → All HasNoKey (run platform tlv s es)
    unfolding run
    unarmed_silent [] s l n h = tt
    unarmed_silent (e ∷ es) s l n h =
        All-append (outputs platform tlv e s) _ (outputs_silent e s l n) (
          unarmed_silent es (step platform tlv e s).0 (step-IsLocked platform tlv e s l)
            (step_locked e s n h.0) h.1)

    config_active_lem :
        (rs : List Request) (s : Bridge Flash)
        → (service_config platform tlv true rs s).config_active ≡ true
    unfolding service_config
    config_active_lem rs s =
        (serve_all-Kept platform tlv rs (record s { config_active = true })).active

    session_locked :
        (p : Pass) (s : Bridge Flash)
        → p.config_connected ≡ true
        → (before_usb platform tlv p s).rearm_required ≡ true
    unfolding before_usb service_stale_input guard_session
    session_locked p s h = rw h (ground (arith, config_active_lem p.requests s))

    usb_active :
        (u : UsbKeyboard) (s : Bridge Flash)
        → (service_usb_keyboard u s).0.config_active ≡ s.config_active
    unfolding service_usb_keyboard
    usb_active u s = ground arith

    pass_active :
        (p : Pass) (s : Bridge Flash)
        → p.config_connected ≡ true
        → (step platform tlv (pass p) s).0.config_active ≡ true
    unfolding step main_pass before_usb service_stale_input guard_session
    pass_active p s h = usb_active p.usb _ ∙ (rw h (ground (arith, config_active_lem p.requests s)))

    consume_active :
        (bytes : Option (List ℕ)) (now_ms : ℕ) (s : Bridge Flash)
        → (consume_controller_report bytes now_ms s).config_active ≡ s.config_active
    unfolding consume_controller_report
    consume_active bytes now_ms s = ground arith

    packet_active :
        (p : Packet) (now_ms : ℕ) (s : Bridge Flash)
        → (packet_handler platform p now_ms s).config_active ≡ s.config_active
    unfolding packet_handler
    packet_active (report bytes) now_ms s = consume_active bytes now_ms s
    packet_active p now_ms s = (packet_handler-Kept platform p now_ms s tt).active

    step_active :
        (e : Event) (s : Bridge Flash)
        → s.config_active ≡ true
        → IsOpen e
        → (step platform tlv e s).0.config_active ≡ true
    unfolding step
    step_active (pass p) s a h = pass_active p s h
    step_active (packet p now_ms) s a h = packet_active p now_ms s ∙ a
    step_active (reconnect answer) s a h =
        ground (arith, connect_controller-Kept answer (record s { reconnect_timer = none }))
    step_active (scan status now_ms) s a h =
        ground
          (arith, begin_pairing_scan-Kept status now_ms (record s { pairing_scan_timer = none }))

    arms_active : (e : Event) (s : Bridge Flash) → s.config_active ≡ true → arms e s ≡ false
    unfolding arms
    arms_active e s a = ground arith

    open_NeverArms :
        (es : List Event) (s : Bridge Flash)
        → s.config_active ≡ true
        → All IsOpen es
        → NeverArms s es
    open_NeverArms [] s a h = tt
    open_NeverArms (e ∷ es) s a h =
        (arms_active e s a, open_NeverArms es _ (step_active e s a h.0) h.1)

    -- From a pass that finds the setup port open on, in a state with the lock invariant, no key is
    -- sent for as long as every pass finds it open, whatever else happens.
    pub session_silent :
        (p : Pass) (es : List Event) (s : Bridge Flash)
        → IsLocked s
        → p.config_connected ≡ true
        → All IsOpen es
        → All HasNoKey (run platform tlv s (pass p ∷ es))
    unfolding run outputs step main_pass
    session_silent p es s l h k =
        All-append (outputs platform tlv (pass p) s) _
          (usb_silent p.usb _
            ((before_usb-IsLocked platform tlv p s l).no_key (session_locked p s h)))
          (unarmed_silent es _ (step-IsLocked platform tlv (pass p) s l)
            (usb_locked p.usb _ (session_locked p s h)) (open_NeverArms es _ (pass_active p s h) k))
