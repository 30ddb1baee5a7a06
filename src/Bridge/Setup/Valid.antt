-- ===== src/Bridge/Setup/Valid.antt =====
-- The mapping that the gamepad bridge uses is a valid one.
use red_monkey_mpg_firmware.Base.{
  ℕ, Bool, true, false, none, Option, List, [], ◌∷◌, ◌≡◌, ◌∙◌, arith, refl, All, if_both,
  if◌then◌else◌, ap, inl, inr, Bool-cases,
}
use red_monkey_mpg_firmware.Production.{ProductionMapping, validate_production_mapping, valid}
use red_monkey_mpg_firmware.Usb.{UsbKeyboard}
use red_monkey_mpg_firmware.Persistent.{Tlv, store}
use red_monkey_mpg_firmware.Persistent.Loaded.{load-valid}
use red_monkey_mpg_firmware.Bridge.{
  Platform, Bridge, call, emit_pairing_state, consume_controller_report,
}
use red_monkey_mpg_firmware.Bridge.Pairing.{
  connect_controller, begin_pairing_scan, cancel_pairing, start_pairing_scan, request_scan,
  select_pairing_candidate, confirm_pairing_candidate, fail_closed, schedule_connect,
}
use red_monkey_mpg_firmware.Bridge.Packets.{
  Packet, packet_handler, Descriptor, open_descriptor, refuse_descriptor, descriptor_available,
  report,
}
use red_monkey_mpg_firmware.Bridge.Loop.{
  service_stale_input, service_usb_keyboard, Request, serve, serve_all, service_config, save,
  save_mapping, guard_session, before_usb, main_pass, Pass, Event, packet, pass, step,
  fire_reconnect, fire_scan, start_scan, final, boot,
}
use red_monkey_mpg_firmware.Bridge.Setup.Session.{SavesValid}

-- The passes of the events save valid mappings only.
unfoldable pub EventSavesValid : Event → Type 0
EventSavesValid (pass p) = All SavesValid p.requests
EventSavesValid _ = Unit

module _ {Flash : Type 0} where
  abbrev SameMapping : Bridge Flash → Bridge Flash → Type 0
  SameMapping s t = t.production_mapping ≡ s.production_mapping

  abbrev pub UsesValid : Bridge Flash → Type 0
  UsesValid s = validate_production_mapping s.production_mapping ≡ valid

  consume-mapping :
      (bytes : Option (List ℕ)) (now_ms : ℕ) (s : Bridge Flash)
      → SameMapping s (consume_controller_report bytes now_ms s)
  unfolding consume_controller_report
  consume-mapping bytes now_ms s = ground arith

  request-mapping : (now_ms : ℕ) (s : Bridge Flash) → SameMapping s (request_scan now_ms s)
  unfolding request_scan
  request-mapping now_ms s = ground arith

  module _ (platform : Platform) where
    cancel-mapping : (s : Bridge Flash) → SameMapping s (cancel_pairing platform s)
    unfolding cancel_pairing
    cancel-mapping s = ground arith

    refuse-mapping : (s : Bridge Flash) → SameMapping s (refuse_descriptor platform s)
    unfolding refuse_descriptor
    refuse-mapping s =
        ground (arith, cancel-mapping (call (emit_pairing_state "unsupported_hid_descriptor") s))

    descriptor-mapping :
        (d : Descriptor) (s : Bridge Flash) → SameMapping s (open_descriptor platform d s)
    unfolding open_descriptor fail_closed
    descriptor-mapping d s = ground (
      arith,
      refuse-mapping (fail_closed (record s { active_profile = none; descriptor_ready = false })),
    )

    packet-mapping :
        (p : Packet) (now_ms : ℕ) (s : Bridge Flash)
        → SameMapping s (packet_handler platform p now_ms s)
    unfolding packet_handler fail_closed schedule_connect
    packet-mapping (report bytes) now_ms s = consume-mapping bytes now_ms s
    packet-mapping (descriptor_available d) now_ms s = descriptor-mapping d s
    packet-mapping p now_ms s = ground arith

    guard-mapping : (s : Bridge Flash) → SameMapping s (guard_session platform s)
    unfolding guard_session
    guard-mapping s = ground (arith, cancel-mapping s)

    module _ (tlv : Option (Tlv Flash)) where
      start-mapping :
          (now_ms : ℕ) (s : Bridge Flash) → SameMapping s (start_pairing_scan platform now_ms s)
      unfolding start_pairing_scan
      start-mapping now_ms s =
          let u = if s.pairing_candidate_selected then cancel_pairing platform s else s in
          let k : SameMapping s u =
            if_both (SameMapping s) s.pairing_candidate_selected (cancel_pairing platform s) s
              (cancel-mapping s) refl in
          request-mapping now_ms u ∙ k

      save-UsesValid :
          (m : ProductionMapping) (s : Bridge Flash)
          → validate_production_mapping m ≡ valid
          → UsesValid s
          → UsesValid (save platform tlv m s)
      unfolding save
      save-UsesValid m s h k = elim (Bool-cases (store tlv m s.flash s.persistent_config).0) [
        | inl e ↦ rw e h
        | inr e ↦ rw e k
      ]

      serve-UsesValid :
          (q : Request) (s : Bridge Flash)
          → SavesValid q
          → UsesValid s
          → UsesValid (serve platform tlv q s)
      unfolding serve SavesValid select_pairing_candidate confirm_pairing_candidate
      serve-UsesValid (save_mapping m) s h k = save-UsesValid m s h k
      serve-UsesValid (start_scan now_ms) s h k =
          ap validate_production_mapping (start-mapping now_ms s) ∙ k
      serve-UsesValid q s h k = ground (arith, cancel-mapping s)

      serve_all-UsesValid :
          (qs : List Request) (s : Bridge Flash)
          → All SavesValid qs
          → UsesValid s
          → UsesValid (serve_all platform tlv qs s)
      unfolding serve_all
      serve_all-UsesValid [] s h k = k
      serve_all-UsesValid (q ∷ qs) s h k =
          serve_all-UsesValid qs (serve platform tlv q s) h.1 (serve-UsesValid q s h.0 k)

      config-UsesValid :
          (b : Bool) (qs : List Request) (s : Bridge Flash)
          → All SavesValid qs
          → UsesValid s
          → UsesValid (service_config platform tlv b qs s)
      unfolding service_config
      config-UsesValid true qs s h k =
          serve_all-UsesValid qs (record s { config_active = true }) h k
      config-UsesValid false qs s h k = k

      usb-mapping :
          (u : UsbKeyboard) (s : Bridge Flash) → SameMapping s (service_usb_keyboard u s).0
      unfolding service_usb_keyboard
      usb-mapping u s = ground arith

      stale-mapping : (now_ms : ℕ) (s : Bridge Flash) → SameMapping s (service_stale_input now_ms s)
      unfolding service_stale_input
      stale-mapping now_ms s = ground arith

      pass-UsesValid :
          (p : Pass) (s : Bridge Flash)
          → All SavesValid p.requests
          → UsesValid s
          → UsesValid (main_pass platform tlv p s).0
      unfolding main_pass before_usb
      pass-UsesValid p s h k =
          let served = service_config platform tlv p.config_connected p.requests s in
          let guarded = guard_session platform served in
          let same =
            usb-mapping p.usb (service_stale_input p.now_ms guarded)
            ∙ stale-mapping p.now_ms guarded
            ∙ guard-mapping served in
          ap validate_production_mapping same ∙ config-UsesValid p.config_connected p.requests s h k

      step-UsesValid :
          (e : Event) (s : Bridge Flash)
          → EventSavesValid e
          → UsesValid s
          → UsesValid (step platform tlv e s).0
      unfolding step EventSavesValid fire_reconnect fire_scan connect_controller begin_pairing_scan
      step-UsesValid (packet p now_ms) s h k =
          ap validate_production_mapping (packet-mapping p now_ms s) ∙ k
      step-UsesValid (pass p) s h k = pass-UsesValid p s h k
      step-UsesValid e s h k = ground (arith, k)

      final-UsesValid :
          (es : List Event) (s : Bridge Flash)
          → All EventSavesValid es
          → UsesValid s
          → UsesValid (final platform tlv es s)
      unfolding final
      final-UsesValid [] s h k = k
      final-UsesValid (e ∷ es) s h k =
          final-UsesValid es (step platform tlv e s).0 h.1 (step-UsesValid e s h.0 k)

-- From the start of the program, with anything in the flash and over any events whose setup
-- requests save valid mappings only, the mapping that the bridge uses passes the validation.
pub boot-UsesValid :
    {Flash : Type 0} (platform : Platform) (tlv : Option (Tlv Flash)) (flash : Flash)
    (es : List Event)
    → All EventSavesValid es
    → UsesValid (final platform tlv es (boot platform tlv flash))
unfolding boot
boot-UsesValid platform tlv flash es h =
    final-UsesValid platform tlv es (boot platform tlv flash) h (load-valid tlv flash)
