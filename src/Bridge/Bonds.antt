-- ===== src/Bridge/Bonds.antt =====
-- Which controllers may make a new bond with the bridge.
use red_monkey_mpg_firmware.Base.{
  ℕ, Bool, true, false, ◌&&◌, none, Option, List, [], ◌∷◌, ◌++◌, ◌==◌, ◌≡◌, ◌∙◌, arith, refl,
  if_both, if◌then◌else◌,
}
use red_monkey_mpg_firmware.Usb.{UsbKeyboard}
use red_monkey_mpg_firmware.Persistent.{Tlv}
use red_monkey_mpg_firmware.Bridge.{
  Platform, Bridge, Call, gap_ssp_confirmation_response, call, emit_pairing_state,
  consume_controller_report,
}
use red_monkey_mpg_firmware.Bridge.Pairing.{
  connect_controller, begin_pairing_scan, cancel_pairing, start_pairing_scan, request_scan,
  select_pairing_candidate, confirm_pairing_candidate, fail_closed, schedule_connect,
}
use red_monkey_mpg_firmware.Bridge.Packets.{
  Packet, packet_handler, Descriptor, open_descriptor, refuse_descriptor, descriptor_available,
  user_confirmation_request, report,
}
use red_monkey_mpg_firmware.Bridge.Loop.{
  service_stale_input, service_usb_keyboard, Request, serve, serve_all, service_config,
  guard_session, before_usb, main_pass, Pass, Event, packet, pass, step, fire_reconnect, fire_scan,
  start_scan,
}

-- The addresses whose confirmation was answered with yes, the last first.
abbrev pub bonds : List Call → List (List ℕ)
bonds [] = []
bonds (gap_ssp_confirmation_response address ∷ cs) = address ∷ bonds cs
bonds (_ ∷ cs) = bonds cs

module _ {Flash : Type 0} where
  abbrev SameBonds : Bridge Flash → Bridge Flash → Type 0
  SameBonds s t = bonds t.calls ≡ bonds s.calls

  consume_bonds :
      (bytes : Option (List ℕ)) (now_ms : ℕ) (s : Bridge Flash)
      → SameBonds s (consume_controller_report bytes now_ms s)
  unfolding consume_controller_report
  consume_bonds bytes now_ms s = ground arith

  request_bonds : (now_ms : ℕ) (s : Bridge Flash) → SameBonds s (request_scan now_ms s)
  unfolding request_scan
  request_bonds now_ms s = ground arith

  module _ (platform : Platform) where
    cancel_bonds : (s : Bridge Flash) → SameBonds s (cancel_pairing platform s)
    unfolding cancel_pairing
    cancel_bonds s = ground arith

    refuse_bonds : (s : Bridge Flash) → SameBonds s (refuse_descriptor platform s)
    unfolding refuse_descriptor
    refuse_bonds s =
        ground (arith, cancel_bonds (call (emit_pairing_state "unsupported_hid_descriptor") s))

    descriptor_bonds :
        (d : Descriptor) (s : Bridge Flash) → SameBonds s (open_descriptor platform d s)
    unfolding open_descriptor fail_closed
    descriptor_bonds d s = ground (
      arith,
      refuse_bonds (fail_closed (record s { active_profile = none; descriptor_ready = false })),
    )

    -- The bond that a packet makes: that of the selected candidate, in a setup session.
    granted_packet : Packet → Bridge Flash → List (List ℕ)
    granted_packet (user_confirmation_request address) s =
        if s.config_active
          && s.pairing_candidate_selected
          && platform.bd_addr_cmp address s.controller_address == 0
        then address ∷ []
        else []
    granted_packet _ s = []

    packet_bonds :
        (p : Packet) (now_ms : ℕ) (s : Bridge Flash)
        → bonds (packet_handler platform p now_ms s).calls ≡ granted_packet p s ++ bonds s.calls
    unfolding packet_handler fail_closed schedule_connect granted_packet
    packet_bonds (report bytes) now_ms s = consume_bonds bytes now_ms s
    packet_bonds (descriptor_available d) now_ms s = descriptor_bonds d s
    packet_bonds p now_ms s = ground arith

    unfoldable pub granted : Event → Bridge Flash → List (List ℕ)
    unfolding granted_packet
    granted (packet p now_ms) s = granted_packet p s
    granted _ s = []

    guard_bonds : (s : Bridge Flash) → SameBonds s (guard_session platform s)
    unfolding guard_session
    guard_bonds s = ground (arith, cancel_bonds s)

    module _ (tlv : Option (Tlv Flash)) where
      start_bonds :
          (now_ms : ℕ) (s : Bridge Flash) → SameBonds s (start_pairing_scan platform now_ms s)
      unfolding start_pairing_scan
      start_bonds now_ms s =
          let u = if s.pairing_candidate_selected then cancel_pairing platform s else s in
          let k : SameBonds s u =
            if_both (SameBonds s) s.pairing_candidate_selected (cancel_pairing platform s) s
              (cancel_bonds s) refl in
          request_bonds now_ms u ∙ k

      serve_bonds : (q : Request) (s : Bridge Flash) → SameBonds s (serve platform tlv q s)
      unfolding serve select_pairing_candidate confirm_pairing_candidate
      serve_bonds (start_scan now_ms) s = start_bonds now_ms s
      serve_bonds q s = ground (arith, cancel_bonds s)

      serve_all_bonds :
          (qs : List Request) (s : Bridge Flash) → SameBonds s (serve_all platform tlv qs s)
      unfolding serve_all
      serve_all_bonds [] s = refl
      serve_all_bonds (q ∷ qs) s = serve_all_bonds qs (serve platform tlv q s) ∙ serve_bonds q s

      config_bonds :
          (b : Bool) (qs : List Request) (s : Bridge Flash)
          → SameBonds s (service_config platform tlv b qs s)
      unfolding service_config
      config_bonds true qs s = serve_all_bonds qs (record s { config_active = true })
      config_bonds false qs s = refl

      usb_bonds : (u : UsbKeyboard) (s : Bridge Flash) → SameBonds s (service_usb_keyboard u s).0
      unfolding service_usb_keyboard
      usb_bonds u s = ground arith

      pass_bonds : (p : Pass) (s : Bridge Flash) → SameBonds s (main_pass platform tlv p s).0
      unfolding main_pass before_usb service_stale_input
      pass_bonds p s = ground (
        arith,
        usb_bonds p.usb (before_usb platform tlv p s),
        guard_bonds (service_config platform tlv p.config_connected p.requests s),
        config_bonds p.config_connected p.requests s,
      )

      -- Of all events only a confirmation request makes a bond, and only in a setup session with a
      -- selected candidate and from the address of that candidate.
      pub step-bonds :
          (e : Event) (s : Bridge Flash)
          → bonds (step platform tlv e s).0.calls ≡ granted e s ++ bonds s.calls
      unfolding step granted fire_reconnect fire_scan connect_controller begin_pairing_scan
      step-bonds (packet p now_ms) s = packet_bonds p now_ms s
      step-bonds (pass p) s = pass_bonds p s
      step-bonds e s = ground arith
