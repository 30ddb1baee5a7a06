-- ===== src/Bridge/Kept.antt =====
-- What everything but a gamepad report and the USB service leaves alone: the sent report, the
-- mount state, the setup session, and an output that is locked or released.
use red_monkey_mpg_firmware.Base.{
  ℕ, Bool, true, false, Option, none, List, [], ◌∷◌, ◌≡◌, ◌∙◌, arith, refl, if_both, if◌then◌else◌,
}
use red_monkey_mpg_firmware.Keyboard.{empty_report}
use red_monkey_mpg_firmware.Persistent.{Tlv}
use red_monkey_mpg_firmware.Bridge.{Platform, Bridge, call, emit_pairing_state}
use red_monkey_mpg_firmware.Bridge.Pairing.{
  Status, connect_controller, begin_pairing_scan, cancel_pairing, start_pairing_scan, request_scan,
  select_pairing_candidate, confirm_pairing_candidate, fail_closed, schedule_connect,
}
use red_monkey_mpg_firmware.Bridge.Packets.{
  Packet, packet_handler, Descriptor, open_descriptor, refuse_descriptor, descriptor_available,
  report,
}
use red_monkey_mpg_firmware.Bridge.Loop.{
  Request, start_scan, select_candidate, confirm_pairing, cancel_request, save_mapping, serve,
  serve_all,
}

-- Any packet but a report.
abbrev pub IsNoReport : Packet → Type 0
IsNoReport (report bytes) = ⊥
IsNoReport _ = Unit

module _ {Flash : Type 0} where
  pub record Kept (s t : Bridge Flash) : Type 0 where
    pub sent : t.sent_report ≡ s.sent_report
    pub mounted : t.was_mounted ≡ s.was_mounted
    pub active : t.config_active ≡ s.config_active
    pub was_active : t.config_was_active ≡ s.config_was_active
    pub released : s.desired_report ≡ empty_report → t.desired_report ≡ empty_report
    pub locked : s.rearm_required ≡ true → t.rearm_required ≡ true

  Kept-refl : (s : Bridge Flash) → Kept s s
  Kept-refl s = record {
    sent = refl;
    mounted = refl;
    active = refl;
    was_active = refl;
    released = λ e. e;
    locked = λ e. e;
  }

  pub Kept-trans : (s t u : Bridge Flash) → Kept s t → Kept t u → Kept s u
  Kept-trans s t u h k = record {
    sent = k.sent ∙ h.sent;
    mounted = k.mounted ∙ h.mounted;
    active = k.active ∙ h.active;
    was_active = k.was_active ∙ h.was_active;
    released = λ e. k.released (h.released e);
    locked = λ e. k.locked (h.locked e);
  }

  pub connect_controller-Kept :
      (answer : Status × ℕ) (s : Bridge Flash) → Kept s (connect_controller answer s)
  unfolding connect_controller
  connect_controller-Kept answer s = ground arith

  pub begin_pairing_scan-Kept :
      (status : Status) (now_ms : ℕ) (s : Bridge Flash)
      → Kept s (begin_pairing_scan status now_ms s)
  unfolding begin_pairing_scan
  begin_pairing_scan-Kept status now_ms s = ground arith

  request_scan-Kept : (now_ms : ℕ) (s : Bridge Flash) → Kept s (request_scan now_ms s)
  unfolding request_scan
  request_scan-Kept now_ms s = ground arith

  module _ (platform : Platform) where
    pub cancel_pairing-Kept : (s : Bridge Flash) → Kept s (cancel_pairing platform s)
    unfolding cancel_pairing
    cancel_pairing-Kept s = ground arith

    start_pairing_scan-Kept :
        (now_ms : ℕ) (s : Bridge Flash) → Kept s (start_pairing_scan platform now_ms s)
    unfolding start_pairing_scan
    start_pairing_scan-Kept now_ms s =
        let u = if s.pairing_candidate_selected then cancel_pairing platform s else s in
        let k : Kept s u =
          if_both (Kept s) s.pairing_candidate_selected (cancel_pairing platform s) s
            (cancel_pairing-Kept s) (Kept-refl s) in
        Kept-trans s u (request_scan now_ms u) k (request_scan-Kept now_ms u)

    select_pairing_candidate-Kept :
        (text : Option (List ℕ)) (s : Bridge Flash)
        → Kept s (select_pairing_candidate platform text s).1
    unfolding select_pairing_candidate
    select_pairing_candidate-Kept text s = ground arith

    confirm_pairing_candidate-Kept :
        (tlv : Option (Tlv Flash)) (bonded : Bool) (s : Bridge Flash)
        → Kept s (confirm_pairing_candidate platform tlv bonded s).1
    unfolding confirm_pairing_candidate
    confirm_pairing_candidate-Kept tlv bonded s = ground arith

    refuse_descriptor-Kept : (s : Bridge Flash) → Kept s (refuse_descriptor platform s)
    unfolding refuse_descriptor
    refuse_descriptor-Kept s =
        ground
          (arith, cancel_pairing-Kept (call (emit_pairing_state "unsupported_hid_descriptor") s))

    open_descriptor-Kept :
        (d : Descriptor) (s : Bridge Flash) → Kept s (open_descriptor platform d s)
    unfolding open_descriptor fail_closed
    open_descriptor-Kept d s = ground (
      arith,
      refuse_descriptor-Kept
          (fail_closed (record s { active_profile = none; descriptor_ready = false })),
    )

    pub packet_handler-Kept :
        (p : Packet) (now_ms : ℕ) (s : Bridge Flash)
        → IsNoReport p
        → Kept s (packet_handler platform p now_ms s)
    unfolding packet_handler fail_closed schedule_connect
    packet_handler-Kept (report bytes) now_ms s n = absurd n
    packet_handler-Kept (descriptor_available d) now_ms s n = open_descriptor-Kept d s
    packet_handler-Kept p now_ms s n = ground arith

    module _ (tlv : Option (Tlv Flash)) where
      serve-Kept : (r : Request) (s : Bridge Flash) → Kept s (serve platform tlv r s)
      unfolding serve
      serve-Kept (start_scan now_ms) s = start_pairing_scan-Kept now_ms s
      serve-Kept (select_candidate text) s = select_pairing_candidate-Kept text s
      serve-Kept (confirm_pairing bonded) s = confirm_pairing_candidate-Kept tlv bonded s
      serve-Kept cancel_request s = cancel_pairing-Kept s
      serve-Kept (save_mapping m) s = ground arith

      pub serve_all-Kept :
          (rs : List Request) (s : Bridge Flash) → Kept s (serve_all platform tlv rs s)
      unfolding serve_all
      serve_all-Kept [] s = Kept-refl s
      serve_all-Kept (r ∷ rs) s =
          Kept-trans s (serve platform tlv r s) _ (serve-Kept r s) (serve_all-Kept rs _)
