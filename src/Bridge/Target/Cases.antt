-- ===== src/Bridge/Target/Cases.antt =====
-- The operations that change what a restart reads or chooses, case by case.
use red_monkey_mpg_firmware.Base.{
  ℕ, Bool, true, false, none, some, Option, List, [], ◌≡◌, ◌≢◌, ◌⊎◌, arith, if◌then◌else◌,
}
use red_monkey_mpg_firmware.Production.{ProductionMapping}
use red_monkey_mpg_firmware.Persistent.{Tlv, store, store_controller_address}
use red_monkey_mpg_firmware.Persistent.Current.{same_bytes_sound}
use red_monkey_mpg_firmware.Bridge.{Platform, Bridge, call, emit_pairing_state}
use red_monkey_mpg_firmware.Bridge.Pairing.{
  cancel_pairing, start_pairing_scan, request_scan, select_pairing_candidate,
  confirm_pairing_candidate, fail_closed, address_text,
}
use red_monkey_mpg_firmware.Bridge.Packets.{
  packet_handler, Descriptor, InquiryResult, open_descriptor, refuse_descriptor, inquiry_result,
  descriptor_available,
}
use red_monkey_mpg_firmware.Bridge.Loop.{guard_session, save}
use red_monkey_mpg_firmware.Bridge.Target.{SameTarget, Cancelled, cancel_target}
use red_monkey_mpg_firmware.Bridge.Target.Printed.{ReadsAddress}

module _ {Flash : Type 0} where
  request_target :
      (now_ms : ℕ) (s : Bridge Flash)
      → SameTarget
          (record s { candidate_controller_address = []; pairing_candidate_selected = false })
          (request_scan now_ms s)
  unfolding request_scan
  request_target now_ms s = ground arith

module _ {Flash : Type 0} (platform : Platform) where
  -- A selected candidate is the target.
  pub record Chosen (s t : Bridge Flash) : Type 0 where
    pub flash : t.flash ≡ s.flash
    pub config : t.persistent_config ≡ s.persistent_config
    pub mapping : t.production_mapping ≡ s.production_mapping
    pub selected : t.pairing_candidate_selected ≡ true
    pub candidate : t.candidate_controller_address ≡ s.candidate_controller_address
    pub some_candidate : s.candidate_controller_address ≢ []
    pub active : t.active_controller_address ≡ address_text s.candidate_controller_address
    pub read :
        (platform.sscanf_bd_addr s.candidate_controller_address s.controller_address).0 ≡ true
    pub valid : t.controller_address_valid ≡ true
    pub address :
        t.controller_address
        ≡ (platform.sscanf_bd_addr s.candidate_controller_address s.controller_address).1

  pub note_cases :
      (r : InquiryResult) (now_ms : ℕ) (s : Bridge Flash)
      → let t = packet_handler platform (inquiry_result r) now_ms s in
        SameTarget s t
        ⊎ SameTarget
            (record s {
              candidate_controller_address = address_text (platform.bd_addr_to_str r.bd_addr);
            })
            t
  unfolding packet_handler
  note_cases r now_ms s = ground arith

  refuse_cases :
      (s : Bridge Flash)
      → SameTarget s (refuse_descriptor platform s)
        ⊎ Cancelled platform s (refuse_descriptor platform s)
  unfolding refuse_descriptor
  refuse_cases s =
      ground
        (arith, cancel_target platform (call (emit_pairing_state "unsupported_hid_descriptor") s))

  pub descriptor_cases :
      (d : Descriptor) (now_ms : ℕ) (s : Bridge Flash)
      → let t = packet_handler platform (descriptor_available d) now_ms s in
        SameTarget s t ⊎ Cancelled platform s t
  unfolding packet_handler open_descriptor fail_closed
  descriptor_cases d now_ms s = ground (
    arith,
    refuse_cases (fail_closed (record s { active_profile = none; descriptor_ready = false })),
  )

  pub guard_cases :
      (s : Bridge Flash)
      → SameTarget s (guard_session platform s) ⊎ Cancelled platform s (guard_session platform s)
  unfolding guard_session
  guard_cases s = ground (arith, cancel_target platform s)

  pub start_target :
      (now_ms : ℕ) (s : Bridge Flash)
      → SameTarget
          (record (if s.pairing_candidate_selected then cancel_pairing platform s else s) {
            candidate_controller_address = [];
            pairing_candidate_selected = false;
          })
          (start_pairing_scan platform now_ms s)
  unfolding start_pairing_scan
  start_target now_ms s =
      request_target now_ms (if s.pairing_candidate_selected then cancel_pairing platform s else s)

  pub select_cases :
      (text : Option (List ℕ)) (s : Bridge Flash)
      → ReadsAddress platform
      → SameTarget s (select_pairing_candidate platform text s).1
        ⊎ Chosen s (select_pairing_candidate platform text s).1
  unfolding select_pairing_candidate
  select_cases none s r = ground arith
  select_cases (some text) s r = ground (
    arith,
    same_bytes_sound text s.candidate_controller_address,
    r.unread text s.controller_address,
  )

  module _ (tlv : Option (Tlv Flash)) where
    pub confirm_cases :
        (bonded : Bool) (s : Bridge Flash)
        → let (stored, flash, config) =
            store_controller_address tlv s.production_mapping
              (some s.active_controller_address)
              s.flash
              s.persistent_config in
          let t = (confirm_pairing_candidate platform tlv bonded s).1 in
          SameTarget s t
          ⊎ ((stored ≡ false)
              × SameTarget (record s { flash = flash; persistent_config = config }) t)
          ⊎ ((stored ≡ true)
              × (s.pairing_candidate_selected ≡ true)
              × SameTarget
                  (record s {
                    flash = flash;
                    persistent_config = config;
                    pairing_candidate_selected = false;
                  })
                  t)
    unfolding confirm_pairing_candidate
    confirm_cases bonded s = ground arith

    pub save_cases :
        (m : ProductionMapping) (s : Bridge Flash)
        → let (stored, flash, config) = store tlv m s.flash s.persistent_config in
          let t = save platform tlv m s in
          ((stored ≡ false) × SameTarget (record s { flash = flash; persistent_config = config }) t)
          ⊎ ((stored ≡ true)
              × SameTarget
                  (record s { flash = flash; persistent_config = config; production_mapping = m })
                  t)
    unfolding save
    save_cases m s = ground arith
