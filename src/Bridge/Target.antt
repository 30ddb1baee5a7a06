-- ===== src/Bridge/Target.antt =====
-- What a restart of the bridge would read or choose, and which operations leave it alone.
pub mod Printed
pub mod Cases
pub mod Invariant
pub mod Restart
use red_monkey_mpg_firmware.Base.{ℕ, Bool, true, false, none, Option, List, [], ◌≡◌, arith, take}
use red_monkey_mpg_firmware.Production.{ProductionMapping}
use red_monkey_mpg_firmware.Usb.{UsbKeyboard}
use red_monkey_mpg_firmware.Persistent.{PersistentConfig, Tlv, address_or_null}
use red_monkey_mpg_firmware.Bridge.{
  Platform, Bridge, call, emit_pairing_state, consume_controller_report,
}
use red_monkey_mpg_firmware.Bridge.Pairing.{
  Status, connect_controller, begin_pairing_scan, cancel_pairing, start_pairing_scan, fail_closed,
  schedule_connect, address_text, text_or,
}
use red_monkey_mpg_firmware.Bridge.Packets.{
  Packet, packet_handler, Descriptor, open_descriptor, refuse_descriptor, inquiry_result,
  descriptor_available, report,
}
use red_monkey_mpg_firmware.Bridge.Loop.{
  service_stale_input, service_usb_keyboard, fire_reconnect, fire_scan,
}

-- The text of the address that a start of the program chooses.
unfoldable pub committed_text : Platform → PersistentConfig → List ℕ
committed_text platform c = address_text (text_or (address_or_null c) platform.configured_address)

module _ {Flash : Type 0} where
  pub record SameTarget (s t : Bridge Flash) : Type 0 where
    pub flash : t.flash ≡ s.flash
    pub config : t.persistent_config ≡ s.persistent_config
    pub mapping : t.production_mapping ≡ s.production_mapping
    pub selected : t.pairing_candidate_selected ≡ s.pairing_candidate_selected
    pub active : t.active_controller_address ≡ s.active_controller_address
    pub candidate : t.candidate_controller_address ≡ s.candidate_controller_address
    pub valid : t.controller_address_valid ≡ s.controller_address_valid
    pub address : t.controller_address ≡ s.controller_address

  -- A pairing is rolled back: the committed address is the target.
  pub record Cancelled (platform : Platform) (s t : Bridge Flash) : Type 0 where
    pub flash : t.flash ≡ s.flash
    pub config : t.persistent_config ≡ s.persistent_config
    pub mapping : t.production_mapping ≡ s.production_mapping
    pub selected : t.pairing_candidate_selected ≡ false
    pub candidate : t.candidate_controller_address ≡ s.candidate_controller_address
    pub active : t.active_controller_address ≡ committed_text platform s.persistent_config
    pub valid :
        t.controller_address_valid
        ≡ (platform.sscanf_bd_addr
            (committed_text platform s.persistent_config)
            s.controller_address).0
    pub address :
        t.controller_address
        ≡ (platform.sscanf_bd_addr
            (committed_text platform s.persistent_config)
            s.controller_address).1

  pub cancel_target :
      (platform : Platform) (s : Bridge Flash) → Cancelled platform s (cancel_pairing platform s)
  unfolding cancel_pairing committed_text
  cancel_target platform s = ground arith

  consume_target :
      (bytes : Option (List ℕ)) (now_ms : ℕ) (s : Bridge Flash)
      → SameTarget s (consume_controller_report bytes now_ms s)
  unfolding consume_controller_report
  consume_target bytes now_ms s = ground arith

  pub reconnect_target :
      (answer : Status × ℕ) (s : Bridge Flash) → SameTarget s (fire_reconnect answer s)
  unfolding fire_reconnect connect_controller
  reconnect_target answer s = ground arith

  pub scan_target :
      (status : Status) (now_ms : ℕ) (s : Bridge Flash) → SameTarget s (fire_scan status now_ms s)
  unfolding fire_scan begin_pairing_scan
  scan_target status now_ms s = ground arith

  pub stale_target : (now_ms : ℕ) (s : Bridge Flash) → SameTarget s (service_stale_input now_ms s)
  unfolding service_stale_input
  stale_target now_ms s = ground arith

  pub usb_target : (u : UsbKeyboard) (s : Bridge Flash) → SameTarget s (service_usb_keyboard u s).0
  unfolding service_usb_keyboard
  usb_target u s = ground arith

-- A packet that is neither an inquiry result nor a descriptor.
abbrev pub IsPlain : Packet → Type 0
IsPlain (inquiry_result r) = ⊥
IsPlain (descriptor_available d) = ⊥
IsPlain _ = Unit

module _ {Flash : Type 0} (platform : Platform) where
  pub packet_target :
      (p : Packet) (now_ms : ℕ) (s : Bridge Flash)
      → IsPlain p
      → SameTarget s (packet_handler platform p now_ms s)
  unfolding packet_handler fail_closed schedule_connect
  packet_target (inquiry_result r) now_ms s n = absurd n
  packet_target (descriptor_available d) now_ms s n = absurd n
  packet_target (report bytes) now_ms s n = consume_target bytes now_ms s
  packet_target p now_ms s n = ground arith
