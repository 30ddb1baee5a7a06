-- ===== src/Bridge/Setup.antt =====
-- The setup service of the gamepad bridge, firmware/diagnostics/live_bridge_bench.cpp: the service
-- of firmware/src/config_service.cpp over the bridge's mapping, storage and pairing hooks.
pub mod Answers
pub mod Session
pub mod Valid
use red_monkey_mpg_firmware.Base.{ℕ, ◌-◌, Bool, Option, some, List, [], ◌∷◌, ◌++◌, take, length}
use red_monkey_mpg_firmware.Base.Codes.{codes}
use red_monkey_mpg_firmware.Persistent.{Tlv, store}
use red_monkey_mpg_firmware.ConfigService.Requests.{
  Identity, Client, Emitted, scan_result, pairing_state,
}
use red_monkey_mpg_firmware.ConfigService.Service.{Service, Port, service}
use red_monkey_mpg_firmware.Bridge.{Platform, Bridge, Call, emit_pairing_state, emit_scan_result}
use red_monkey_mpg_firmware.Bridge.Pairing.{
  start_pairing_scan, select_pairing_candidate, confirm_pairing_candidate, cancel_pairing,
}

-- The calls that emit an event, with the texts as bytes.
emitted_by : Call → List Emitted
emitted_by (emit_pairing_state state) = pairing_state (codes state) ∷ []
emitted_by (emit_scan_result name address rssi) = scan_result (codes name) address rssi ∷ []
emitted_by _ = []

-- The events of calls of which the last is first.
unfoldable pub emitted : List Call → List Emitted
unfolding emitted_by
emitted [] = []
emitted (c ∷ cs) = emitted cs ++ emitted_by c

module _ {Flash : Type 0} (platform : Platform) (tlv : Option (Tlv Flash)) where
  -- The service as the bridge makes it, at a time and with an answer about the bond; its identity
  -- texts are given.
  unfoldable pub bridge_client : (Bridge Flash → Identity) → ℕ → Bool → Client (Bridge Flash)
  bridge_client identity now_ms bonded = record {
    identity = identity;
    mapping = λ s. s.production_mapping;
    set_mapping = λ m s. record s { production_mapping = m };
    sequence = λ s. s.persistent_config.sequence;
    store = λ m s.
        let (stored, flash, config) = store tlv m s.flash s.persistent_config in
        (stored, record s { flash = flash; persistent_config = config });
    start_scan = some (start_pairing_scan platform now_ms);
    select_candidate = some (λ text. select_pairing_candidate platform (some text));
    confirm_pairing = some (confirm_pairing_candidate platform tlv bonded);
    cancel_pairing = some (cancel_pairing platform);
    events = λ s t. emitted (take (length t.calls - length s.calls) t.calls);
  }

  -- `config_service.service()` in the main loop: the service, with the bridge in it, whose
  -- `config_active` is the service's `active_`.
  unfoldable pub setup_pass :
      (Bridge Flash → Identity)
      → ℕ
      → Bool
      → Port
      → List ℕ
      → Service (Bridge Flash)
      → List ℕ × List ℕ × Service (Bridge Flash)
  setup_pass identity now_ms bonded port bytes s =
      service (bridge_client identity now_ms bonded) port bytes
        (record s { program = record s.program { config_active = port.connected } })
