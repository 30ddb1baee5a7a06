-- ===== src/Bridge/Setup/Answers.antt =====
-- What a request line may do to the gamepad bridge.
use red_monkey_mpg_firmware.Base.{
  ℕ, Bool, Option, none, some, List, ◌≡◌, refl, ◌⊎◌, inl, inr, Bool-cases, if_both,
}
use red_monkey_mpg_firmware.Base.Codes.{codes}
use red_monkey_mpg_firmware.ConfigService.Text.{read_string, read_unsigned}
use red_monkey_mpg_firmware.ConfigService.Mapping.{is_word, parse_mapping}
use red_monkey_mpg_firmware.ConfigService.Mapping.Words.{parse_mapping_sound}
use red_monkey_mpg_firmware.Persistent.{Tlv, store}
use red_monkey_mpg_firmware.Production.{ProductionMapping, validate_production_mapping, valid}
use red_monkey_mpg_firmware.ConfigService.Requests.{
  Identity, Response, is_one, answer, command_response, after_protocol, set_config, save_parsed,
  scan_response, pair_response, confirm_response, cancel_response,
}
use red_monkey_mpg_firmware.Bridge.{Platform, Bridge}
use red_monkey_mpg_firmware.Bridge.Loop.{
  Request, start_scan, select_candidate, confirm_pairing, cancel_request, save_mapping, serve, save,
}
use red_monkey_mpg_firmware.Bridge.Setup.{bridge_client}

-- A mapping that is saved is a valid one with the precision control of the old one.
unfoldable pub IsAllowed : {Flash : Type 0} → Bridge Flash → Request → Type 0
IsAllowed s (save_mapping m) =
    (validate_production_mapping m ≡ valid)
    × (m.precision_mask ≡ s.production_mapping.precision_mask)
IsAllowed s _ = Unit

-- Nothing, or one request.
abbrev pub IsServed :
    {Flash : Type 0} → Platform → Option (Tlv Flash) → Bridge Flash → Bridge Flash → Type 0
IsServed platform tlv s t = (t ≡ s) ⊎ ((r : Request) × IsAllowed s r × (t ≡ serve platform tlv r s))

module _ {Flash : Type 0} (platform : Platform) (tlv : Option (Tlv Flash))
    (identity : Bridge Flash → Identity) (now_ms : ℕ) (bonded : Bool) where
  save_parsed-IsServed :
      (parsed : Option ProductionMapping) (s : Bridge Flash)
      → ((m : ProductionMapping) → parsed ≡ some m → IsAllowed s (save_mapping m))
      → IsServed platform tlv s
          (save_parsed (bridge_client platform tlv identity now_ms bonded) parsed s).1
  unfolding save_parsed bridge_client serve save IsAllowed
  save_parsed-IsServed none s allowed = inl refl
  save_parsed-IsServed (some m) s allowed =
      elim (Bool-cases (store tlv m s.flash s.persistent_config).0) [
        | inl e ↦ inr (save_mapping m, allowed m refl, rw e refl)
        | inr e ↦ inr (save_mapping m, allowed m refl, rw e refl)
      ]

  set_config-IsServed :
      (line : List ℕ) (s : Bridge Flash)
      → IsServed platform tlv s
          (set_config (bridge_client platform tlv identity now_ms bonded) line s).1
  unfolding set_config IsAllowed bridge_client
  set_config-IsServed line s =
      if_both (λ (t : Response × Bridge Flash). IsServed platform tlv s t.1)
        (is_one (read_unsigned line (codes "\"schema\":"))) _ _
        (save_parsed-IsServed (parse_mapping line s.production_mapping) s (λ m parsed.
          let (passes, precision, _) = parse_mapping_sound line s.production_mapping m parsed in
          (passes, precision)))
        (inl refl)

  pair_response-IsServed :
      (text : Option (List ℕ)) (s : Bridge Flash)
      → IsServed platform tlv s
          (pair_response text
            (bridge_client platform tlv identity now_ms bonded).select_candidate
            s).1
  unfolding pair_response bridge_client serve IsAllowed
  pair_response-IsServed none s = inl refl
  pair_response-IsServed (some text) s = inr (select_candidate (some text), tt, refl)

  scan_response-IsServed :
      (s : Bridge Flash)
      → IsServed platform tlv s
          (scan_response (bridge_client platform tlv identity now_ms bonded).start_scan s).1
  unfolding scan_response bridge_client serve IsAllowed
  scan_response-IsServed s = inr (start_scan now_ms, tt, refl)

  confirm_response-IsServed :
      (s : Bridge Flash)
      → IsServed platform tlv s
          (confirm_response (bridge_client platform tlv identity now_ms bonded).confirm_pairing s).1
  unfolding confirm_response bridge_client serve IsAllowed
  confirm_response-IsServed s = inr (confirm_pairing bonded, tt, refl)

  cancel_response-IsServed :
      (s : Bridge Flash)
      → IsServed platform tlv s
          (cancel_response (bridge_client platform tlv identity now_ms bonded).cancel_pairing s).1
  unfolding cancel_response bridge_client serve IsAllowed
  cancel_response-IsServed s = inr (cancel_request, tt, refl)

  command_response-IsServed :
      (command line : List ℕ) (s : Bridge Flash)
      → IsServed platform tlv s
          (command_response (bridge_client platform tlv identity now_ms bonded) command line s).1
  unfolding command_response
  command_response-IsServed command line s =
      let Q = λ (t : Response × Bridge Flash). IsServed platform tlv s t.1 in
      if_both Q (is_word command "GET_INFO") _ _ (inl refl) (
        if_both Q (is_word command "GET_CONFIG") _ _ (inl refl) (
          if_both Q (is_word command "GET_CNC_PROFILES") _ _ (inl refl) (
            if_both Q (is_word command "SET_CONFIG") _ _ (set_config-IsServed line s) (
              if_both Q (is_word command "START_SCAN") _ _ (scan_response-IsServed s) (
                if_both Q (is_word command "PAIR_CANDIDATE") _ _ (pair_response-IsServed _ s) (
                  if_both Q (is_word command "CONFIRM_PAIRING") _ _ (confirm_response-IsServed s) (
                    if_both Q (is_word command "CANCEL_PAIRING") _ _ (cancel_response-IsServed s)
                      (inl refl))))))))

  after_protocol-IsServed :
      (command : Option (List ℕ)) (line : List ℕ) (s : Bridge Flash)
      → IsServed platform tlv s
          (after_protocol (bridge_client platform tlv identity now_ms bonded) command line s).1
  unfolding after_protocol
  after_protocol-IsServed none line s = inl refl
  after_protocol-IsServed (some command) line s = command_response-IsServed command line s

  -- Any request line, in any state of the bridge and with any flash library, leaves the bridge as
  -- it is or has the effect of one request of its model: a scan, a selection, a confirmation, a
  -- cancel, or saving a mapping that is valid and has the old precision control.
  pub answer-IsServed :
      (line : List ℕ) (s : Bridge Flash)
      → IsServed platform tlv s
          (answer (bridge_client platform tlv identity now_ms bonded) line s).1
  unfolding answer
  answer-IsServed line s =
      if_both (λ (t : Response × Bridge Flash). IsServed platform tlv s t.1)
        (is_one (read_unsigned line (codes "\"protocol\":"))) _ _
        (after_protocol-IsServed (read_string line (codes "\"command\":\"") 32) line s) (inl refl)
