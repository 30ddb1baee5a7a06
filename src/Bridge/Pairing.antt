-- ===== src/Bridge/Pairing.antt =====
-- Pairing of a new controller, and the connection to the paired one:
-- firmware/diagnostics/live_bridge_bench.cpp.
use Prim.Native.String.{String}
use red_monkey_mpg_firmware.Base.{
  ℕ, Bool, true, false, not, ◌&&◌, ◌||◌, Option, none, some, List, [], ◌∷◌, ◌==◌, ltb,
  if◌then◌else◌, sub32, take, replicate,
}
use red_monkey_mpg_firmware.Keyboard.{empty_report}
use red_monkey_mpg_firmware.Profile.{ControllerProfile}
use red_monkey_mpg_firmware.Persistent.{Tlv, address_or_null, same_bytes, store_controller_address}
use red_monkey_mpg_firmware.Bridge.{
  Platform, gap_inquiry_stop, gap_inquiry_start, hid_host_connect, hid_host_disconnect,
  gap_drop_link_key_for_bd_addr, emit_pairing_state, AddressPointer, null_address, stored_address,
  Bridge, call,
}

-- A status of the Bluetooth library.
pub data Status : Type 0 where
  success command_disallowed other_error : Status

abbrev pub is_success : Status → Bool
is_success success = true
is_success _ = false

abbrev pub is_disallowed : Status → Bool
is_disallowed command_disallowed = true
is_disallowed _ = false

abbrev pub is_empty : List ℕ → Bool
is_empty [] = true
is_empty (b ∷ bs) = false

-- `snprintf` into an array of 18 characters.
abbrev pub address_text : List ℕ → List ℕ
address_text text = take 17 text

-- Whether a text pointer is null or its text differs.
abbrev pub differs : Option (List ℕ) → List ℕ → Bool
differs none text = true
differs (some stored) text = not (same_bytes stored text)

abbrev pub text_or : Option (List ℕ) → List ℕ → List ℕ
text_or none text = text
text_or (some stored) text = stored

abbrev pub pointer_to_stored : Option (List ℕ) → AddressPointer
pointer_to_stored none = null_address
pointer_to_stored (some text) = stored_address

abbrev pub name_of : Option ControllerProfile → Option String
name_of none = some "Compatible controller"
name_of (some profile) = profile.display_name

module _ {Flash : Type 0} where
  unfoldable pub schedule_connect : ℕ → Bridge Flash → Bridge Flash
  schedule_connect delay_ms s = record s { reconnect_timer = some delay_ms }

  -- The handler of the reconnect timer, which has run out; `hid_host_connect` gives a status and
  -- a connection identifier.
  unfoldable pub connect_controller : Status × ℕ → Bridge Flash → Bridge Flash
  unfolding schedule_connect
  connect_controller (status, cid) s =
      if not (s.hid_cid == 0) || not s.controller_address_valid
      then s
      else let t = call (hid_host_connect s.controller_address) s in
        if is_success status
        then record t { hid_cid = cid; last_hid_cid = 0 }
        else schedule_connect 5000
            (record (if is_disallowed status && not (s.last_hid_cid == 0)
              then call (hid_host_disconnect s.last_hid_cid) t
              else t) { hid_cid = 0 })

  -- The handler of the scan timer.
  unfoldable pub begin_pairing_scan : Status → ℕ → Bridge Flash → Bridge Flash
  begin_pairing_scan status now_ms s =
      if not s.pairing_scan_requested
      then s
      else if ltb 65000 (sub32 now_ms s.pairing_scan_requested_ms)
      then call (emit_pairing_state "scan_failed") (record s { pairing_scan_requested = false })
      else let t = call (gap_inquiry_start 47) s in
        if is_success status
        then record t { pairing_scan_active = true; pairing_scan_requested = false }
        else record t { pairing_scan_timer = some 500 }

  unfoldable pub fail_closed : Bridge Flash → Bridge Flash
  fail_closed s = record s {
    controller_connected = false;
    descriptor_ready = false;
    active_profile = none;
    rearm_required = true;
    last_valid_report_ms = 0;
    desired_report = empty_report;
  }

  -- `if (hid_cid != 0) hid_host_disconnect(hid_cid); hid_cid = 0;`
  unfoldable pub disconnect_hid : Bridge Flash → Bridge Flash
  disconnect_hid s =
      if s.hid_cid == 0 then s else record (call (hid_host_disconnect s.hid_cid) s) { hid_cid = 0 }

  -- The inquiry and its timer are stopped.
  unfoldable pub stop_scan : Bridge Flash → Bridge Flash
  stop_scan s = record (call gap_inquiry_stop s) {
    pairing_scan_requested = false;
    pairing_scan_timer = none;
    pairing_scan_active = false;
  }

  -- From `publish_release` of `start_pairing_scan` on.
  unfoldable pub request_scan : ℕ → Bridge Flash → Bridge Flash
  unfolding disconnect_hid
  request_scan now_ms s =
      record (disconnect_hid (record (call gap_inquiry_stop s) {
        desired_report = empty_report;
        rearm_required = true;
        reconnect_timer = none;
        pairing_candidate_selected = false;
        pairing_chord_confirmed = false;
        pairing_chord_started_ms = 0;
        candidate_controller_address = [];
        candidate_controller_name = "";
        candidate_controller_device_class = 0;
        pairing_scan_active = false;
        pairing_scan_requested = true;
        pairing_scan_requested_ms = now_ms;
      })) { pairing_scan_timer = some 750 }

  module _ (platform : Platform) where
    -- Forgetting the bond of an address that is given as a text.
    unfoldable pub drop_link_key : List ℕ → Bridge Flash → Bridge Flash
    drop_link_key text s =
        let (read, bytes) = platform.sscanf_bd_addr text (replicate 6 0) in
        if read then call (gap_drop_link_key_for_bd_addr bytes) s else s

    -- The bond of a candidate that is not the stored controller is forgotten.
    drop_rejected : Bool → List ℕ → Bridge Flash → Bridge Flash
    unfolding drop_link_key
    drop_rejected had rejected s =
        if had && not (is_empty rejected) && differs (address_or_null s.persistent_config) rejected
        then drop_link_key rejected s
        else s

    -- The stored address, or the configured one, is the active one again.
    unfoldable pub restore_address : Bridge Flash → Bridge Flash
    restore_address s =
        let text =
          address_text
            (text_or (address_or_null s.persistent_config) platform.configured_address) in
        let (read, bytes) = platform.sscanf_bd_addr text s.controller_address in
        record s {
          active_controller_address = text;
          active_controller_name = "";
          active_controller_device_class = 0;
          controller_address_valid = read;
          controller_address = bytes;
        }

    unfoldable pub cancel_pairing : Bridge Flash → Bridge Flash
    unfolding stop_scan drop_rejected restore_address disconnect_hid schedule_connect
    cancel_pairing s =
        let stopped = record (stop_scan s) {
          pairing_candidate_selected = false;
          pairing_chord_confirmed = false;
          pairing_chord_started_ms = 0;
        } in
        let t = disconnect_hid (
          restore_address
            (drop_rejected s.pairing_candidate_selected s.active_controller_address stopped)) in
        if t.controller_address_valid then schedule_connect 500 t else t

    unfoldable pub start_pairing_scan : ℕ → Bridge Flash → Bridge Flash
    start_pairing_scan now_ms s =
        request_scan now_ms (if s.pairing_candidate_selected then cancel_pairing s else s)

    -- From `controller_address_valid = true` on.
    unfoldable pub adopt_candidate : List ℕ → Bridge Flash → Bridge Flash
    unfolding disconnect_hid schedule_connect
    adopt_candidate text s =
        let t = record s {
          controller_address_valid = true;
          active_controller_address = address_text text;
          active_controller_name = s.candidate_controller_name;
          active_controller_device_class = s.candidate_controller_device_class;
          pairing_candidate_selected = true;
          pairing_chord_confirmed = false;
          pairing_chord_started_ms = 0;
        } in
        let u =
          if differs (address_or_null s.persistent_config) text
          then call (gap_drop_link_key_for_bd_addr s.controller_address) t
          else t in
        call (emit_pairing_state "awaiting_physical_confirmation")
          (schedule_connect 500 (disconnect_hid u))

    -- `none` is the null pointer.
    unfoldable pub select_pairing_candidate : Option (List ℕ) → Bridge Flash → Bool × Bridge Flash
    unfolding stop_scan adopt_candidate
    select_pairing_candidate none s = (false, s)
    select_pairing_candidate (some text) s =
        if is_empty s.candidate_controller_address
          || not (same_bytes text s.candidate_controller_address)
        then (false, s)
        else let (read, bytes) = platform.sscanf_bd_addr text s.controller_address in
          let t = record (stop_scan s) { controller_address = bytes } in
          if read then (true, adopt_candidate text t) else (false, t)

    -- The bond of the controller that was stored before is forgotten.
    drop_previous : Option (List ℕ) → Bridge Flash → Bridge Flash
    unfolding drop_link_key
    drop_previous none s = s
    drop_previous (some previous) s =
        if not (is_empty previous) && not (same_bytes previous s.active_controller_address)
        then drop_link_key previous s
        else s

    -- After the address is stored.
    finish_pairing : Option (List ℕ) → Bridge Flash → Bridge Flash
    unfolding drop_previous
    finish_pairing previous s =
        let t = drop_previous previous s in
        call (emit_pairing_state "saved") (record t {
          pairing_candidate_selected = false;
          pairing_chord_confirmed = false;
          pairing_chord_started_ms = 0;
          controller = name_of t.active_profile;
          address = pointer_to_stored (address_or_null t.persistent_config);
          rearm_required = true;
        })

    save_candidate : Option (Tlv Flash) → Bridge Flash → Bool × Bridge Flash
    unfolding finish_pairing
    save_candidate tlv s =
        let (stored, flash, config) =
          store_controller_address tlv s.production_mapping (some s.active_controller_address)
            s.flash s.persistent_config in
        let t = record s { flash = flash; persistent_config = config } in
        if stored
        then (true, finish_pairing (address_or_null s.persistent_config) t)
        else (false, t)

    -- `bonded` is the answer of `gap_get_link_key_for_bd_addr` for the controller's address.
    unfoldable pub confirm_pairing_candidate :
        Option (Tlv Flash) → Bool → Bridge Flash → Bool × Bridge Flash
    unfolding save_candidate
    confirm_pairing_candidate tlv bonded s =
        if not s.pairing_candidate_selected || not s.pairing_chord_confirmed
        then (false, s)
        else if not bonded
        then (false, s)
        else save_candidate tlv s
