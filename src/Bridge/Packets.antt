-- ===== src/Bridge/Packets.antt =====
-- The packets of the Bluetooth stack, `packet_handler` of
-- firmware/diagnostics/live_bridge_bench.cpp.
use Prim.Native.String.{String}
use text.Mathlib.Text.{◌==◌ as str_eq}
use red_monkey_mpg_firmware.Base.{
  ℕ, Bool, true, false, not, ◌&&◌, ◌||◌, Option, none, some, List, [], ◌∷◌, ◌==◌, if◌then◌else◌,
  take, ℤ, negsuc, ◌>>=◌,
}
use red_monkey_mpg_firmware.Profile.{
  ControllerProbe, ControllerProfile, bluetooth_classic_hid, ProfileSelection,
  ProfileSelectionStatus, matched, select,
}
use red_monkey_mpg_firmware.Lite2.{builtin_controller_profiles}
use red_monkey_mpg_firmware.Identity.{descriptor_matches_sha256}
use red_monkey_mpg_firmware.Persistent.{same_bytes}
use red_monkey_mpg_firmware.Bridge.{
  Platform, hid_host_disconnect, hid_host_decline_connection, hid_host_accept_connection,
  gap_pin_code_negative, gap_ssp_confirmation_response, gap_ssp_confirmation_negative,
  emit_pairing_state, emit_scan_result, active_address, Bridge, call, consume_controller_report,
  reconnect_ms,
}
use red_monkey_mpg_firmware.Bridge.Pairing.{
  Status, is_success, is_empty, address_text, schedule_connect, fail_closed, cancel_pairing,
}

-- An inquiry result: the class of the device, the name and the signal strength where the packet
-- has them, and the address.
pub record InquiryResult : Type 0 where
  pub class_of_device : ℕ
  pub name : Option (List ℕ)
  pub rssi : Option ℤ
  pub bd_addr : List ℕ

-- The descriptor of the connection: the status of the event, and what
-- `hid_descriptor_storage_get_descriptor_data` and `..._len` give.
pub record Descriptor : Type 0 where
  pub status : Status
  pub bytes : Option (List ℕ)
  pub length : ℕ

pub data Packet : Type 0 where
  inquiry_result : InquiryResult → Packet
  inquiry_complete : Packet
  -- Whether the state is HCI_STATE_WORKING.
  stack_state : Bool → Packet
  pin_code_request : List ℕ → Packet
  user_confirmation_request : List ℕ → Packet
  -- The status, the address, the connection, and the answer of `hid_host_accept_connection`.
  incoming_connection : Status → List ℕ → ℕ → Status → Packet
  connection_opened : Status → ℕ → Packet
  descriptor_available : Descriptor → Packet
  report : Option (List ℕ) → Packet
  connection_closed : Packet
  other_packet : Packet

abbrev pub lite2_device_class : ℕ
lite2_device_class = 0x002508

-- The characters of "8BitDo Lite 2".
abbrev pub lite2_name : List ℕ
lite2_name =
    b'8' ∷ b'B' ∷ b'i' ∷ b't' ∷ b'D' ∷ b'o' ∷ b' ' ∷ b'L' ∷ b'i' ∷ b't' ∷ b'e' ∷ b' ' ∷ b'2' ∷ []

-- The text of an array up to its NUL.
until_nul : List ℕ → List ℕ
until_nul [] = []
until_nul (b ∷ bs) = if b == 0 then [] else b ∷ until_nul bs

is_exact_name : Option (List ℕ) → Bool
unfolding until_nul
is_exact_name none = false
is_exact_name (some bytes) = same_bytes (until_nul (take 63 bytes)) lite2_name

rssi_or_lowest : Option ℤ → ℤ
rssi_or_lowest none = negsuc 126
rssi_or_lowest (some rssi) = rssi

name_or_null : String → Option String
name_or_null name = if str_eq name "" then none else some name

is_matched : ProfileSelectionStatus → Bool
is_matched matched = true
is_matched _ = false

display_name_of : Option ControllerProfile → Option String
display_name_of none = none
display_name_of (some profile) = profile.display_name

-- As many bytes of the descriptor as its length says.
abbrev hashed_bytes : Descriptor → Option (List ℕ)
hashed_bytes d = d.bytes >>= λ bytes. some (take d.length bytes)

-- `descriptor_supported`, with the digest where the build has one.
unfoldable pub is_supported : Platform → Descriptor → ProfileSelection → Bool
unfolding is_matched
is_supported platform d selection =
    is_success d.status
    && is_matched selection.status
    && (is_empty platform.lite2_descriptor_sha256
        || descriptor_matches_sha256 platform.sha256 (hashed_bytes d)
            (some platform.lite2_descriptor_sha256))

module _ {Flash : Type 0} where
  pub note_candidate : Platform → InquiryResult → Bridge Flash → Bridge Flash
  unfolding is_exact_name rssi_or_lowest
  note_candidate platform r s =
      let exact = is_exact_name r.name in
      let name : String = if exact then "8BitDo Lite 2" else "8BitDo Lite 2 (D mode)" in
      let text = address_text (platform.bd_addr_to_str r.bd_addr) in
      if not exact && not (r.class_of_device == lite2_device_class)
      then s
      else call (emit_scan_result name text (rssi_or_lowest r.rssi)) (record s {
        candidate_controller_address = text;
        candidate_controller_name = name;
        candidate_controller_device_class = r.class_of_device;
      })

  -- The probe that the registry is asked about.
  unfoldable pub probe_of : Descriptor → Bridge Flash → ControllerProbe
  unfolding name_or_null
  probe_of d s = record {
    transport = bluetooth_classic_hid;
    advertised_name = name_or_null s.active_controller_name;
    bluetooth_device_class = s.active_controller_device_class;
    hid_descriptor = d.bytes;
    hid_descriptor_length = d.length;
  }

  -- A descriptor that is not supported ends the connection, or the whole pairing.
  unfoldable pub refuse_descriptor : Platform → Bridge Flash → Bridge Flash
  refuse_descriptor platform s =
      if s.pairing_candidate_selected
      then cancel_pairing platform (call (emit_pairing_state "unsupported_hid_descriptor") s)
      else if not (s.hid_cid == 0)
      then call (hid_host_disconnect s.hid_cid) s
      else s

  unfoldable pub open_descriptor : Platform → Descriptor → Bridge Flash → Bridge Flash
  unfolding refuse_descriptor display_name_of
  open_descriptor platform d s =
      let selection = select builtin_controller_profiles (probe_of d s) in
      if is_supported platform d selection
      then record s {
        active_profile = selection.profile;
        descriptor_ready = true;
        controller = display_name_of selection.profile;
        address = active_address;
      }
      else refuse_descriptor platform
          (fail_closed (record s { active_profile = none; descriptor_ready = false }))

  -- A connection from the controller's address is accepted.
  pub accept_incoming : Platform → Status → List ℕ → ℕ → Status → Bridge Flash → Bridge Flash
  accept_incoming platform status address cid accepted s =
      if not (is_success status) || not (platform.bd_addr_cmp address s.controller_address == 0)
      then call (hid_host_decline_connection cid) s
      else let t =
          call (hid_host_accept_connection cid)
            (record s { reconnect_timer = none; hid_cid = cid; last_hid_cid = 0 }) in
        if is_success accepted
        then t
        else schedule_connect reconnect_ms (fail_closed (record t { hid_cid = 0 }))

  pub note_opened : Status → ℕ → Bridge Flash → Bridge Flash
  note_opened status cid s =
      if is_success status
      then record (fail_closed
          (record s { reconnect_timer = none; hid_cid = cid; last_hid_cid = 0 })) {
            controller_connected = true;
          }
      else schedule_connect 5000 (
          fail_closed
            (record (call (hid_host_disconnect cid) s) { last_hid_cid = cid; hid_cid = 0 }))

  -- Only the candidate of an active setup session may make a new bond.
  pub answer_confirmation : Platform → List ℕ → Bridge Flash → Bridge Flash
  answer_confirmation platform address s =
      if s.config_active
        && s.pairing_candidate_selected
        && platform.bd_addr_cmp address s.controller_address == 0
      then call (gap_ssp_confirmation_response address) s
      else call (gap_ssp_confirmation_negative address) s

  pub note_closed : Bridge Flash → Bridge Flash
  note_closed s =
      let t = fail_closed (record s { hid_cid = 0; last_hid_cid = 0 }) in
      if t.pairing_scan_requested || t.pairing_scan_active
      then t
      else if t.controller_address_valid
      then schedule_connect reconnect_ms t
      else t

  unfoldable pub packet_handler : Platform → Packet → ℕ → Bridge Flash → Bridge Flash
  unfolding note_candidate open_descriptor accept_incoming note_opened answer_confirmation
      note_closed
  packet_handler platform (inquiry_result r) now_ms s =
      if s.pairing_scan_active then note_candidate platform r s else s
  packet_handler platform inquiry_complete now_ms s =
      call (emit_pairing_state "scan_complete") (record s { pairing_scan_active = false })
  packet_handler platform (stack_state working) now_ms s =
      if working && s.controller_address_valid then schedule_connect 100 s else s
  packet_handler platform (pin_code_request address) now_ms s =
      call (gap_pin_code_negative address) s
  packet_handler platform (user_confirmation_request address) now_ms s =
      answer_confirmation platform address s
  packet_handler platform (incoming_connection status address cid accepted) now_ms s =
      accept_incoming platform status address cid accepted s
  packet_handler platform (connection_opened status cid) now_ms s = note_opened status cid s
  packet_handler platform (descriptor_available d) now_ms s = open_descriptor platform d s
  packet_handler platform (report bytes) now_ms s = consume_controller_report bytes now_ms s
  packet_handler platform connection_closed now_ms s = note_closed s
  packet_handler platform other_packet now_ms s = s
