-- ===== src/Bridge/Loop.antt =====
-- The services and the main loop of firmware/diagnostics/live_bridge_bench.cpp.
use Prim.Native.String.{String}
use red_monkey_mpg_firmware.Base.{
  ℕ, Bool, true, false, not, ◌&&◌, ◌||◌, ◌%◌, Option, none, some, List, [], ◌∷◌, ◌==◌, ltb,
  if◌then◌else◌, is_some, sub32, replicate,
}
use red_monkey_mpg_firmware.Keyboard.{KeyboardReport, empty_report}
use red_monkey_mpg_firmware.Production.{ProductionMapping}
use red_monkey_mpg_firmware.Usb.{
  UsbKeyboard, usb_keyboard_mounted, usb_keyboard_ready, usb_keyboard_send, report_has_key,
  same_report,
}
use red_monkey_mpg_firmware.Usb.Outputs.{Attempt, same_bool}
use red_monkey_mpg_firmware.Persistent.{Tlv, address_or_null, load, store}
use red_monkey_mpg_firmware.Bridge.{Platform, Bridge, new_bridge, stale_ms}
use red_monkey_mpg_firmware.Bridge.Pairing.{
  Status, address_text, text_or, pointer_to_stored, connect_controller, begin_pairing_scan,
  cancel_pairing, start_pairing_scan, select_pairing_candidate, confirm_pairing_candidate,
}
use red_monkey_mpg_firmware.Bridge.Packets.{Packet, packet_handler}

abbrev name_when : Option (List ℕ) → Option String
name_when none = none
name_when (some text) = some "8BitDo Lite 2 · D mode"

module _ {Flash : Type 0} where
  unfoldable pub service_stale_input : ℕ → Bridge Flash → Bridge Flash
  service_stale_input now_ms s =
      if report_has_key s.desired_report
        && not (s.last_valid_report_ms == 0)
        && ltb stale_ms (sub32 now_ms s.last_valid_report_ms)
      then record s {
        rearm_required = true;
        last_valid_report_ms = 0;
        desired_report = empty_report;
      }
      else s

  lock_output : Bridge Flash → Bridge Flash
  lock_output s = record s { rearm_required = true; desired_report = empty_report }

  -- A change of the mount state.
  unfoldable pub note_mount : UsbKeyboard → Bridge Flash → Bridge Flash
  note_mount u s = if same_bool (usb_keyboard_mounted u) s.was_mounted then s else record s {
    sent_report = empty_report;
    rearm_required = true;
    desired_report = empty_report;
    was_mounted = usb_keyboard_mounted u;
  }

  -- Handing over a report: what was sent, or a locked output.
  send_report : UsbKeyboard → KeyboardReport → Bridge Flash → Bridge Flash × Option Attempt
  unfolding lock_output
  send_report u report s =
      let taken = usb_keyboard_send u report in
      (
        if taken then record s { sent_report = report } else lock_output s,
        some (record { report = report; taken = taken }),
      )

  unfoldable pub service_mounted : UsbKeyboard → Bridge Flash → Bridge Flash × Option Attempt
  unfolding send_report
  service_mounted u s =
      if not (usb_keyboard_mounted u) || not (usb_keyboard_ready u)
      then (s, none)
      else if same_report s.desired_report s.sent_report
      then (s, none)
      else if report_has_key s.sent_report && report_has_key s.desired_report
      then send_report u empty_report s
      else send_report u s.desired_report s

  unfoldable pub service_usb_keyboard : UsbKeyboard → Bridge Flash → Bridge Flash × Option Attempt
  unfolding note_mount service_mounted
  service_usb_keyboard u s = service_mounted u (note_mount u s)

  -- Whether the light is on.
  unfoldable pub service_led : ℕ → Bridge Flash → Bool
  service_led now_ms s =
      if not s.controller_connected || not s.descriptor_ready
      then ltb (now_ms % 1000) 100
      else if s.rearm_required
      then ltb (now_ms % 250) 125
      else true

-- What the setup service asks of the bridge: its hooks (a scan at a time, a confirmation with the
-- answer about the bond), and a mapping to store.
pub data Request : Type 0 where
  start_scan : ℕ → Request
  select_candidate : Option (List ℕ) → Request
  confirm_pairing : Bool → Request
  cancel_request : Request
  save_mapping : ProductionMapping → Request

-- A pass of the main loop: whether the setup port is open and what its service asks, the time,
-- and the USB stack.
pub record Pass : Type 0 where
  pub config_connected : Bool
  pub requests : List Request
  pub now_ms : ℕ
  pub usb : UsbKeyboard

module _ {Flash : Type 0} (platform : Platform) where
  -- After the service: a session keeps the output locked, and its end cancels a pairing.
  unfoldable pub guard_session : Bridge Flash → Bridge Flash
  guard_session s =
      let t =
        if s.config_active
        then record s { desired_report = empty_report; rearm_required = true }
        else if s.config_was_active
            && (s.pairing_scan_requested || s.pairing_scan_active || s.pairing_candidate_selected)
        then cancel_pairing platform s
        else s in
      record t { config_was_active = t.config_active }

module _ {Flash : Type 0} (platform : Platform) (tlv : Option (Tlv Flash)) where
  -- `storage_.store(candidate)`, and the new mapping where it succeeds.
  unfoldable pub save : ProductionMapping → Bridge Flash → Bridge Flash
  save m s =
      let (stored, flash, config) = store tlv m s.flash s.persistent_config in
      let t = record s { flash = flash; persistent_config = config } in
      if stored then record t { production_mapping = m } else t

  unfoldable pub serve : Request → Bridge Flash → Bridge Flash
  unfolding save
  serve (start_scan now_ms) s = start_pairing_scan platform now_ms s
  serve (select_candidate text) s = (select_pairing_candidate platform text s).1
  serve (confirm_pairing bonded) s = (confirm_pairing_candidate platform tlv bonded s).1
  serve cancel_request s = cancel_pairing platform s
  serve (save_mapping m) s = save m s

  unfoldable pub serve_all : List Request → Bridge Flash → Bridge Flash
  unfolding serve
  serve_all [] s = s
  serve_all (r ∷ rs) s = serve_all rs (serve r s)

  -- The setup half of a pass: without a connection the service asks nothing.
  unfoldable pub service_config : Bool → List Request → Bridge Flash → Bridge Flash
  unfolding serve_all
  service_config true rs s = serve_all rs (record s { config_active = true })
  service_config false rs s = record s { config_active = false }

  -- A pass of the main loop after the Bluetooth poll, up to the USB service.
  unfoldable pub before_usb : Pass → Bridge Flash → Bridge Flash
  unfolding service_config guard_session
  before_usb p s =
      service_stale_input p.now_ms
        (guard_session platform (service_config p.config_connected p.requests s))

  unfoldable pub main_pass : Pass → Bridge Flash → Bridge Flash × Option Attempt
  unfolding before_usb
  main_pass p s = service_usb_keyboard p.usb (before_usb p s)

  -- From the watchdog to `set_identity`.
  unfoldable pub boot : Flash → Bridge Flash
  boot flash =
      let (read, bytes) = platform.sscanf_bd_addr platform.configured_address (replicate 6 0) in
      let (loaded, mapping, config) = load tlv flash in
      let stored = address_or_null config in
      let text = address_text (text_or stored platform.configured_address) in
      let (valid, address) = platform.sscanf_bd_addr text bytes in
      record (new_bridge flash) {
        production_mapping = mapping;
        persistent_config = config;
        active_controller_address = text;
        controller_address_valid = valid;
        controller_address = address;
        controller = name_when stored;
        address = pointer_to_stored stored;
      }

-- The events of the program: a packet at a time, the timers, a pass.
pub data Event : Type 0 where
  packet : Packet → ℕ → Event
  reconnect : Status × ℕ → Event
  scan : Status → ℕ → Event
  pass : Pass → Event

module _ {Flash : Type 0} where
  -- A timer that is not set does not run its handler.
  unfoldable pub fire_reconnect : Status × ℕ → Bridge Flash → Bridge Flash
  fire_reconnect answer s =
      if is_some s.reconnect_timer
      then connect_controller answer (record s { reconnect_timer = none })
      else s

  unfoldable pub fire_scan : Status → ℕ → Bridge Flash → Bridge Flash
  fire_scan status now_ms s =
      if is_some s.pairing_scan_timer
      then begin_pairing_scan status now_ms (record s { pairing_scan_timer = none })
      else s

module _ {Flash : Type 0} (platform : Platform) (tlv : Option (Tlv Flash)) where
  -- The state after an event, and the report that it hands to the host, if any.
  unfoldable pub step : Event → Bridge Flash → Bridge Flash × Option Attempt
  unfolding fire_reconnect fire_scan
  step (packet p now_ms) s = (packet_handler platform p now_ms s, none)
  step (reconnect answer) s = (fire_reconnect answer s, none)
  step (scan status now_ms) s = (fire_scan status now_ms s, none)
  step (pass p) s = main_pass platform tlv p s

  unfoldable pub final : List Event → Bridge Flash → Bridge Flash
  final [] s = s
  final (e ∷ es) s = final es (step e s).0
