-- ===== src/Bridge/Lock.antt =====
-- What holds between any two events of the bridge.
use red_monkey_mpg_firmware.Base.{
  ℕ, Bool, true, false, Option, none, some, List, [], ◌∷◌, ◌≡◌, arith, refl, if_both,
}
use red_monkey_mpg_firmware.Types.{GamepadState}
use red_monkey_mpg_firmware.Mapper.{ControlMapper}
use red_monkey_mpg_firmware.Mapper.Safety.{IsValid, update-IsValid}
use red_monkey_mpg_firmware.Keyboard.{empty_report}
use red_monkey_mpg_firmware.Lite2.{lite2_d_profile}
use red_monkey_mpg_firmware.Lite2.Builtin.{select-builtin}
use red_monkey_mpg_firmware.Production.{apply_production_mapping}
use red_monkey_mpg_firmware.Usb.{UsbKeyboard}
use red_monkey_mpg_firmware.Persistent.{Tlv}
use red_monkey_mpg_firmware.Bridge.{
  Platform, Bridge, new_bridge, reset_mapper, consume_controller_report, parse_with, lose_input,
  take_input, call, emit_pairing_state,
}
use red_monkey_mpg_firmware.Bridge.Pairing.{
  Status, connect_controller, begin_pairing_scan, cancel_pairing, start_pairing_scan, request_scan,
  select_pairing_candidate, confirm_pairing_candidate, fail_closed, schedule_connect,
}
use red_monkey_mpg_firmware.Bridge.Packets.{
  Packet, packet_handler, Descriptor, open_descriptor, probe_of, is_supported, refuse_descriptor,
  descriptor_available, report,
}
use red_monkey_mpg_firmware.Bridge.Loop.{
  service_stale_input, service_usb_keyboard, Request, start_scan, select_candidate, confirm_pairing,
  cancel_request, save_mapping, serve, serve_all, service_config, guard_session, before_usb,
  main_pass, Pass, Event, packet, reconnect, scan, pass, step, final, boot,
}

module _ {Flash : Type 0} where
  -- No key is wanted while neutral controls are required or a candidate's chord is confirmed; a
  -- confirmed chord belongs to a selected candidate; reports are read by the Lite 2 profile.
  pub record IsLocked (s : Bridge Flash) : Type 0 where
    pub no_key : s.rearm_required ≡ true → s.desired_report ≡ empty_report
    pub chord_selected : s.pairing_chord_confirmed ≡ true → s.pairing_candidate_selected ≡ true
    pub chord_no_key : s.pairing_chord_confirmed ≡ true → s.desired_report ≡ empty_report
    pub ready_profile : s.descriptor_ready ≡ true → s.active_profile ≡ some lite2_d_profile
    pub mapper_valid : IsValid s.mapper

  pub new_bridge-IsLocked : (flash : Flash) → IsLocked (new_bridge flash)
  new_bridge-IsLocked flash = record {
    no_key = λ h. refl;
    chord_selected = λ h. cc;
    chord_no_key = λ h. refl;
    ready_profile = λ h. cc;
    mapper_valid = record { unlocked = λ h. refl };
  }

reset_mapper-IsValid :
    (now_ms : ℕ) (m : ControlMapper) → IsValid m → IsValid (reset_mapper now_ms m)
unfolding reset_mapper
reset_mapper-IsValid now_ms m v = (update-IsValid m _ now_ms v).0

module _ {Flash : Type 0} where
  lose_input-IsLocked :
      (now_ms : ℕ) (s : Bridge Flash) → IsLocked s → IsLocked (lose_input now_ms s)
  unfolding lose_input
  lose_input-IsLocked now_ms s l =
      ground (arith, reset_mapper-IsValid now_ms s.mapper l.mapper_valid)

  take_input-IsLocked :
      (input : GamepadState) (now_ms : ℕ) (s : Bridge Flash)
      → IsLocked s
      → IsLocked (take_input input now_ms s)
  unfolding take_input
  take_input-IsLocked input now_ms s l = ground (
    arith,
    update-IsValid s.mapper input now_ms l.mapper_valid,
    update-IsValid (reset_mapper now_ms s.mapper) input now_ms
        (reset_mapper-IsValid now_ms s.mapper l.mapper_valid),
  )

  consume-IsLocked :
      (bytes : Option (List ℕ)) (now_ms : ℕ) (s : Bridge Flash)
      → IsLocked s
      → IsLocked (consume_controller_report bytes now_ms s)
  unfolding consume_controller_report
  consume-IsLocked bytes now_ms s l = ground (
    arith,
    lose_input-IsLocked now_ms s l,
    take_input-IsLocked
        (apply_production_mapping (parse_with s.active_profile bytes now_ms).1 s.production_mapping)
        now_ms s l,
  )

  connect_controller-IsLocked :
      (answer : Status × ℕ) (s : Bridge Flash) → IsLocked s → IsLocked (connect_controller answer s)
  unfolding connect_controller
  connect_controller-IsLocked answer s l = ground arith

  begin_pairing_scan-IsLocked :
      (status : Status) (now_ms : ℕ) (s : Bridge Flash)
      → IsLocked s
      → IsLocked (begin_pairing_scan status now_ms s)
  unfolding begin_pairing_scan
  begin_pairing_scan-IsLocked status now_ms s l = ground arith

  request_scan-IsLocked :
      (now_ms : ℕ) (s : Bridge Flash) → IsLocked s → IsLocked (request_scan now_ms s)
  unfolding request_scan
  request_scan-IsLocked now_ms s l = ground arith

  module _ (platform : Platform) where
    cancel_pairing-IsLocked : (s : Bridge Flash) → IsLocked s → IsLocked (cancel_pairing platform s)
    unfolding cancel_pairing
    cancel_pairing-IsLocked s l = ground arith

    start_pairing_scan-IsLocked :
        (now_ms : ℕ) (s : Bridge Flash)
        → IsLocked s
        → IsLocked (start_pairing_scan platform now_ms s)
    unfolding start_pairing_scan
    start_pairing_scan-IsLocked now_ms s l = request_scan-IsLocked now_ms _ (
        if_both IsLocked s.pairing_candidate_selected (cancel_pairing platform s) s
          (cancel_pairing-IsLocked s l) l)

    select_pairing_candidate-IsLocked :
        (text : Option (List ℕ)) (s : Bridge Flash)
        → IsLocked s
        → IsLocked (select_pairing_candidate platform text s).1
    unfolding select_pairing_candidate
    select_pairing_candidate-IsLocked text s l = ground arith

    confirm_pairing_candidate-IsLocked :
        (tlv : Option (Tlv Flash)) (bonded : Bool) (s : Bridge Flash)
        → IsLocked s
        → IsLocked (confirm_pairing_candidate platform tlv bonded s).1
    unfolding confirm_pairing_candidate
    confirm_pairing_candidate-IsLocked tlv bonded s l = ground arith

    refuse_descriptor-IsLocked :
        (s : Bridge Flash) → IsLocked s → IsLocked (refuse_descriptor platform s)
    unfolding refuse_descriptor
    refuse_descriptor-IsLocked s l =
        ground (
          arith,
          cancel_pairing-IsLocked (call (emit_pairing_state "unsupported_hid_descriptor") s),
        )

    open_descriptor-IsLocked :
        (d : Descriptor) (s : Bridge Flash) → IsLocked s → IsLocked (open_descriptor platform d s)
    unfolding open_descriptor is_supported fail_closed
    open_descriptor-IsLocked d s l = ground (
      arith,
      select-builtin (probe_of d s),
      refuse_descriptor-IsLocked
          (fail_closed (record s { active_profile = none; descriptor_ready = false })),
    )

    pub packet_handler-IsLocked :
        (p : Packet) (now_ms : ℕ) (s : Bridge Flash)
        → IsLocked s
        → IsLocked (packet_handler platform p now_ms s)
    unfolding packet_handler fail_closed schedule_connect
    packet_handler-IsLocked (report bytes) now_ms s l = consume-IsLocked bytes now_ms s l
    packet_handler-IsLocked (descriptor_available d) now_ms s l = open_descriptor-IsLocked d s l
    packet_handler-IsLocked p now_ms s l = ground arith

    module _ (tlv : Option (Tlv Flash)) where
      serve-IsLocked :
          (r : Request) (s : Bridge Flash) → IsLocked s → IsLocked (serve platform tlv r s)
      unfolding serve
      serve-IsLocked (start_scan now_ms) s l = start_pairing_scan-IsLocked now_ms s l
      serve-IsLocked (select_candidate text) s l = select_pairing_candidate-IsLocked text s l
      serve-IsLocked (confirm_pairing bonded) s l =
          confirm_pairing_candidate-IsLocked tlv bonded s l
      serve-IsLocked cancel_request s l = cancel_pairing-IsLocked s l
      serve-IsLocked (save_mapping m) s l = ground arith

      serve_all-IsLocked :
          (rs : List Request) (s : Bridge Flash)
          → IsLocked s
          → IsLocked (serve_all platform tlv rs s)
      unfolding serve_all
      serve_all-IsLocked [] s l = l
      serve_all-IsLocked (r ∷ rs) s l =
          serve_all-IsLocked rs (serve platform tlv r s) (serve-IsLocked r s l)

      service_config-IsLocked :
          (connected : Bool) (rs : List Request) (s : Bridge Flash)
          → IsLocked s
          → IsLocked (service_config platform tlv connected rs s)
      unfolding service_config
      service_config-IsLocked true rs s l =
          serve_all-IsLocked rs (record s { config_active = true })
            (record {
              no_key = l.no_key;
              chord_selected = l.chord_selected;
              chord_no_key = l.chord_no_key;
              ready_profile = l.ready_profile;
              mapper_valid = l.mapper_valid;
            })
      service_config-IsLocked false rs s l = ground arith

      guard_session-IsLocked : (s : Bridge Flash) → IsLocked s → IsLocked (guard_session platform s)
      unfolding guard_session
      guard_session-IsLocked s l = ground (arith, cancel_pairing-IsLocked s l)

      service_stale_input-IsLocked :
          (now_ms : ℕ) (s : Bridge Flash) → IsLocked s → IsLocked (service_stale_input now_ms s)
      unfolding service_stale_input
      service_stale_input-IsLocked now_ms s l = ground arith

      service_usb_keyboard-IsLocked :
          (u : UsbKeyboard) (s : Bridge Flash) → IsLocked s → IsLocked (service_usb_keyboard u s).0
      unfolding service_usb_keyboard
      service_usb_keyboard-IsLocked u s l = ground arith

      pub before_usb-IsLocked :
          (p : Pass) (s : Bridge Flash) → IsLocked s → IsLocked (before_usb platform tlv p s)
      unfolding before_usb
      before_usb-IsLocked p s l =
          service_stale_input-IsLocked p.now_ms _
            (guard_session-IsLocked _ (service_config-IsLocked p.config_connected p.requests s l))

      main_pass-IsLocked :
          (p : Pass) (s : Bridge Flash) → IsLocked s → IsLocked (main_pass platform tlv p s).0
      unfolding main_pass
      main_pass-IsLocked p s l = service_usb_keyboard-IsLocked p.usb _ (before_usb-IsLocked p s l)

      -- The lock invariant is kept by every event.
      pub step-IsLocked :
          (e : Event) (s : Bridge Flash) → IsLocked s → IsLocked (step platform tlv e s).0
      unfolding step
      step-IsLocked (packet p now_ms) s l = packet_handler-IsLocked p now_ms s l
      step-IsLocked (reconnect answer) s l =
          ground (arith, connect_controller-IsLocked answer (record s { reconnect_timer = none }))
      step-IsLocked (scan status now_ms) s l = ground (
        arith,
        begin_pairing_scan-IsLocked status now_ms (record s { pairing_scan_timer = none }),
      )
      step-IsLocked (pass p) s l = main_pass-IsLocked p s l

      final-IsLocked :
          (es : List Event) (s : Bridge Flash) → IsLocked s → IsLocked (final platform tlv es s)
      unfolding final
      final-IsLocked [] s l = l
      final-IsLocked (e ∷ es) s l =
          final-IsLocked es (step platform tlv e s).0 (step-IsLocked e s l)

      pub boot-IsLocked : (flash : Flash) → IsLocked (boot platform tlv flash)
      unfolding boot
      boot-IsLocked flash =
          let l = new_bridge-IsLocked flash in
          record {
            no_key = l.no_key;
            chord_selected = l.chord_selected;
            chord_no_key = l.chord_no_key;
            ready_profile = l.ready_profile;
            mapper_valid = l.mapper_valid;
          }

      -- From the start of the program the lock invariant is kept over any sequence of events: no
      -- key is wanted while re-arming is required or a chord is confirmed, a confirmed chord
      -- belongs to a selected candidate, a ready bridge reads by the Lite 2 profile, and the
      -- mapper is valid.
      pub run-IsLocked :
          (flash : Flash) (es : List Event)
          → IsLocked (final platform tlv es (boot platform tlv flash))
      run-IsLocked flash es = final-IsLocked es (boot platform tlv flash) (boot-IsLocked flash)
