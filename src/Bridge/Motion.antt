-- ===== src/Bridge/Motion.antt =====
-- A report that makes the bridge ask for motion: what held of its bytes and of the bridge.
use red_monkey_mpg_firmware.Base.{
  ℕ, Bool, true, false, not, ◌&&◌, Option, some, List, ◌≡◌, ◌⊎◌, arith, refl, inl, inr,
  if◌then◌else◌, has_bits, within, magnitude, sym, ◌∙◌, ap,
}
use red_monkey_mpg_firmware.Types.{Axis, x, y, z, Direction, GamepadState, no_input, OutputFrame}
use red_monkey_mpg_firmware.Mapper.Moves.{stick_of, way}
use red_monkey_mpg_firmware.Mapper.{ControlMapper, update, axis_value, direction_of, jog_frame}
use red_monkey_mpg_firmware.Mapper.Safety.{update-jog, moved}
use red_monkey_mpg_firmware.Keyboard.{
  empty_report, CncControllerProfileId, cnc_controller_keyboard_report,
}
use red_monkey_mpg_firmware.Keyboard.Masso.{
  Command, idle, step_jog, continuous_jog, read_command, frame_command,
  cnc_controller_keyboard_report-supported,
}
use red_monkey_mpg_firmware.Production.{
  ProductionMapping, apply_production_mapping, validate_production_mapping, valid, face_buttons,
}
use red_monkey_mpg_firmware.Production.Apply.{apply-valid, any_pressed, is_cancel}
use red_monkey_mpg_firmware.Lite2.{parse, is_report, report_buttons}
use red_monkey_mpg_firmware.Bridge.{Bridge, consume_controller_report, parse_with}
use red_monkey_mpg_firmware.Bridge.Lock.{IsLocked}
use red_monkey_mpg_firmware.Bridge.Silent.{mapped_input}

unfoldable pub is_jog : Command → Bool
is_jog (step_jog a d) = true
is_jog (continuous_jog a d) = true
is_jog _ = false

-- The control state of a report of the Lite 2.
abbrev pub lite2_input : List ℕ → ℕ → GamepadState
lite2_input bytes now_ms = (parse (some bytes) now_ms no_input).1

-- Continuous while the continuous control is held and the precision control is not.
abbrev pub jog_for : ProductionMapping → ℕ → Axis → Direction → Command
jog_for m buttons a d =
    if has_bits buttons m.continuous_mask && not (has_bits buttons m.precision_mask)
    then continuous_jog a d
    else step_jog a d

module _ {Flash : Type 0} where
  -- What held when the report came: a supported controller, neutral controls since the last lock,
  -- no setup; a production mapping whose dead-man button is held in the report and no cancel
  -- button; and the stick of the axis out of its dead zone, in the direction of the command.
  pub record Commands (bytes : List ℕ) (now_ms : ℕ) (s : Bridge Flash) (a : Axis) (c : Command)
      : Type 0 where
    pub ready : s.descriptor_ready ≡ true
    pub armed : s.rearm_required ≡ false
    pub no_session : s.config_active ≡ false
    pub no_candidate : s.pairing_candidate_selected ≡ false
    pub well_formed : is_report bytes ≡ true
    pub production : validate_production_mapping s.production_mapping ≡ valid
    pub held : has_bits (report_buttons bytes) s.production_mapping.deadman_mask ≡ true
    pub not_cancelled :
        any_pressed is_cancel (report_buttons bytes) (face_buttons s.production_mapping) ≡ false
    pub deflected :
        within (magnitude (axis_value (lite2_input bytes now_ms) a)) s.mapper.config.deadzone
        ≡ false
    pub command :
        c
        ≡ jog_for s.production_mapping
            (report_buttons bytes)
            a
            (way a (stick_of a (lite2_input bytes now_ms)))

  -- The report wants no key, or the keys of the mapper's frame.
  record Drives (bytes : Option (List ℕ)) (now_ms : ℕ) (s : Bridge Flash) : Type 0 where
    ready : s.descriptor_ready ≡ true
    armed : s.rearm_required ≡ false
    no_session : s.config_active ≡ false
    no_candidate : s.pairing_candidate_selected ≡ false
    read : (parse_with s.active_profile bytes now_ms).0 ≡ true
    keys :
        (consume_controller_report bytes now_ms s).desired_report
        ≡ cnc_controller_keyboard_report s.production_mapping.cnc_profile
            (update s.mapper (mapped_input bytes now_ms s) now_ms).0

  consume_desired :
      (bytes : Option (List ℕ)) (now_ms : ℕ) (s : Bridge Flash)
      → ((consume_controller_report bytes now_ms s).desired_report ≡ empty_report)
        ⊎ Drives bytes now_ms s
  unfolding consume_controller_report
  consume_desired bytes now_ms s = ground arith

frame_jog :
    (f : OutputFrame) (c : Command) → frame_command f ≡ c → is_jog c ≡ true → f.has_jog ≡ true
unfolding frame_command is_jog
frame_jog f c e j = ground arith

empty_idle : read_command empty_report ≡ some idle
unfolding read_command
empty_idle = refl

no_jog : (c : Command) → read_command empty_report ≡ some c → is_jog c ≡ true → ⊥
unfolding is_jog
no_jog c e j = ground (arith, empty_idle)

-- A report from which the machine reads a motion is that of a frame that moves.
keys_jog :
    (id : CncControllerProfileId) (f : OutputFrame) (c : Command)
    → read_command (cnc_controller_keyboard_report id f) ≡ some c
    → is_jog c ≡ true
    → (f.has_jog ≡ true) × (frame_command f ≡ c)
unfolding is_jog
keys_jog id f c e j =
    ground (arith, cnc_controller_keyboard_report-supported id f, empty_idle, frame_jog f c)

-- A mapping that is not valid leaves no dead-man.
applied_valid :
    (raw : GamepadState) (m : ProductionMapping)
    → (apply_production_mapping raw m).deadman ≡ true
    → validate_production_mapping m ≡ valid
unfolding apply_production_mapping
applied_valid raw m h = ground arith

parse_read :
    (bytes : List ℕ) (now_ms : ℕ)
    → (parse (some bytes) now_ms no_input).0 ≡ true
    → (is_report bytes ≡ true) × ((lite2_input bytes now_ms).buttons ≡ report_buttons bytes)
unfolding parse
parse_read bytes now_ms h = ground arith

-- The command of the frame that moves, by the buttons of the raw report.
command_lem :
    (raw : GamepadState) (m : ProductionMapping) (a : Axis)
    → validate_production_mapping m ≡ valid
    → frame_command (jog_frame (apply_production_mapping raw m) a)
      ≡ jog_for m raw.buttons a (direction_of a (axis_value raw a))
unfolding frame_command
command_lem raw m a h = rw (apply-valid raw m h) (ground arith)

axis_lem :
    (raw : GamepadState) (m : ProductionMapping) (a : Axis)
    → validate_production_mapping m ≡ valid
    → axis_value (apply_production_mapping raw m) a ≡ axis_value raw a
axis_lem raw m a h = rw (apply-valid raw m h) (ground arith)

applied_controls :
    (raw : GamepadState) (m : ProductionMapping)
    → validate_production_mapping m ≡ valid
    → ((apply_production_mapping raw m).deadman ≡ has_bits raw.buttons m.deadman_mask)
      × ((apply_production_mapping raw m).cancel
          ≡ any_pressed is_cancel raw.buttons (face_buttons m))
applied_controls raw m h = rw (apply-valid raw m h) (refl, refl)

way_lem : (a : Axis) (s : GamepadState) → direction_of a (axis_value s a) ≡ way a (stick_of a s)
way_lem x s = ground arith
way_lem y s = ground arith
way_lem z s = ground arith

-- What a mapped report that moves gives, in terms of the raw one.
record Moves (raw : GamepadState) (now_ms : ℕ) (mapper : ControlMapper) (m : ProductionMapping)
    (a : Axis) (c : Command) : Type 0 where
  production : validate_production_mapping m ≡ valid
  held : has_bits raw.buttons m.deadman_mask ≡ true
  not_cancelled : any_pressed is_cancel raw.buttons (face_buttons m) ≡ false
  deflected : within (magnitude (axis_value raw a)) mapper.config.deadzone ≡ false
  command : c ≡ jog_for m raw.buttons a (direction_of a (axis_value raw a))

update-Moves :
    (raw : GamepadState) (now_ms : ℕ) (mapper : ControlMapper) (m : ProductionMapping) (c : Command)
    → let f = (update mapper (apply_production_mapping raw m) now_ms).0 in
      read_command (cnc_controller_keyboard_report m.cnc_profile f) ≡ some c
      → is_jog c ≡ true
      → Moves raw now_ms mapper m f.jog.axis c
update-Moves raw now_ms mapper m c e j =
    let input = apply_production_mapping raw m in
    let (moves, meant) = keys_jog m.cnc_profile (update mapper input now_ms).0 c e j in
    let (permits, frame, _, _) = update-jog mapper input now_ms moves in
    let production = applied_valid raw m permits.held in
    let a = moved mapper input now_ms in
    let (deadman, cancel) = applied_controls raw m production in
    record {
      production = production;
      held = sym deadman ∙ permits.held;
      not_cancelled = sym cancel ∙ permits.not_cancelled;
      deflected =
          ap (λ v. within (magnitude v) mapper.config.deadzone) (sym (axis_lem raw m a production))
          ∙ permits.deflected;
      command = sym meant ∙ ap frame_command frame ∙ command_lem raw m a production;
    }

module _ {Flash : Type 0} where
  Drives-Commands :
      (bytes : List ℕ) (now_ms : ℕ) (s : Bridge Flash) (c : Command)
      → IsLocked s
      → Drives (some bytes) now_ms s
      → read_command (
          cnc_controller_keyboard_report s.production_mapping.cnc_profile
            (update s.mapper (mapped_input (some bytes) now_ms s) now_ms).0)
        ≡ some c
      → is_jog c ≡ true
      → (a : Axis) × Commands bytes now_ms s a c
  Drives-Commands bytes now_ms s c l d e j =
      let profile = l.ready_profile d.ready in
      let raw = lite2_input bytes now_ms in
      let m = s.production_mapping in
      let parsed = ap (λ p. parse_with p (some bytes) now_ms) profile in
      let (good, buttons) = parse_read bytes now_ms (sym (ap (λ r. r.0) parsed) ∙ d.read) in
      let same =
        ap
          (λ (r : Bool × GamepadState). read_command (
            cnc_controller_keyboard_report m.cnc_profile
              (update s.mapper (apply_production_mapping r.1 m) now_ms).0))
          parsed in
      let moves = update-Moves raw now_ms s.mapper m c (sym same ∙ e) j in
      let a = (update s.mapper (apply_production_mapping raw m) now_ms).0.jog.axis in
      (
        a,
        record {
          ready = d.ready;
          armed = d.armed;
          no_session = d.no_session;
          no_candidate = d.no_candidate;
          well_formed = good;
          production = moves.production;
          held = ap (λ b. has_bits b m.deadman_mask) (sym buttons) ∙ moves.held;
          not_cancelled =
              ap (λ b. any_pressed is_cancel b (face_buttons m)) (sym buttons)
              ∙ moves.not_cancelled;
          deflected = moves.deflected;
          command =
              moves.command
              ∙ ap (λ b. jog_for m b a (direction_of a (axis_value raw a))) buttons
              ∙ ap (jog_for m (report_buttons bytes) a) (way_lem a raw);
        },
      )

  -- If the machine reads a motion from the keys that are wanted after a report, in a state with
  -- the lock invariant: a supported controller is connected and armed, no setup session is active
  -- and no candidate is selected, the mapping is valid, its dead-man button is held in the report
  -- and no cancel button, the stick of some axis is out of its dead zone, and the motion is along
  -- that axis in the direction of the stick, continuous exactly when the continuous button is held
  -- and the precision button is not.
  pub consume-Commands :
      (bytes : List ℕ) (now_ms : ℕ) (s : Bridge Flash) (c : Command)
      → IsLocked s
      → read_command (consume_controller_report (some bytes) now_ms s).desired_report ≡ some c
      → is_jog c ≡ true
      → (a : Axis) × Commands bytes now_ms s a c
  consume-Commands bytes now_ms s c l e j = elim (consume_desired (some bytes) now_ms s) [
    | inl none_wanted ↦ absurd (no_jog c (sym (ap read_command none_wanted) ∙ e) j)
    | inr d ↦ Drives-Commands bytes now_ms s c l d (sym (ap read_command d.keys) ∙ e) j
  ]
