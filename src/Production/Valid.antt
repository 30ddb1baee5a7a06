-- ===== src/Production/Valid.antt =====
-- What a mapping that passes validation is, and which error each other mapping gets.
use red_monkey_mpg_firmware.Base.{ℕ, true, ◌≡◌, ◌≢◌, ◌⊎◌, ◌↔◌, arith, refl, inl, inr}
use red_monkey_mpg_firmware.Base.Bits.{single_bit_mask, IsBitOf}
use red_monkey_mpg_firmware.Keyboard.{masso_g3_touch_5_13}
use red_monkey_mpg_firmware.Production.{
  ButtonAction, unnamed, ProductionMapping, is_safe_face_action, is_motion_control, motion_controls,
  validate_production_mapping, valid,
}

-- L1, R1, L2 or R2 alone.
abbrev pub IsShoulder : ℕ → Type 0
IsShoulder mask = (mask ≡ 0x40) ⊎ (mask ≡ 0x80) ⊎ (mask ≡ 0x100) ⊎ (mask ≡ 0x200)

is_motion_control_sound : (mask : ℕ) → is_motion_control mask ≡ true → IsShoulder mask
unfolding is_motion_control
is_motion_control_sound mask h =
    let bit : IsBitOf 10 motion_controls mask =
      single_bit_mask 10 motion_controls mask (omega arith) (ground arith) (ground arith)
        (ground arith) in
    omega arith

is_motion_control_complete : (mask : ℕ) → IsShoulder mask → is_motion_control mask ≡ true
unfolding is_motion_control
is_motion_control_complete mask (inl e) = rw e
is_motion_control_complete mask (inr (inl e)) = rw e
is_motion_control_complete mask (inr (inr (inl e))) = rw e
is_motion_control_complete mask (inr (inr (inr e))) = rw e

pub is_motion_control_iff : (mask : ℕ) → (is_motion_control mask ≡ true) ↔ IsShoulder mask
is_motion_control_iff mask = (is_motion_control_sound mask, is_motion_control_complete mask)

abbrev pub IsNamed : ButtonAction → Type 0
IsNamed action = (n : ℕ) → action ≢ unnamed n

-- One supported machine, three different shoulder buttons, no resolution button, and actions
-- that the enum names.
pub record IsProduction (m : ProductionMapping) : Type 0 where
  pub supported : m.cnc_profile ≡ masso_g3_touch_5_13
  pub deadman_shoulder : IsShoulder m.deadman_mask
  pub continuous_shoulder : IsShoulder m.continuous_mask
  pub precision_shoulder : IsShoulder m.precision_mask
  pub deadman-ne-continuous : m.deadman_mask ≢ m.continuous_mask
  pub deadman-ne-precision : m.deadman_mask ≢ m.precision_mask
  pub continuous-ne-precision : m.continuous_mask ≢ m.precision_mask
  pub no_resolution : m.resolution_mask ≡ 0
  pub named_a : IsNamed m.face_a
  pub named_b : IsNamed m.face_b
  pub named_x : IsNamed m.face_x
  pub named_y : IsNamed m.face_y

is_safe_face_action_sound :
    (action : ButtonAction) → is_safe_face_action action ≡ true → IsNamed action
unfolding is_safe_face_action
is_safe_face_action_sound action h n e = ground arith

is_safe_face_action_complete :
    (action : ButtonAction) → IsNamed action → is_safe_face_action action ≡ true
unfolding is_safe_face_action
is_safe_face_action_complete (unnamed n) h = absurd (h n refl)
is_safe_face_action_complete _ h = refl

-- What validation tests, with the masks and the actions still as tests.
record Passes (m : ProductionMapping) : Type 0 where
  supported : m.cnc_profile ≡ masso_g3_touch_5_13
  deadman_control : is_motion_control m.deadman_mask ≡ true
  continuous_control : is_motion_control m.continuous_mask ≡ true
  precision_control : is_motion_control m.precision_mask ≡ true
  deadman-ne-continuous : m.deadman_mask ≢ m.continuous_mask
  deadman-ne-precision : m.deadman_mask ≢ m.precision_mask
  continuous-ne-precision : m.continuous_mask ≢ m.precision_mask
  no_resolution : m.resolution_mask ≡ 0
  safe_a : is_safe_face_action m.face_a ≡ true
  safe_b : is_safe_face_action m.face_b ≡ true
  safe_x : is_safe_face_action m.face_x ≡ true
  safe_y : is_safe_face_action m.face_y ≡ true

validate-Passes : (m : ProductionMapping) → validate_production_mapping m ≡ valid → Passes m
unfolding validate_production_mapping
validate-Passes m h = ground arith

Passes-validate : (m : ProductionMapping) → Passes m → validate_production_mapping m ≡ valid
unfolding validate_production_mapping
Passes-validate m p = ground arith

-- A mapping passes validation exactly when its profile is the supported one, its three motion
-- controls are different single shoulder buttons, it has no resolution button, and its actions are
-- named by the enum.
pub validate_valid_iff :
    (m : ProductionMapping) → (validate_production_mapping m ≡ valid) ↔ IsProduction m
validate_valid_iff m = (
  λ h.
      let p = validate-Passes m h in
      record {
        supported = p.supported;
        deadman_shoulder = is_motion_control_sound _ p.deadman_control;
        continuous_shoulder = is_motion_control_sound _ p.continuous_control;
        precision_shoulder = is_motion_control_sound _ p.precision_control;
        deadman-ne-continuous = p.deadman-ne-continuous;
        deadman-ne-precision = p.deadman-ne-precision;
        continuous-ne-precision = p.continuous-ne-precision;
        no_resolution = p.no_resolution;
        named_a = is_safe_face_action_sound _ p.safe_a;
        named_b = is_safe_face_action_sound _ p.safe_b;
        named_x = is_safe_face_action_sound _ p.safe_x;
        named_y = is_safe_face_action_sound _ p.safe_y;
      },
  λ p. Passes-validate m (record {
    supported = p.supported;
    deadman_control = is_motion_control_complete _ p.deadman_shoulder;
    continuous_control = is_motion_control_complete _ p.continuous_shoulder;
    precision_control = is_motion_control_complete _ p.precision_shoulder;
    deadman-ne-continuous = p.deadman-ne-continuous;
    deadman-ne-precision = p.deadman-ne-precision;
    continuous-ne-precision = p.continuous-ne-precision;
    no_resolution = p.no_resolution;
    safe_a = is_safe_face_action_complete _ p.named_a;
    safe_b = is_safe_face_action_complete _ p.named_b;
    safe_x = is_safe_face_action_complete _ p.named_x;
    safe_y = is_safe_face_action_complete _ p.named_y;
  }),
)
