-- ===== src/ConfigService/Mapping/Words.antt =====
-- The words of a mapping, and what a request may put in place of it.
use red_monkey_mpg_firmware.Base.{
  ◌>>=◌, ℕ, Bool, true, false, Option, none, some, List, if◌then◌else◌, is_some, ◌≡◌, ap, sym, ◌∙◌,
  refl, arith, inl, inr, bind_some, is_some,
}
use red_monkey_mpg_firmware.Base.Codes.{codes}
use red_monkey_mpg_firmware.Persistent.{same_bytes}
use red_monkey_mpg_firmware.Production.{
  is_motion_control, ProductionMapping, ButtonAction, unassigned, cancel, cycle_resolution,
  step_0_01, step_0_10, step_0_50, step_1_00, unnamed, validate_production_mapping, is_valid,
  is_safe_face_action, valid, ConfigValidation,
}
use red_monkey_mpg_firmware.Production.Valid.{is_motion_control_iff}
use red_monkey_mpg_firmware.Keyboard.{CncControllerProfile}
use red_monkey_mpg_firmware.ConfigService.Text.{read_string, strstr}
use red_monkey_mpg_firmware.ConfigService.Mapping.{
  control_mask, button_action, control_name, action_name, parse_mapping, with_profile, checked,
  named_profile, adopt_profile, Texts, read_texts, assign, parse_texts, profile_by_text,
}

-- The name of a named action reads back as the action.
pub button_action-action_name :
    (a : ButtonAction) → is_safe_face_action a ≡ true → button_action (codes (action_name a)) ≡ a
unfolding button_action action_name is_safe_face_action same_bytes
button_action-action_name unassigned h = refl
button_action-action_name cancel h = refl
button_action-action_name cycle_resolution h = refl
button_action-action_name step_0_01 h = refl
button_action-action_name step_0_10 h = refl
button_action-action_name step_0_50 h = refl
button_action-action_name step_1_00 h = refl
button_action-action_name (unnamed n) h = cc

-- The same for the name of a motion control.
pub control_mask-control_name :
    (mask : ℕ) (allow_resolution : Bool)
    → is_motion_control mask ≡ true
    → control_mask (codes (control_name mask)) allow_resolution ≡ mask
unfolding control_mask control_name same_bytes
control_mask-control_name mask allow h = elim ((is_motion_control_iff mask).0 h) [
  | inl e ↦ rw e refl
  | inr (inl e) ↦ rw e refl
  | inr (inr (inl e)) ↦ rw e refl
  | inr (inr (inr e)) ↦ rw e refl
]

is_valid_sound : (v : ConfigValidation) → is_valid v ≡ true → v ≡ valid
is_valid_sound v h = ground arith

checked_sound :
    (c n : ProductionMapping)
    → checked c ≡ some n
    → (validate_production_mapping n ≡ valid) × (c ≡ n)
unfolding checked
checked_sound c n h = ground (arith, is_valid_sound (validate_production_mapping c))

adopt_profile-precision :
    (m n : ProductionMapping) (p : Option CncControllerProfile)
    → adopt_profile m p ≡ some n
    → n.precision_mask ≡ m.precision_mask
unfolding adopt_profile
adopt_profile-precision m n none h = cc
adopt_profile-precision m n (some p) h = ground arith

named_profile-precision :
    (line : List ℕ) (m n : ProductionMapping)
    → named_profile line m ≡ some n
    → n.precision_mask ≡ m.precision_mask
unfolding named_profile
named_profile-precision line m n h =
    let (text, _, adopted) =
      bind_some (read_string line (codes "\"cncProfile\":\"") 48)
        (λ text. adopt_profile m (profile_by_text text)) n h in
    adopt_profile-precision m n (profile_by_text text) adopted

named_or_kept-precision :
    (named : Bool) (line : List ℕ) (m n : ProductionMapping)
    → (if named then named_profile line m else some m) ≡ some n
    → n.precision_mask ≡ m.precision_mask
named_or_kept-precision true line m n h = named_profile-precision line m n h
named_or_kept-precision false line m n h = ground arith

with_profile-precision :
    (line : List ℕ) (m n : ProductionMapping)
    → with_profile line m ≡ some n
    → n.precision_mask ≡ m.precision_mask
unfolding with_profile
with_profile-precision line m n h =
    named_or_kept-precision (is_some (strstr line (codes "\"cncProfile\":\""))) line m n h

assign_twice :
    (texts : Texts) (c : ProductionMapping) → assign texts c ≡ assign texts (assign texts c)
unfolding assign
assign_twice texts c = refl

assign-precision :
    (texts : Texts) (c : ProductionMapping) → (assign texts c).precision_mask ≡ c.precision_mask
unfolding assign
assign-precision texts c = refl

-- The seven members of a request, one after the other.
collect : (d c r a b x y : Option (List ℕ)) → Option Texts
collect d c r a b x y = do
  deadman ← d
  continuous ← c
  resolution ← r
  face_a ← a
  face_b ← b
  face_x ← x
  face_y ← y
  some (record {
    deadman = deadman;
    continuous = continuous;
    resolution = resolution;
    face_a = face_a;
    face_b = face_b;
    face_x = face_x;
    face_y = face_y;
  })

collected :
    (d c r a b x y : Option (List ℕ)) (texts : Texts)
    → collect d c r a b x y ≡ some texts
    → (d ≡ some texts.deadman)
      × (c ≡ some texts.continuous)
      × (r ≡ some texts.resolution)
      × (a ≡ some texts.face_a)
      × (b ≡ some texts.face_b)
      × (x ≡ some texts.face_x)
      × (y ≡ some texts.face_y)
unfolding collect
collected d c r a b x y texts h = ground arith

-- Each control and action of the mapping is what the text of its own member names.
pub record Names (line : List ℕ) (texts : Texts) (n : ProductionMapping) : Type 0 where
  pub deadman : read_string line (codes "\"deadman\":\"") 16 ≡ some texts.deadman
  pub continuous : read_string line (codes "\"continuous\":\"") 16 ≡ some texts.continuous
  pub resolution : read_string line (codes "\"resolution\":\"") 20 ≡ some texts.resolution
  pub face_a : read_string line (codes "\"faceA\":\"") 24 ≡ some texts.face_a
  pub face_b : read_string line (codes "\"faceB\":\"") 24 ≡ some texts.face_b
  pub face_x : read_string line (codes "\"faceX\":\"") 24 ≡ some texts.face_x
  pub face_y : read_string line (codes "\"faceY\":\"") 24 ≡ some texts.face_y
  pub deadman_mask : n.deadman_mask ≡ control_mask texts.deadman false
  pub continuous_mask : n.continuous_mask ≡ control_mask texts.continuous false
  pub resolution_mask : n.resolution_mask ≡ control_mask texts.resolution true
  pub action_a : n.face_a ≡ button_action texts.face_a
  pub action_b : n.face_b ≡ button_action texts.face_b
  pub action_x : n.face_x ≡ button_action texts.face_x
  pub action_y : n.face_y ≡ button_action texts.face_y

read_texts_members :
    (line : List ℕ) (texts : Texts)
    → read_texts line ≡ some texts
    → collect
        (read_string line (codes "\"deadman\":\"") 16)
        (read_string line (codes "\"continuous\":\"") 16)
        (read_string line (codes "\"resolution\":\"") 20)
        (read_string line (codes "\"faceA\":\"") 24)
        (read_string line (codes "\"faceB\":\"") 24)
        (read_string line (codes "\"faceX\":\"") 24)
        (read_string line (codes "\"faceY\":\"") 24)
      ≡ some texts
unfolding read_texts collect
read_texts_members line texts h = h

Names-assign :
    (line : List ℕ) (texts : Texts) (n : ProductionMapping)
    → read_texts line ≡ some texts
    → n ≡ assign texts n
    → Names line texts n
unfolding assign
Names-assign line texts n read same =
    let (d, c, r, a, b, x', y') =
      collected _ _ _ _ _ _ _ texts (read_texts_members line texts read) in
    record {
      deadman = d;
      continuous = c;
      resolution = r;
      face_a = a;
      face_b = b;
      face_x = x';
      face_y = y';
      deadman_mask = ap (λ (k : ProductionMapping). k.deadman_mask) same;
      continuous_mask = ap (λ (k : ProductionMapping). k.continuous_mask) same;
      resolution_mask = ap (λ (k : ProductionMapping). k.resolution_mask) same;
      action_a = ap (λ (k : ProductionMapping). k.face_a) same;
      action_b = ap (λ (k : ProductionMapping). k.face_b) same;
      action_x = ap (λ (k : ProductionMapping). k.face_x) same;
      action_y = ap (λ (k : ProductionMapping). k.face_y) same;
    }

-- A mapping that a line gives passes the validation, keeps the precision control of the old one,
-- and has the control or the action that the line names under its own member for each button, read
-- as text from the line.
pub parse_mapping_sound :
    (line : List ℕ) (m n : ProductionMapping)
    → parse_mapping line m ≡ some n
    → (validate_production_mapping n ≡ valid)
      × (n.precision_mask ≡ m.precision_mask)
      × ((texts : Texts) × (read_texts line ≡ some texts)
          × (n ≡ assign texts n)
          × Names line texts n)
unfolding parse_mapping parse_texts
parse_mapping_sound line m n h =
    let (texts, read, parsed) = bind_some (read_texts line) (parse_texts line m) n h in
    let (c, profile, passed) =
      bind_some (with_profile line m) (λ candidate. checked (assign texts candidate)) n parsed in
    let (passes, same) = checked_sound (assign texts c) n passed in
    let precision : n.precision_mask ≡ m.precision_mask =
      ap (λ (k : ProductionMapping). k.precision_mask) (sym same)
      ∙ assign-precision texts c
      ∙ with_profile-precision line m c profile in
    let assigned : n ≡ assign texts n = sym same ∙ assign_twice texts c ∙ ap (assign texts) same in
    (passes, precision, (texts, read, assigned, Names-assign line texts n read assigned))
