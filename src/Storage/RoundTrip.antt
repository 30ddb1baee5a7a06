-- ===== src/Storage/RoundTrip.antt =====
-- A record that is encoded is read back from its bytes and decoded.
use red_monkey_mpg_firmware.Base.{
  ℕ, ◌^◌, ◌<◌, ◌≤◌, Bool, true, false, Option, some, List, [], ◌∷◌, length, ◌≡◌, ◌≢◌, ◌↔◌, refl, ap,
  ◌∙◌, arith,
}
use red_monkey_mpg_firmware.Production.{
  ButtonAction, unnamed, ProductionMapping, validate_production_mapping, valid,
}
use red_monkey_mpg_firmware.Production.Valid.{IsProduction, IsShoulder, IsNamed, validate_valid_iff}
use red_monkey_mpg_firmware.Address.{address_bytes_valid}
use red_monkey_mpg_firmware.Address.Parsed.{parse_address-length, parse_address_valid}
use red_monkey_mpg_firmware.Storage.{
  Record, magic_word, bool_byte, field_bytes, field_value, body_bytes, record_bytes, record_of,
  crc32, action_byte, action_of, unchecked, with_crc, encode, candidate, decode,
}

-- Every field fits its width, and the arrays have their lengths.
pub record Fits (r : Record) : Type 0 where
  pub magic : r.magic < 2 ^ 32
  pub schema : r.schema < 2 ^ 16
  pub size : r.size < 2 ^ 16
  pub sequence : r.sequence < 2 ^ 32
  pub deadman_mask : r.deadman_mask < 2 ^ 32
  pub continuous_mask : r.continuous_mask < 2 ^ 32
  pub precision_mask : r.precision_mask < 2 ^ 32
  pub resolution_mask : r.resolution_mask < 2 ^ 32
  pub face : length r.face ≡ 4
  pub controller_address : length r.controller_address ≡ 6
  pub controller_valid : r.controller_valid < 2 ^ 8
  pub cnc_profile : r.cnc_profile < 2 ^ 8
  pub crc : r.crc < 2 ^ 32

four_value : (n : ℕ) → n < 2 ^ 32 → field_value (field_bytes 4 n) ≡ n
unfolding field_value field_bytes
four_value n h = omega arith

two_value : (n : ℕ) → n < 2 ^ 16 → field_value (field_bytes 2 n) ≡ n
unfolding field_value field_bytes
two_value n h = omega arith

one_value : (n : ℕ) → n < 2 ^ 8 → field_value (field_bytes 1 n) ≡ n
unfolding field_value field_bytes
one_value n h = omega arith

-- A list by its length.
four_elements :
    (bs : List ℕ)
    → length bs ≡ 4
    → (a : ℕ) × (b : ℕ) × (c : ℕ) × (d : ℕ) × (bs ≡ a ∷ b ∷ c ∷ d ∷ [])
four_elements (a ∷ b ∷ c ∷ d ∷ []) h = (a, b, c, d, refl)
four_elements _ h = absurd (ground arith)

pub six_elements :
    (bs : List ℕ)
    → length bs ≡ 6
    → (a : ℕ) × (b : ℕ) × (c : ℕ) × (d : ℕ) × (e : ℕ) × (f : ℕ) × (bs ≡ a ∷ b ∷ c ∷ d ∷ e ∷ f ∷ [])
six_elements (a ∷ b ∷ c ∷ d ∷ e ∷ f ∷ []) h = (a, b, c, d, e, f, refl)
six_elements _ h = absurd (ground arith)

-- The bytes of a record hold all of it.
pub record_of-record_bytes : (r : Record) → Fits r → record_of (record_bytes r) ≡ r
unfolding record_of record_bytes
record_of-record_bytes r f =
    let (a, b, c, d, four) = four_elements r.face f.face in
    let (p, q, s, t, u, v, six) = six_elements r.controller_address f.controller_address in
    ground (
      arith,
      four_value r.magic f.magic,
      two_value r.schema f.schema,
      two_value r.size f.size,
      four_value r.sequence f.sequence,
      four_value r.deadman_mask f.deadman_mask,
      four_value r.continuous_mask f.continuous_mask,
      four_value r.precision_mask f.precision_mask,
      four_value r.resolution_mask f.resolution_mask,
      one_value r.controller_valid f.controller_valid,
      one_value r.cnc_profile f.cnc_profile,
      four_value r.crc f.crc,
    )

-- The byte of an action that the enum names gives the action back.
action_of-action_byte :
    (action : ButtonAction) → IsNamed action → action_of (action_byte action) ≡ action
unfolding action_of action_byte
action_of-action_byte (unnamed n) h = absurd (h n refl)
action_of-action_byte _ h = refl

shoulder_small : (mask : ℕ) → IsShoulder mask → mask < 2 ^ 32
shoulder_small mask h = omega arith

crc32_small : (bs : List ℕ) → crc32 bs < 2 ^ 32
unfolding crc32
crc32_small bs = omega arith

bool_byte_small : (b : Bool) → bool_byte b < 2 ^ 8
unfolding bool_byte
bool_byte_small true = omega arith
bool_byte_small false = omega arith

encode-Fits :
    (m : ProductionMapping) (sequence : ℕ) (address : Option (List ℕ))
    → IsProduction m
    → sequence < 2 ^ 32
    → Fits (encode m sequence address)
unfolding encode unchecked with_crc
encode-Fits m sequence address p h = record {
  magic = omega arith;
  schema = omega arith;
  size = omega arith;
  sequence = h;
  deadman_mask = shoulder_small _ p.deadman_shoulder;
  continuous_mask = shoulder_small _ p.continuous_shoulder;
  precision_mask = shoulder_small _ p.precision_shoulder;
  resolution_mask = rw p.no_resolution (omega arith);
  face = refl;
  controller_address = parse_address-length address _ refl;
  controller_valid = bool_byte_small _;
  cnc_profile = omega arith;
  crc = crc32_small _;
}

candidate-encode :
    (m : ProductionMapping) (sequence : ℕ) (address : Option (List ℕ))
    → IsProduction m
    → candidate (encode m sequence address) ≡ m
unfolding candidate encode unchecked with_crc
candidate-encode m sequence address p = ground (
  arith,
  p.supported,
  action_of-action_byte m.face_a p.named_a,
  action_of-action_byte m.face_b p.named_b,
  action_of-action_byte m.face_x p.named_x,
  action_of-action_byte m.face_y p.named_y,
)

pub encode-sequence :
    (m : ProductionMapping) (sequence : ℕ) (address : Option (List ℕ))
    → (encode m sequence address).sequence ≡ sequence
unfolding encode unchecked with_crc
encode-sequence m sequence address = refl

encode-crc :
    (m : ProductionMapping) (sequence : ℕ) (address : Option (List ℕ))
    → (encode m sequence address).crc ≡ crc32 (body_bytes (encode m sequence address))
unfolding encode with_crc
encode-crc m sequence address = refl

-- The magic, the schema and the size, an address that is absent or accepted, and the check word.
pub record IsIntact (r : Record) : Type 0 where
  pub magic : r.magic ≡ magic_word
  pub schema : r.schema ≡ 1
  pub size : r.size ≡ 44
  pub flag : r.controller_valid ≤ 1
  pub address : r.controller_valid ≢ 0 → address_bytes_valid r.controller_address ≡ true
  pub checked : r.crc ≡ crc32 (body_bytes r)

pub decode_valid :
    (r : Record) (m : ProductionMapping)
    → (decode r ≡ some m)
      ↔ (IsIntact r × (candidate r ≡ m) × (validate_production_mapping m ≡ valid))
unfolding decode
decode_valid r m = (λ h. ground arith, λ h. ground arith)

-- A record decodes to a mapping exactly when it is intact and its fields are that mapping, which
-- is a production mapping.
pub decode-some_iff :
    (r : Record) (m : ProductionMapping)
    → (decode r ≡ some m) ↔ (IsIntact r × (candidate r ≡ m) × IsProduction m)
decode-some_iff r m =
    let (there, back) = decode_valid r m in
    let (sound, complete) = validate_valid_iff m in
    (λ h. let (i, c, v) = there h in (i, c, sound v), λ h. back (h.0, h.1, complete h.2))

encode-IsIntact :
    (m : ProductionMapping) (sequence : ℕ) (address : Option (List ℕ))
    → IsIntact (encode m sequence address)
unfolding encode unchecked with_crc bool_byte
encode-IsIntact m sequence address = record {
  magic = refl;
  schema = refl;
  size = refl;
  flag = ground arith;
  address = λ h. parse_address_valid address _ (ground arith);
  checked = encode-crc m sequence address;
}

-- The 44 bytes of a record that is encoded from a production mapping with a 32-bit sequence number
-- are read back as that record, and decode to the mapping, whatever the address text.
pub decode-encode :
    (m : ProductionMapping) (sequence : ℕ) (address : Option (List ℕ))
    → IsProduction m
    → sequence < 2 ^ 32
    → (record_of (record_bytes (encode m sequence address)) ≡ encode m sequence address)
      × (decode (record_of (record_bytes (encode m sequence address))) ≡ some m)
decode-encode m sequence address p h =
    let r = encode m sequence address in
    let same = record_of-record_bytes r (encode-Fits m sequence address p h) in
    let decoded =
      (decode-some_iff r m).1
        (encode-IsIntact m sequence address, candidate-encode m sequence address p, p) in
    (same, ap decode same ∙ decoded)
