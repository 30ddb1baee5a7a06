-- ===== src/Storage.antt =====
-- The stored record of firmware/src/persistent_config.cpp: its 44 packed bytes, its check word,
-- and the mapping in it.
pub mod RoundTrip
use red_monkey_mpg_firmware.Base.{
  ℕ, zero, suc, ◌+◌, ◌-◌, ◌*◌, ◌/◌, ◌%◌, ◌^◌, Bool, true, false, not, ◌&&◌, ◌||◌, Option, none,
  some, List, [], ◌∷◌, ◌++◌, ◌==◌, ltb, leb, if◌then◌else◌, u8, u32, sub32, bit_and, bit_xor,
  get_or, take, drop, replicate,
}
use red_monkey_mpg_firmware.Production.{
  ButtonAction, unassigned, cancel, cycle_resolution, step_0_01, step_0_10, step_0_50, step_1_00,
  unnamed, ProductionMapping, validate_production_mapping, is_valid,
}
use red_monkey_mpg_firmware.Address.{address_bytes_valid, parse_address}

abbrev pub magic_word : ℕ
magic_word = 0x4f4d5047

abbrev pub schema_version : ℕ
schema_version = 1

-- `sizeof(Record)`
abbrev pub record_size : ℕ
record_size = 44

pub record Record : Type 0 where
  pub magic : ℕ
  pub schema : ℕ
  pub size : ℕ
  pub sequence : ℕ
  pub deadman_mask : ℕ
  pub continuous_mask : ℕ
  pub precision_mask : ℕ
  pub resolution_mask : ℕ
  pub face : List ℕ
  pub controller_address : List ℕ
  pub controller_valid : ℕ
  pub cnc_profile : ℕ
  pub crc : ℕ

-- The little-endian bytes of a field of the width.
unfoldable pub field_bytes : ℕ → ℕ → List ℕ
field_bytes zero n = []
field_bytes (suc width) n = u8 n ∷ field_bytes width (n / 256)

unfoldable pub field_value : List ℕ → ℕ
field_value [] = 0
field_value (b ∷ bs) = b + 256 * field_value bs

-- The bytes before the check word.
unfoldable pub body_bytes : Record → List ℕ
unfolding field_bytes
body_bytes r =
    field_bytes 4 r.magic
    ++ field_bytes 2 r.schema
    ++ field_bytes 2 r.size
    ++ field_bytes 4 r.sequence
    ++ field_bytes 4 r.deadman_mask
    ++ field_bytes 4 r.continuous_mask
    ++ field_bytes 4 r.precision_mask
    ++ field_bytes 4 r.resolution_mask
    ++ r.face
    ++ r.controller_address
    ++ field_bytes 1 r.controller_valid
    ++ field_bytes 1 r.cnc_profile

unfoldable pub record_bytes : Record → List ℕ
unfolding body_bytes
record_bytes r = body_bytes r ++ field_bytes 4 r.crc

-- The record whose memory the bytes are.
unfoldable pub record_of : List ℕ → Record
unfolding field_value
record_of bs = record {
  magic = field_value (take 4 bs);
  schema = field_value (take 2 (drop 4 bs));
  size = field_value (take 2 (drop 6 bs));
  sequence = field_value (take 4 (drop 8 bs));
  deadman_mask = field_value (take 4 (drop 12 bs));
  continuous_mask = field_value (take 4 (drop 16 bs));
  precision_mask = field_value (take 4 (drop 20 bs));
  resolution_mask = field_value (take 4 (drop 24 bs));
  face = take 4 (drop 28 bs);
  controller_address = take 6 (drop 32 bs);
  controller_valid = field_value (take 1 (drop 38 bs));
  cnc_profile = field_value (take 1 (drop 39 bs));
  crc = field_value (take 4 (drop 40 bs));
}

-- One round of the loop over the bits.
crc32_bit : ℕ → ℕ
crc32_bit crc = bit_xor (crc / 2) (bit_and 0xedb88320 (sub32 0 (bit_and crc 1)))

crc32_bits : ℕ → ℕ → ℕ
unfolding crc32_bit
crc32_bits zero crc = crc
crc32_bits (suc rounds) crc = crc32_bits rounds (crc32_bit crc)

crc32_bytes : ℕ → List ℕ → ℕ
unfolding crc32_bits
crc32_bytes crc [] = crc
crc32_bytes crc (b ∷ bs) = crc32_bytes (crc32_bits 8 (bit_xor crc b)) bs

unfoldable pub crc32 : List ℕ → ℕ
unfolding crc32_bytes
crc32 bytes = 0xffffffff - crc32_bytes 0xffffffff bytes

-- The byte of an action, and the action of a byte.
unfoldable pub action_byte : ButtonAction → ℕ
action_byte unassigned = 0
action_byte cancel = 1
action_byte cycle_resolution = 2
action_byte step_0_01 = 3
action_byte step_0_10 = 4
action_byte step_0_50 = 5
action_byte step_1_00 = 6
action_byte (unnamed n) = u8 n

unfoldable pub action_of : ℕ → ButtonAction
action_of n =
    if n == 0
    then unassigned
    else if n == 1
    then cancel
    else if n == 2
    then cycle_resolution
    else if n == 3
    then step_0_01
    else if n == 4
    then step_0_10
    else if n == 5
    then step_0_50
    else if n == 6
    then step_1_00
    else unnamed n

bool_byte : Bool → ℕ
bool_byte true = 1
bool_byte false = 0

-- The record before its check word.
unfoldable pub unchecked : ProductionMapping → ℕ → Bool × List ℕ → Record
unfolding action_byte bool_byte
unchecked m sequence (valid_address, address) = record {
  magic = magic_word;
  schema = schema_version;
  size = record_size;
  sequence = sequence;
  deadman_mask = m.deadman_mask;
  continuous_mask = m.continuous_mask;
  precision_mask = m.precision_mask;
  resolution_mask = m.resolution_mask;
  face =
      action_byte m.face_a
      ∷ action_byte m.face_b
      ∷ action_byte m.face_x
      ∷ action_byte m.face_y
      ∷ [];
  controller_address = address;
  controller_valid = bool_byte valid_address;
  cnc_profile = u8 m.cnc_profile;
  crc = 0;
}

unfoldable pub with_crc : Record → Record
unfolding body_bytes
with_crc r = record r { crc = crc32 (body_bytes r) }

unfoldable pub encode : ProductionMapping → ℕ → Option (List ℕ) → Record
encode m sequence address = with_crc (unchecked m sequence (parse_address address (replicate 6 0)))

unfoldable pub candidate : Record → ProductionMapping
unfolding action_of
candidate r = record {
  cnc_profile = r.cnc_profile;
  deadman_mask = r.deadman_mask;
  continuous_mask = r.continuous_mask;
  precision_mask = r.precision_mask;
  resolution_mask = r.resolution_mask;
  face_a = action_of (get_or r.face 0 0);
  face_b = action_of (get_or r.face 1 0);
  face_x = action_of (get_or r.face 2 0);
  face_y = action_of (get_or r.face 3 0);
}

-- The mapping of an intact record; `none` leaves the caller's mapping.
unfoldable pub decode : Record → Option ProductionMapping
decode r =
    if not (r.magic == magic_word)
      || not (r.schema == schema_version)
      || not (r.size == record_size)
      || ltb 1 r.controller_valid
      || (not (r.controller_valid == 0) && not (address_bytes_valid r.controller_address))
      || not (r.crc == crc32 (body_bytes r))
    then none
    else if is_valid (validate_production_mapping (candidate r))
    then some (candidate r)
    else none
