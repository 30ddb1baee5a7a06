-- ===== src/Tests/Storage.antt =====
-- The store over a flash that is a function from tags to bytes.
use mathlib.Core.Path.{◌≡◌}
use red_monkey_mpg_firmware.Base.{
  ℕ, zero, suc, Bool, true, false, none, some, List, [], ◌∷◌, ◌==◌, if◌then◌else◌, u8, length, ◌≢◌,
  refl, ap, arith, inl, replicate,
}
use red_monkey_mpg_firmware.Production.{
  default_mapping, validate_production_mapping, valid, is_motion_control, is_safe_face_action,
  is_step_action,
}
use red_monkey_mpg_firmware.Production.Valid.{IsProduction, validate_valid_iff}
use red_monkey_mpg_firmware.Address.{
  address_bytes_valid, format_address, parse_address, hex_value, is_space, scan_hex2,
}
use red_monkey_mpg_firmware.Address.RoundTrip.{AreBytes, parse_address-format_address}
use red_monkey_mpg_firmware.Storage.{
  Record, record_of, record_bytes, encode, decode, candidate, crc32, action_of, unchecked, with_crc,
  body_bytes,
}
use red_monkey_mpg_firmware.Storage.RoundTrip.{decode-encode}
use red_monkey_mpg_firmware.Persistent.{
  Tlv, PersistentConfig, new_config, load, store, store_controller_address, read_record, same_bytes,
  restore,
}
use red_monkey_mpg_firmware.Persistent.Current.{IsTlv, store_failed-load}
use red_monkey_mpg_firmware.Persistent.Durable.{FillsRecord, store-load}

-- The first bytes of a buffer, with zeros behind them.
unfoldable pub fill : ℕ → List ℕ → List ℕ
fill zero bs = []
fill (suc n) [] = 0 ∷ fill n []
fill (suc n) (b ∷ bs) = u8 b ∷ fill n bs

pub length-fill : (n : ℕ) (bs : List ℕ) → length (fill n bs) ≡ n
unfolding fill
length-fill zero bs = refl
length-fill (suc n) [] = ap suc (length-fill n [])
length-fill (suc n) (b ∷ bs) = ap suc (length-fill n bs)

pub fill-AreBytes : (n : ℕ) (bs : List ℕ) → AreBytes (fill n bs)
unfolding fill
fill-AreBytes zero bs = tt
fill-AreBytes (suc n) [] = (omega arith, fill-AreBytes n [])
fill-AreBytes (suc n) (b ∷ bs) = (omega arith, fill-AreBytes n bs)

abbrev pub Flash : Type 0
Flash = ℕ → List ℕ

abbrev pub write : Flash → ℕ → List ℕ → Flash
write f t bytes u = if u == t then bytes else f u

abbrev pub delete : Flash → ℕ → Flash
delete f t u = if u == t then [] else f u

abbrev pub tlv : Tlv Flash
tlv = record {
  get_tag = λ f t. (length (f t), fill 44 (f t));
  store_tag = λ f t bytes. (0, write f t bytes);
  delete_tag = some delete;
}

-- A store that takes nothing.
abbrev full : Tlv Flash
full = record tlv { store_tag = λ f t bytes. (1, f) }

write-other : (f : Flash) (t u : ℕ) (bytes : List ℕ) → t ≢ u → write f t bytes u ≡ f u
write-other f t u bytes ne = ground arith

delete-other : (f : Flash) (t u : ℕ) → t ≢ u → delete f t u ≡ f u
delete-other f t u ne = ground arith

delete_same : (f : Flash) (t : ℕ) → length (delete f t t) ≡ 0
delete_same f t = ground arith

abbrev pub read : List ℕ → ℕ × List ℕ
read bytes = (length bytes, fill 44 bytes)

pub tlv-IsTlv : IsTlv tlv
tlv-IsTlv = record {
  store-other = λ f t u bytes ne. ap read (write-other f t u bytes ne);
  store_failed = λ f t bytes bad. absurd (bad refl);
  delete = delete;
  has_delete = refl;
  delete-same = delete_same;
  delete-other = λ f t u ne. ap read (delete-other f t u ne);
}

full-IsTlv : IsTlv full
full-IsTlv = record {
  store-other = λ f t u bytes ne. refl;
  store_failed = λ f t bytes bad. refl;
  delete = delete;
  has_delete = refl;
  delete-same = delete_same;
  delete-other = λ f t u ne. ap read (delete-other f t u ne);
}

pub tlv-FillsRecord : FillsRecord tlv
tlv-FillsRecord f t = (length-fill 44 (f t), fill-AreBytes 44 (f t))

abbrev pub blank : Flash
blank t = []

abbrev pub bytes : List ℕ
bytes = 0xe4 ∷ 0x17 ∷ 0xd8 ∷ 0x01 ∷ 0x0a ∷ 0xff ∷ []

-- "E4:17:D8:01:0A:FF"
text_printed :
    format_address bytes
    ≡ 69 ∷ 52 ∷ 58 ∷ 49 ∷ 55 ∷ 58 ∷ 68 ∷ 56 ∷ 58 ∷ 48 ∷ 49 ∷ 58 ∷ 48 ∷ 65 ∷ 58 ∷ 70 ∷ 70 ∷ []
unfolding format_address
text_printed = refl

bytes-AreBytes : AreBytes bytes
bytes-AreBytes = ground arith

parse_address-format_address_example :
    parse_address (some (format_address bytes)) (replicate 6 0) ≡ (address_bytes_valid bytes, bytes)
parse_address-format_address_example =
    parse_address-format_address bytes (replicate 6 0) refl bytes-AreBytes

mapping-valid : validate_production_mapping default_mapping ≡ valid
unfolding validate_production_mapping is_motion_control is_safe_face_action is_step_action
mapping-valid = refl

default-IsProduction : IsProduction default_mapping
default-IsProduction = (validate_valid_iff default_mapping).0 mapping-valid

abbrev stored_record : Record
stored_record = encode default_mapping 7 (some (format_address bytes))

decode-encode_example :
    (record_of (record_bytes stored_record) ≡ stored_record)
    × (decode (record_of (record_bytes stored_record)) ≡ some default_mapping)
decode-encode_example =
    decode-encode default_mapping 7 (some (format_address bytes)) default-IsProduction (omega arith)

abbrev stored : Bool × Flash × PersistentConfig
stored =
    store_controller_address (some tlv) default_mapping (some (format_address bytes)) blank
      new_config

blank_loads : (load (some tlv) blank).2 ≡ new_config
unfolding load read_record fill
blank_loads = refl

stored_done : stored.0 ≡ true
unfolding store_controller_address store restore validate_production_mapping is_motion_control
    is_safe_face_action is_step_action parse_address scan_hex2 is_space hex_value
    address_bytes_valid format_address encode unchecked with_crc record_bytes body_bytes crc32
    read_record fill record_of decode candidate action_of same_bytes
stored_done = refl

abbrev plain : Bool × Flash × PersistentConfig
plain = store (some tlv) default_mapping blank new_config

plain_done : plain.0 ≡ true
unfolding store validate_production_mapping is_motion_control is_safe_face_action is_step_action
    parse_address encode unchecked with_crc record_bytes body_bytes crc32 read_record fill record_of
    decode candidate action_of same_bytes
plain_done = refl

store-load_example : load (some tlv) plain.1 ≡ (true, default_mapping, plain.2)
store-load_example =
    store-load tlv tlv-IsTlv tlv-FillsRecord default_mapping blank new_config
      (ap (λ (k : PersistentConfig). k.sequence) blank_loads)
      (ap (λ (k : PersistentConfig). k.active_tag) blank_loads) (inl refl) plain_done

full_loads : (load (some full) blank).2.active_tag ≡ 0
unfolding load read_record fill
full_loads = refl

full_failed : (store (some full) default_mapping blank new_config).0 ≡ false
unfolding store
full_failed = ground arith

store_failed-load_example :
    (load (some full) (store (some full) default_mapping blank new_config).1
      ≡ load (some full) blank)
    × ((store (some full) default_mapping blank new_config).2 ≡ new_config)
store_failed-load_example =
    store_failed-load full full-IsTlv default_mapping blank new_config full_loads full_failed

-- No text at all is no address.
pairing_failed :
    (store_controller_address (some full) default_mapping none blank new_config).0 ≡ false
unfolding store_controller_address parse_address
pairing_failed = refl
