-- ===== src/Persistent/Loaded.antt =====
-- A mapping that is loaded is a valid one.
use red_monkey_mpg_firmware.Base.{ℕ, none, some, Option, ◌==◌, ◌≡◌, arith, refl, if_both}
use red_monkey_mpg_firmware.Production.{
  ProductionMapping, validate_production_mapping, valid, default_mapping, is_motion_control,
  is_safe_face_action,
}
use red_monkey_mpg_firmware.Storage.{Record, decode, record_of, record_size}
use red_monkey_mpg_firmware.Storage.RoundTrip.{decode_valid}
use red_monkey_mpg_firmware.Persistent.{Tlv, load, choose, adopt, read_record, Slot, tag_a, tag_b}

-- What a slot of the flash holds, if anything, is valid.
IsValidSlot : Slot → Type 0
IsValidSlot (r, none) = Unit
IsValidSlot (r, some m) = validate_production_mapping m ≡ valid

no_mapping-IsValidSlot : (r : Record) → IsValidSlot (r, none)
unfolding IsValidSlot
no_mapping-IsValidSlot r = tt

decoded-IsValidSlot :
    (r : Record) (o : Option ProductionMapping) → decode r ≡ o → IsValidSlot (r, o)
unfolding IsValidSlot
decoded-IsValidSlot r none h = tt
decoded-IsValidSlot r (some m) h = let (_, _, passes) = (decode_valid r m).0 h in passes

read_record-IsValidSlot :
    {Flash : Type 0} (tlv : Tlv Flash) (flash : Flash) (tag : ℕ)
    → IsValidSlot (read_record tlv flash tag)
unfolding read_record
read_record-IsValidSlot tlv flash tag =
    let (size, bytes) = tlv.get_tag flash tag in
    let r = record_of bytes in
    if_both (λ (o : Option ProductionMapping). IsValidSlot (r, o)) (size == record_size) (decode r)
      none (decoded-IsValidSlot r (decode r) refl) (no_mapping-IsValidSlot r)

default_valid : validate_production_mapping default_mapping ≡ valid
unfolding validate_production_mapping is_motion_control is_safe_face_action
default_valid = refl

choose-valid :
    (a b : Slot)
    → IsValidSlot a
    → IsValidSlot b
    → validate_production_mapping (choose a b).1 ≡ valid
unfolding choose adopt IsValidSlot
choose-valid (a, none) (b, none) h k = default_valid
choose-valid (a, some m) (b, none) h k = h
choose-valid (a, none) (b, some n) h k = k
choose-valid (a, some m) (b, some n) h k = ground (arith, h, k)

pub load-valid :
    {Flash : Type 0} (tlv : Option (Tlv Flash)) (flash : Flash)
    → validate_production_mapping (load tlv flash).1 ≡ valid
unfolding load
load-valid none flash = default_valid
load-valid (some tlv) flash =
    choose-valid (read_record tlv flash tag_a) (read_record tlv flash tag_b)
      (read_record-IsValidSlot tlv flash tag_a) (read_record-IsValidSlot tlv flash tag_b)
