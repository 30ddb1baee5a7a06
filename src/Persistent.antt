-- ===== src/Persistent.antt =====
-- The two-slot store of the mapping, firmware/src/persistent_config.cpp, over the tag-value
-- store of the Bluetooth library.
pub mod Current
pub mod Slots
pub mod Durable
pub mod Loaded
use red_monkey_mpg_firmware.Base.{
  ℕ, ◌+◌, ◌^◌, Bool, true, false, not, ◌&&◌, ◌||◌, Option, none, some, List, [], ◌∷◌, ◌==◌, ltb,
  if◌then◌else◌, is_some, u32, sub32, replicate,
}
use red_monkey_mpg_firmware.Production.{
  ProductionMapping, default_mapping, validate_production_mapping, is_valid,
}
use red_monkey_mpg_firmware.Address.{parse_address, format_address}
use red_monkey_mpg_firmware.Storage.{Record, record_size, record_bytes, record_of, encode, decode}

abbrev pub tag_a : ℕ
tag_a = 0x4f4d5041

abbrev pub tag_b : ℕ
tag_b = 0x4f4d5042

-- `btstack_tlv_t` over the state of the flash: reading a tag into the zeroed record gives the
-- size of the value and the 44 bytes of the record afterwards; storing gives a status and the
-- flash; a null `delete_tag` is `none`.
pub record Tlv (Flash : Type 0) : Type 0 where
  pub get_tag : Flash → ℕ → ℕ × List ℕ
  pub store_tag : Flash → ℕ → List ℕ → ℕ × Flash
  pub delete_tag : Option (Flash → ℕ → Flash)

-- `controller_address` is the text before its NUL.
pub record PersistentConfig : Type 0 where
  pub sequence : ℕ
  pub active_tag : ℕ
  pub controller_address : List ℕ

abbrev pub new_config : PersistentConfig
new_config = record { sequence = 0; active_tag = 0; controller_address = [] }

abbrev pub text_or_null : List ℕ → Option (List ℕ)
text_or_null [] = none
text_or_null (t ∷ ts) = some (t ∷ ts)

-- `controller_address()`
abbrev pub address_or_null : PersistentConfig → Option (List ℕ)
address_or_null c = text_or_null c.controller_address

-- The slot that is written next, and its record.
abbrev pub target : PersistentConfig → ℕ
target c = if c.active_tag == tag_a then tag_b else tag_a

abbrev pub next_record : ProductionMapping → PersistentConfig → Record
next_record m c = encode m (u32 (c.sequence + 1)) (address_or_null c)

unfoldable pub newer : ℕ → ℕ → Bool
newer left right = let d = sub32 left right in ltb 0 d && ltb d (2 ^ 31)

unfoldable pub same_bytes : List ℕ → List ℕ → Bool
same_bytes [] [] = true
same_bytes (a ∷ as') (b ∷ bs) = a == b && same_bytes as' bs
same_bytes _ _ = false

-- A record with its mapping, where it decodes.
abbrev pub Slot : Type 0
Slot = Record × Option ProductionMapping

abbrev pub Loaded : Type 0
Loaded = Bool × ProductionMapping × PersistentConfig

unfoldable pub adopt : Record → ProductionMapping → ℕ → Loaded
adopt r m tag = (
  true,
  m,
  record {
    sequence = r.sequence;
    active_tag = tag;
    controller_address =
        if r.controller_valid == 0 then [] else format_address r.controller_address;
  },
)

unfoldable pub choose : Slot → Slot → Loaded
unfolding adopt
choose (a, none) (b, none) = (false, default_mapping, new_config)
choose (a, some m) (b, none) = adopt a m tag_a
choose (a, none) (b, some n) = adopt b n tag_b
choose (a, some m) (b, some n) =
    if newer b.sequence a.sequence then adopt b n tag_b else adopt a m tag_a

module _ {Flash : Type 0} where
  unfoldable pub read_record : Tlv Flash → Flash → ℕ → Slot
  read_record tlv flash tag =
      let (size, bytes) = tlv.get_tag flash tag in
      let r = record_of bytes in (r, if size == record_size then decode r else none)

  -- `load`: the result, the mapping, and the object, of which nothing is kept.
  unfoldable pub load : Option (Tlv Flash) → Flash → Loaded
  unfolding choose
  load none flash = (false, default_mapping, new_config)
  load (some tlv) flash = choose (read_record tlv flash tag_a) (read_record tlv flash tag_b)

  remove : Option (Flash → ℕ → Flash) → Flash → ℕ → Flash
  remove none flash tag = flash
  remove (some delete) flash tag = delete flash tag

  -- After the write: the read-back, and the removal of a record that reads differently.
  verify :
      Tlv Flash → ProductionMapping → PersistentConfig → Flash → Bool × Flash × PersistentConfig
  unfolding remove
  verify tlv m c flash =
      let r = next_record m c in
      if not (is_some (read_record tlv flash (target c)).1)
        || not (same_bytes (record_bytes r) (tlv.get_tag flash (target c)).1)
      then (false, remove tlv.delete_tag flash (target c), c)
      else (true, flash, record c { sequence = r.sequence; active_tag = target c })

  store_to :
      Option (Tlv Flash)
      → ProductionMapping
      → Flash
      → PersistentConfig
      → Bool × Flash × PersistentConfig
  unfolding verify
  store_to none m flash c = (false, flash, c)
  store_to (some tlv) m flash c =
      let (status, written) = tlv.store_tag flash (target c) (record_bytes (next_record m c)) in
      if status == 0 then verify tlv m c written else (false, written, c)

  unfoldable pub store :
      Option (Tlv Flash)
      → ProductionMapping
      → Flash
      → PersistentConfig
      → Bool × Flash × PersistentConfig
  unfolding store_to
  store tlv m flash c =
      if is_valid (validate_production_mapping m) then store_to tlv m flash c else (false, flash, c)

  unfoldable pub restore :
      List ℕ → Bool × Flash × PersistentConfig → Bool × Flash × PersistentConfig
  restore previous (true, flash, c) = (true, flash, c)
  restore previous (false, flash, c) = (false, flash, record c { controller_address = previous })

  unfoldable pub store_controller_address :
      Option (Tlv Flash)
      → ProductionMapping
      → Option (List ℕ)
      → Flash
      → PersistentConfig
      → Bool × Flash × PersistentConfig
  unfolding restore
  store_controller_address tlv m address flash c =
      let (accepted, parsed) = parse_address address (replicate 6 0) in
      if accepted
      then restore c.controller_address
          (store tlv m flash (record c { controller_address = format_address parsed }))
      else (false, flash, c)
