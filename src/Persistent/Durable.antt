-- ===== src/Persistent/Durable.antt =====
-- A store that succeeds is what the next load finds, with the controller's address.
use red_monkey_mpg_firmware.Base.{
  ℕ, ◌+◌, ◌^◌, ◌<◌, Bool, true, false, Option, none, some, List, ◌==◌, if◌then◌else◌, is_some, u32,
  length, drop, replicate, ◌≡◌, ◌≢◌, ◌⊎◌, refl, sym, ap, ◌∙◌, Bool-cases, Option-cases, arith, inl,
  inr,
}
use red_monkey_mpg_firmware.Production.{ProductionMapping, validate_production_mapping, valid}
use red_monkey_mpg_firmware.Production.Valid.{IsProduction, validate_valid_iff}
use red_monkey_mpg_firmware.Address.{parse_address, format_address}
use red_monkey_mpg_firmware.Address.RoundTrip.{AreBytes}
use red_monkey_mpg_firmware.Address.Parsed.{
  parse_address-length, parse_address_valid, parse_address-AreBytes,
}
use red_monkey_mpg_firmware.Storage.{Record, record_of, record_bytes, decode}
use red_monkey_mpg_firmware.Storage.RoundTrip.{decode-encode, encode-sequence}
use red_monkey_mpg_firmware.Persistent.{
  Tlv, PersistentConfig, tag_a, tag_b, newer, same_bytes, adopt, read_record, load, target,
  next_record, address_or_null, store, verify, store_controller_address, restore,
}
use red_monkey_mpg_firmware.Persistent.Current.{
  IsTlv, read_record-same, newer_next, newer_previous, same_bytes_sound,
}
use red_monkey_mpg_firmware.Persistent.Slots.{
  IsAddress, record_text-IsAddress, record_text-encode, field_value-lt, drop-AreBytes,
  choose_after_a, choose_after_b, chosen_a, chosen_b, IsSlot, choose-IsSlot,
}

-- A read fills the record with 44 bytes.
abbrev pub FillsRecord : {Flash : Type 0} → Tlv Flash → Type 0
FillsRecord {Flash} tlv =
    (f : Flash) (t : ℕ) → (length (tlv.get_tag f t).1 ≡ 44) × AreBytes (tlv.get_tag f t).1

filled-IsSlot :
    (size : ℕ) (bytes : List ℕ)
    → length bytes ≡ 44
    → AreBytes bytes
    → IsSlot (record_of bytes, if size == 44 then decode (record_of bytes) else none)
unfolding record_of
filled-IsSlot size bytes whole all =
    let small = field_value-lt 4 (drop 8 bytes) (drop-AreBytes 8 bytes all) in
    elim (Bool-cases (size == 44)) [
      | inr missing ↦ rw missing small
      | inl found ↦ rw found (elim (Option-cases (decode (record_of bytes))) [
        | inl bad ↦ rw bad small
        | inr (m, good) ↦ rw good (small, record_text-IsAddress bytes m whole all good)
      ])
    ]

module _ {Flash : Type 0} (tlv : Tlv Flash) where
  verify_tests :
      (m : ProductionMapping) (c : PersistentConfig) (g : Flash)
      → (verify tlv m c g).0 ≡ true
      → (is_some (read_record tlv g (target c)).1 ≡ true)
        × (same_bytes (record_bytes (next_record m c)) (tlv.get_tag g (target c)).1 ≡ true)
        × ((verify tlv m c g).1 ≡ g)
        × ((verify tlv m c g).2
            ≡ record c { sequence = (next_record m c).sequence; active_tag = target c })
  unfolding verify
  verify_tests m c g h = ground arith

  -- A read-back that passes shows the record that was written.
  verify_read :
      (m : ProductionMapping) (c : PersistentConfig) (g : Flash)
      → IsProduction m
      → (verify tlv m c g).0 ≡ true
      → read_record tlv g (target c) ≡ (next_record m c, some m)
  unfolding read_record
  verify_read m c g p h =
      let (found, equal, _, _) = verify_tests m c g h in
      let bytes = sym (same_bytes_sound _ _ equal) in
      let (back, decoded) =
        decode-encode m (u32 (c.sequence + 1)) (address_or_null c) p (omega arith) in
      let size : ((tlv.get_tag g (target c)).0 == 44) ≡ true = ground (arith, found) in
      rw (size, bytes, decoded, back) refl

module _ {Flash : Type 0} (tlv : Tlv Flash) (laws : IsTlv tlv) (fills : FillsRecord tlv) where
  read_record-IsSlot : (f : Flash) (t : ℕ) → IsSlot (read_record tlv f t)
  unfolding read_record
  read_record-IsSlot f t =
      filled-IsSlot (tlv.get_tag f t).0 (tlv.get_tag f t).1 (fills f t).0 (fills f t).1

  pub load-IsSlot :
      (f : Flash)
      → ((load (some tlv) f).2.sequence < 2 ^ 32)
        × IsAddress (load (some tlv) f).2.controller_address
  unfolding load
  load-IsSlot f =
      choose-IsSlot (read_record tlv f tag_a) (read_record tlv f tag_b) (read_record-IsSlot f tag_a)
        (read_record-IsSlot f tag_b)

  -- The slots after the write, with the other slot as it was.
  load_stored :
      (m : ProductionMapping) (f g : Flash) (c : PersistentConfig)
      → (load (some tlv) f).2.sequence ≡ c.sequence
      → (load (some tlv) f).2.active_tag ≡ c.active_tag
      → (r : Record) → r.sequence ≡ u32 (c.sequence + 1)
      → read_record tlv g (target c) ≡ (r, some m)
      → ((u : ℕ) → target c ≢ u → read_record tlv g u ≡ read_record tlv f u)
      → load (some tlv) g ≡ adopt r m (target c)
  unfolding load
  load_stored m f g c s t r next new kept =
      let before = read_record tlv f tag_a in
      let other = read_record tlv f tag_b in
      let small : c.sequence < 2 ^ 32 = ground (arith, (load-IsSlot f).0) in
      elim (Bool-cases (c.active_tag == tag_a)) [
        | inl is_a ↦
            let at : target c ≡ tag_b = rw is_a refl in
            let last : before.0.sequence ≡ c.sequence =
              sym (chosen_a before other (ground arith)) ∙ s in
            rw (kept tag_a (ground arith), ap (read_record tlv g) (sym at) ∙ new)
              (choose_after_a before r m (rw (next, last) (newer_next c.sequence small))
                ∙ ap (adopt r m) (sym at))
        | inr not_a ↦
            let at : target c ≡ tag_a = rw not_a refl in
            let last : (other.1 ≡ none) ⊎ (newer other.0.sequence r.sequence ≡ false) =
              elim (chosen_b before other (ground arith)) [
                | inl empty ↦ inl empty
                | inr same ↦ inr (rw (next, sym same ∙ s) (newer_previous c.sequence small))
              ] in
            rw (kept tag_b (ground arith), ap (read_record tlv g) (sym at) ∙ new)
              (choose_after_b other r m last ∙ ap (adopt r m) (sym at))
      ]

  verify-load :
      (m : ProductionMapping) (f : Flash) (c : PersistentConfig)
      → IsProduction m
      → (load (some tlv) f).2.sequence ≡ c.sequence
      → (load (some tlv) f).2.active_tag ≡ c.active_tag
      → IsAddress c.controller_address
      → let g = (tlv.store_tag f (target c) (record_bytes (next_record m c))).1 in
        (verify tlv m c g).0 ≡ true
        → load (some tlv) (verify tlv m c g).1 ≡ (true, m, (verify tlv m c g).2)
  unfolding adopt
  verify-load m f c p s t text h =
      let bytes = record_bytes (next_record m c) in
      let g = (tlv.store_tag f (target c) bytes).1 in
      let (_, _, flash, after) = verify_tests tlv m c g h in
      let found =
        load_stored m f g c s t (next_record m c)
          (encode-sequence m (u32 (c.sequence + 1)) (address_or_null c)) (verify_read tlv m c g p h)
          (λ u ne. read_record-same tlv laws g f u (laws.store-other f (target c) u bytes ne)) in
      let kept = record_text-encode m (u32 (c.sequence + 1)) c.controller_address text in
      rw (flash, after, found, kept) refl

  -- Over a flash library that keeps the laws and fills the record, a store into the flash that the
  -- object was loaded from, with no address or an accepted one in the object: if it succeeds, the
  -- next load finds the mapping and gives the object that the store leaves.
  pub store-load :
      (m : ProductionMapping) (f : Flash) (c : PersistentConfig)
      → (load (some tlv) f).2.sequence ≡ c.sequence
      → (load (some tlv) f).2.active_tag ≡ c.active_tag
      → IsAddress c.controller_address
      → (store (some tlv) m f c).0 ≡ true
      → load (some tlv) (store (some tlv) m f c).1 ≡ (true, m, (store (some tlv) m f c).2)
  unfolding store
  store-load m f c s t text h =
      let good : validate_production_mapping m ≡ valid = ground arith in
      let done : ((tlv.store_tag f (target c) (record_bytes (next_record m c))).0 == 0) ≡ true =
        ground arith in
      rw (good, done)
        (verify-load m f c ((validate_valid_iff m).0 good) s t text (ground (arith, good, done)))

  restore-true :
      (previous : List ℕ) (r : Bool × Flash × PersistentConfig)
      → (restore previous r).0 ≡ true
      → (r.0 ≡ true) × (restore previous r ≡ r)
  unfolding restore
  restore-true previous (true, g, c) h = (refl, refl)
  restore-true previous (false, g, c) h = ground arith

  -- Over the same library, if an address is stored with a mapping into the flash that the object
  -- was loaded from, the next load finds the mapping and gives the object that is left.
  pub store_controller_address-load :
      (m : ProductionMapping) (address : Option (List ℕ)) (f : Flash) (c : PersistentConfig)
      → (load (some tlv) f).2 ≡ c
      → (store_controller_address (some tlv) m address f c).0 ≡ true
      → let stored = store_controller_address (some tlv) m address f c in
        load (some tlv) stored.1 ≡ (true, m, stored.2)
  unfolding store_controller_address
  store_controller_address-load m address f c e h =
      let parsed = (parse_address address (replicate 6 0)).1 in
      let accepted : (parse_address address (replicate 6 0)).0 ≡ true = ground arith in
      let d = record c { controller_address = format_address parsed } in
      let text : IsAddress d.controller_address = inr (
        parsed,
        parse_address-length address _ refl,
        parse_address-AreBytes address _ (ground arith),
        parse_address_valid address _ accepted,
        refl,
      ) in
      let (done, same) =
        restore-true c.controller_address (store (some tlv) m f d) (ground (arith, accepted)) in
      rw (accepted, same)
        (store-load m f d (ap (λ k. k.sequence) e) (ap (λ k. k.active_tag) e) text done)
