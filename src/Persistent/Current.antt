-- ===== src/Persistent/Current.antt =====
-- A store that succeeds is what the next load finds, and one that fails changes nothing for it.
use red_monkey_mpg_firmware.Base.{
  ℕ, ◌+◌, ◌^◌, ◌<◌, Bool, true, false, Option, none, some, List, [], ◌∷◌, ◌==◌, u32, replicate, ◌≡◌,
  ◌≢◌, ◌⊎◌, refl, sym, ap, ◌∙◌, Bool-cases, arith, inl, inr,
}
use red_monkey_mpg_firmware.Production.{ProductionMapping, validate_production_mapping, is_valid}
use red_monkey_mpg_firmware.Address.{parse_address, format_address}
use red_monkey_mpg_firmware.Storage.{Record, record_of, record_bytes}
use red_monkey_mpg_firmware.Persistent.{
  Tlv, PersistentConfig, tag_a, tag_b, newer, same_bytes, Slot, choose, read_record, load, target,
  next_record, store, store_to, verify, remove, restore, store_controller_address,
}

pub same_bytes_sound : (xs ys : List ℕ) → same_bytes xs ys ≡ true → xs ≡ ys
unfolding same_bytes
same_bytes_sound [] [] h = refl
same_bytes_sound (a ∷ xs) (b ∷ ys) h = ground (arith, same_bytes_sound xs ys)
same_bytes_sound [] (b ∷ ys) h = ground arith
same_bytes_sound (a ∷ xs) [] h = ground arith

-- What the store needs of the flash library: a write changes no other tag, a write that fails
-- leaves its tag as it was, and a removed tag has no value while the others stay.
pub record IsTlv {Flash : Type 0} (tlv : Tlv Flash) : Type 0 where
  pub store-other :
      (f : Flash) (t u : ℕ) (bytes : List ℕ)
      → t ≢ u
      → tlv.get_tag (tlv.store_tag f t bytes).1 u ≡ tlv.get_tag f u
  pub store_failed :
      (f : Flash) (t : ℕ) (bytes : List ℕ)
      → (tlv.store_tag f t bytes).0 ≢ 0
      → tlv.get_tag (tlv.store_tag f t bytes).1 t ≡ tlv.get_tag f t
  pub delete : Flash → ℕ → Flash
  pub has_delete : tlv.delete_tag ≡ some delete
  pub delete-same : (f : Flash) (t : ℕ) → (tlv.get_tag (delete f t) t).0 ≡ 0
  pub delete-other : (f : Flash) (t u : ℕ) → t ≢ u → tlv.get_tag (delete f t) u ≡ tlv.get_tag f u

pub newer_next : (s : ℕ) → s < 2 ^ 32 → newer (u32 (s + 1)) s ≡ true
unfolding newer
newer_next s h = ground arith

pub newer_previous : (s : ℕ) → s < 2 ^ 32 → newer s (u32 (s + 1)) ≡ false
unfolding newer
newer_previous s h = ground arith

choose_without_b :
    (a b : Slot) (r : Record) → (choose a b).2.active_tag ≡ tag_a → choose a (r, none) ≡ choose a b
unfolding choose
choose_without_b (ra, none) (rb, none) r h = refl
choose_without_b (ra, none) (rb, some n) r h = ground arith
choose_without_b (ra, some m) (rb, none) r h = refl
choose_without_b (ra, some m) (rb, some n) r h = ground arith

choose_without_a :
    (a b : Slot) (r : Record) → (choose a b).2.active_tag ≢ tag_a → choose (r, none) b ≡ choose a b
unfolding choose
choose_without_a (ra, none) (rb, none) r h = refl
choose_without_a (ra, none) (rb, some n) r h = refl
choose_without_a (ra, some m) (rb, none) r h = absurd (h refl)
choose_without_a (ra, some m) (rb, some n) r h = ground arith

module _ {Flash : Type 0} (tlv : Tlv Flash) (laws : IsTlv tlv) where
  pub read_record-same :
      (f g : Flash) (t : ℕ)
      → tlv.get_tag f t ≡ tlv.get_tag g t
      → read_record tlv f t ≡ read_record tlv g t
  unfolding read_record
  read_record-same f g t h = rw h refl

  read_record-delete :
      (f : Flash) (t : ℕ) → (r : Record) × (read_record tlv (laws.delete f t) t ≡ (r, none))
  unfolding read_record
  read_record-delete f t =
      (record_of (tlv.get_tag (laws.delete f t) t).1, rw (laws.delete-same f t) refl)

  -- Both slots read the same.
  abbrev Same : Flash → Flash → Type 0
  Same f g =
      (read_record tlv f tag_a ≡ read_record tlv g tag_a)
      × (read_record tlv f tag_b ≡ read_record tlv g tag_b)

  load-Same : (f g : Flash) → Same f g → load (some tlv) f ≡ load (some tlv) g
  unfolding load
  load-Same f g (a, b) = rw (a, b) refl

  store_tag_failed-Same :
      (f : Flash) (t : ℕ) (bytes : List ℕ)
      → (t ≡ tag_a) ⊎ (t ≡ tag_b)
      → (tlv.store_tag f t bytes).0 ≢ 0
      → Same (tlv.store_tag f t bytes).1 f
  store_tag_failed-Same f t bytes (inl e) h = (
    read_record-same _ f tag_a (rw e (laws.store_failed f tag_a bytes (rw (sym e) h))),
    read_record-same _ f tag_b (laws.store-other f t tag_b bytes (ground arith)),
  )
  store_tag_failed-Same f t bytes (inr e) h = (
    read_record-same _ f tag_a (laws.store-other f t tag_a bytes (ground arith)),
    read_record-same _ f tag_b (rw e (laws.store_failed f tag_b bytes (rw (sym e) h))),
  )

  -- The slot that is written next can lose its value without a change of what is loaded.
  load_without_target :
      (f g : Flash) (c : PersistentConfig) (r : Record)
      → (load (some tlv) f).2.active_tag ≡ c.active_tag
      → read_record tlv g (target c) ≡ (r, none)
      → ((u : ℕ) → target c ≢ u → read_record tlv g u ≡ read_record tlv f u)
      → load (some tlv) g ≡ load (some tlv) f
  unfolding load
  load_without_target f g c r e gone kept = elim (Bool-cases (c.active_tag == tag_a)) [
    | inl is_a ↦
        let at : target c ≡ tag_b = rw is_a refl in
        rw (kept tag_a (ground arith), ap (read_record tlv g) (sym at) ∙ gone)
          (choose_without_b (read_record tlv f tag_a) (read_record tlv f tag_b) r (ground arith))
    | inr not_a ↦
        let at : target c ≡ tag_a = rw not_a refl in
        rw (kept tag_b (ground arith), ap (read_record tlv g) (sym at) ∙ gone)
          (choose_without_a (read_record tlv f tag_a) (read_record tlv f tag_b) r (ground arith))
  ]

  target-cases : (c : PersistentConfig) → (target c ≡ tag_a) ⊎ (target c ≡ tag_b)
  target-cases c = ground arith

  verify_failed :
      (m : ProductionMapping) (c : PersistentConfig) (g : Flash)
      → (verify tlv m c g).0 ≡ false
      → ((verify tlv m c g).1 ≡ laws.delete g (target c)) × ((verify tlv m c g).2 ≡ c)
  unfolding verify
  verify_failed m c g h = ground (arith, ap (λ d. remove d g (target c)) laws.has_delete)

  store_to_failed :
      (m : ProductionMapping) (f : Flash) (c : PersistentConfig)
      → (load (some tlv) f).2.active_tag ≡ c.active_tag
      → (store_to (some tlv) m f c).0 ≡ false
      → (load (some tlv) (store_to (some tlv) m f c).1 ≡ load (some tlv) f)
        × ((store_to (some tlv) m f c).2 ≡ c)
  unfolding store_to
  store_to_failed m f c e h =
      let bytes = record_bytes (next_record m c) in
      let g = (tlv.store_tag f (target c) bytes).1 in
      elim (Bool-cases ((tlv.store_tag f (target c) bytes).0 == 0)) [
        | inl done ↦
            let (after, same) = verify_failed m c g (ground (arith, done)) in
            let (r, gone) = read_record-delete g (target c) in
            (
              rw (done, after)
                  (load_without_target f (laws.delete g (target c)) c r e gone (λ u ne.
                    read_record-same _ f u (
                      laws.delete-other g (target c) u ne
                      ∙ laws.store-other f (target c) u bytes ne))),
              rw done same,
            )
        | inr bad ↦ (
          rw bad (
              load-Same _ f
                (store_tag_failed-Same f (target c) bytes (target-cases c) (ground arith))),
          rw bad refl,
        )
      ]

  -- Over a flash library that keeps the laws, a store that fails for any reason leaves the object
  -- as it was, and the flash such that the next load gives what it gave before, if the object
  -- knows the slot that is loaded.
  pub store_failed-load :
      (m : ProductionMapping) (f : Flash) (c : PersistentConfig)
      → (load (some tlv) f).2.active_tag ≡ c.active_tag
      → (store (some tlv) m f c).0 ≡ false
      → (load (some tlv) (store (some tlv) m f c).1 ≡ load (some tlv) f)
        × ((store (some tlv) m f c).2 ≡ c)
  unfolding store
  store_failed-load m f c e h = elim (Bool-cases (is_valid (validate_production_mapping m))) [
    | inl good ↦ rw good (store_to_failed m f c e (ground (arith, good)))
    | inr bad ↦ rw bad (refl, refl)
  ]

  restore-false :
      (previous : List ℕ) (r : Bool × Flash × PersistentConfig)
      → (restore previous r).0 ≡ false
      → (r.0 ≡ false)
        × ((restore previous r).1 ≡ r.1)
        × ((restore previous r).2 ≡ record (r.2) { controller_address = previous })
  unfolding restore
  restore-false previous (true, g, c) h = ground arith
  restore-false previous (false, g, c) h = (refl, refl, refl)

  -- A pairing that fails for any reason leaves the object with its previous address, and the next
  -- load gives what it gave before, if the object knows the slot that is loaded.
  pub store_controller_address_failed :
      (m : ProductionMapping) (address : Option (List ℕ)) (f : Flash) (c : PersistentConfig)
      → (load (some tlv) f).2.active_tag ≡ c.active_tag
      → (store_controller_address (some tlv) m address f c).0 ≡ false
      → let stored = store_controller_address (some tlv) m address f c in
        (load (some tlv) stored.1 ≡ load (some tlv) f) × (stored.2 ≡ c)
  unfolding store_controller_address
  store_controller_address_failed m address f c e h =
      elim (Bool-cases (parse_address address (replicate 6 0)).0) [
        | inr bad ↦ rw bad (refl, refl)
        | inl good ↦
            let d = record c {
              controller_address = format_address (parse_address address (replicate 6 0)).1;
            } in
            let (failed, flash, object) =
              restore-false c.controller_address (store (some tlv) m f d) (ground (arith, good)) in
            let (loaded, kept) = store_failed-load m f d e failed in
            (
              rw (good, flash) loaded,
              rw (good, object)
                  (ap
                    (λ (k : PersistentConfig). record k {
                      controller_address = c.controller_address;
                    })
                    kept),
            )
      ]
