-- ===== src/Bridge/Target/Restart.antt =====
-- A restart at any moment outside of a pairing.
use mathlib.Core.Path.{subst}
use red_monkey_mpg_firmware.Base.{
  ℕ, Bool, true, false, some, Option, List, [], ◌∷◌, ◌≡◌, ◌∙◌, arith, replicate, refl, sym, ap, inl,
  inr,
}
use red_monkey_mpg_firmware.Address.{format_address}
use red_monkey_mpg_firmware.Address.RoundTrip.{parse_address-format_address}
use red_monkey_mpg_firmware.Production.{ProductionMapping}
use red_monkey_mpg_firmware.Persistent.{
  PersistentConfig, Tlv, text_or_null, restore, load, store, store_controller_address,
}
use red_monkey_mpg_firmware.Persistent.Current.{
  IsTlv, store_failed-load, store_controller_address_failed,
}
use red_monkey_mpg_firmware.Persistent.Durable.{
  FillsRecord, load-IsSlot, store-load, store_controller_address-load,
}
use red_monkey_mpg_firmware.Persistent.Slots.{IsAddress, text_or_null-format_address}
use red_monkey_mpg_firmware.Bridge.{Platform, Bridge}
use red_monkey_mpg_firmware.Bridge.Target.Printed.{
  ReadsAddress, IsPrinted, printed_whole, sscanf-Reads, true-ne-false,
}
use red_monkey_mpg_firmware.Bridge.Pairing.{confirm_pairing_candidate, address_text, text_or}
use red_monkey_mpg_firmware.Bridge.Packets.{packet_handler, inquiry_result}
use red_monkey_mpg_firmware.Bridge.Target.Cases.{
  descriptor_cases, guard_cases, select_cases, confirm_cases, save_cases,
}
use red_monkey_mpg_firmware.Bridge.Packets.{Packet, descriptor_available}
use red_monkey_mpg_firmware.Bridge.Loop.{
  Request, start_scan, select_candidate, confirm_pairing, cancel_request, save_mapping, serve,
  serve_all, service_config, guard_session, before_usb, main_pass, service_usb_keyboard, Pass,
  Event, packet, reconnect, scan, pass, step, final, boot, save, fire_reconnect, fire_scan,
}
use red_monkey_mpg_firmware.Bridge.Target.Invariant.{
  Inv, same-Inv, either-Inv, note-Inv, Chosen-Inv, start-Inv,
}
use red_monkey_mpg_firmware.Bridge.Target.{
  reconnect_target, scan_target, stale_target, usb_target, packet_target, committed_text,
  cancel_target,
}

module _ {Flash : Type 0} (tlv : Option (Tlv Flash)) where
  -- A store does not change the address of the object.
  store-address :
      (m : ProductionMapping) (f : Flash) (c : PersistentConfig)
      → (store tlv m f c).2.controller_address ≡ c.controller_address
  unfolding store
  store-address m f c = ground arith

  -- The address that is stored is the text itself, where it is printed by the store.
  stored_address :
      (m : ProductionMapping) (text : List ℕ) (f : Flash) (c : PersistentConfig)
      → IsPrinted text
      → (store_controller_address tlv m (some text) f c).0 ≡ true
      → (store_controller_address tlv m (some text) f c).2.controller_address ≡ text
  unfolding store_controller_address restore
  stored_address m text f c (bs, six, all, e) h = ground (
    arith,
    parse_address-format_address bs (replicate 6 0) six all,
    store-address m f (record c { controller_address = format_address bs }),
  )

committed_printed :
    (platform : Platform) (c : PersistentConfig) (text : List ℕ)
    → IsPrinted text
    → c.controller_address ≡ text
    → committed_text platform c ≡ text
unfolding committed_text
committed_printed platform c text p e =
    let (bs, six, all, same) = p in
    rw (e, same, text_or_null-format_address bs six)
      (printed_whole (format_address bs) (bs, six, all, refl))

module _ {Flash : Type 0} (platform : Platform) (reads : ReadsAddress platform) (tlv : Tlv Flash)
    (laws : IsTlv tlv) (fills : FillsRecord tlv) where
  abbrev Holds : Bridge Flash → Type 0
  Holds = Inv platform tlv

  -- New contents of the flash that are what the bridge runs with, and the same address.
  stored-Inv :
      (s : Bridge Flash) (g : Flash) (c : PersistentConfig) (m : ProductionMapping)
      → Holds s
      → (load (some tlv) g).1 ≡ m
      → (load (some tlv) g).2 ≡ c
      → c.controller_address ≡ s.persistent_config.controller_address
      → Holds (record s { flash = g; persistent_config = c; production_mapping = m })
  unfolding committed_text
  stored-Inv s g c m v e f a = record {
    mapping = e;
    config = f;
    committed = λ h.
        v.committed h
        ∙ ap (λ t. address_text (text_or (text_or_null t) platform.configured_address)) (sym a);
    chosen = v.chosen;
    candidate = v.candidate;
    reads = v.reads;
  }

  save-Inv :
      (m : ProductionMapping) (s : Bridge Flash) → Holds s → Holds (save platform (some tlv) m s)
  save-Inv m s v =
      let f = s.flash in
      let c = s.persistent_config in
      elim (save_cases platform (some tlv) m s) [
        | inl (h, k) ↦
            let (loaded, kept) =
              store_failed-load tlv laws m f c (ap (λ d. d.active_tag) v.config) h in
            same-Inv platform tlv _ _
              (stored-Inv s _ _ s.production_mapping v (ap (λ l. l.1) loaded ∙ v.mapping)
                (ap (λ l. l.2) loaded ∙ v.config ∙ sym kept) (store-address (some tlv) m f c))
              k
        | inr (h, k) ↦
            let text =
              subst IsAddress (ap (λ d. d.controller_address) v.config)
                (load-IsSlot tlv laws fills f).1 in
            let loaded =
              store-load tlv laws fills m f c (ap (λ d. d.sequence) v.config)
                (ap (λ d. d.active_tag) v.config) text h in
            same-Inv platform tlv _ _
              (stored-Inv s _ _ m v (ap (λ l. l.1) loaded) (ap (λ l. l.2) loaded)
                (store-address (some tlv) m f c))
              k
      ]

  confirm-Inv :
      (bonded : Bool) (s : Bridge Flash)
      → Holds s
      → Holds (confirm_pairing_candidate platform (some tlv) bonded s).1
  confirm-Inv bonded s v =
      let f = s.flash in
      let c = s.persistent_config in
      let m = s.production_mapping in
      let text = s.active_controller_address in
      elim (confirm_cases platform (some tlv) bonded s) [
        | inl k ↦ same-Inv platform tlv _ _ v k
        | inr (inl (h, k)) ↦
            let (loaded, kept) =
              store_controller_address_failed tlv laws m (some text) f c
                (ap (λ d. d.active_tag) v.config) h in
            same-Inv platform tlv _ _
              (stored-Inv s _ _ m v (ap (λ l. l.1) loaded ∙ v.mapping)
                (ap (λ l. l.2) loaded ∙ v.config ∙ sym kept) (ap (λ d. d.controller_address) kept))
              k
        | inr (inr (h, selected, k)) ↦
            let printed = v.chosen selected in
            let loaded =
              store_controller_address-load tlv laws fills m (some text) f c v.config h in
            same-Inv platform tlv _ _
              (record {
                mapping = ap (λ l. l.1) loaded;
                config = ap (λ l. l.2) loaded;
                committed = λ e. sym (
                    committed_printed platform _ text printed
                      (stored_address (some tlv) m text f c printed h));
                chosen = λ e. absurd (true-ne-false (sym e));
                candidate = v.candidate;
                reads = v.reads;
              })
              k
      ]

  serve-Inv : (q : Request) (s : Bridge Flash) → Holds s → Holds (serve platform (some tlv) q s)
  unfolding serve
  serve-Inv (start_scan now_ms) s v = start-Inv platform tlv now_ms s reads v
  serve-Inv (select_candidate text) s v = elim (select_cases platform text s reads) [
    | inl k ↦ same-Inv platform tlv s _ v k
    | inr k ↦ Chosen-Inv platform tlv s _ reads v k
  ]
  serve-Inv (confirm_pairing bonded) s v = confirm-Inv bonded s v
  serve-Inv cancel_request s v =
      either-Inv platform tlv s _ reads v (inr (cancel_target platform s))
  serve-Inv (save_mapping m) s v = save-Inv m s v

  serve_all-Inv :
      (qs : List Request) (s : Bridge Flash) → Holds s → Holds (serve_all platform (some tlv) qs s)
  unfolding serve_all
  serve_all-Inv [] s v = v
  serve_all-Inv (q ∷ qs) s v = serve_all-Inv qs (serve platform (some tlv) q s) (serve-Inv q s v)

  active-Inv : (b : Bool) (s : Bridge Flash) → Holds s → Holds (record s { config_active = b })
  active-Inv b s v = same-Inv platform tlv s _ v (ground arith)

  config-Inv :
      (b : Bool) (qs : List Request) (s : Bridge Flash)
      → Holds s
      → Holds (service_config platform (some tlv) b qs s)
  unfolding service_config
  config-Inv true qs s v =
      serve_all-Inv qs (record s { config_active = true }) (active-Inv true s v)
  config-Inv false qs s v = active-Inv false s v

  before_usb-Inv :
      (p : Pass) (s : Bridge Flash) → Holds s → Holds (before_usb platform (some tlv) p s)
  unfolding before_usb
  before_usb-Inv p s v =
      let a = service_config platform (some tlv) p.config_connected p.requests s in
      let b = guard_session platform a in
      same-Inv platform tlv b _
        (either-Inv platform tlv a b reads (config-Inv p.config_connected p.requests s v)
          (guard_cases platform a))
        (stale_target p.now_ms b)

  packet-Inv :
      (p : Packet) (now_ms : ℕ) (s : Bridge Flash)
      → Holds s
      → Holds (packet_handler platform p now_ms s)
  packet-Inv (inquiry_result x) now_ms s v = note-Inv platform tlv x now_ms s reads v
  packet-Inv (descriptor_available d) now_ms s v =
      either-Inv platform tlv s _ reads v (descriptor_cases platform d now_ms s)
  packet-Inv p now_ms s v =
      same-Inv platform tlv s (packet_handler platform p now_ms s) v
        (packet_target platform p now_ms s tt)

  step-Inv : (e : Event) (s : Bridge Flash) → Holds s → Holds (step platform (some tlv) e s).0
  unfolding step main_pass
  step-Inv (packet p now_ms) s v = packet-Inv p now_ms s v
  step-Inv (reconnect answer) s v =
      same-Inv platform tlv s (fire_reconnect answer s) v (reconnect_target answer s)
  step-Inv (scan status now_ms) s v =
      same-Inv platform tlv s (fire_scan status now_ms s) v (scan_target status now_ms s)
  step-Inv (pass p) s v =
      let a = before_usb platform (some tlv) p s in
      same-Inv platform tlv a (service_usb_keyboard p.usb a).0 (before_usb-Inv p s v)
        (usb_target p.usb a)

  final-Inv :
      (es : List Event) (s : Bridge Flash) → Holds s → Holds (final platform (some tlv) es s)
  unfolding final
  final-Inv [] s v = v
  final-Inv (e ∷ es) s v = final-Inv es (step platform (some tlv) e s).0 (step-Inv e s v)

  boot-Inv : (flash : Flash) → Holds (boot platform (some tlv) flash)
  unfolding boot committed_text
  boot-Inv flash = record {
    mapping = refl;
    config = refl;
    committed = λ h. refl;
    chosen = λ h. cc;
    candidate = inl refl;
    reads =
        sscanf-Reads platform reads (committed_text platform (load (some tlv) flash).2)
          (platform.sscanf_bd_addr platform.configured_address (replicate 6 0)).1;
  }

  boot_fields :
      (flash : Flash)
      → let b = boot platform (some tlv) flash in
        (b.production_mapping ≡ (load (some tlv) flash).1)
        × (b.persistent_config ≡ (load (some tlv) flash).2)
        × (b.active_controller_address ≡ committed_text platform (load (some tlv) flash).2)
  unfolding boot committed_text
  boot_fields flash = (refl, refl, refl)

  -- Over a flash library that keeps the laws and fills the record, and with addresses read and
  -- printed as the Bluetooth library does: if the program restarts at any moment of a run at which
  -- no candidate is selected, it has the mapping and the stored object that it had, and the same
  -- address as its target, which is valid exactly if it was, and then the same six bytes.
  pub restart-final :
      (flash : Flash) (es : List Event)
      → let s = final platform (some tlv) es (boot platform (some tlv) flash) in
        let b = boot platform (some tlv) s.flash in
        s.pairing_candidate_selected ≡ false
        → (b.production_mapping ≡ s.production_mapping)
          × (b.persistent_config ≡ s.persistent_config)
          × (b.active_controller_address ≡ s.active_controller_address)
          × (b.controller_address_valid ≡ s.controller_address_valid)
          × (s.controller_address_valid ≡ true → b.controller_address ≡ s.controller_address)
  restart-final flash es h =
      let s = final platform (some tlv) es (boot platform (some tlv) flash) in
      let b = boot platform (some tlv) s.flash in
      let v = final-Inv es (boot platform (some tlv) flash) (boot-Inv flash) in
      let w = boot-Inv s.flash in
      let (mapping, config, active) = boot_fields s.flash in
      let same : b.active_controller_address ≡ s.active_controller_address =
        active ∙ ap (committed_text platform) v.config ∙ sym (v.committed h) in
      let valid : b.controller_address_valid ≡ s.controller_address_valid =
        w.reads.0 ∙ ap (λ a. (platform.sscanf_bd_addr a (replicate 6 0)).0) same ∙ sym v.reads.0 in
      (
        mapping ∙ v.mapping,
        config ∙ v.config,
        same,
        valid,
        λ e.
            w.reads.1 (valid ∙ e)
            ∙ ap (λ a. (platform.sscanf_bd_addr a (replicate 6 0)).1) same
            ∙ sym (v.reads.1 e),
      )
