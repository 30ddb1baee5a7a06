-- ===== src/Bridge/Target/Invariant.antt =====
-- What the flash and the target of the connection are between any two events.
use mathlib.Core.Path.{subst}
use red_monkey_mpg_firmware.Base.{
  ℕ, true, false, some, List, [], ◌≡◌, ◌⊎◌, ◌∙◌, if◌then◌else◌, replicate, refl, sym, ap, inl, inr,
  Bool-cases,
}
use red_monkey_mpg_firmware.Persistent.{Tlv, load}
use red_monkey_mpg_firmware.Bridge.{Platform, Bridge}
use red_monkey_mpg_firmware.Bridge.Target.Printed.{
  ReadsAddress, IsPrinted, printed_whole, Reads, sscanf-Reads, true-ne-false,
}
use red_monkey_mpg_firmware.Bridge.Pairing.{cancel_pairing, start_pairing_scan, address_text}
use red_monkey_mpg_firmware.Bridge.Packets.{InquiryResult, packet_handler, inquiry_result}
use red_monkey_mpg_firmware.Bridge.Target.Cases.{Chosen, note_cases, start_target}
use red_monkey_mpg_firmware.Bridge.Target.{committed_text, SameTarget, Cancelled, cancel_target}

module _ {Flash : Type 0} (platform : Platform) (tlv : Tlv Flash) where
  -- The flash holds what the bridge runs with; the target is the committed address, or that of the
  -- selected candidate.
  pub record Inv (s : Bridge Flash) : Type 0 where
    pub mapping : (load (some tlv) s.flash).1 ≡ s.production_mapping
    pub config : (load (some tlv) s.flash).2 ≡ s.persistent_config
    pub committed :
        s.pairing_candidate_selected ≡ false
        → s.active_controller_address ≡ committed_text platform s.persistent_config
    pub chosen : s.pairing_candidate_selected ≡ true → IsPrinted s.active_controller_address
    pub candidate : (s.candidate_controller_address ≡ []) ⊎ IsPrinted s.candidate_controller_address
    pub reads :
        Reads platform s.active_controller_address s.controller_address_valid s.controller_address

  pub same-Inv : (s t : Bridge Flash) → Inv s → SameTarget s t → Inv t
  same-Inv s t v k = record {
    mapping = ap (λ f. (load (some tlv) f).1) k.flash ∙ v.mapping ∙ sym k.mapping;
    config = ap (λ f. (load (some tlv) f).2) k.flash ∙ v.config ∙ sym k.config;
    committed = λ h.
        k.active ∙ v.committed (sym k.selected ∙ h) ∙ ap (committed_text platform) (sym k.config);
    chosen = λ h. subst IsPrinted (sym k.active) (v.chosen (sym k.selected ∙ h));
    candidate = subst (λ c. (c ≡ []) ⊎ IsPrinted c) (sym k.candidate) v.candidate;
    reads = (
      k.valid ∙ v.reads.0 ∙ ap (λ a. (platform.sscanf_bd_addr a (replicate 6 0)).0) (sym k.active),
      λ h.
          k.address
          ∙ v.reads.1 (sym k.valid ∙ h)
          ∙ ap (λ a. (platform.sscanf_bd_addr a (replicate 6 0)).1) (sym k.active),
    );
  }

  Cancelled-Inv :
      (s t : Bridge Flash) → ReadsAddress platform → Inv s → Cancelled platform s t → Inv t
  Cancelled-Inv s t r v k =
      let text = committed_text platform s.persistent_config in
      let again = sscanf-Reads platform r text s.controller_address in
      record {
        mapping = ap (λ f. (load (some tlv) f).1) k.flash ∙ v.mapping ∙ sym k.mapping;
        config = ap (λ f. (load (some tlv) f).2) k.flash ∙ v.config ∙ sym k.config;
        committed = λ h. k.active ∙ ap (committed_text platform) (sym k.config);
        chosen = λ h. absurd (true-ne-false (sym h ∙ k.selected));
        candidate = subst (λ c. (c ≡ []) ⊎ IsPrinted c) (sym k.candidate) v.candidate;
        reads = (
          k.valid
              ∙ again.0
              ∙ ap (λ a. (platform.sscanf_bd_addr a (replicate 6 0)).0) (sym k.active),
          λ h.
              k.address
              ∙ again.1 (sym k.valid ∙ h)
              ∙ ap (λ a. (platform.sscanf_bd_addr a (replicate 6 0)).1) (sym k.active),
        );
      }

  pub either-Inv :
      (s t : Bridge Flash)
      → ReadsAddress platform
      → Inv s
      → SameTarget s t ⊎ Cancelled platform s t
      → Inv t
  either-Inv s t r v (inl k) = same-Inv s t v k
  either-Inv s t r v (inr k) = Cancelled-Inv s t r v k

  -- A new candidate, or none.
  candidate-Inv :
      (s : Bridge Flash) (text : List ℕ)
      → Inv s
      → (text ≡ []) ⊎ IsPrinted text
      → Inv (record s { candidate_controller_address = text })
  candidate-Inv s text v p = record {
    mapping = v.mapping;
    config = v.config;
    committed = v.committed;
    chosen = v.chosen;
    candidate = p;
    reads = v.reads;
  }

  printed_address :
      (a : List ℕ) → ReadsAddress platform → IsPrinted (address_text (platform.bd_addr_to_str a))
  printed_address a r =
      let p : IsPrinted (platform.bd_addr_to_str a) = r.printed a in
      subst IsPrinted (sym (printed_whole (platform.bd_addr_to_str a) p)) p

  pub note-Inv :
      (x : InquiryResult) (now_ms : ℕ) (s : Bridge Flash)
      → ReadsAddress platform
      → Inv s
      → Inv (packet_handler platform (inquiry_result x) now_ms s)
  note-Inv x now_ms s r v = elim (note_cases platform x now_ms s) [
    | inl k ↦ same-Inv s _ v k
    | inr k ↦ same-Inv _ _ (candidate-Inv s _ v (inr (printed_address x.bd_addr r))) k
  ]

  pub Chosen-Inv :
      (s t : Bridge Flash) → ReadsAddress platform → Inv s → Chosen platform s t → Inv t
  Chosen-Inv s t r v k =
      let text = s.candidate_controller_address in
      let printed : IsPrinted text = elim v.candidate [
        | inl e ↦ absurd (k.some_candidate e)
        | inr p ↦ p
      ] in
      let whole = k.active ∙ printed_whole text printed in
      let again = sscanf-Reads platform r text s.controller_address in
      record {
        mapping = ap (λ f. (load (some tlv) f).1) k.flash ∙ v.mapping ∙ sym k.mapping;
        config = ap (λ f. (load (some tlv) f).2) k.flash ∙ v.config ∙ sym k.config;
        committed = λ h. absurd (true-ne-false (sym k.selected ∙ h));
        chosen = λ h. subst IsPrinted (sym whole) printed;
        candidate = subst (λ c. (c ≡ []) ⊎ IsPrinted c) (sym k.candidate) v.candidate;
        reads = (
          k.valid
              ∙ sym k.read
              ∙ again.0
              ∙ ap (λ a. (platform.sscanf_bd_addr a (replicate 6 0)).0) (sym whole),
          λ h.
              k.address
              ∙ again.1 k.read
              ∙ ap (λ a. (platform.sscanf_bd_addr a (replicate 6 0)).1) (sym whole),
        );
      }

  cleared-Inv :
      (s : Bridge Flash)
      → Inv s
      → s.pairing_candidate_selected ≡ false
      → Inv (record s { candidate_controller_address = []; pairing_candidate_selected = false })
  cleared-Inv s v h = record {
    mapping = v.mapping;
    config = v.config;
    committed = λ e. v.committed h;
    chosen = λ e. absurd (true-ne-false (sym e));
    candidate = inl refl;
    reads = v.reads;
  }

  pub start-Inv :
      (now_ms : ℕ) (s : Bridge Flash)
      → ReadsAddress platform
      → Inv s
      → Inv (start_pairing_scan platform now_ms s)
  start-Inv now_ms s r v = elim (Bool-cases s.pairing_candidate_selected) [
    | inl h ↦
        let k = cancel_target platform s in
        let w = Cancelled-Inv s (cancel_pairing platform s) r v k in
        same-Inv _ _ (cleared-Inv (cancel_pairing platform s) w k.selected) (
          subst
            (λ b.
              SameTarget
                (record (if b then cancel_pairing platform s else s) {
                  candidate_controller_address = [];
                  pairing_candidate_selected = false;
                })
                (start_pairing_scan platform now_ms s))
            h (start_target platform now_ms s))
    | inr h ↦ same-Inv _ _ (cleared-Inv s v h) (
        subst
          (λ b.
            SameTarget
              (record (if b then cancel_pairing platform s else s) {
                candidate_controller_address = [];
                pairing_candidate_selected = false;
              })
              (start_pairing_scan platform now_ms s))
          h (start_target platform now_ms s))
  ]
