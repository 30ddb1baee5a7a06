-- ===== src/Bridge/Chord/Held.antt =====
-- The physical confirmation of a pairing: the chord has been held for three seconds.
use red_monkey_mpg_firmware.Base.{
  ℕ, ◌≤◌, Bool, true, false, not, ◌&&◌, ◌||◌, leb, Option, none, List, [], ◌∷◌, ◌++◌, ◌==◌, ◌≡◌,
  ◌⊎◌, arith, refl, inl, inr, if◌then◌else◌, is_some, sub32, Bool-cases,
}
use red_monkey_mpg_firmware.Persistent.{Tlv}
use red_monkey_mpg_firmware.Bridge.{
  Platform, Bridge, consume_controller_report, parse_with, chord_hold_ms,
}
use red_monkey_mpg_firmware.Bridge.Pairing.{Status, confirm_pairing_candidate}
use red_monkey_mpg_firmware.Bridge.Packets.{Packet, packet_handler, report}
use red_monkey_mpg_firmware.Bridge.Loop.{
  main_pass, Event, packet, reconnect, scan, pass, step, final, boot, fire_reconnect, fire_scan,
}
use red_monkey_mpg_firmware.Bridge.Silent.{mapped_input}
use red_monkey_mpg_firmware.Bridge.Chord.Mask.{chord_is_down, chord_mask}
use red_monkey_mpg_firmware.Bridge.Chord.{
  ChordKept, connect_chord, begin_chord, packet_chord, pass_chord,
}

-- Whether the chord is held in a report, and the time of the report.
abbrev pub Sample : Type 0
Sample = Bool × ℕ

-- The chord is held in the newest sample and in all back to one at the time.
abbrev pub HeldBack : List Sample → ℕ → Type 0
HeldBack [] started = ⊥
HeldBack ((held, at) ∷ xs) started = (held ≡ true) × ((at ≡ started) ⊎ HeldBack xs started)

-- Somewhere in the samples, newest first, the chord is held over samples that are at least three
-- seconds apart.
abbrev pub WasHeld : List Sample → Type 0
WasHeld [] = ⊥
WasHeld ((held, at) ∷ xs) =
    ((started : ℕ) × HeldBack ((held, at) ∷ xs) started × (chord_hold_ms ≤ sub32 at started))
    ⊎ WasHeld xs

is_reset : ℕ → Bool → Bool
is_reset started confirmed = started == 0 && not confirmed

record Inv (xs : List Sample) (started : ℕ) (confirmed : Bool) : Type 0 where
  since : (started ≡ 0) ⊎ HeldBack xs started
  was : confirmed ≡ true → WasHeld xs

-- The samples that are kept: none where the chord is forgotten.
kept : ℕ → Bool → List Sample → List Sample
unfolding is_reset
kept started confirmed xs = if is_reset started confirmed then [] else xs

reset-Inv :
    (started : ℕ) (confirmed : Bool)
    → is_reset started confirmed ≡ true
    → (started ≡ 0) × (confirmed ≡ false)
unfolding is_reset
reset-Inv started confirmed h = ground arith

kept-Inv :
    (xs : List Sample) (started : ℕ) (confirmed : Bool)
    → Inv xs started confirmed
    → Inv (kept started confirmed xs) started confirmed
unfolding kept
kept-Inv xs started confirmed v = elim (Bool-cases (is_reset started confirmed)) [
  | inl r ↦
      let (zero_start, open_chord) = reset-Inv started confirmed r in
      rw r (record { since = inl zero_start; was = λ h. cc })
  | inr r ↦ rw r v
]

-- One sample more with the chord held, since it was held or from now on.
held-Inv :
    (now_ms : ℕ) (xs : List Sample) (started : ℕ) (confirmed : Bool)
    → Inv xs started confirmed
    → let since = if started == 0 then now_ms else started in
      Inv ((true, now_ms) ∷ xs) since (confirmed || leb chord_hold_ms (sub32 now_ms since))
held-Inv now_ms xs started confirmed v =
    let since = if started == 0 then now_ms else started in
    let back : HeldBack ((true, now_ms) ∷ xs) since = ground (arith, v.since) in
    record {
      since = inr back;
      was = λ h. elim (Bool-cases confirmed) [
        | inl c ↦ inr (v.was c)
        | inr c ↦ inl (since, back, ground arith)
      ];
    }

released-Inv :
    (now_ms : ℕ) (xs : List Sample) (started : ℕ) (confirmed : Bool)
    → Inv xs started confirmed
    → Inv ((false, now_ms) ∷ xs) 0 confirmed
released-Inv now_ms xs started confirmed v = record { since = inl refl; was = λ h. inr (v.was h) }

module _ {Flash : Type 0} where
  packet_samples : Packet → ℕ → Bridge Flash → List Sample
  packet_samples (report bytes) now_ms s =
      if s.descriptor_ready
        && is_some s.active_profile
        && (parse_with s.active_profile bytes now_ms).0
        && s.pairing_candidate_selected
        && s.config_active
      then (chord_is_down (mapped_input bytes now_ms s).buttons, now_ms) ∷ []
      else []
  packet_samples _ now_ms s = []

  -- The sample of an event: a report that is read in a session with a selected candidate.
  unfoldable pub samples : Event → Bridge Flash → List Sample
  unfolding packet_samples
  samples (packet p now_ms) s = packet_samples p now_ms s
  samples _ s = []

  -- What a report does to the chord.
  consume_cases :
      (bytes : Option (List ℕ)) (now_ms : ℕ) (s : Bridge Flash)
      → let t = consume_controller_report bytes now_ms s in
        let since =
          if s.pairing_chord_started_ms == 0 then now_ms else s.pairing_chord_started_ms in
        ((packet_samples (report bytes) now_ms s ≡ [])
          × (t.pairing_chord_started_ms ≡ s.pairing_chord_started_ms)
          × (t.pairing_chord_confirmed ≡ s.pairing_chord_confirmed))
        ⊎ ((packet_samples (report bytes) now_ms s ≡ (true, now_ms) ∷ [])
            × (t.pairing_chord_started_ms ≡ since)
            × (t.pairing_chord_confirmed
                ≡ s.pairing_chord_confirmed || leb chord_hold_ms (sub32 now_ms since)))
        ⊎ ((packet_samples (report bytes) now_ms s ≡ (false, now_ms) ∷ [])
            × (t.pairing_chord_started_ms ≡ 0)
            × (t.pairing_chord_confirmed ≡ s.pairing_chord_confirmed))
  unfolding packet_samples consume_controller_report
  consume_cases bytes now_ms s = ground (arith, chord_mask (mapped_input bytes now_ms s).buttons)

-- The same chord after an event without a sample.
same-Inv :
    (xs : List Sample) (started : ℕ) (confirmed : Bool) (started' : ℕ) (confirmed' : Bool)
    → started' ≡ started
    → confirmed' ≡ confirmed
    → Inv xs started confirmed
    → Inv (kept started' confirmed' xs) started' confirmed'
same-Inv xs started confirmed started' confirmed' e f v =
    rw (e, f) (kept-Inv xs started confirmed v)

reset_chord-Inv :
    (xs : List Sample) (started : ℕ) (confirmed : Bool)
    → started ≡ 0
    → confirmed ≡ false
    → Inv (kept started confirmed xs) started confirmed
unfolding kept is_reset
reset_chord-Inv xs started confirmed e f = rw (e, f) (record { since = inl refl; was = λ h. cc })

module _ {Flash : Type 0} where
  abbrev IsTrue : List Sample → Bridge Flash → Type 0
  IsTrue xs s = Inv xs s.pairing_chord_started_ms s.pairing_chord_confirmed

  -- The samples after an event, newest first, since the chord was last forgotten: `t` is the
  -- state after the event.
  unfoldable pub remember : Event → Bridge Flash → Bridge Flash → List Sample → List Sample
  unfolding kept samples
  remember e s t xs = kept t.pairing_chord_started_ms t.pairing_chord_confirmed (samples e s ++ xs)

  kept_chord :
      (xs : List Sample) (s t : Bridge Flash)
      → IsTrue xs s
      → ChordKept s t
      → IsTrue (kept t.pairing_chord_started_ms t.pairing_chord_confirmed xs) t
  kept_chord xs s t v (inl (e, f)) = same-Inv xs _ _ _ _ e f v
  kept_chord xs s t v (inr (e, f)) = reset_chord-Inv xs _ _ e f

  consume_chord :
      (bytes : Option (List ℕ)) (now_ms : ℕ) (xs : List Sample) (s : Bridge Flash)
      → IsTrue xs s
      → let t = consume_controller_report bytes now_ms s in
        IsTrue
          (kept t.pairing_chord_started_ms t.pairing_chord_confirmed
            (packet_samples (report bytes) now_ms s ++ xs))
          t
  consume_chord bytes now_ms xs s v = elim (consume_cases bytes now_ms s) [
    | inl (n, e, f) ↦ rw n (same-Inv xs _ _ _ _ e f v)
    | inr (inl (n, e, f)) ↦ rw n (same-Inv _ _ _ _ _ e f (held-Inv now_ms xs _ _ v))
    | inr (inr (n, e, f)) ↦ rw n (same-Inv _ _ _ _ _ e f (released-Inv now_ms xs _ _ v))
  ]

  module _ (platform : Platform) (tlv : Option (Tlv Flash)) where
    reconnect_chord :
        (answer : Status × ℕ) (s : Bridge Flash) → ChordKept s (fire_reconnect answer s)
    unfolding fire_reconnect
    reconnect_chord answer s =
        ground (arith, connect_chord answer (record s { reconnect_timer = none }))

    scan_chord :
        (status : Status) (now_ms : ℕ) (s : Bridge Flash) → ChordKept s (fire_scan status now_ms s)
    unfolding fire_scan
    scan_chord status now_ms s =
        ground (arith, begin_chord status now_ms (record s { pairing_scan_timer = none }))

    step_chord :
        (e : Event) (xs : List Sample) (s : Bridge Flash)
        → IsTrue xs s
        → let t = (step platform tlv e s).0 in IsTrue (remember e s t xs) t
    unfolding step remember packet_handler
    step_chord (packet (report bytes) now_ms) xs s v = consume_chord bytes now_ms xs s v
    step_chord (packet p now_ms) xs s v =
        kept_chord xs s (packet_handler platform p now_ms s) v (packet_chord platform p now_ms s tt)
    step_chord (reconnect answer) xs s v =
        kept_chord xs s (fire_reconnect answer s) v (reconnect_chord answer s)
    step_chord (scan status now_ms) xs s v =
        kept_chord xs s (fire_scan status now_ms s) v (scan_chord status now_ms s)
    step_chord (pass p) xs s v =
        kept_chord xs s (main_pass platform tlv p s).0 v (pass_chord platform tlv p s)

    -- All samples of a run, newest first, since the chord was last forgotten.
    unfoldable pub history : List Event → Bridge Flash → List Sample → List Sample
    unfolding remember
    history [] s xs = xs
    history (e ∷ es) s xs = let t = (step platform tlv e s).0 in history es t (remember e s t xs)

    history_chord :
        (es : List Event) (xs : List Sample) (s : Bridge Flash)
        → IsTrue xs s
        → IsTrue (history es s xs) (final platform tlv es s)
    unfolding history final
    history_chord [] xs s v = v
    history_chord (e ∷ es) xs s v =
        history_chord es _ (step platform tlv e s).0 (step_chord e xs s v)

    -- A candidate that is saved at any moment of a run was confirmed at the controller: since the
    -- confirmation was last forgotten, L2, R2 and Plus were held together in each of a series of
    -- samples, newest first, whose first and last are at least three seconds of the counter apart,
    -- where the samples are the reports that are read in a setup session with a selected
    -- candidate; and the candidate is selected and its bond is stored.
    pub confirm-WasHeld :
        (flash : Flash) (es : List Event) (bonded : Bool)
        → let s = final platform tlv es (boot platform tlv flash) in
          (confirm_pairing_candidate platform tlv bonded s).0 ≡ true
          → WasHeld (history es (boot platform tlv flash) [])
            × (s.pairing_candidate_selected ≡ true)
            × (bonded ≡ true)
    unfolding confirm_pairing_candidate boot
    confirm-WasHeld flash es bonded h =
        let v =
          history_chord es [] (boot platform tlv flash)
            (record { since = inl refl; was = λ h. cc }) in
        (v.was (ground arith), ground arith, ground arith)
