-- ===== src/Identity/Matches.antt =====
-- A descriptor matches exactly the text of its own digest, in either case of the letters.
use red_monkey_mpg_firmware.Base.{
  ℕ, Bool, true, false, Option, none, some, List, [], ◌∷◌, ◌==◌, if◌then◌else◌, length, ◌≡◌, ◌↔◌,
  sym, ap, ap₂, ◌∙◌, arith, inl, inr, Option-cases, ==_iff,
}
use red_monkey_mpg_firmware.Identity.Hex.{
  lower, difference_sound, difference_same, hex_text-read_pairs, read_pairs-lower,
  read_pairs-hex_text, length-hex_text, length-lower,
}
use red_monkey_mpg_firmware.Address.RoundTrip.{AreBytes}
use red_monkey_mpg_firmware.Identity.{
  compare_digests, hex_text, read_pairs, difference, descriptor_sha256, descriptor_sha256_hex,
  descriptor_matches_sha256,
}

-- A digest is 32 bytes.
abbrev pub IsSha256 : (List ℕ → Option (List ℕ)) → Type 0
IsSha256 sha256 = (bs d : List ℕ) → sha256 bs ≡ some d → (length d ≡ 32) × AreBytes d

module _ (sha256 : List ℕ → Option (List ℕ)) (h : IsSha256 sha256) where
  descriptor_sha256-bytes :
      (descriptor : Option (List ℕ)) (d : List ℕ)
      → descriptor_sha256 sha256 descriptor ≡ some d
      → (length d ≡ 32) × AreBytes d
  unfolding descriptor_sha256
  descriptor_sha256-bytes none d e = ground arith
  descriptor_sha256-bytes (some []) d e = ground arith
  descriptor_sha256-bytes (some (b ∷ bs)) d e = h (b ∷ bs) d e

  compare_digests_sound :
      (actual expected : List ℕ)
      → compare_digests sha256 (some actual) (some expected) ≡ true
      → difference 0 actual expected ≡ 0
  unfolding compare_digests
  compare_digests_sound actual expected m = (==_iff _ 0).0 m

  if_true : (c b : Bool) → (if c then b else false) ≡ true → (c ≡ true) × (b ≡ true)
  if_true c b m = ground arith

  matches_sound :
      (descriptor : Option (List ℕ)) (text : List ℕ)
      → descriptor_matches_sha256 sha256 descriptor (some text) ≡ true
      → descriptor_sha256_hex sha256 descriptor ≡ some (lower text)
  unfolding descriptor_matches_sha256 descriptor_sha256_hex
  matches_sound descriptor text m = elim (Option-cases (descriptor_sha256 sha256 descriptor)) [
    | inl n ↦ absurd (ground (arith, n))
    | inr (actual, ea) ↦ elim (Option-cases (read_pairs text)) [
      | inl n ↦ absurd (ground (arith, ea, n))
      | inr (expected, ee) ↦
          let (same, half) = hex_text-read_pairs text expected ee in
          let (size, _) = descriptor_sha256-bytes descriptor actual ea in
          let (long, compared) = if_true (length text == 64) _ m in
          let compared' : compare_digests sha256 (some actual) (some expected) ≡ true =
            ap₂ (compare_digests sha256) (sym ea) (sym ee) ∙ compared in
          let long' : length text ≡ 64 = (==_iff _ 64).0 long in
          let (_, equal) =
            difference_sound 0 actual expected (omega arith)
              (compare_digests_sound actual expected compared') in
          rw ea (ap some (ap hex_text equal ∙ same))
    ]
  ]

  matches_complete :
      (descriptor : Option (List ℕ)) (text : List ℕ)
      → descriptor_sha256_hex sha256 descriptor ≡ some (lower text)
      → descriptor_matches_sha256 sha256 descriptor (some text) ≡ true
  unfolding descriptor_matches_sha256 descriptor_sha256_hex
  matches_complete descriptor text m = elim (Option-cases (descriptor_sha256 sha256 descriptor)) [
    | inl n ↦ absurd (ground (arith, n))
    | inr (actual, ea) ↦
        let (size, bytes) = descriptor_sha256-bytes descriptor actual ea in
        let printed : hex_text actual ≡ lower text = ground (arith, ea) in
        let read : read_pairs text ≡ some actual =
          sym (read_pairs-lower text)
          ∙ ap read_pairs (sym printed)
          ∙ read_pairs-hex_text actual bytes in
        let long : length text ≡ 64 =
          sym (length-lower text)
          ∙ ap length (sym printed)
          ∙ length-hex_text actual
          ∙ omega arith in
        ground (arith, ea, read, difference_same actual)
  ]

  -- Where a digest is 32 bytes, a descriptor matches an expected text exactly when the text in
  -- lower case is the text of its own digest.
  pub descriptor_matches_sha256_iff :
      (descriptor : Option (List ℕ)) (text : List ℕ)
      → (descriptor_matches_sha256 sha256 descriptor (some text) ≡ true)
        ↔ (descriptor_sha256_hex sha256 descriptor ≡ some (lower text))
  descriptor_matches_sha256_iff descriptor text =
      (matches_sound descriptor text, matches_complete descriptor text)
