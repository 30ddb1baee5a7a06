-- ===== src/Address/RoundTrip.antt =====
-- An address that is printed is read back.
use red_monkey_mpg_firmware.Base.{
  ℕ, ◌/◌, ◌%◌, ◌<◌, false, some, List, [], ◌∷◌, length, All, ◌≡◌, ◌≢◌, refl, sym, ap, ◌∙◌, arith,
}
use red_monkey_mpg_firmware.Address.{
  address_bytes_valid, is_space, hex_value, hex_digit, skip_spaces, scan_hex2, scan_groups,
  format_address, parse_address, bytes_of, all_read,
}

hex_value-hex_digit : (d : ℕ) → d < 16 → hex_value (hex_digit d) ≡ some d
unfolding hex_value hex_digit
hex_value-hex_digit d h = ground arith

-- A printed digit is no space, no sign and no `x`.
hex_digit-plain :
    (d : ℕ)
    → d < 16
    → (is_space (hex_digit d) ≡ false)
      × (hex_digit d ≢ 43)
      × (hex_digit d ≢ 45)
      × (hex_digit d ≢ 120)
      × (hex_digit d ≢ 88)
unfolding is_space hex_digit
hex_digit-plain d h = ground arith

scan_hex2-hex_digit :
    (b : ℕ) (rest : List ℕ)
    → b < 256
    → scan_hex2 (hex_digit (b / 16) ∷ hex_digit (b % 16) ∷ rest) ≡ some (b, rest)
unfolding scan_hex2 skip_spaces
scan_hex2-hex_digit b rest h = ground (
  arith,
  hex_value-hex_digit (b / 16) (omega arith),
  hex_value-hex_digit (b % 16) (omega arith),
  hex_digit-plain (b / 16) (omega arith),
  hex_digit-plain (b % 16) (omega arith),
)

abbrev pub AreBytes : List ℕ → Type 0
AreBytes = All (λ b. b < 256)

scan_groups-format_address :
    (bs : List ℕ) → AreBytes bs → scan_groups (length bs) (format_address bs) ≡ some (bs, [])
unfolding scan_groups format_address
scan_groups-format_address [] h = refl
scan_groups-format_address (b ∷ []) h = rw (scan_hex2-hex_digit b [] h.0) refl
scan_groups-format_address (b ∷ c ∷ bs) h =
    rw
      (
        scan_hex2-hex_digit b (58 ∷ format_address (c ∷ bs)) h.0,
        scan_groups-format_address (c ∷ bs) h.1,
      )
      refl

bytes_of_lem : (bs : List ℕ) → AreBytes bs → bytes_of bs ≡ bs
unfolding bytes_of
bytes_of_lem [] h = refl
bytes_of_lem (b ∷ bs) h = ground (arith, bytes_of_lem bs h.1)

-- The text that is printed for six bytes is read as these bytes, and is accepted exactly when they
-- are neither all 0 nor all 0xff.
pub parse_address-format_address :
    (bs output : List ℕ)
    → length bs ≡ 6
    → AreBytes bs
    → parse_address (some (format_address bs)) output ≡ (address_bytes_valid bs, bs)
unfolding parse_address all_read
parse_address-format_address bs output six h =
    let read : scan_groups 6 (format_address bs) ≡ some (bs, []) =
      ap (λ (n : ℕ). scan_groups n (format_address bs)) (sym six)
      ∙ scan_groups-format_address bs h in
    rw (read, bytes_of_lem bs h) refl
