-- ===== src/Identity.antt =====
-- The descriptor digests of firmware/src/descriptor_identity.c. The SHA-256 of the chip is a
-- parameter: the digest of a buffer, or none when it cannot be started in time.
pub mod Hex
pub mod Matches
use red_monkey_mpg_firmware.Base.{
  ℕ, ◌+◌, ◌-◌, ◌*◌, ◌/◌, ◌%◌, Bool, true, false, not, ◌&&◌, ◌||◌, Option, none, some, List, [], ◌∷◌,
  ◌==◌, ◌>>=◌, ltb, leb, if◌then◌else◌, bit_or, bit_xor, u8, length,
}

-- `none` is the code's -1.
unfoldable pub hex_nibble : ℕ → Option ℕ
hex_nibble c =
    if leb 48 c && leb c 57
    then some (c - 48)
    else if leb 97 c && leb c 102
    then some (c - 87)
    else if leb 65 c && leb c 70
    then some (c - 55)
    else none

-- An element of the constant `hex`.
unfoldable pub hex_char : ℕ → ℕ
hex_char d = if ltb d 10 then 48 + d else 87 + d

unfoldable pub hex_text : List ℕ → List ℕ
unfolding hex_char
hex_text [] = []
hex_text (b ∷ bs) = hex_char (b / 16) ∷ hex_char (b % 16) ∷ hex_text bs

-- The loop over the pairs of digits.
unfoldable pub read_pairs : List ℕ → Option (List ℕ)
unfolding hex_nibble
read_pairs [] = some []
read_pairs (h ∷ []) = none
read_pairs (h ∷ l ∷ text) = do
  high ← hex_nibble h
  low ← hex_nibble l
  rest ← read_pairs text
  some (u8 (bit_or (high * 16) low) ∷ rest)

-- The loop that collects the differences of two arrays of one size.
unfoldable pub difference : ℕ → List ℕ → List ℕ → ℕ
difference d (a ∷ as') (b ∷ bs) = difference (bit_or d (bit_xor a b)) as' bs
difference d _ _ = d

module _ (sha256 : List ℕ → Option (List ℕ)) where
  -- `red_monkey_mpg_descriptor_sha256`; `none` for the descriptor is the null pointer.
  unfoldable pub descriptor_sha256 : Option (List ℕ) → Option (List ℕ)
  descriptor_sha256 none = none
  descriptor_sha256 (some []) = none
  descriptor_sha256 (some (b ∷ bs)) = sha256 (b ∷ bs)

  -- `red_monkey_mpg_descriptor_sha256_hex`, without its NUL.
  unfoldable pub descriptor_sha256_hex : Option (List ℕ) → Option (List ℕ)
  unfolding descriptor_sha256 hex_text
  descriptor_sha256_hex descriptor = do
    digest ← descriptor_sha256 descriptor
    some (hex_text digest)

  compare_digests : Option (List ℕ) → Option (List ℕ) → Bool
  unfolding difference
  compare_digests (some actual) (some expected) = difference 0 actual expected == 0
  compare_digests _ _ = false

  -- `red_monkey_mpg_descriptor_matches_sha256`
  unfoldable pub descriptor_matches_sha256 : Option (List ℕ) → Option (List ℕ) → Bool
  unfolding compare_digests read_pairs descriptor_sha256
  descriptor_matches_sha256 descriptor none = false
  descriptor_matches_sha256 descriptor (some text) =
      if length text == 64
      then compare_digests (descriptor_sha256 descriptor) (read_pairs text)
      else false
