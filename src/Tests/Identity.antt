-- ===== src/Tests/Identity.antt =====
-- A digest of 32 equal bytes.
use red_monkey_mpg_firmware.Base.{
  ℕ, true, Option, some, List, [], ◌∷◌, ◌≡◌, ◌↔◌, refl, arith, replicate,
}
use red_monkey_mpg_firmware.Identity.{descriptor_sha256_hex, descriptor_matches_sha256}
use red_monkey_mpg_firmware.Identity.Hex.{lower}
use red_monkey_mpg_firmware.Identity.Matches.{IsSha256, descriptor_matches_sha256_iff}

abbrev sha256 : List ℕ → Option (List ℕ)
sha256 bs = some (replicate 32 0xab)

sha256-IsSha256 : IsSha256 sha256
sha256-IsSha256 bs d e = ground arith

-- "AB" 32 times.
abbrev expected : List ℕ
expected =
    65 ∷ 66 ∷ 65 ∷ 66 ∷ 65 ∷ 66 ∷ 65 ∷ 66 ∷ 65 ∷ 66 ∷ 65 ∷ 66 ∷ 65 ∷ 66 ∷ 65 ∷ 66 ∷ 65 ∷ 66 ∷ 65
    ∷ 66 ∷ 65 ∷ 66 ∷ 65 ∷ 66 ∷ 65 ∷ 66 ∷ 65 ∷ 66 ∷ 65 ∷ 66 ∷ 65 ∷ 66 ∷ 65 ∷ 66 ∷ 65 ∷ 66 ∷ 65 ∷ 66
    ∷ 65 ∷ 66 ∷ 65 ∷ 66 ∷ 65 ∷ 66 ∷ 65 ∷ 66 ∷ 65 ∷ 66 ∷ 65 ∷ 66 ∷ 65 ∷ 66 ∷ 65 ∷ 66 ∷ 65 ∷ 66 ∷ 65
    ∷ 66 ∷ 65 ∷ 66 ∷ 65 ∷ 66 ∷ 65 ∷ 66 ∷ []

expected_matches : descriptor_matches_sha256 sha256 (some (5 ∷ [])) (some expected) ≡ true
unfolding descriptor_matches_sha256
expected_matches = refl

descriptor_matches_sha256_iff_example :
    (descriptor_matches_sha256 sha256 (some (5 ∷ [])) (some expected) ≡ true)
    ↔ (descriptor_sha256_hex sha256 (some (5 ∷ [])) ≡ some (lower expected))
descriptor_matches_sha256_iff_example =
    descriptor_matches_sha256_iff sha256 sha256-IsSha256 (some (5 ∷ [])) expected
