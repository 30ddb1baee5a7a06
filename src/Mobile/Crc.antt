-- ===== src/Mobile/Crc.antt =====
-- The check byte of a frame finds every change that is confined to one byte.
use red_monkey_mpg_firmware.Base.{
  ℕ, zero, suc, ◌+◌, ◌/◌, ◌%◌, ◌<◌, if◌then◌else◌, true, ◌&&◌, List, [], ◌∷◌, ◌++◌, ◌==◌, ltb,
  bit_xor, ◌≡◌, ◌≢◌, refl, sym, ap, ◌∙◌, arith, All, take, length,
}
use red_monkey_mpg_firmware.Base.Xor.{bit_xor_left_cancel, bit_xor_right_cancel, bit_xor-lt}
use red_monkey_mpg_firmware.Base.Table.{holds_below, holds_below_at}
use red_monkey_mpg_firmware.Mobile.{crc_bits, crc_bytes, mobile_crc8}

-- Eight rounds backwards; each undoes the feedback that bit 0 shows.
uncrc_bit : ℕ → ℕ
uncrc_bit c = if c % 2 == 1 then bit_xor c 0x07 / 2 + 128 else c / 2

uncrc_bits : ℕ → ℕ → ℕ
unfolding uncrc_bit
uncrc_bits zero c = c
uncrc_bits (suc rounds) c = uncrc_bits rounds (uncrc_bit c)

crc_table : holds_below 256 (λ c. uncrc_bits 8 (crc_bits 8 c) == c && ltb (crc_bits 8 c) 256) ≡ true
unfolding holds_below uncrc_bits crc_bits
crc_table = refl

abbrev pub IsBytes : List ℕ → Type 0
IsBytes = All (λ b. b < 256)

crc_bits_facts : (c : ℕ) → c < 256 → (uncrc_bits 8 (crc_bits 8 c) ≡ c) × (crc_bits 8 c < 256)
crc_bits_facts c h = read_test (crc_bits 8 c) (holds_below_at _ 256 c crc_table h)
  where
    read_test :
        (d : ℕ) → (uncrc_bits 8 d == c && ltb d 256) ≡ true → (uncrc_bits 8 d ≡ c) × (d < 256)
    read_test d t = ground arith

-- The register after a byte determines the register before it, and the byte.
crc_bits_injective : (c d : ℕ) → c < 256 → d < 256 → crc_bits 8 c ≡ crc_bits 8 d → c ≡ d
crc_bits_injective c d h k e =
    sym (crc_bits_facts c h).0 ∙ ap (uncrc_bits 8) e ∙ (crc_bits_facts d k).0

crc_bytes_injective :
    (bs : List ℕ) (c d : ℕ)
    → IsBytes bs
    → c < 256
    → d < 256
    → crc_bytes c bs ≡ crc_bytes d bs
    → c ≡ d
unfolding crc_bytes
crc_bytes_injective [] c d all h k e = e
crc_bytes_injective (b ∷ bs) c d all h k e =
    let c' = bit_xor c b in
    let d' = bit_xor d b in
    let c'-lt = bit_xor-lt 8 c b h all.0 in
    let d'-lt = bit_xor-lt 8 d b k all.0 in
    let rest =
      crc_bytes_injective bs (crc_bits 8 c') (crc_bits 8 d') all.1 (crc_bits_facts c' c'-lt).1
        (crc_bits_facts d' d'-lt).1 e in
    sym (bit_xor_right_cancel c b)
    ∙ ap (λ (t : ℕ). bit_xor t b) (crc_bits_injective c' d' c'-lt d'-lt rest)
    ∙ bit_xor_right_cancel d b

crc_bytes_change :
    (before after : List ℕ) (c a b : ℕ)
    → IsBytes before
    → IsBytes after
    → c < 256
    → a < 256
    → b < 256
    → crc_bytes c (before ++ (a ∷ after)) ≡ crc_bytes c (before ++ (b ∷ after))
    → a ≡ b
unfolding crc_bytes
crc_bytes_change [] after c a b low high h ha hb e =
    let x = bit_xor c a in
    let y = bit_xor c b in
    let x-lt = bit_xor-lt 8 c a h ha in
    let y-lt = bit_xor-lt 8 c b h hb in
    let rest =
      crc_bytes_injective after (crc_bits 8 x) (crc_bits 8 y) high (crc_bits_facts x x-lt).1
        (crc_bits_facts y y-lt).1 e in
    sym (bit_xor_left_cancel c a)
    ∙ ap (bit_xor c) (crc_bits_injective x y x-lt y-lt rest)
    ∙ bit_xor_left_cancel c b
crc_bytes_change (p ∷ before) after c a b low high h ha hb e =
    let x = bit_xor c p in
    let x-lt = bit_xor-lt 8 c p h low.0 in
    crc_bytes_change before after (crc_bits 8 x) a b low.1 high (crc_bits_facts x x-lt).1 ha hb e

take-length : (xs : List ℕ) → take (length xs) xs ≡ xs
take-length [] = refl
take-length (v ∷ xs) = ap (◌∷◌ v) (take-length xs)

take_changed :
    (before after : List ℕ) (a b : ℕ)
    → take (length (before ++ (a ∷ after))) (before ++ (b ∷ after)) ≡ before ++ (b ∷ after)
take_changed [] after a b = ap (◌∷◌ b) (take-length after)
take_changed (p ∷ before) after a b = ap (◌∷◌ p) (take_changed before after a b)

-- Two byte strings that differ in exactly one byte have different check bytes.
pub mobile_crc8_change :
    (before after : List ℕ) (a b : ℕ)
    → IsBytes before
    → IsBytes after
    → a < 256
    → b < 256
    → a ≢ b
    → let n = length (before ++ (a ∷ after)) in
      mobile_crc8 (before ++ (a ∷ after)) n ≢ mobile_crc8 (before ++ (b ∷ after)) n
unfolding mobile_crc8
mobile_crc8_change before after a b low high ha hb ne e = ne (
    crc_bytes_change before after 0 a b low high (omega arith) ha hb (
      ap (crc_bytes 0) (sym (take_changed before after a a))
      ∙ e
      ∙ ap (crc_bytes 0) (take_changed before after a b)))
