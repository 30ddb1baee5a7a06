-- ===== src/Identity/Hex.antt =====
-- Digests as text and back, and the comparison of two digests.
use red_monkey_mpg_firmware.Base.{
  ℕ, suc, ◌+◌, ◌*◌, ◌/◌, ◌%◌, ◌<◌, true, ◌&&◌, some, List, [], ◌∷◌, ◌==◌, leb, if◌then◌else◌,
  bit_or, bit_xor, u8, length, ◌≡◌, refl, sym, ap, ap₂, ◌∙◌, arith, inl, inr, Option-cases,
}
use red_monkey_mpg_firmware.Base.Bits.{halving, bit_or_digits, zero-bit_or}
use red_monkey_mpg_firmware.Base.Table.{holds_below, holds_below_at}
use red_monkey_mpg_firmware.Base.Xor.{bit_xor_right_cancel, bit_xor_self, zero-bit_xor}
use red_monkey_mpg_firmware.Address.RoundTrip.{AreBytes}
use red_monkey_mpg_firmware.Identity.{hex_nibble, hex_char, hex_text, read_pairs, difference}

bit_or-zero_iff : (a b : ℕ) → bit_or a b ≡ 0 → (a ≡ 0) × (b ≡ 0)
bit_or-zero_iff =
    halving (λ a. (b : ℕ) → bit_or a b ≡ 0 → (a ≡ 0) × (b ≡ 0))
      (λ b e. (refl, sym (zero-bit_or b) ∙ e))
      (λ a h b e.
        let digits = bit_or_digits (suc a) b in
        let half : bit_or (suc a / 2) (b / 2) ≡ 0 = omega (arith, digits, e) in
        let (p, q) = h (b / 2) half in omega (arith, digits, e, p, q))

-- Upper case digits in lower case.
abbrev pub lower : List ℕ → List ℕ
lower [] = []
lower (c ∷ cs) = (if leb 65 c && leb c 70 then c + 32 else c) ∷ lower cs

pair_table : holds_below 256 (λ n. bit_or (n / 16 * 16) (n % 16) == n) ≡ true
unfolding holds_below
pair_table = refl

pair_value : (h l : ℕ) → h < 16 → l < 16 → u8 (bit_or (h * 16) l) ≡ h * 16 + l
pair_value h l a b =
    let v = h * 16 + l in
    let high : v / 16 ≡ h = omega arith in
    let low : v % 16 ≡ l = omega arith in
    ground (
      arith,
      holds_below_at (λ n. bit_or (n / 16 * 16) (n % 16) == n) 256 v pair_table (omega arith),
      ap (λ (t : ℕ). bit_or (t * 16) (v % 16)) high,
      ap (λ (t : ℕ). bit_or (h * 16) t) low,
    )

hex_nibble_lem :
    (c v : ℕ)
    → hex_nibble c ≡ some v
    → (v < 16) × (hex_char v ≡ (if leb 65 c && leb c 70 then c + 32 else c))
unfolding hex_nibble hex_char
hex_nibble_lem c v h = ground arith

hex_nibble-hex_char : (v : ℕ) → v < 16 → hex_nibble (hex_char v) ≡ some v
unfolding hex_nibble hex_char
hex_nibble-hex_char v h = ground arith

bit_xor-zero_iff : (a b : ℕ) → bit_xor a b ≡ 0 → a ≡ b
bit_xor-zero_iff a b e =
    sym (bit_xor_right_cancel a b) ∙ ap (λ (t : ℕ). bit_xor t b) e ∙ zero-bit_xor b

-- The differences are 0 only for equal arrays.
pub difference_sound :
    (d : ℕ) (xs ys : List ℕ) → length xs ≡ length ys → difference d xs ys ≡ 0 → (d ≡ 0) × (xs ≡ ys)
unfolding difference
difference_sound d [] [] size e = (e, refl)
difference_sound d [] (b ∷ ys) size e = absurd (omega arith)
difference_sound d (a ∷ xs) [] size e = absurd (omega arith)
difference_sound d (a ∷ xs) (b ∷ ys) size e =
    let (now, rest) = difference_sound (bit_or d (bit_xor a b)) xs ys (omega arith) e in
    let (before, same) = bit_or-zero_iff d (bit_xor a b) now in
    (before, ap₂ (◌∷◌) (bit_xor-zero_iff a b same) rest)

pub difference_same : (xs : List ℕ) → difference 0 xs xs ≡ 0
unfolding difference
difference_same [] = refl
difference_same (a ∷ xs) = rw (bit_xor_self a) (difference_same xs)

byte_digits :
    (h l : ℕ)
    → h < 16
    → l < 16
    → (u8 (bit_or (h * 16) l) / 16 ≡ h) × (u8 (bit_or (h * 16) l) % 16 ≡ l)
byte_digits h l a b = omega (arith, pair_value h l a b)

-- The text of the bytes that are read is the text in lower case, and half as long.
pub hex_text-read_pairs :
    (text bytes : List ℕ)
    → read_pairs text ≡ some bytes
    → (hex_text bytes ≡ lower text) × (length text ≡ 2 * length bytes)
unfolding read_pairs hex_text
hex_text-read_pairs [] bytes e = ground arith
hex_text-read_pairs (h ∷ []) bytes e = ground arith
hex_text-read_pairs (h ∷ l ∷ text) bytes e = elim (Option-cases (hex_nibble h)) [
  | inl n ↦ absurd (ground (arith, n))
  | inr (high, eh) ↦ elim (Option-cases (hex_nibble l)) [
    | inl n ↦ absurd (ground (arith, eh, n))
    | inr (low, el) ↦ elim (Option-cases (read_pairs text)) [
      | inl n ↦ absurd (ground (arith, eh, el, n))
      | inr (rest, er) ↦
          let (same, size) = hex_text-read_pairs text rest er in
          let (high_small, high_char) = hex_nibble_lem h high eh in
          let (low_small, low_char) = hex_nibble_lem l low el in
          let (up, down) = byte_digits high low high_small low_small in
          let found : bytes ≡ u8 (bit_or (high * 16) low) ∷ rest = ground (arith, eh, el, er) in
          rw found (rw (up, down, high_char, low_char, same) refl, omega (arith, size))
    ]
  ]
]

hex_nibble_lower : (c : ℕ) → hex_nibble (if leb 65 c && leb c 70 then c + 32 else c) ≡ hex_nibble c
unfolding hex_nibble
hex_nibble_lower c = ground arith

pub read_pairs-lower : (text : List ℕ) → read_pairs (lower text) ≡ read_pairs text
unfolding read_pairs
read_pairs-lower [] = refl
read_pairs-lower (h ∷ []) = refl
read_pairs-lower (h ∷ l ∷ text) =
    rw (hex_nibble_lower h, hex_nibble_lower l, read_pairs-lower text) refl

pub read_pairs-hex_text : (bs : List ℕ) → AreBytes bs → read_pairs (hex_text bs) ≡ some bs
unfolding read_pairs hex_text
read_pairs-hex_text [] h = refl
read_pairs-hex_text (b ∷ bs) h =
    let value : u8 (bit_or (b / 16 * 16) (b % 16)) ≡ b =
      pair_value (b / 16) (b % 16) (omega arith) (omega arith) ∙ omega arith in
    rw
      (
        hex_nibble-hex_char (b / 16) (omega arith),
        hex_nibble-hex_char (b % 16) (omega arith),
        read_pairs-hex_text bs h.1,
        value,
      )
      refl

pub length-hex_text : (bs : List ℕ) → length (hex_text bs) ≡ 2 * length bs
unfolding hex_text
length-hex_text [] = refl
length-hex_text (b ∷ bs) = omega (arith, length-hex_text bs)

pub length-lower : (text : List ℕ) → length (lower text) ≡ length text
length-lower [] = refl
length-lower (c ∷ cs) = ap suc (length-lower cs)
