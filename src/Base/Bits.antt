-- ===== src/Base/Bits.antt =====
-- Laws of `&` and `|` at variables, from their lowest digits.
use Prim.Native.Nat.{
  ℕ, zero, suc, ◌+◌, ◌-◌, ◌*◌, ◌/◌, ◌%◌, ◌^◌, ◌≤◌, ◌<◌, min, max, bit_and, bit_or, digits, bitwise,
  bit_and-bitwise, bit_or-bitwise,
}
use mathlib.Core.Path.{◌≡◌, refl, ap, sym, ◌∙◌}
use mathlib.Core.Logic.{◌≢◌, ◌⊎◌, inl, inr}
use native.Mathlib.Nat.{le_refl, pow-suc, div-div-eq-div-mul, mul_comm}
use native.Mathlib.Omega.{arith}

-- Induction by halves: a law of 0, and of every other number from its half.
module _ (P : ℕ → Type 0) (base : P 0) (from_half : (a : ℕ) → P (suc a / 2) → P (suc a)) where
  halving_below : (bound a : ℕ) → a ≤ bound → P a
  halving_below bound zero fits = base
  halving_below (suc bound) (suc a) fits =
      from_half a (halving_below bound (suc a / 2) (omega arith))
  halving_below zero (suc a) fits = absurd (omega arith)

  pub halving : (a : ℕ) → P a
  halving a = halving_below a a (le_refl a)

-- More fuel than the number itself changes no digit.
module _ (rest : ℕ → ℕ) (join : ℕ → ℕ → ℕ) where
  digits_more :
      (fuel more a b : ℕ)
      → a ≤ fuel
      → digits rest join fuel a b ≡ digits rest join (fuel + more) a b
  digits_more (suc fuel) more (suc a) b fits =
      let front : suc fuel + more ≡ suc (fuel + more) = omega arith in
      rw (front, digits_more fuel more (suc a / 2) (b / 2) (omega arith)) refl
  digits_more (suc fuel) more zero b fits =
      let front : suc fuel + more ≡ suc (fuel + more) = omega arith in rw front refl
  digits_more zero (suc more) zero b fits =
      let alone : 0 + suc more ≡ suc more = omega arith in rw alone refl
  digits_more zero zero zero b fits = refl
  digits_more zero more (suc a) b fits = absurd (omega arith)

  pub bitwise_digit :
      (a b : ℕ)
      → bitwise rest join (suc a) b
        ≡ join (suc a % 2) (b % 2) + 2 * bitwise rest join (suc a / 2) (b / 2)
  bitwise_digit a b =
      let half = suc a / 2 in
      let fuel : half + (a - half) ≡ a = omega arith in
      let less = digits_more half (a - half) half (b / 2) (le_refl half) in
      omega (arith, less, ap (λ (t : ℕ). digits rest join t half (b / 2)) fuel)

zero-bit_and : (b : ℕ) → bit_and 0 b ≡ 0
zero-bit_and b = bit_and-bitwise 0 b

-- The lowest digit of a conjunction, and the digits above it.
pub bit_and_digits : (a b : ℕ) → bit_and a b ≡ min (a % 2) (b % 2) + 2 * bit_and (a / 2) (b / 2)
bit_and_digits (suc a) b = omega (
  arith,
  bitwise_digit (λ t. 0) min a b,
  bit_and-bitwise (suc a / 2) (b / 2),
  bit_and-bitwise (suc a) b,
)
bit_and_digits zero b = omega (arith, zero-bit_and (b / 2), zero-bit_and b)

pub bit_and-zero : (a : ℕ) → bit_and a 0 ≡ 0
bit_and-zero =
    halving (λ a. bit_and a 0 ≡ 0) refl (λ a h. omega (arith, h, bit_and_digits (suc a) 0))

pub bit_and_self : (a : ℕ) → bit_and a a ≡ a
bit_and_self =
    halving (λ a. bit_and a a ≡ a) refl (λ a h. omega (arith, h, bit_and_digits (suc a) (suc a)))

half-cases : (v : ℕ) → (v ≡ v / 2 * 2) ⊎ (v ≡ v / 2 * 2 + 1)
half-cases v = omega arith

-- `value & (value - 1)` is 0 at 1, and at an even value exactly as at its half.
pub single_bit_half :
    (v : ℕ)
    → v ≢ 0
    → bit_and v (v - 1) ≡ 0
    → (v ≡ 1) ⊎ (v ≡ v / 2 * 2) × (v / 2 ≢ 0) × (bit_and (v / 2) (v / 2 - 1) ≡ 0)
single_bit_half v ne h = elim (half-cases v) [
  | inl even ↦
      let e : (v - 1) / 2 ≡ v / 2 - 1 = omega arith in
      inr (even, omega arith, omega (arith, bit_and_digits v (v - 1), ap (bit_and (v / 2)) e))
  | inr odd ↦
      let e : (v - 1) / 2 ≡ v / 2 = omega arith in
      inl (omega (arith, bit_and_digits v (v - 1), ap (bit_and (v / 2)) e, bit_and_self (v / 2)))
]

-- `v` is one of the `n` lowest bits, and one that `mask` has.
abbrev pub IsBitOf : ℕ → ℕ → ℕ → Type 0
IsBitOf zero mask v = ⊥
IsBitOf (suc n) mask v =
    ((v ≡ 1) × (mask % 2 ≡ 1)) ⊎ ((v ≡ v / 2 * 2) × IsBitOf n (mask / 2) (v / 2))

one-mask : (mask v : ℕ) → v ≡ 1 → bit_and v mask ≢ 0 → mask % 2 ≡ 1
one-mask mask v one meets =
    let e : bit_and (v / 2) (mask / 2) ≡ 0 =
      ap (λ (t : ℕ). bit_and t (mask / 2)) {y = 0} (omega arith) ∙ zero-bit_and (mask / 2) in
    ground (arith, bit_and_digits v mask, e)

pub single_bit_mask :
    (n mask v : ℕ)
    → mask < 2 ^ n
    → v ≢ 0
    → bit_and v (v - 1) ≡ 0
    → bit_and v mask ≢ 0
    → IsBitOf n mask v
single_bit_mask zero mask v small ne h meets =
    absurd (meets (ap (bit_and v) {y = 0} (omega arith) ∙ bit_and-zero v))
single_bit_mask (suc n) mask v small ne h meets = elim (single_bit_half v ne h) [
  | inl one ↦ inl (one, one-mask mask v one meets)
  | inr (even, ne', h') ↦ inr (
    even,
    single_bit_mask n (mask / 2) (v / 2) (omega (arith, pow-suc 2 n)) ne' h'
        (λ e. meets (omega (arith, bit_and_digits v mask, e))),
  )
]

pub zero-bit_or : (b : ℕ) → bit_or 0 b ≡ b
zero-bit_or b = bit_or-bitwise 0 b

pub bit_or_digits : (a b : ℕ) → bit_or a b ≡ max (a % 2) (b % 2) + 2 * bit_or (a / 2) (b / 2)
bit_or_digits (suc a) b = omega (
  arith,
  bitwise_digit (λ t. t) max a b,
  bit_or-bitwise (suc a / 2) (b / 2),
  bit_or-bitwise (suc a) b,
)
bit_or_digits zero b = omega (arith, zero-bit_or (b / 2), zero-bit_or b)

-- `a | (q << k)` is a sum when `a` fits the `k` bits below `q`.
pub bit_or_shifted : (k a q : ℕ) → a < 2 ^ k → bit_or a (q * 2 ^ k) ≡ a + q * 2 ^ k
bit_or_shifted zero a q h =
    let e : a ≡ 0 = omega arith in rw e (omega (arith, zero-bit_or (q * 2 ^ 0)))
bit_or_shifted (suc k) a q h =
    let double : q * 2 ^ suc k ≡ 2 * (q * 2 ^ k) =
      omega (arith, ap (λ (t : ℕ). q * t) (pow-suc 2 k)) in
    let half : q * 2 ^ suc k / 2 ≡ q * 2 ^ k = omega arith in
    omega (
      arith,
      bit_or_digits a (q * 2 ^ suc k),
      ap (bit_or (a / 2)) half,
      bit_or_shifted k (a / 2) q (omega (arith, pow-suc 2 k)),
    )

-- A mask of one bit reads that digit.
pub bit_and_digit : (k a : ℕ) → bit_and a (2 ^ k) ≡ a / 2 ^ k % 2 * 2 ^ k
bit_and_digit zero a = omega (arith, bit_and_digits a 1, bit_and-zero (a / 2))
bit_and_digit (suc k) a =
    let half : 2 ^ suc k / 2 ≡ 2 ^ k = omega (arith, pow-suc 2 k) in
    let shift : a / 2 / 2 ^ k ≡ a / 2 ^ suc k =
      div-div-eq-div-mul a 2 (2 ^ k)
      ∙ ap (λ (t : ℕ). a / t) (mul_comm 2 (2 ^ k) ∙ sym (pow-suc 2 k)) in
    let scale : a / 2 ^ suc k % 2 * 2 ^ suc k ≡ a / 2 ^ suc k % 2 * 2 ^ k * 2 =
      omega (arith, ap (λ (t : ℕ). a / 2 ^ suc k % 2 * t) (pow-suc 2 k)) in
    omega (
      arith,
      bit_and_digits a (2 ^ suc k),
      ap (bit_and (a / 2)) half,
      bit_and_digit k (a / 2),
      ap (λ (t : ℕ). t % 2 * 2 ^ k) shift,
      scale,
      pow-suc 2 k,
    )

pub bit_and_nibble : (a : ℕ) → bit_and a 0x0f ≡ a % 16
bit_and_nibble a = omega (
  arith,
  bit_and_digits a 15,
  bit_and_digits (a / 2) 7,
  bit_and_digits (a / 2 / 2) 3,
  bit_and_digits (a / 2 / 2 / 2) 1,
  bit_and-zero (a / 2 / 2 / 2 / 2),
)
