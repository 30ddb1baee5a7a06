-- ===== src/Base/Xor.antt =====
-- Laws of `^` at variables: it undoes itself on either side, and keeps a width.
use Prim.Native.Nat.{ℕ, zero, suc, ◌+◌, ◌*◌, ◌/◌, ◌%◌, ◌^◌, ◌<◌, bit_xor, differ, bit_xor-bitwise}
use mathlib.Core.Path.{◌≡◌, refl, ap, ap₂, ◌∙◌}
use native.Mathlib.Nat.{pow-suc}
use native.Mathlib.Omega.{arith}
use red_monkey_mpg_firmware.Base.Bits.{bitwise_digit, halving}

differ_digit : (x y : ℕ) → x < 2 → y < 2 → differ x y ≡ (x + y) % 2
differ_digit zero y h k = omega arith
differ_digit (suc zero) zero h k = refl
differ_digit (suc zero) (suc zero) h k = refl
differ_digit (suc zero) (suc (suc y)) h k = absurd (omega arith)
differ_digit (suc (suc x)) y h k = absurd (omega arith)

pub zero-bit_xor : (b : ℕ) → bit_xor 0 b ≡ b
zero-bit_xor b = bit_xor-bitwise 0 b

-- The lowest digit of an exclusive or, and the digits above it.
bit_xor_digits : (a b : ℕ) → bit_xor a b ≡ (a + b) % 2 + 2 * bit_xor (a / 2) (b / 2)
bit_xor_digits (suc a) b = omega (
  arith,
  bitwise_digit (λ t. t) differ a b,
  differ_digit (suc a % 2) (b % 2) (omega arith) (omega arith),
  bit_xor-bitwise (suc a / 2) (b / 2),
  bit_xor-bitwise (suc a) b,
)
bit_xor_digits zero b = omega (arith, zero-bit_xor (b / 2), zero-bit_xor b)

bit_xor_half : (a b : ℕ) → bit_xor a b / 2 ≡ bit_xor (a / 2) (b / 2)
bit_xor_half a b = omega (arith, bit_xor_digits a b)

pub bit_xor_left_cancel : (a b : ℕ) → bit_xor a (bit_xor a b) ≡ b
bit_xor_left_cancel =
    halving (λ a. (b : ℕ) → bit_xor a (bit_xor a b) ≡ b) (λ b. zero-bit_xor _ ∙ zero-bit_xor b)
      (λ a h b. omega (
        arith,
        h (b / 2),
        bit_xor_digits (suc a) (bit_xor (suc a) b),
        bit_xor_digits (suc a) b,
        ap (bit_xor (suc a / 2)) (bit_xor_half (suc a) b),
      ))

pub bit_xor_self : (a : ℕ) → bit_xor a a ≡ 0
bit_xor_self =
    halving (λ a. bit_xor a a ≡ 0) refl (λ a h. omega (arith, h, bit_xor_digits (suc a) (suc a)))

pub bit_xor_right_cancel : (a b : ℕ) → bit_xor (bit_xor a b) b ≡ a
bit_xor_right_cancel =
    halving (λ a. (b : ℕ) → bit_xor (bit_xor a b) b ≡ a)
      (λ b. ap (λ (t : ℕ). bit_xor t b) (zero-bit_xor b) ∙ bit_xor_self b)
      (λ a h b. omega (
        arith,
        h (b / 2),
        bit_xor_digits (bit_xor (suc a) b) b,
        bit_xor_digits (suc a) b,
        ap (λ (t : ℕ). bit_xor t (b / 2)) (bit_xor_half (suc a) b),
      ))

pub bit_xor-lt : (k a b : ℕ) → a < 2 ^ k → b < 2 ^ k → bit_xor a b < 2 ^ k
bit_xor-lt zero a b h h' =
    let e : a ≡ 0 = omega arith in let e' : b ≡ 0 = omega arith in omega (arith, ap₂ bit_xor e e')
bit_xor-lt (suc k) a b h h' = omega (
  arith,
  bit_xor_digits a b,
  pow-suc 2 k,
  bit_xor-lt k (a / 2) (b / 2) (omega (arith, pow-suc 2 k)) (omega (arith, pow-suc 2 k)),
)
