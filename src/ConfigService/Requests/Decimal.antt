-- ===== src/ConfigService/Requests/Decimal.antt =====
-- Numbers in a response read back.
use red_monkey_mpg_firmware.Base.{
  ℕ, zero, suc, ◌+◌, ◌-◌, ◌*◌, ◌/◌, ◌%◌, ◌^◌, ◌≤◌, ◌<◌, List, [], ◌∷◌, ◌++◌, ltb, ap, if◌then◌else◌,
  ◌≡◌, arith, Bool-cases, inl, inr,
}
use red_monkey_mpg_firmware.ConfigService.Text.{strtoul, is_digit, ulong_max}
use red_monkey_mpg_firmware.ConfigService.Requests.{decimal, print_unsigned}

-- One more digit.
strtoul_digit :
    (v m d : ℕ) (text : List ℕ)
    → strtoul v text ≡ (m, [])
    → m * 10 + d ≤ ulong_max
    → d < 10
    → strtoul v (text ++ ((b'0' + d) ∷ [])) ≡ (m * 10 + d, [])
unfolding strtoul is_digit
strtoul_digit v m d [] h small digit = ground arith
strtoul_digit v m d (c ∷ cs) h small digit =
    let next = v * 10 + (c - b'0') in
    ground (arith, strtoul_digit (if ltb ulong_max next then ulong_max else next) m d cs)

strtoul-decimal :
    (digits n : ℕ) → n < 10 ^ digits → n ≤ ulong_max → strtoul 0 (decimal digits n) ≡ (n, [])
unfolding decimal strtoul is_digit
strtoul-decimal zero n h small = unfold strtoul in ground arith
strtoul-decimal (suc digits) n h small = elim (Bool-cases (ltb n 10)) [
  | inl e ↦ ground (arith, e)
  | inr e ↦
      let sum : n / 10 * 10 + n % 10 ≡ n = omega arith in
      let less : n / 10 < 10 ^ digits = ground (arith, h) in
      let ih = strtoul-decimal digits (n / 10) less (omega (arith, small)) in
      let more =
        strtoul_digit 0 (n / 10) (n % 10) (decimal digits (n / 10)) ih (omega (arith, small))
          (omega arith) in
      rw (e, more) (ap (λ (k : ℕ). (k, [])) sum)
]

-- The decimal text of a number of 32 bits is read as the number, to its end.
pub strtoul-print_unsigned : (n : ℕ) → n < 2 ^ 32 → strtoul 0 (print_unsigned n) ≡ (n, [])
strtoul-print_unsigned n h = strtoul-decimal 10 n (omega (arith, h)) (omega (arith, h))
