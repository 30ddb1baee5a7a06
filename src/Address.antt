-- ===== src/Address.antt =====
-- Bluetooth addresses as text, `parse_address` and the formats of
-- firmware/src/persistent_config.cpp, on the characters of a C string without its NUL.
pub mod RoundTrip
pub mod Parsed
use red_monkey_mpg_firmware.Base.{
  ℕ, zero, suc, ◌+◌, ◌-◌, ◌*◌, ◌/◌, ◌%◌, ◌^◌, Bool, true, false, not, ◌&&◌, ◌||◌, Option, none,
  some, List, [], ◌∷◌, ◌>>=◌, ◌==◌, ltb, leb, if◌then◌else◌, u8, u32, replicate,
}

any_byte : (ℕ → Bool) → List ℕ → Bool
any_byte test [] = false
any_byte test (b ∷ bs) = test b || any_byte test bs

-- Not all bytes are 0, and not all are 0xff.
unfoldable pub address_bytes_valid : List ℕ → Bool
unfolding any_byte
address_bytes_valid bs = any_byte (λ b. not (b == 0)) bs && any_byte (λ b. not (b == 0xff)) bs

-- `isspace` of the C locale.
unfoldable pub is_space : ℕ → Bool
is_space c = c == 32 || (leb 9 c && leb c 13)

unfoldable pub hex_value : ℕ → Option ℕ
hex_value c =
    if leb 48 c && leb c 57
    then some (c - 48)
    else if leb 65 c && leb c 70
    then some (c - 55)
    else if leb 97 c && leb c 102
    then some (c - 87)
    else none

skip_spaces : List ℕ → List ℕ
skip_spaces [] = []
skip_spaces (c ∷ cs) = let rest = skip_spaces cs in if is_space c then rest else c ∷ cs

-- After a sign, within the width 2: one digit.
signed : (ℕ → ℕ) → List ℕ → Option (ℕ × List ℕ)
signed f [] = none
signed f (c ∷ cs) = do v ← hex_value c; some (f v, cs)

second_digit : ℕ → Option ℕ → ℕ → List ℕ → ℕ × List ℕ
second_digit v none c cs = (v, c ∷ cs)
second_digit v (some d) c cs = (v * 16 + d, cs)

-- After a first digit: a second one if there is one; `0x` alone is no number.
after_digit : List ℕ → ℕ → Option (ℕ × List ℕ)
unfolding second_digit
after_digit [] v = some (v, [])
after_digit (c ∷ cs) v =
    if v == 0 && (c == 120 || c == 88) then none else some (second_digit v (hex_value c) c cs)

scan_sign : List ℕ → Option (ℕ × List ℕ)
unfolding signed after_digit
scan_sign [] = none
scan_sign (c ∷ cs) =
    if c == 43
    then signed (λ v. v) cs
    else if c == 45
    then signed (λ v. u32 (2 ^ 32 - v)) cs
    else (hex_value c >>= after_digit cs)

-- `%2x`
unfoldable pub scan_hex2 : List ℕ → Option (ℕ × List ℕ)
unfolding skip_spaces scan_sign
scan_hex2 text = scan_sign (skip_spaces text)

-- The literal `:` after each conversion but the last.
after_group : ℕ → List ℕ → Option (List ℕ)
after_group zero cs = some cs
after_group (suc n) [] = none
after_group (suc n) (c ∷ cs) = if c == 58 then some cs else none

-- As many conversions as the number, and the rest of the text.
scan_groups : ℕ → List ℕ → Option (List ℕ × List ℕ)
unfolding after_group
scan_groups zero text = some ([], text)
scan_groups (suc n) text = do
  (v, after) ← scan_hex2 text
  next ← after_group n after
  (vs, end) ← scan_groups n next
  some (v ∷ vs, end)

all_read : Option (List ℕ × List ℕ) → Option (List ℕ)
all_read (some (vs, [])) = some vs
all_read _ = none

bytes_of : List ℕ → List ℕ
bytes_of [] = []
bytes_of (v ∷ vs) = u8 v ∷ bytes_of vs

parsed_address : Option (List ℕ) → List ℕ → Bool × List ℕ
unfolding bytes_of
parsed_address none output = (false, output)
parsed_address (some vs) output = (address_bytes_valid (bytes_of vs), bytes_of vs)

-- `parse_address`: the result, and the output array afterwards, which is written before the
-- bytes are looked at. `none` is the null pointer.
unfoldable pub parse_address : Option (List ℕ) → List ℕ → Bool × List ℕ
unfolding scan_groups all_read parsed_address
parse_address none output = (false, output)
parse_address (some text) output = parsed_address (all_read (scan_groups 6 text)) output

-- `%X` of a digit, and `%02X` of a byte.
unfoldable pub hex_digit : ℕ → ℕ
hex_digit d = if ltb d 10 then 48 + d else 55 + d

unfoldable pub format_address : List ℕ → List ℕ
unfolding hex_digit
format_address [] = []
format_address (b ∷ []) = hex_digit (b / 16) ∷ hex_digit (b % 16) ∷ []
format_address (b ∷ c ∷ bs) = hex_digit (b / 16) ∷ hex_digit (b % 16) ∷ 58 ∷ format_address (c ∷ bs)
