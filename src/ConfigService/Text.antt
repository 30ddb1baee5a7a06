-- ===== src/ConfigService/Text.antt =====
-- The strict reading of a request line, firmware/src/config_service.cpp: a key must stand in the
-- line exactly once. A line is the characters before its NUL.
pub mod Once
use red_monkey_mpg_firmware.Base.{
  ℕ, ◌+◌, ◌-◌, ◌*◌, ◌^◌, Bool, true, false, not, ◌&&◌, ◌||◌, Option, none, some, List, [], ◌∷◌,
  ◌==◌, ltb, leb, if◌then◌else◌, ◌>>=◌, is_some, length, drop,
}

-- Whether the text begins with the key.
unfoldable pub begins : List ℕ → List ℕ → Bool
begins [] text = true
begins (k ∷ ks) [] = false
begins (k ∷ ks) (c ∷ cs) = k == c && begins ks cs

-- `strstr` for a key that is not empty: the text from the first occurrence on.
unfoldable pub strstr : List ℕ → List ℕ → Option (List ℕ)
unfolding begins
strstr [] key = none
strstr (c ∷ cs) key =
    let rest = strstr cs key in if begins key (c ∷ cs) then some (c ∷ cs) else rest

-- `find_once`: what follows the key.
unfoldable pub find_once : List ℕ → List ℕ → Option (List ℕ)
unfolding strstr
find_once line key = do
  found ← strstr line key
  if is_some (strstr (drop 1 found) key) then none else some (drop (length key) found)

-- The text before the first quote; `none` without one.
before_quote : List ℕ → Option (List ℕ)
before_quote [] = none
before_quote (c ∷ cs) =
    let rest = before_quote cs in
    if c == b'"' then some [] else (rest >>= λ value. some (c ∷ value))

-- A value that is not empty and has room for its NUL.
fits : ℕ → List ℕ → Option (List ℕ)
fits size [] = none
fits size (c ∷ cs) = if ltb (length (c ∷ cs)) size then some (c ∷ cs) else none

-- `read_string` into an array of the size.
unfoldable pub read_string : List ℕ → List ℕ → ℕ → Option (List ℕ)
unfolding find_once before_quote fits
read_string line key size = do
  start ← find_once line key
  value ← before_quote start
  fits size value

unfoldable pub is_digit : ℕ → Bool
is_digit c = leb b'0' c && leb c b'9'

-- `ULONG_MAX` of the chip, at which `strtoul` stays.
abbrev pub ulong_max : ℕ
ulong_max = 0xffffffff

-- The loop of `strtoul` in base 10: the value, and the text after the digits.
unfoldable pub strtoul : ℕ → List ℕ → ℕ × List ℕ
unfolding is_digit
strtoul value [] = (value, [])
strtoul value (c ∷ cs) =
    let next = value * 10 + (c - b'0') in
    let rest = strtoul (if ltb ulong_max next then ulong_max else next) cs in
    if is_digit c then rest else (value, c ∷ cs)

-- Only blanks before the end of the number's field.
ends_field : List ℕ → Bool
ends_field [] = true
ends_field (c ∷ cs) =
    let rest = ends_field cs in if c == b' ' || c == 9 then rest else c == b',' || c == b'}'

starts_number : List ℕ → Bool
unfolding is_digit
starts_number [] = false
starts_number (c ∷ cs) = is_digit c

-- `read_unsigned`
unfoldable pub read_unsigned : List ℕ → List ℕ → Option ℕ
unfolding find_once starts_number strtoul ends_field
read_unsigned line key = do
  start ← find_once line key
  let (value, after) = strtoul 0 start
  if starts_number start && ends_field after then some value else none
