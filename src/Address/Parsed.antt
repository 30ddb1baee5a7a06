-- ===== src/Address/Parsed.antt =====
-- What `parse_address` leaves in its output, for any text.
use red_monkey_mpg_firmware.Base.{
  ℕ, zero, suc, true, Option, none, some, List, [], ◌∷◌, length, ◌≡◌, refl, ap, ◌∙◌, arith, inl,
  inr, ◌>>=◌, Option-cases,
}
use red_monkey_mpg_firmware.Address.RoundTrip.{AreBytes}
use red_monkey_mpg_firmware.Address.{
  address_bytes_valid, scan_hex2, after_group, scan_groups, parse_address, parsed_address, all_read,
  bytes_of,
}

-- The values of a scan that succeeds are as many as asked for.
abbrev HasCount : ℕ → Option (List ℕ × List ℕ) → Type 0
HasCount n none = Unit
HasCount n (some (vs, end)) = length vs ≡ n

cons-HasCount :
    (v n : ℕ) (r : Option (List ℕ × List ℕ))
    → HasCount n r
    → HasCount (suc n) (r >>= λ (vs, end). some (v ∷ vs, end))
cons-HasCount v n none h = tt
cons-HasCount v n (some (vs, end)) h = ap suc h

scan_groups-HasCount : (n : ℕ) (text : List ℕ) → HasCount n (scan_groups n text)
unfolding scan_groups
scan_groups-HasCount zero text = refl
scan_groups-HasCount (suc n) text = elim (Option-cases (scan_hex2 text)) [
  | inl e ↦ rw e tt
  | inr ((v, after), e) ↦ rw e (elim (Option-cases (after_group n after)) [
    | inl e' ↦ rw e' tt
    | inr (next, e') ↦ rw e' (cons-HasCount v n _ (scan_groups-HasCount n next))
  ])
]

bytes_of-length : (vs : List ℕ) → length (bytes_of vs) ≡ length vs
unfolding bytes_of
bytes_of-length [] = refl
bytes_of-length (v ∷ vs) = ap suc (bytes_of-length vs)

parsed_address-length :
    (r : Option (List ℕ × List ℕ)) (output : List ℕ)
    → HasCount 6 r
    → length output ≡ 6
    → length (parsed_address (all_read r) output).1 ≡ 6
unfolding parsed_address all_read
parsed_address-length none output h six = six
parsed_address-length (some (vs, [])) output h six = bytes_of-length vs ∙ h
parsed_address-length (some (vs, c ∷ cs)) output h six = six

pub parse_address-length :
    (text : Option (List ℕ)) (output : List ℕ)
    → length output ≡ 6
    → length (parse_address text output).1 ≡ 6
unfolding parse_address
parse_address-length none output six = six
parse_address-length (some text) output six =
    parsed_address-length (scan_groups 6 text) output (scan_groups-HasCount 6 text) six

parsed_address_valid :
    (r : Option (List ℕ)) (output : List ℕ)
    → (parsed_address r output).0 ≡ true
    → address_bytes_valid (parsed_address r output).1 ≡ true
unfolding parsed_address
parsed_address_valid none output h = ground arith
parsed_address_valid (some vs) output h = h

-- An address that is accepted has bytes that are accepted.
pub parse_address_valid :
    (text : Option (List ℕ)) (output : List ℕ)
    → (parse_address text output).0 ≡ true
    → address_bytes_valid (parse_address text output).1 ≡ true
unfolding parse_address
parse_address_valid none output h = ground arith
parse_address_valid (some text) output h = parsed_address_valid _ output h

bytes_of-AreBytes : (vs : List ℕ) → AreBytes (bytes_of vs)
unfolding bytes_of
bytes_of-AreBytes [] = tt
bytes_of-AreBytes (v ∷ vs) = (omega arith, bytes_of-AreBytes vs)

parsed_address-AreBytes :
    (r : Option (List ℕ)) (output : List ℕ) → AreBytes output → AreBytes (parsed_address r output).1
unfolding parsed_address
parsed_address-AreBytes none output h = h
parsed_address-AreBytes (some vs) output h = bytes_of-AreBytes vs

pub parse_address-AreBytes :
    (text : Option (List ℕ)) (output : List ℕ)
    → AreBytes output
    → AreBytes (parse_address text output).1
unfolding parse_address
parse_address-AreBytes none output h = h
parse_address-AreBytes (some text) output h = parsed_address-AreBytes _ output h
