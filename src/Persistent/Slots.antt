-- ===== src/Persistent/Slots.antt =====
-- The two slots: which one a load chooses, and what it keeps of a record.
use native.Mathlib.Nat.{pow-suc}
use red_monkey_mpg_firmware.Base.{
  ℕ, zero, suc, ◌+◌, ◌^◌, ◌<◌, true, false, none, some, List, [], ◌∷◌, ◌==◌, if◌then◌else◌, length,
  take, drop, replicate, ◌≡◌, ◌≢◌, ◌⊎◌, refl, Bool-cases, arith, inl, inr,
}
use red_monkey_mpg_firmware.Production.{ProductionMapping}
use red_monkey_mpg_firmware.Address.{parse_address, format_address, address_bytes_valid}
use red_monkey_mpg_firmware.Address.RoundTrip.{AreBytes, parse_address-format_address}
use red_monkey_mpg_firmware.Storage.{
  Record, record_of, encode, decode, field_value, unchecked, with_crc,
}
use red_monkey_mpg_firmware.Storage.RoundTrip.{decode-some_iff, six_elements}
use red_monkey_mpg_firmware.Persistent.{tag_a, tag_b, newer, Slot, adopt, choose, text_or_null}

pub field_value-lt : (w : ℕ) (bs : List ℕ) → AreBytes bs → field_value (take w bs) < 256 ^ w
unfolding field_value
field_value-lt zero bs h = omega arith
field_value-lt (suc w) [] h = omega (arith, pow-suc 256 w, field_value-lt w [] h)
field_value-lt (suc w) (b ∷ bs) h = omega (arith, pow-suc 256 w, field_value-lt w bs h.1, h.0)

pub drop-AreBytes : (n : ℕ) (bs : List ℕ) → AreBytes bs → AreBytes (drop n bs)
drop-AreBytes zero bs h = h
drop-AreBytes (suc n) [] h = tt
drop-AreBytes (suc n) (b ∷ bs) h = drop-AreBytes n bs h.1

take-AreBytes : (n : ℕ) (bs : List ℕ) → AreBytes bs → AreBytes (take n bs)
take-AreBytes zero bs h = tt
take-AreBytes (suc n) [] h = tt
take-AreBytes (suc n) (b ∷ bs) h = (h.0, take-AreBytes n bs h.1)

length-drop : (n k : ℕ) (bs : List ℕ) → length bs ≡ n + k → length (drop n bs) ≡ k
length-drop zero k bs h = omega arith
length-drop (suc n) k [] h = absurd (omega arith)
length-drop (suc n) k (b ∷ bs) h = length-drop n k bs (omega arith)

length-take : (n k : ℕ) (bs : List ℕ) → length bs ≡ n + k → length (take n bs) ≡ n
length-take zero k bs h = refl
length-take (suc n) k [] h = absurd (omega arith)
length-take (suc n) k (b ∷ bs) h = omega (arith, length-take n k bs (omega arith))

-- No address, or the text of six bytes that are accepted.
abbrev pub IsAddress : List ℕ → Type 0
IsAddress text =
    (text ≡ [])
    ⊎ ((bs : List ℕ) × (length bs ≡ 6)
        × AreBytes bs
        × (address_bytes_valid bs ≡ true)
        × (text ≡ format_address bs))

abbrev pub record_text : Record → List ℕ
record_text r = if r.controller_valid == 0 then [] else format_address r.controller_address

-- The text of a record that decodes, from 44 bytes.
pub record_text-IsAddress :
    (bytes : List ℕ) (m : ProductionMapping)
    → length bytes ≡ 44
    → AreBytes bytes
    → decode (record_of bytes) ≡ some m
    → IsAddress (record_text (record_of bytes))
unfolding record_of
record_text-IsAddress bytes m size all d =
    let (intact, _, _) = (decode-some_iff (record_of bytes) m).0 d in
    let r = record_of bytes in
    elim (Bool-cases (r.controller_valid == 0)) [
      | inl absent ↦ rw absent (inl refl)
      | inr present ↦ rw present (
          inr (
            r.controller_address,
            length-take 6 6 (drop 32 bytes) (length-drop 32 12 bytes size),
            take-AreBytes 6 (drop 32 bytes) (drop-AreBytes 32 bytes all),
            intact.address (ground (arith, present)),
            refl,
          ))
    ]

pub text_or_null-format_address :
    (bs : List ℕ) → length bs ≡ 6 → text_or_null (format_address bs) ≡ some (format_address bs)
unfolding format_address
text_or_null-format_address bs h = let (a, b, c, d, e, f, six) = six_elements bs h in rw six refl

-- The address goes through a record.
pub record_text-encode :
    (m : ProductionMapping) (s : ℕ) (text : List ℕ)
    → IsAddress text
    → record_text (encode m s (text_or_null text)) ≡ text
unfolding encode unchecked with_crc
record_text-encode m s text (inl e) = rw e (unfold parse_address in refl)
record_text-encode m s text (inr (bs, six, all, good, e)) =
    rw
      (
        e,
        text_or_null-format_address bs six,
        parse_address-format_address bs (replicate 6 0) six all,
        good,
      )
      refl

pub choose_after_a :
    (a : Slot) (r : Record) (m : ProductionMapping)
    → newer r.sequence a.0.sequence ≡ true
    → choose a (r, some m) ≡ adopt r m tag_b
unfolding choose
choose_after_a (ra, none) r m h = refl
choose_after_a (ra, some n) r m h = rw h refl

pub choose_after_b :
    (b : Slot) (r : Record) (m : ProductionMapping)
    → (b.1 ≡ none) ⊎ (newer b.0.sequence r.sequence ≡ false)
    → choose (r, some m) b ≡ adopt r m tag_a
unfolding choose
choose_after_b (rb, none) r m h = refl
choose_after_b (rb, some n) r m (inl h) = ground arith
choose_after_b (rb, some n) r m (inr h) = rw h refl

-- The slot that a load has chosen, by the tag that it has kept.
pub chosen_a :
    (a b : Slot) → (choose a b).2.active_tag ≡ tag_a → (choose a b).2.sequence ≡ a.0.sequence
unfolding choose
chosen_a (ra, none) (rb, none) h = ground arith
chosen_a (ra, none) (rb, some n) h = ground arith
chosen_a (ra, some m) (rb, none) h = refl
chosen_a (ra, some m) (rb, some n) h = ground arith

pub chosen_b :
    (a b : Slot)
    → (choose a b).2.active_tag ≢ tag_a
    → (b.1 ≡ none) ⊎ ((choose a b).2.sequence ≡ b.0.sequence)
unfolding choose
chosen_b (ra, none) (rb, none) h = inl refl
chosen_b (ra, none) (rb, some n) h = inr refl
chosen_b (ra, some m) (rb, none) h = inl refl
chosen_b (ra, some m) (rb, some n) h = ground arith

-- What a load keeps is bounded and an address, if the slots are.
abbrev pub IsSlot : Slot → Type 0
IsSlot (r, none) = r.sequence < 2 ^ 32
IsSlot (r, some m) = (r.sequence < 2 ^ 32) × IsAddress (record_text r)

pub choose-IsSlot :
    (a b : Slot)
    → IsSlot a
    → IsSlot b
    → ((choose a b).2.sequence < 2 ^ 32) × IsAddress (choose a b).2.controller_address
unfolding choose
choose-IsSlot (ra, none) (rb, none) h k = (omega arith, inl refl)
choose-IsSlot (ra, none) (rb, some n) h k = k
choose-IsSlot (ra, some m) (rb, none) h k = h
choose-IsSlot (ra, some m) (rb, some n) h k = elim (Bool-cases (newer rb.sequence ra.sequence)) [
  | inl b ↦ rw b k
  | inr a ↦ rw a h
]
