-- ===== src/Bridge/Target/Printed.antt =====
-- Addresses as texts and as bytes: what the bridge relies on of the Bluetooth library.
use red_monkey_mpg_firmware.Base.{
  ℕ, Bool, true, false, List, [], ◌∷◌, ◌≡◌, ◌∙◌, arith, take, length, replicate, refl, sym, ap, inl,
  inr, Bool-cases,
}
use red_monkey_mpg_firmware.Address.{format_address}
use red_monkey_mpg_firmware.Address.RoundTrip.{AreBytes}
use red_monkey_mpg_firmware.Bridge.{Platform}

-- What the bridge relies on of the Bluetooth library: reading an address leaves the array alone
-- where it fails, and does not depend on it; an address is printed as six bytes.
pub record ReadsAddress (platform : Platform) : Type 0 where
  pub unread :
      (text out : List ℕ)
      → (platform.sscanf_bd_addr text out).0 ≡ false
      → (platform.sscanf_bd_addr text out).1 ≡ out
  pub read :
      (text out other : List ℕ)
      → (platform.sscanf_bd_addr text out).0 ≡ true
      → platform.sscanf_bd_addr text other ≡ platform.sscanf_bd_addr text out
  pub printed :
      (a : List ℕ)
      → (bs : List ℕ) × (length bs ≡ 6)
        × AreBytes bs
        × (platform.bd_addr_to_str a ≡ format_address bs)

-- A text as the store prints it.
abbrev pub IsPrinted : List ℕ → Type 0
IsPrinted text = (bs : List ℕ) × (length bs ≡ 6) × AreBytes bs × (text ≡ format_address bs)

-- Six bytes print as 17 characters, so an array of 18 holds the text whole.
six_printed : (bs : List ℕ) → length bs ≡ 6 → take 17 (format_address bs) ≡ format_address bs
unfolding format_address
six_printed (a ∷ b ∷ c ∷ d ∷ e ∷ f ∷ []) six = refl
six_printed _ six = ground arith

pub printed_whole : (text : List ℕ) → IsPrinted text → take 17 text ≡ text
printed_whole text (bs, six, all, e) = rw e (six_printed bs six)

pub true-ne-false : true ≡ false → ⊥
true-ne-false e = cc

-- The target of a connection is what reading its text gives.
abbrev pub Reads : Platform → List ℕ → Bool → List ℕ → Type 0
Reads platform text valid address =
    (valid ≡ (platform.sscanf_bd_addr text (replicate 6 0)).0)
    × (valid ≡ true → address ≡ (platform.sscanf_bd_addr text (replicate 6 0)).1)

module _ (platform : Platform) (reads : ReadsAddress platform) where
  pub sscanf-Reads :
      (text out : List ℕ)
      → Reads platform text
          (platform.sscanf_bd_addr text out).0
          (platform.sscanf_bd_addr text out).1
  sscanf-Reads text out = elim (Bool-cases (platform.sscanf_bd_addr text out).0) [
    | inl good ↦
        let e = reads.read text out (replicate 6 0) good in
        (ap (λ r. r.0) (sym e), λ h. ap (λ r. r.1) (sym e))
    | inr bad ↦ elim (Bool-cases (platform.sscanf_bd_addr text (replicate 6 0)).0) [
      | inl good ↦
          let e = reads.read text (replicate 6 0) out good in
          (ap (λ r. r.0) e, λ h. ap (λ r. r.1) e)
      | inr same ↦ (bad ∙ sym same, λ h. cc)
    ]
  ]
