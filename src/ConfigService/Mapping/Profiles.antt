-- ===== src/ConfigService/Mapping/Profiles.antt =====
-- The profile of a text is the one that the registry gives for the key.
use Prim.Native.Char.{code}
use Prim.Native.String.{String}
use text.Mathlib.Text.{◌==◌ as str_eq}
use text.Mathlib.TextEquality.{Char-path, eq_iff}
use red_monkey_mpg_firmware.Base.{
  ℕ, true, some, List, [], ◌∷◌, ◌≡◌, refl, ◌∙◌, ap₂, sym, arith, Bool-cases, inl, inr,
}
use red_monkey_mpg_firmware.Base.Codes.{codes}
use red_monkey_mpg_firmware.Keyboard.{cnc_controller_profile_by_key}
use red_monkey_mpg_firmware.Persistent.{same_bytes}
use red_monkey_mpg_firmware.Persistent.Current.{same_bytes_sound}
use red_monkey_mpg_firmware.ConfigService.Mapping.{is_word, profile_by_text, profile_of}

codes_injective : (s t : String) → codes s ≡ codes t → s ≡ t
codes_injective String.[] String.[] h = refl
codes_injective String.[] (String.◌∷◌ d t) h = ground arith
codes_injective (String.◌∷◌ c s) String.[] h = ground arith
codes_injective (String.◌∷◌ c s) (String.◌∷◌ d t) h =
    let same : code c ≡ code d = ground (arith, h) in
    let rest : codes s ≡ codes t = ground (arith, h) in
    ap₂ String.◌∷◌ (Char-path c d same) (codes_injective s t rest)

same_bytes_refl : (bs : List ℕ) → same_bytes bs bs ≡ true
unfolding same_bytes
same_bytes_refl [] = refl
same_bytes_refl (b ∷ bs) = ground (arith, same_bytes_refl bs)

-- Comparing two texts by `strcmp`, in either order.
is_word-codes : (s t : String) → is_word (codes s) t ≡ str_eq t s
is_word-codes s t = elim (Bool-cases (str_eq t s)) [
  | inl e ↦ rw (e, (eq_iff t s).0 e) (same_bytes_refl (codes s))
  | inr e ↦ elim (Bool-cases (is_word (codes s) t)) [
    | inl f ↦
        f
        ∙ sym ((eq_iff t s).1 (sym (codes_injective s t (same_bytes_sound (codes s) (codes t) f))))
    | inr f ↦ rw (e, f) refl
  ]
]

-- On the bytes of a key the lookup finds what the registry finds for the key.
pub profile_by_text-codes :
    (key : String) → profile_by_text (codes key) ≡ cnc_controller_profile_by_key (some key)
unfolding profile_by_text profile_of cnc_controller_profile_by_key
profile_by_text-codes key = rw (is_word-codes key "masso-g3-touch-5.13") refl
