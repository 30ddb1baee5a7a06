-- ===== src/Profile/Choice/Describe.antt =====
-- The selection described by the ranks of the table's entries.
use red_monkey_mpg_firmware.Base.{
  ℕ, ◌+◌, ◌<◌, ◌≤◌, true, false, Option, none, some, List, [], ◌∷◌, ◌++◌, ◌==◌, ltb, if◌then◌else◌,
  ◌≡◌, ◌⊎◌, inl, inr, ap, refl, arith, All,
}
use red_monkey_mpg_firmware.Profile.{
  ControllerProbe, ControllerProfile, ProfileSelection, ProfileSelectionStatus, matched, select,
}
use red_monkey_mpg_firmware.Profile.Choice.{
  rank, Verdict, nothing, one, tie, merge, verdict, verdicts, answer, select-answer, one_if,
}

-- What a selection says of the table: `Below n` are entries that rank below `n`.
abbrev pub Below : ControllerProbe → ℕ → List (Option ControllerProfile) → Type 0
Below probe n = All (λ c. rank probe c < n)

-- How many entries have the rank.
abbrev pub count_rank : ControllerProbe → ℕ → List (Option ControllerProfile) → ℕ
count_rank probe n [] = 0
count_rank probe n (c ∷ cs) = (if rank probe c == n then 1 else 0) + count_rank probe n cs

pub data IsChoice (probe : ControllerProbe) (ps : List (Option ControllerProfile))
    : ProfileSelection → Type 0 where
  none_fits :
      Below probe 1 ps
      → IsChoice probe ps (record { status = ProfileSelectionStatus.unsupported; profile = none })
  one_fits_best :
      (before : List (Option ControllerProfile)) (p : ControllerProfile)
      (after : List (Option ControllerProfile))
      → ps ≡ before ++ (some p ∷ after)
      → 0 < rank probe (some p)
      → Below probe (rank probe (some p)) before
      → Below probe (rank probe (some p)) after
      → IsChoice probe ps (record { status = matched; profile = some p })
  several_fit_best :
      (n : ℕ)
      → 0 < n
      → Below probe (n + 1) ps
      → 1 < count_rank probe n ps
      → IsChoice probe ps (record { status = ProfileSelectionStatus.ambiguous; profile = none })

-- `p` stands in the table, and all other entries rank below `k`.
abbrev Split : ControllerProbe → ℕ → ControllerProfile → List (Option ControllerProfile) → Type 0
Split probe k p [] = ⊥
Split probe k p (c ∷ cs) =
    ((c ≡ some p) × Below probe k cs) ⊎ ((rank probe c < k) × Split probe k p cs)

abbrev Describes : ControllerProbe → List (Option ControllerProfile) → Verdict → Type 0
Describes probe ps nothing = Below probe 1 ps
Describes probe ps (one p k) = (k ≡ rank probe (some p)) × (0 < k) × Split probe k p ps
Describes probe ps (tie k) = (0 < k) × Below probe (k + 1) ps × (1 < count_rank probe k ps)

Below-le :
    (probe : ControllerProbe) (n m : ℕ) (cs : List (Option ControllerProfile))
    → n ≤ m
    → Below probe n cs
    → Below probe m cs
Below-le probe n m [] h b = tt
Below-le probe n m (c ∷ cs) h b = (omega arith, Below-le probe n m cs h b.1)

module _ (probe : ControllerProbe) (k : ℕ) (p : ControllerProfile)
    (e : k ≡ rank probe (some p)) where
  Split-Below : (cs : List (Option ControllerProfile)) → Split probe k p cs → Below probe (k + 1) cs
  Split-Below [] h = absurd h
  Split-Below (c ∷ cs) (inl h) =
      (rw h.0 (omega arith), Below-le probe k (k + 1) cs (omega arith) h.1)
  Split-Below (c ∷ cs) (inr h) = (omega arith, Split-Below cs h.1)

  Split-count_rank :
      (cs : List (Option ControllerProfile)) → Split probe k p cs → 0 < count_rank probe k cs
  Split-count_rank [] h = absurd h
  Split-count_rank (c ∷ cs) (inl h) = rw h.0 (ground arith)
  Split-count_rank (c ∷ cs) (inr h) = ground (arith, Split-count_rank cs h.1)

  Split-list :
      (cs : List (Option ControllerProfile))
      → Split probe k p cs
      → (before : List (Option ControllerProfile)) × (after : List (Option ControllerProfile)) × (cs
          ≡ before ++ (some p ∷ after))
        × Below probe k before
        × Below probe k after
  Split-list [] h = absurd h
  Split-list (c ∷ cs) (inl h) = ([], cs, ap (λ d. d ∷ cs) h.0, tt, h.1)
  Split-list (c ∷ cs) (inr h) =
      let (before, after, found, low, high) = Split-list cs h.1 in
      (c ∷ before, after, ap (◌∷◌ c) found, (h.0, low), high)

lt→ltb : (a b : ℕ) → a < b → ltb a b ≡ true
lt→ltb a b h = ground arith

le→ltb : (a b : ℕ) → b ≤ a → ltb a b ≡ false
le→ltb a b h = ground arith

Describes-zero :
    (probe : ControllerProbe) (c : Option ControllerProfile) (cs : List (Option ControllerProfile))
    (v : Verdict)
    → rank probe c ≡ 0
    → Describes probe cs v
    → Describes probe (c ∷ cs) v
Describes-zero probe c cs nothing z d = (omega arith, d)
Describes-zero probe c cs (one p k) z d = (d.0, d.1, inr (omega arith, d.2))
Describes-zero probe c cs (tie k) z d = (d.0, (omega arith, d.1), omega arith)

Describes-one :
    (probe : ControllerProbe) (p : ControllerProfile) (cs : List (Option ControllerProfile))
    (v : Verdict)
    → 0 < rank probe (some p)
    → Describes probe cs v
    → Describes probe (some p ∷ cs) (merge (one p (rank probe (some p))) v)
unfolding merge
Describes-one probe p cs nothing h d = (refl, h, inl (refl, Below-le probe 1 _ cs h d))
Describes-one probe p cs (one q l) h d =
    let k = rank probe (some p) in
    let three : (k < l) ⊎ (l < k) ⊎ (k ≡ l) = omega arith in
    elim three [
      | inl lt ↦ rw (lt→ltb k l lt) (d.0, d.1, inr (lt, d.2))
      | inr (inl gt) ↦
          rw (le→ltb k l (omega arith), lt→ltb l k gt)
            (
              refl,
              h,
              inl (
                refl,
                Below-le probe (l + 1) k cs (omega arith) (Split-Below probe l q d.0 cs d.2),
              ),
            )
      | inr (inr same) ↦
          let found : 0 < count_rank probe k cs = rw same (Split-count_rank probe l q d.0 cs d.2) in
          let low = Split-Below probe l q d.0 cs d.2 in
          rw (le→ltb k l (omega arith), le→ltb l k (omega arith))
            (h, (omega arith, Below-le probe (l + 1) (k + 1) cs (omega arith) low), ground arith)
    ]
Describes-one probe p cs (tie l) h d =
    let k = rank probe (some p) in
    let two : (l < k) ⊎ (k ≤ l) = omega arith in
    elim two [
      | inl gt ↦
          rw (lt→ltb l k gt) (refl, h, inl (refl, Below-le probe (l + 1) k cs (omega arith) d.1))
      | inr le ↦ rw (le→ltb l k le) (d.0, (omega arith, d.1), omega arith)
    ]

rank-cases :
    (probe : ControllerProbe) (p : ControllerProfile)
    → (rank probe (some p) ≡ 0) ⊎ (0 < rank probe (some p))
rank-cases probe p = omega arith

one_if_pos : (p : ControllerProfile) (k : ℕ) → 0 < k → one_if p k ≡ one p k
unfolding one_if
one_if_pos p k h = ground arith

-- One more entry at the head of the table.
Describes-cons :
    (probe : ControllerProbe) (c : Option ControllerProfile) (cs : List (Option ControllerProfile))
    (v : Verdict)
    → Describes probe cs v
    → Describes probe (c ∷ cs) (merge (verdict probe c) v)
unfolding verdict merge
Describes-cons probe none cs v d = Describes-zero probe none cs v (unfold rank in refl) d
Describes-cons probe (some p) cs v d = elim (rank-cases probe p) [
  | inl z ↦ rw (z, one_if) (Describes-zero probe (some p) cs v z d)
  | inr h ↦ rw (one_if_pos p _ h) (Describes-one probe p cs v h d)
]

verdicts-Describes :
    (probe : ControllerProbe) (ps : List (Option ControllerProfile))
    → Describes probe ps (verdicts probe ps)
unfolding verdicts
verdicts-Describes probe [] = tt
verdicts-Describes probe (c ∷ cs) =
    Describes-cons probe c cs (verdicts probe cs) (verdicts-Describes probe cs)

answer-IsChoice :
    (probe : ControllerProbe) (ps : List (Option ControllerProfile)) (v : Verdict)
    → Describes probe ps v
    → IsChoice probe ps (answer v)
unfolding answer
answer-IsChoice probe ps nothing d = none_fits d
answer-IsChoice probe ps (one p k) d =
    let (before, after, found, low, high) = Split-list probe k p d.0 ps d.2 in
    one_fits_best before p after found (rw (← d.0) d.1) (rw (← d.0) low) (rw (← d.0) high)
answer-IsChoice probe ps (tie k) d = several_fit_best k d.0 d.1 d.2

-- The profile that is selected outranks every other entry of the table; the selection is ambiguous
-- when two entries share the highest rank, and unsupported when no entry fits.
pub select-IsChoice :
    (ps : List (Option ControllerProfile)) (probe : ControllerProbe)
    → IsChoice probe ps (select ps probe)
select-IsChoice ps probe =
    rw (select-answer ps probe) (answer-IsChoice probe ps _ (verdicts-Describes probe ps))
