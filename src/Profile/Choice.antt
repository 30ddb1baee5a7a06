-- ===== src/Profile/Choice.antt =====
-- Which profile `ControllerProfileRegistry::select` returns, whatever the order of the table.
pub mod Describe
use mathlib.Core.List.{Permᴰ}
use red_monkey_mpg_firmware.Base.{
  ℕ, ◌<◌, ◌≤◌, Bool, true, false, not, ◌&&◌, ◌||◌, Option, none, some, List, [], ◌∷◌, ◌++◌, ◌==◌,
  ltb, if◌then◌else◌, is_some, ◌≡◌, sym, ap, ap₂, ◌+◌, ◌∙◌, refl, arith, All,
}
use red_monkey_mpg_firmware.Profile.{
  ControllerProbe, ControllerProfile, ProfileMatch, strength, same_transport,
  profile_supports_safe_motion, call_match, Search, consider, run_search, conclude,
  ProfileSelection, ProfileSelectionStatus, matched, select,
}

-- How well a table entry fits: 0 for a null entry, an unsafe or refusing profile, or one of
-- another transport, else the strength of its match.
pub rank : ControllerProbe → Option ControllerProfile → ℕ
rank probe none = 0
rank probe (some p) =
    if profile_supports_safe_motion p && same_transport p.transport probe.transport
    then strength (call_match p.probe_match probe)
    else 0

-- What is known of a set of entries: none fits, one fits best, or several fit equally well.
data Verdict : Type 0 where
  nothing : Verdict
  one : ControllerProfile → ℕ → Verdict
  tie : ℕ → Verdict

merge : Verdict → Verdict → Verdict
merge nothing v = v
merge (one p k) nothing = one p k
merge (one p k) (one q l) = if ltb k l then one q l else if ltb l k then one p k else tie k
merge (one p k) (tie l) = if ltb l k then one p k else tie l
merge (tie k) nothing = tie k
merge (tie k) (one q l) = if ltb k l then one q l else tie k
merge (tie k) (tie l) = if ltb k l then tie l else tie k

merge-nothing : (v : Verdict) → merge v nothing ≡ v
unfolding merge
merge-nothing nothing = refl
merge-nothing (one p k) = refl
merge-nothing (tie k) = refl

merge_comm : (u v : Verdict) → merge u v ≡ merge v u
unfolding merge
merge_comm nothing v = ground arith
merge_comm (one p k) v = ground arith
merge_comm (tie k) v = ground arith

merge_assoc : (u v w : Verdict) → merge (merge u v) w ≡ merge u (merge v w)
unfolding merge
merge_assoc nothing v w = refl
merge_assoc (one p k) v w = ground arith
merge_assoc (tie k) v w = ground arith

one_if : ControllerProfile → ℕ → Verdict
one_if p k = if k == 0 then nothing else one p k

verdict : ControllerProbe → Option ControllerProfile → Verdict
unfolding one_if
verdict probe none = nothing
verdict probe (some p) = one_if p (rank probe (some p))

verdicts : ControllerProbe → List (Option ControllerProfile) → Verdict
verdicts probe [] = nothing
verdicts probe (c ∷ cs) = merge (verdict probe c) (verdicts probe cs)

best_verdict : Option ControllerProfile → ProfileMatch → Bool → Verdict
best_verdict none m ambiguous = nothing
best_verdict (some p) m true = tie (strength m)
best_verdict (some p) m false = one p (strength m)

view : Search → Verdict
unfolding best_verdict
view s = best_verdict s.best s.best_match s.ambiguous

answer : Verdict → ProfileSelection
answer nothing = record { status = ProfileSelectionStatus.unsupported; profile = none }
answer (one p k) = record { status = matched; profile = some p }
answer (tie k) = record { status = ProfileSelectionStatus.ambiguous; profile = none }

view-consider :
    (probe : ControllerProbe) (s : Search) (c : Option ControllerProfile)
    → view (consider probe s c) ≡ merge (view s) (verdict probe c)
unfolding view consider merge verdict rank
view-consider probe s none = ground arith
view-consider probe s (some p) = ground arith

view-run_search :
    (probe : ControllerProbe) (s : Search) (cs : List (Option ControllerProfile))
    → view (run_search probe s cs) ≡ merge (view s) (verdicts probe cs)
unfolding run_search verdicts
view-run_search probe s [] = sym (merge-nothing (view s))
view-run_search probe s (c ∷ cs) =
    view-run_search probe (consider probe s c) cs
    ∙ ap (λ v. merge v (verdicts probe cs)) (view-consider probe s c)
    ∙ merge_assoc (view s) (verdict probe c) (verdicts probe cs)

conclude-answer : (s : Search) → conclude s ≡ answer (view s)
unfolding conclude answer view
conclude-answer s = ground arith

select-answer :
    (ps : List (Option ControllerProfile)) (probe : ControllerProbe)
    → select ps probe ≡ answer (verdicts probe ps)
unfolding select view merge
select-answer ps probe =
    conclude-answer (run_search probe _ ps) ∙ ap answer (view-run_search probe _ ps)

verdicts-perm :
    (probe : ControllerProbe) {ps qs : List (Option ControllerProfile)}
    → Permᴰ ps qs
    → verdicts probe ps ≡ verdicts probe qs
unfolding verdicts
verdicts-perm probe Permᴰ.nil = refl
verdicts-perm probe (Permᴰ.cons e h) = ap₂ merge (ap (verdict probe) e) (verdicts-perm probe h)
verdicts-perm probe (Permᴰ.swap {a} {b} {a' = c} {b' = d} {l} e f) =
    sym (merge_assoc (verdict probe a) (verdict probe b) (verdicts probe l))
    ∙ ap (λ v. merge v (verdicts probe l))
        (merge_comm (verdict probe a) (verdict probe b)
          ∙ ap₂ merge (ap (verdict probe) f) (ap (verdict probe) e))
    ∙ merge_assoc (verdict probe c) (verdict probe d) (verdicts probe l)
verdicts-perm probe (Permᴰ.trans h k) = verdicts-perm probe h ∙ verdicts-perm probe k

-- A permutation of the registry selects the same profile with the same status.
pub select-perm :
    {ps qs : List (Option ControllerProfile)} (probe : ControllerProbe)
    → Permᴰ ps qs
    → select ps probe ≡ select qs probe
select-perm {ps} {qs} probe h =
    select-answer ps probe ∙ ap answer (verdicts-perm probe h) ∙ sym (select-answer qs probe)
