-- ===== src/Base/Table.antt =====
-- Facts about bytes by their tables: a test that holds at every number below a bound.
use Prim.Native.Nat.{ℕ, zero, suc, ◌<◌}
use mathlib.Core.Path.{◌≡◌}
use mathlib.Core.Bool.{Bool, true, false, not, ◌&&◌}
use native.Mathlib.Omega.{arith}

abbrev pub same : Bool → Bool → Bool
same true b = b
same false b = not b

pub same_sound : (a b : Bool) → same a b ≡ true → a ≡ b
same_sound a b h = ground arith

unfoldable pub holds_below : ℕ → (ℕ → Bool) → Bool
holds_below zero test = true
holds_below (suc n) test = holds_below n test && test n

pub holds_below_at : (test : ℕ → Bool) (n v : ℕ) → holds_below n test ≡ true → v < n → test v ≡ true
unfolding holds_below
holds_below_at test zero v h lt = absurd (omega arith)
holds_below_at test (suc n) v h lt = ground (arith, holds_below_at test n v)
