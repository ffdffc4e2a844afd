-- ===== src/Prelude/Table.antt =====
-- A statement about every number below a numeral, by evaluation.
use Prim.Native.Nat.{ℕ, zero, suc, ◌<◌}
use mathlib.Core.Path.{◌≡◌}
use mathlib.Core.Bool.{Bool, true, false}
use native.Mathlib.Omega.{arith}
use project_management.Prelude.Tests.{if◌then◌else◌}

module _ (test : ℕ → Bool) where
  unfoldable pub passes_below : ℕ → Bool
  passes_below zero = true
  passes_below (suc k) = let smaller = passes_below k in if test k then smaller else false

  pub passes_below-at : (bound i : ℕ) → i < bound → passes_below bound ≡ true → test i ≡ true
  unfolding passes_below
  passes_below-at zero i below passes = absurd (omega arith)
  passes_below-at (suc k) i below passes = ground (arith, passes_below-at k i)
