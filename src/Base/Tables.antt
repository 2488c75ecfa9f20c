-- ===== src/Base/Tables.antt =====
-- Checks of every value below a bound by evaluation.
use Prim.Native.Nat.{ℕ, zero, suc, ◌<◌}
use mathlib.Core.Path.{◌≡◌}
use mathlib.Core.Bool.{Bool, true, ◌&&◌}
use native.Mathlib.Omega.{arith}

module _ (test : ℕ → Bool) where
  -- `test` holds of every number below the bound.
  unfoldable pub table : ℕ → Bool
  table zero = true
  table (suc bound) = table bound && test bound

  pub table-lookup : (bound i : ℕ) → i < bound → table bound ≡ true → test i ≡ true
  unfolding table
  table-lookup zero i inside all = elim inside [ ]
  table-lookup (suc bound) i inside all = ground (arith, table-lookup bound i)
