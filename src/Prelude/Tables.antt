-- ===== src/Prelude/Tables.antt =====
-- Facts about every number below a bound, checked by evaluation.
use Prim.Native.Nat.{ℕ, zero, suc, ◌<◌}
use mathlib.Core.Path.{◌≡◌}
use mathlib.Core.Bool.{Bool, true, ◌&&◌}
use native.Mathlib.Omega.{arith}

-- `test` holds of the `bound` smallest numbers.
unfoldable pub all_below : (bound : ℕ) → (test : ℕ → Bool) → Bool
all_below zero test = true
all_below (suc top) test = all_below top test && test top

pub all_below_sound :
    (bound : ℕ) (test : ℕ → Bool) (i : ℕ) → all_below bound test ≡ true → i < bound → test i ≡ true
unfolding all_below
all_below_sound zero test i passed small = absurd (omega arith)
all_below_sound (suc top) test i passed small = ground (arith, all_below_sound top test i)
