-- ===== src/Prelude/WellFounded.antt =====
-- The order of the native numbers is well founded, for loops that recur on `Acc`.
use Prim.Native.Nat.{ℕ, zero, suc, ◌<◌}
use mathlib.Core.WellFounded.{Acc, WellFounded}
use native.Mathlib.Omega.{arith}

Acc-below : (k n : ℕ) → n < k → Acc ◌<◌ n
Acc-below zero n h = absurd (omega arith)
Acc-below (suc k) n h = Acc.intro n (λ m below. Acc-below k m (omega arith))

unfoldable pub lt_wf : WellFounded ◌<◌
unfolding Acc-below
lt_wf = record { apply = λ n. Acc-below (suc n) n (omega arith) }
