-- ===== src/Base/Order.antt =====
-- Every number is accessible by `<`, for loops that recur on a number that falls.
use Prim.Native.Nat.{ℕ, zero, suc, ◌<◌}
use mathlib.Core.WellFounded.{Acc}
use native.Mathlib.Omega.{arith}

within : (bound n : ℕ) → n < bound → Acc ◌<◌ n
within zero n h = absurd (omega arith)
within (suc bound) n h = Acc.intro n (λ m lt. within bound m (omega arith))

unfoldable pub below : (n : ℕ) → Acc ◌<◌ n
unfolding within
below n = within (suc n) n (omega arith)
