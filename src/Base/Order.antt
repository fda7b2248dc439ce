-- ===== src/Base/Order.antt =====
-- Strong induction on the native numbers.
use Prim.Native.Nat.{ℕ, zero, suc, ◌<◌}
use mathlib.Core.WellFounded.{Acc, WellFounded}
use native.Mathlib.Omega.{arith}

Acc-of_lt : (k n : ℕ) → n < k → Acc ◌<◌ n
Acc-of_lt zero n h = absurd (omega arith)
Acc-of_lt (suc k) n h = Acc.intro n (λ m below. Acc-of_lt k m (omega arith))

pub lt_wf : WellFounded ◌<◌
lt_wf = record { apply = λ n. Acc-of_lt (suc n) n (omega arith) }
