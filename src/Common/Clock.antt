-- ===== src/Common/Clock.antt =====
-- Spans of time and what is refilled over them.
use Prim.Native.Nat.{ℕ, ◌+◌, ◌-◌, ◌*◌, ◌≤◌}
use mathlib.Core.Path.{◌≡◌}
use native.Mathlib.Omega.{arith}

-- A refill over two spans of time is that over both.
pub span : (a b c k : ℕ) → a ≤ b → b ≤ c → (c - a) * k ≡ (b - a) * k + (c - b) * k
span a b c k h h' = let e : c - a ≡ (b - a) + (c - b) = omega arith in rw e (omega arith)
