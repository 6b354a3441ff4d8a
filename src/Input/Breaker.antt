-- ===== src/Input/Breaker.antt =====
-- The breaker of the input manager (managers/input_manager.py, CircuitBreaker), one for each type of
-- input. A call of `time.monotonic()` is an argument `now`; the lock makes each method one step.
pub mod Reopening
use haojie.Common.{
  ℕ, ◌+◌, ◌-◌, Bool, true, false, ◌&&◌, not, Option, none, some, leb, if◌then◌else◌, is_some,
}

pub record CircuitBreaker : Type 0 where
  pub threshold : ℕ
  pub recovery : ℕ
  pub failures : ℕ
  pub opened_at : Option ℕ

unfoldable pub init : ℕ → ℕ → CircuitBreaker
init failure_threshold recovery_seconds = record {
  threshold = failure_threshold;
  recovery = recovery_seconds;
  failures = 0;
  opened_at = none;
}

-- The clock does not run backwards, so that the difference is not truncated.
unfoldable pub allow : ℕ → CircuitBreaker → Bool
allow now b = elim b.opened_at [ none ↦ true | some at ↦ leb b.recovery (now - at) ]

unfoldable pub record_success : CircuitBreaker → CircuitBreaker
record_success b = record b { failures = 0; opened_at = none }

unfoldable pub record_failure : ℕ → CircuitBreaker → CircuitBreaker
record_failure now b =
    if leb b.threshold (b.failures + 1) && not (is_some b.opened_at)
    then record b { failures = b.failures + 1; opened_at = some now }
    else record b { failures = b.failures + 1 }
