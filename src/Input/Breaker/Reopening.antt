-- ===== src/Input/Breaker/Reopening.antt =====
-- When the breaker of managers/input_manager.py opens, and that it does not open a second time.
use haojie.Common.{
  ℕ, ◌-◌, ◌<◌, ◌≡◌, refl, true, Option, none, some, List, [], ◌∷◌, arith, leb, if◌then◌else◌,
}
use haojie.Input.Breaker.{CircuitBreaker, init, allow, record_failure}

-- Failures at these times, with no success between.
unfoldable pub fail_at : List ℕ → CircuitBreaker → CircuitBreaker
fail_at [] b = b
fail_at (t ∷ ts) b = fail_at ts (record_failure t b)

-- The time of the failure that is the `n`-th from here, counted from 1.
unfoldable pub time_of_nth : ℕ → List ℕ → Option ℕ
time_of_nth n [] = none
time_of_nth n (t ∷ ts) = let rest = time_of_nth (n - 1) ts in if leb n 1 then some t else rest

fail_at-keeps :
    (ts : List ℕ) (b : CircuitBreaker) (at : ℕ)
    → b.opened_at ≡ some at
    → ((fail_at ts b).opened_at ≡ some at) × ((fail_at ts b).recovery ≡ b.recovery)
unfolding fail_at record_failure
fail_at-keeps [] b at h = (h, refl)
fail_at-keeps (t ∷ ts) b at h = ground (arith, fail_at-keeps ts (record_failure t b) at)

fail_at-opens :
    (ts : List ℕ) (b : CircuitBreaker)
    → b.opened_at ≡ none
    → b.failures < b.threshold
    → (fail_at ts b).opened_at ≡ time_of_nth (b.threshold - b.failures) ts
unfolding fail_at record_failure time_of_nth
fail_at-opens [] b h lt = h
fail_at-opens (t ∷ ts) b h lt =
    ground (arith, fail_at-opens ts (record_failure t b), fail_at-keeps ts (record_failure t b) t)

fail_at-recovery : (ts : List ℕ) (b : CircuitBreaker) → (fail_at ts b).recovery ≡ b.recovery
unfolding fail_at record_failure
fail_at-recovery [] b = refl
fail_at-recovery (t ∷ ts) b = ground (arith, fail_at-recovery ts (record_failure t b))

-- From a new breaker with a positive threshold, failures open it at the time of the one that
-- reaches the threshold; until the recovery time is over it refuses every call, and from then on
-- it lets every call through, whatever has failed since.
pub allow-failures :
    (threshold recovery now : ℕ) (ts : List ℕ)
    → 0 < threshold
    → allow now (fail_at ts (init threshold recovery))
      ≡ elim (time_of_nth threshold ts) [ none ↦ true | some at ↦ leb recovery (now - at) ]
unfolding allow init
allow-failures threshold recovery now ts pos =
    let b = init threshold recovery in ground (arith, fail_at-opens ts b, fail_at-recovery ts b)
