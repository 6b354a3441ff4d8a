-- ===== src/Breaker/Cooldown.antt =====
-- When a breaker trips, how long it stays open, and how it closes again (llm/circuit_breaker.py).
use haojie.Common.{
  ℕ, ◌+◌, ◌≤◌, ◌<◌, ◌≡◌, refl, ◌≢◌, Bool, true, false, some, List, [], ◌∷◌, arith, map, length, All,
  leb, if◌then◌else◌, ◌++◌,
}
use haojie.Breaker.{
  closed, half_open, opened, Breaker, ok, allow, record_success, record_failure, Event, ask, fail,
  step, run,
}
use haojie.Breaker.Invariant.{IsValid, after, final, after-IsValid}

-- Failures in a row, at the given times.
abbrev pub failures_at : List ℕ → List Event
failures_at = map fail

-- A valid breaker that is not half open and is told of failures only counts every one of them; it
-- is open after them when those it had counted and these together reach `failure_threshold`, and
-- closed otherwise.
pub trips_lem :
    (times : List ℕ) (b : Breaker)
    → IsValid b
    → b.state ≢ half_open
    → ((final (failures_at times) b).failures ≡ b.failures + length times)
      × ((final (failures_at times) b).state
          ≡ (if leb b.failure_threshold (b.failures + length times) then opened else closed))
unfolding final after record_failure
trips_lem [] b v n = ground arith
trips_lem (t ∷ ts) b v n =
    ground (arith, trips_lem ts (after (fail t) b) (after-IsValid (fail t) b v))

-- Questions, at the given times.
abbrev pub asks_at : List ℕ → List Event
asks_at = map ask

abbrev pub refusals : List ℕ → List Bool
refusals = map (λ _. false)

abbrev pub consents : List ℕ → List Bool
consents = map (λ _. true)

-- A valid breaker that is open since `at` refuses every call asked for before `at` plus the
-- recovery time, unchanged; the first one asked for from then on is let through and the breaker is
-- half open.
pub cooldown :
    (times : List ℕ) (late at : ℕ) (b : Breaker)
    → IsValid b
    → b.state ≡ opened
    → b.opened_at ≡ some at
    → All (λ now. now < at + b.recovery_seconds) times
    → at + b.recovery_seconds ≤ late
    → run (asks_at times ++ ask late ∷ []) b
      ≡ ok (record b { state = half_open }, refusals times ++ true ∷ [])
unfolding run step allow
cooldown [] late at b v o since early h = ground arith
cooldown (t ∷ ts) late at b v o since early h =
    ground (arith, cooldown ts late at b v o since early.1 h)

-- A half-open breaker lets through every call that is asked for, however many, and stays as it is:
-- the number of probes is not bounded.
pub half_open_unbounded :
    (times : List ℕ) (b : Breaker)
    → b.state ≡ half_open
    → run (asks_at times) b ≡ ok (b, consents times)
unfolding run step allow
half_open_unbounded [] b h = refl
half_open_unbounded (t ∷ ts) b h = ground (arith, half_open_unbounded ts b h)

-- The first outcome of a probe decides, whatever the half-open breaker had counted: a success
-- closes it with no failure counted, and a failure opens it from its own time.
pub probe_decides :
    (now : ℕ) (b : Breaker)
    → b.state ≡ half_open
    → ((record_success b).state ≡ closed)
      × ((record_success b).failures ≡ 0)
      × ((record_failure now b).state ≡ opened)
      × ((record_failure now b).opened_at ≡ some now)
unfolding record_success record_failure
probe_decides now b h = ground arith
