-- ===== src/Breaker.antt =====
-- The per-dependency circuit breaker of llm/circuit_breaker.py (ProviderCircuitBreaker and its
-- registry). intent/circuit_breaker.py, decision/circuit_breaker.py, report/circuit_breaker.py and
-- the _StageCircuitBreaker of hub/clients/base.py are the same class under other names.
--
-- A call of `time.monotonic()` is an argument `now`, in any unit that `recovery_seconds` shares.
-- The lock makes each method one step. Metrics are left out.
pub mod Invariant
pub mod Cooldown
pub mod Registry
use haojie.Common.{
  ℕ, ◌+◌, ◌-◌, ◌≡◌, Bool, true, false, Option, none, some, List, [], ◌∷◌, leb, ◌==◌, if◌then◌else◌,
}

pub data CircuitState : Type 0 where
  closed half_open opened : CircuitState

pub record Breaker : Type 0 where
  pub failure_threshold : ℕ
  pub recovery_seconds : ℕ
  pub state : CircuitState
  pub failures : ℕ
  pub opened_at : Option ℕ

-- What a method raises: `ValueError` in the constructor, `AssertionError` in `allow`,
-- `CircuitOpenError` in `ensure_allowed`.
pub data Raised : Type 0 where
  value_error assertion_error circuit_open_error : Raised

pub data Result (A : Type 0) : Type 0 where
  ok : A → Result A
  raise : Raised → Result A

-- The constructor: both numbers must be positive.
unfoldable pub init : ℕ → ℕ → Result Breaker
init failure_threshold recovery_seconds =
    if failure_threshold == 0
    then raise value_error
    else if recovery_seconds == 0
    then raise value_error
    else ok (record {
      failure_threshold = failure_threshold;
      recovery_seconds = recovery_seconds;
      state = closed;
      failures = 0;
      opened_at = none;
    })

transition : CircuitState → Breaker → Breaker
transition new_state b = record b { state = new_state }

-- The clock never runs backwards and `recovery_seconds` is positive, so that the truncated
-- difference passes the test exactly when the difference does.
allow_opened : ℕ → Option ℕ → Breaker → Result (Breaker × Bool)
unfolding transition
allow_opened now none b = raise assertion_error
allow_opened now (some at) b =
    if leb b.recovery_seconds (now - at) then ok (transition half_open b, true) else ok (b, false)

allow_in : CircuitState → ℕ → Breaker → Result (Breaker × Bool)
unfolding allow_opened
allow_in closed now b = ok (b, true)
allow_in opened now b = allow_opened now b.opened_at b
allow_in half_open now b = ok (b, true)

unfoldable pub allow : ℕ → Breaker → Result (Breaker × Bool)
unfolding allow_in
allow now b = allow_in b.state now b

-- `ensure_allowed`: the breaker keeps what `allow` wrote, also when the call raises.
unfoldable pub ensure_allowed : ℕ → Breaker → Breaker × Result (Unit {0})
unfolding allow
ensure_allowed now b = elim (allow now b) [
  | ok (b', true) ↦ (b', ok tt)
  | ok (b', false) ↦ (b', raise circuit_open_error)
  | raise e ↦ (b, raise e)
]

is_closed : CircuitState → Bool
is_closed closed = true
is_closed half_open = false
is_closed opened = false

unfoldable pub record_success : Breaker → Breaker
unfolding transition is_closed
record_success b =
    let b' : Breaker = record b { failures = 0 } in
    if is_closed b.state then b' else transition closed b'

trip : ℕ → Breaker → Breaker
unfolding transition
trip now b = record (transition opened b) { opened_at = some now }

record_failure_in : CircuitState → ℕ → Breaker → Breaker
unfolding trip
record_failure_in half_open now b = trip now b
record_failure_in _ now b = if leb b.failure_threshold b.failures then trip now b else b

unfoldable pub record_failure : ℕ → Breaker → Breaker
unfolding record_failure_in
record_failure now b = record_failure_in b.state now (record b { failures = b.failures + 1 })

unfoldable pub reset : Breaker → Breaker
unfolding transition
reset b = transition closed (record b { failures = 0; opened_at = none })

-- What the callers do with a breaker, each at its time.
pub data Event : Type 0 where
  ask : ℕ → Event
  succeed : Event
  fail : ℕ → Event
  clear : Event

-- One event: the breaker after it, and the answer if it was a question.
unfoldable pub step : Event → Breaker → Result (Breaker × Option Bool)
unfolding allow record_success record_failure reset
step (ask now) b = elim (allow now b) [ ok (b', answer) ↦ ok (b', some answer) | raise e ↦ raise e ]
step succeed b = ok (record_success b, none)
step (fail now) b = ok (record_failure now b, none)
step clear b = ok (reset b, none)

-- A history of events, with the answers given.
unfoldable pub run : List Event → Breaker → Result (Breaker × List Bool)
unfolding step
run [] b = ok (b, [])
run (e ∷ es) b = elim (step e b) [
  | raise r ↦ raise r
  | ok (b', none) ↦ run es b'
  | ok (b', some answer) ↦ elim (run es b') [
    | raise r ↦ raise r
    | ok (b'', answers) ↦ ok (b'', answer ∷ answers)
  ]
]
