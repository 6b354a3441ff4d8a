-- ===== src/GatewayBreaker.antt =====
-- The gateway's circuit breaker with exponential backoff (gateway/circuit_breaker/breaker.py).
--
-- A call of `time.monotonic()` is an argument `now`. The lock makes each method one step. Metrics
-- and log lines are left out.
pub mod Safety
pub mod Backoff
pub mod Probes
use haojie.Common.{
  ℕ, ◌+◌, ◌-◌, ◌*◌, ◌≡◌, Bool, true, false, ◌&&◌, Option, none, some, List, [], ◌∷◌, leb, ltb, ◌==◌,
  if◌then◌else◌, min,
}

pub data CircuitState : Type 0 where
  closed opened half_open : CircuitState

abbrev pub same_state : CircuitState → CircuitState → Bool
same_state closed closed = true
same_state opened opened = true
same_state half_open half_open = true
same_state _ _ = false

pub record Breaker : Type 0 where
  pub failure_threshold : ℕ
  pub base_recovery : ℕ
  pub recovery : ℕ
  pub max_recovery : ℕ
  pub half_open_max : ℕ
  pub state : CircuitState
  pub failure_count : ℕ
  pub opened_at : Option ℕ
  pub half_open_calls : ℕ

unfoldable pub init : ℕ → ℕ → ℕ → ℕ → Breaker
init failure_threshold recovery_seconds half_open_max_calls max_recovery_seconds = record {
  failure_threshold = failure_threshold;
  base_recovery = recovery_seconds;
  recovery = recovery_seconds;
  max_recovery = max_recovery_seconds;
  half_open_max = half_open_max_calls;
  state = closed;
  failure_count = 0;
  opened_at = none;
  half_open_calls = 0;
}

-- The early return leaves the probe counter and `opened_at` alone.
transition : CircuitState → Breaker → Breaker
transition new_state b = if same_state new_state b.state then b else record b {
  state = new_state;
  half_open_calls = 0;
  opened_at = if same_state new_state opened then b.opened_at else none;
}

trip : ℕ → Breaker → Breaker
unfolding transition
trip now b = record (transition opened b) {
  opened_at = some now;
  recovery = min b.max_recovery (b.recovery * 2);
}

-- The failed assertion of `allow` is `none`. A recovery time of 0 passes the test whatever the
-- clock says, here as there, and a positive one passes it only if the clock has gone forward.
allow_opened : ℕ → Option ℕ → Breaker → Option (Breaker × Bool)
unfolding transition
allow_opened now none b = none
allow_opened now (some at) b =
    if leb b.recovery (now - at)
    then some (record (transition half_open b) { half_open_calls = 1 }, true)
    else some (b, false)

allow_in : CircuitState → ℕ → Breaker → Option (Breaker × Bool)
unfolding allow_opened
allow_in closed now b = some (b, true)
allow_in opened now b = allow_opened now b.opened_at b
allow_in half_open now b =
    if ltb b.half_open_calls b.half_open_max
    then some (record b { half_open_calls = b.half_open_calls + 1 }, true)
    else some (b, false)

unfoldable pub allow : ℕ → Breaker → Option (Breaker × Bool)
unfolding allow_in
allow now b = allow_in b.state now b

record_success_in : CircuitState → Breaker → Breaker
unfolding transition
record_success_in half_open b =
    if leb b.half_open_max b.half_open_calls
    then record (transition closed b) { recovery = b.base_recovery; failure_count = 0 }
    else b
record_success_in closed b = record b { failure_count = 0 }
record_success_in opened b = b

unfoldable pub record_success : Breaker → Breaker
unfolding record_success_in
record_success b = record_success_in b.state b

record_failure_in : CircuitState → ℕ → Breaker → Breaker
unfolding trip
record_failure_in half_open now b = trip now b
record_failure_in closed now b = if leb b.failure_threshold b.failure_count then trip now b else b
record_failure_in opened now b = b

unfoldable pub record_failure : ℕ → Breaker → Breaker
unfolding record_failure_in
record_failure now b =
    record_failure_in b.state now (record b { failure_count = b.failure_count + 1 })

unfoldable pub reset : Breaker → Breaker
unfolding transition
reset b = record (transition closed b) { failure_count = 0; recovery = b.base_recovery }

-- What the forwarder and the admin routes do with a breaker, each at its time.
pub data Event : Type 0 where
  ask : ℕ → Event
  succeed : Event
  fail : ℕ → Event
  clear : Event

unfoldable pub step : Event → Breaker → Option (Breaker × Option Bool)
unfolding allow record_success record_failure reset
step (ask now) b = elim (allow now b) [ some (b', answer) ↦ some (b', some answer) | none ↦ none ]
step succeed b = some (record_success b, none)
step (fail now) b = some (record_failure now b, none)
step clear b = some (reset b, none)

unfoldable pub run : List Event → Breaker → Option (Breaker × List Bool)
unfolding step
run [] b = some (b, [])
run (e ∷ es) b = elim (step e b) [
  | none ↦ none
  | some (b', none) ↦ run es b'
  | some (b', some answer) ↦ elim (run es b') [
    | none ↦ none
    | some (b'', answers) ↦ some (b'', answer ∷ answers)
  ]
]
