-- ===== src/GatewayBreaker/Safety.antt =====
-- What holds of a gateway breaker between two calls, and that its assertion never fails
-- (gateway/circuit_breaker/breaker.py).
use haojie.Common.{
  ℕ, ◌+◌, ◌-◌, ◌≤◌, ◌<◌, ◌≡◌, refl, ◌≢◌, Bool, true, Option, none, some, List, [], ◌∷◌, arith, leb,
  ltb, if◌then◌else◌, get_or, is_some, max,
}
use haojie.GatewayBreaker.{
  closed, opened, half_open, Breaker, init, allow, record_success, record_failure, reset, Event,
  ask, succeed, fail, clear, step, run,
}

-- An open breaker, and no other, knows since when it is open; a half-open one has let at least one
-- probe through and no more than its limit (or one), the others count none; a closed one counts
-- fewer failures than its threshold.
pub record IsValid (b : Breaker) : Type 0 where
  pub opened_dated : b.state ≡ opened → is_some b.opened_at ≡ true
  pub others_undated : b.state ≢ opened → b.opened_at ≡ none
  pub probed : b.state ≡ half_open → 0 < b.half_open_calls
  pub unprobed : b.state ≢ half_open → b.half_open_calls ≡ 0
  pub probes_bounded : b.half_open_calls ≤ max b.half_open_max 1
  pub closed_below :
      b.state ≡ closed → 0 < b.failure_threshold → b.failure_count < b.failure_threshold

-- The parameters of the constructor are never written.
abbrev pub SameConfig : Breaker → Breaker → Type 0
SameConfig b c =
    (c.failure_threshold ≡ b.failure_threshold)
    × (c.base_recovery ≡ b.base_recovery)
    × (c.max_recovery ≡ b.max_recovery)
    × (c.half_open_max ≡ b.half_open_max)

pub init-IsValid : (t r h m : ℕ) → IsValid (init t r h m)
unfolding init
init-IsValid t r h m = ground arith

-- What `allow` does to a valid breaker, the assertion gone.
unfoldable pub answers : ℕ → Breaker → Bool
answers now b = elim b.state [
  | closed ↦ true
  | opened ↦ leb b.recovery (now - get_or b.opened_at 0)
  | half_open ↦ ltb b.half_open_calls b.half_open_max
]

unfoldable pub asked : ℕ → Breaker → Breaker
unfolding answers
asked now b = elim b.state [
  | closed ↦ b
  | opened ↦
      if answers now b
      then record b { state = half_open; half_open_calls = 1; opened_at = none }
      else b
  | half_open ↦ if answers now b then record b { half_open_calls = b.half_open_calls + 1 } else b
]

-- On a valid breaker the assertion of `allow` holds, and this is its effect and its answer.
pub allow-asked :
    (now : ℕ) (b : Breaker) → IsValid b → allow now b ≡ some (asked now b, answers now b)
unfolding allow asked
allow-asked now b v = ground arith

unfoldable pub after : Event → Breaker → Breaker
after (ask now) b = asked now b
after succeed b = record_success b
after (fail now) b = record_failure now b
after clear b = reset b

unfoldable pub said : Event → Breaker → Option Bool
said (ask now) b = some (answers now b)
said _ b = none

step-after : (e : Event) (b : Breaker) → IsValid b → step e b ≡ some (after e b, said e b)
unfolding step after said
step-after (ask now) b v = rw (allow-asked now b v, step)
step-after succeed b v = refl
step-after (fail now) b v = refl
step-after clear b v = refl

asked-IsValid : (now : ℕ) (b : Breaker) → IsValid b → IsValid (asked now b)
unfolding asked
asked-IsValid now b v = ground arith

record_success-IsValid : (b : Breaker) → IsValid b → IsValid (record_success b)
unfolding record_success
record_success-IsValid b v = ground arith

record_failure-IsValid : (now : ℕ) (b : Breaker) → IsValid b → IsValid (record_failure now b)
unfolding record_failure
record_failure-IsValid now b v = ground arith

reset-IsValid : (b : Breaker) → IsValid b → IsValid (reset b)
unfolding reset
reset-IsValid b v = ground arith

pub after-IsValid : (e : Event) (b : Breaker) → IsValid b → IsValid (after e b)
unfolding after
after-IsValid (ask now) b v = asked-IsValid now b v
after-IsValid succeed b v = record_success-IsValid b v
after-IsValid (fail now) b v = record_failure-IsValid now b v
after-IsValid clear b v = reset-IsValid b v

pub after-SameConfig : (e : Event) (b : Breaker) → SameConfig b (after e b)
unfolding after asked record_success record_failure reset
after-SameConfig (ask now) b = ground arith
after-SameConfig succeed b = ground arith
after-SameConfig (fail now) b = ground arith
after-SameConfig clear b = ground arith

push : Option Bool → List Bool → List Bool
push none l = l
push (some a) l = a ∷ l

-- The breaker after a history, and the answers given.
unfoldable pub final : List Event → Breaker → Breaker
final [] b = b
final (e ∷ es) b = final es (after e b)

unfoldable pub replies : List Event → Breaker → List Bool
unfolding push
replies [] b = []
replies (e ∷ es) b = push (said e b) (replies es (after e b))

pub run-final :
    (es : List Event) (b : Breaker) → IsValid b → run es b ≡ some (final es b, replies es b)
unfolding run final replies
run-final [] b v = refl
run-final (e ∷ es) b v =
    ground (arith, step-after e b v, run-final es (after e b) (after-IsValid e b v))

pub final-IsValid : (es : List Event) (b : Breaker) → IsValid b → IsValid (final es b)
unfolding final
final-IsValid [] b v = v
final-IsValid (e ∷ es) b v = final-IsValid es (after e b) (after-IsValid e b v)

-- Whatever the parameters and the history of questions, successes, failures and resets, a run from
-- the constructed breaker never fails its assertion, and the breaker reached is valid.
pub gateway_run-IsValid :
    (t r h m : ℕ) (es : List Event)
    → (b : Breaker) × (answers : List Bool) × (run es (init t r h m) ≡ some (b, answers))
      × IsValid b
gateway_run-IsValid t r h m es =
    let b = init t r h m in
    let v = init-IsValid t r h m in
    (final es b, replies es b, run-final es b v, final-IsValid es b v)
