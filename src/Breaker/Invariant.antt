-- ===== src/Breaker/Invariant.antt =====
-- What holds of a breaker between two calls (llm/circuit_breaker.py), and when it trips.
use haojie.Common.{
  ℕ, ◌≤◌, ◌<◌, ◌≡◌, refl, ◌≢◌, Bool, true, Option, none, some, List, [], ◌∷◌, arith, is_some, ◌-◌,
  leb, get_or, if◌then◌else◌,
}
use haojie.Breaker.{
  closed, half_open, opened, Breaker, ok, raise, init, allow, record_success, record_failure, reset,
  Event, ask, succeed, fail, clear, step, run, ensure_allowed, circuit_open_error,
}

-- The configuration is positive; a breaker counts below its threshold exactly while it is closed;
-- an open one knows since when.
pub record IsValid (b : Breaker) : Type 0 where
  pub threshold_pos : 0 < b.failure_threshold
  pub recovery_pos : 0 < b.recovery_seconds
  pub closed_below : b.state ≡ closed → b.failures < b.failure_threshold
  pub tripped_above : b.state ≢ closed → b.failure_threshold ≤ b.failures
  pub opened_dated : b.state ≡ opened → is_some b.opened_at ≡ true

-- The parameters are set once.
abbrev pub SameConfig : Breaker → Breaker → Type 0
SameConfig b c =
    (c.failure_threshold ≡ b.failure_threshold) × (c.recovery_seconds ≡ b.recovery_seconds)

-- A breaker as constructed.
abbrev pub fresh : ℕ → ℕ → Breaker
fresh t r = record {
  failure_threshold = t;
  recovery_seconds = r;
  state = closed;
  failures = 0;
  opened_at = none;
}

pub init-fresh : (t r : ℕ) → 0 < t → 0 < r → init t r ≡ ok (fresh t r)
unfolding init
init-fresh t r ht hr = ground arith

pub fresh-IsValid : (t r : ℕ) → 0 < t → 0 < r → IsValid (fresh t r)
fresh-IsValid t r ht hr = ground arith

pub record_success-IsValid : (b : Breaker) → IsValid b → IsValid (record_success b)
unfolding record_success
record_success-IsValid b v = ground arith

pub record_failure-IsValid : (now : ℕ) (b : Breaker) → IsValid b → IsValid (record_failure now b)
unfolding record_failure
record_failure-IsValid now b v = ground arith

reset-IsValid : (b : Breaker) → IsValid b → IsValid (reset b)
unfolding reset
reset-IsValid b v = ground arith

-- What `allow` does to a valid breaker, the assertion gone.
unfoldable pub answers : ℕ → Breaker → Bool
answers now b = elim b.state [
  | opened ↦ leb b.recovery_seconds (now - get_or b.opened_at 0)
  | _ ↦ true
]

unfoldable pub asked : ℕ → Breaker → Breaker
unfolding answers
asked now b = elim b.state [
  | opened ↦ if answers now b then record b { state = half_open } else b
  | _ ↦ b
]

-- On a valid breaker the assertion of `allow` holds; the answer is yes unless the breaker is open
-- and has been for less than the recovery time, and only a yes while open changes the state.
pub allow-asked :
    (now : ℕ) (b : Breaker) → IsValid b → allow now b ≡ ok (asked now b, answers now b)
unfolding allow asked
allow-asked now b v = ground arith

pub asked-IsValid : (now : ℕ) (b : Breaker) → IsValid b → IsValid (asked now b)
unfolding asked
asked-IsValid now b v = ground arith

-- The breaker after an event, and the answer.
unfoldable pub after : Event → Breaker → Breaker
after (ask now) b = asked now b
after succeed b = record_success b
after (fail now) b = record_failure now b
after clear b = reset b

unfoldable pub said : Event → Breaker → Option Bool
said (ask now) b = some (answers now b)
said _ b = none

step-after : (e : Event) (b : Breaker) → IsValid b → step e b ≡ ok (after e b, said e b)
unfolding step after said
step-after (ask now) b v = rw (allow-asked now b v, step)
step-after succeed b v = refl
step-after (fail now) b v = refl
step-after clear b v = refl

pub after-IsValid : (e : Event) (b : Breaker) → IsValid b → IsValid (after e b)
unfolding after
after-IsValid (ask now) b v = asked-IsValid now b v
after-IsValid succeed b v = record_success-IsValid b v
after-IsValid (fail now) b v = record_failure-IsValid now b v
after-IsValid clear b v = reset-IsValid b v

after-SameConfig : (e : Event) (b : Breaker) → SameConfig b (after e b)
unfolding after asked record_success record_failure reset
after-SameConfig e b = ground arith

push : Option Bool → List Bool → List Bool
push none l = l
push (some a) l = a ∷ l

-- The breaker after a history, and the answers given.
unfoldable pub final : List Event → Breaker → Breaker
final [] b = b
final (e ∷ es) b = final es (after e b)

unfoldable pub replies : List Event → Breaker → List Bool
unfolding push
replies [] b = []
replies (e ∷ es) b = push (said e b) (replies es (after e b))

pub run-final :
    (es : List Event) (b : Breaker) → IsValid b → run es b ≡ ok (final es b, replies es b)
unfolding run final replies
run-final [] b v = refl
run-final (e ∷ es) b v =
    ground (arith, step-after e b v, run-final es (after e b) (after-IsValid e b v))

pub final-IsValid : (es : List Event) (b : Breaker) → IsValid b → IsValid (final es b)
unfolding final
final-IsValid [] b v = v
final-IsValid (e ∷ es) b v = final-IsValid es (after e b) (after-IsValid e b v)

final-SameConfig : (es : List Event) (b : Breaker) → SameConfig b (final es b)
unfolding final
final-SameConfig [] b = (refl, refl)
final-SameConfig (e ∷ es) b = ground (arith, after-SameConfig e b, final-SameConfig es (after e b))

-- For every positive threshold and recovery time and every history of questions, successes,
-- failures and resets, the constructor and the whole run succeed (no assertion fails), the breaker
-- reached is valid, and its configuration is the one given.
pub run-init-IsValid :
    (t r : ℕ) (es : List Event)
    → 0 < t
    → 0 < r
    → (b b' : Breaker) × (answers : List Bool) × (init t r ≡ ok b)
      × (run es b ≡ ok (b', answers))
      × IsValid b'
      × (b'.failure_threshold ≡ t)
      × (b'.recovery_seconds ≡ r)
run-init-IsValid t r es ht hr =
    let b = fresh t r in
    let v = fresh-IsValid t r ht hr in
    let (threshold, recovery) = final-SameConfig es b in
    (
      b,
      final es b,
      replies es b,
      init-fresh t r ht hr,
      run-final es b v,
      final-IsValid es b v,
      threshold,
      recovery,
    )

-- `ensure_allowed` on a valid breaker: the effect of `allow`, and `CircuitOpenError` for a no.
pub ensure_allowed-asked :
    (now : ℕ) (b : Breaker)
    → IsValid b
    → ensure_allowed now b
      ≡ (asked now b, if answers now b then ok tt else raise circuit_open_error)
unfolding ensure_allowed
ensure_allowed-asked now b v = ground (arith, allow-asked now b v)
