-- ===== src/GatewayBreaker/Probes.antt =====
-- The half-open phase of the gateway's breaker (gateway/circuit_breaker/breaker.py).
use haojie.Common.{
  ℕ, zero, suc, ◌+◌, ◌*◌, ◌≤◌, ◌≡◌, refl, Bool, true, false, none, some, List, [], ◌∷◌, arith, map,
  leb, if◌then◌else◌, min,
}
use haojie.GatewayBreaker.{
  closed, opened, half_open, Breaker, allow, record_success, record_failure, Event, ask, succeed,
  step, run,
}

abbrev pub asks_at : List ℕ → List Event
asks_at = map ask

-- `n` refusals, and the answers to as many questions of which the first `k` get a yes.
abbrev pub quota : ℕ → List ℕ → List Bool
quota k [] = []
quota zero (t ∷ ts) = false ∷ quota zero ts
quota (suc k) (t ∷ ts) = true ∷ quota k ts

ask_half_open :
    (t k : ℕ) (b : Breaker)
    → b.state ≡ half_open
    → b.half_open_calls + suc k ≡ b.half_open_max
    → allow t b ≡ some (record b { half_open_calls = b.half_open_calls + 1 }, true)
unfolding allow
ask_half_open t k b h e = ground arith

ask_exhausted :
    (t : ℕ) (b : Breaker)
    → b.state ≡ half_open
    → b.half_open_max ≤ b.half_open_calls
    → allow t b ≡ some (b, false)
unfolding allow
ask_exhausted t b h e = ground arith

-- A half-open breaker with `k` probes left lets exactly the next `k` calls through, at whatever
-- times they come, and refuses all those after them.
pub probes_limited :
    (times : List ℕ) (k : ℕ) (b : Breaker)
    → b.state ≡ half_open
    → b.half_open_calls + k ≡ b.half_open_max
    → (b' : Breaker) × (run (asks_at times) b ≡ some (b', quota k times))
      × (b'.state ≡ half_open)
      × (b'.half_open_calls ≤ b'.half_open_max)
unfolding run step
probes_limited [] k b h e = (b, refl, h, omega arith)
probes_limited (t ∷ ts) zero b h e =
    let (b', ran, still, bounded) = probes_limited ts zero b h e in
    (b', ground (arith, ask_exhausted t b h), still, bounded)
probes_limited (t ∷ ts) (suc k) b h e =
    let c : Breaker = record b { half_open_calls = b.half_open_calls + 1 } in
    let (b', ran, still, bounded) = probes_limited ts k c h (omega arith) in
    (b', ground (arith, ask_half_open t k b h e), still, bounded)

-- A success closes a half-open breaker exactly when the whole quota has been let through, whether
-- or not the other probes have reported; it then forgets the failures and the backoff. Until then
-- it changes nothing. A failure always reopens it from its own time, with its recovery time
-- doubled up to the maximum.
pub report_half_open :
    (now : ℕ) (b : Breaker)
    → b.state ≡ half_open
    → (record_success b ≡ (
        if leb b.half_open_max b.half_open_calls
        then record b {
          state = closed;
          half_open_calls = 0;
          opened_at = none;
          recovery = b.base_recovery;
          failure_count = 0;
        }
        else b))
      × ((record_failure now b).state ≡ opened)
      × ((record_failure now b).opened_at ≡ some now)
      × ((record_failure now b).recovery ≡ min b.max_recovery (b.recovery * 2))
unfolding record_success record_failure
report_half_open now b h = ground arith

-- An open breaker with a quota of three, asked three times from the end of its recovery time on,
-- lets the three calls through and is closed by one success.
pub one_success_closes :
    (t₁ t₂ t₃ : ℕ) (b : Breaker)
    → b.state ≡ opened
    → b.half_open_max ≡ 3
    → (at : ℕ) → b.opened_at ≡ some at
    → at + b.recovery ≤ t₁
    → (b' : Breaker) × (run (ask t₁ ∷ ask t₂ ∷ ask t₃ ∷ succeed ∷ []) b
        ≡ some (b', true ∷ true ∷ true ∷ []))
      × (b'.state ≡ closed)
unfolding run step allow record_success
one_success_closes t₁ t₂ t₃ b o m at d h = (
  record b {
    state = closed;
    half_open_calls = 0;
    opened_at = none;
    recovery = b.base_recovery;
    failure_count = 0;
  },
  ground arith,
  refl,
)
