-- ===== src/Tests/Gateway.antt =====
-- Histories of one breaker of gateway/circuit_breaker/breaker.py: two failures to trip, a recovery
-- time of 10 and at most 60, two probes.
use haojie.Common.{
  ◌≡◌, refl, true, false, none, some, [], ◌∷◌, arith, List, Bool, ◌≤◌, min, ◌*◌, ◌^◌,
}
use haojie.GatewayBreaker.{Breaker, opened, half_open, init, ask, fail, run, Event}
use haojie.GatewayBreaker.Safety.{IsValid, gateway_run-IsValid}
use haojie.GatewayBreaker.Backoff.{trips, backoff}
use haojie.GatewayBreaker.Probes.{asks_at, quota, probes_limited}

abbrev tripped : Breaker
tripped = record {
  failure_threshold = 2;
  base_recovery = 10;
  recovery = 20;
  max_recovery = 60;
  half_open_max = 3;
  state = opened;
  failure_count = 2;
  opened_at = some 5;
  half_open_calls = 0;
}

abbrev probing : Breaker
probing = record tripped { state = half_open; opened_at = none; half_open_calls = 1 }

abbrev history : List Event
history = ask 0 ∷ fail 1 ∷ fail 5 ∷ ask 24 ∷ ask 25 ∷ fail 26 ∷ ask 65 ∷ []

abbrev reached : Breaker
reached = record tripped { recovery = 40; failure_count = 3; opened_at = some 26 }

run_test : run history (init 2 10 3 60) ≡ some (reached, true ∷ false ∷ true ∷ false ∷ [])
unfolding run init
run_test = refl

gateway_run-IsValid_example :
    (b : Breaker) × (answers : List Bool) × (run history (init 2 10 3 60) ≡ some (b, answers))
    × IsValid b
gateway_run-IsValid_example = gateway_run-IsValid 2 10 3 60 history

backoff_example :
    (b : Breaker) × (answers : List Bool) × (run history (init 2 10 3 60) ≡ some (b, answers))
    × (b.recovery ≡ min 60 (10 * 2 ^ trips history (init 2 10 3 60) 0))
backoff_example = backoff 2 10 3 60 history (omega arith)

probes_limited_example :
    (b' : Breaker) × (run (asks_at (30 ∷ 30 ∷ 30 ∷ 900 ∷ [])) probing
      ≡ some (b', quota 2 (30 ∷ 30 ∷ 30 ∷ 900 ∷ [])))
    × (b'.state ≡ half_open)
    × (b'.half_open_calls ≤ b'.half_open_max)
probes_limited_example = probes_limited (30 ∷ 30 ∷ 30 ∷ 900 ∷ []) 2 probing refl (omega arith)
