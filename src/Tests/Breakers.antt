-- ===== src/Tests/Breakers.antt =====
-- Histories of one breaker of llm/circuit_breaker.py, with two failures to trip and a recovery time
-- of 10.
use haojie.Common.{◌≡◌, refl, true, false, some, [], ◌∷◌, arith, List, Bool, ◌++◌}
use haojie.Breaker.{Breaker, opened, half_open, ok, init, ask, succeed, fail, run, Event}
use haojie.Breaker.Invariant.{IsValid, fresh, run-init-IsValid}
use haojie.Breaker.Cooldown.{asks_at, refusals, cooldown}
use haojie.Breaker.Registry.{Registry}

abbrev two : Breaker
two = fresh 2 10

abbrev tripped : Breaker
tripped = record two { state = opened; failures = 2; opened_at = some 5 }

abbrev probing : Breaker
probing = record tripped { state = half_open }

tripped-IsValid : IsValid tripped
tripped-IsValid = ground arith

abbrev history : List Event
history = ask 0 ∷ fail 1 ∷ fail 5 ∷ ask 7 ∷ ask 15 ∷ succeed ∷ ask 16 ∷ []

run_test : run history two ≡ ok (record two { opened_at = some 5 }, true ∷ false ∷ true ∷ true ∷ [])
unfolding run
run_test = refl

run-init-IsValid_example :
    (b b' : Breaker) × (answers : List Bool) × (init 2 10 ≡ ok b)
    × (run history b ≡ ok (b', answers))
    × IsValid b'
    × (b'.failure_threshold ≡ 2)
    × (b'.recovery_seconds ≡ 10)
run-init-IsValid_example = run-init-IsValid 2 10 history (omega arith) (omega arith)

cooldown_example :
    run (asks_at (6 ∷ 14 ∷ []) ++ ask 15 ∷ []) tripped
    ≡ ok (record tripped { state = half_open }, refusals (6 ∷ 14 ∷ []) ++ true ∷ [])
cooldown_example =
    cooldown (6 ∷ 14 ∷ []) 15 5 tripped tripped-IsValid refl refl (omega arith, (omega arith, tt))
      (omega arith)

abbrev registry : Registry
registry = record {
  failure_threshold = 2;
  recovery_seconds = 10;
  breakers = ("openai", tripped) ∷ [];
}
