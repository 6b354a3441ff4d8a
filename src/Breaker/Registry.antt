-- ===== src/Breaker/Registry.antt =====
-- CircuitBreakerRegistry of llm/circuit_breaker.py: breakers by provider name, made on demand.
use haojie.Common.{
  ℕ, ◌<◌, ◌≡◌, refl, none, some, [], ◌∷◌, String, arith, Dict, lookup, insert, lookup-insert,
  str_eq_iff, if◌then◌else◌, str_eq, Bool-cases, map, inl, inr,
}
use haojie.Breaker.{Breaker, CircuitState, closed, Result, ok, raise, init, reset}
use haojie.Breaker.Invariant.{IsValid, fresh, init-fresh}

pub record Registry : Type 0 where
  pub failure_threshold : ℕ
  pub recovery_seconds : ℕ
  pub breakers : Dict Breaker

-- A missing breaker is constructed and kept; the constructor may raise.
unfoldable pub get : String → Registry → Result (Registry × Breaker)
get provider r = elim (lookup provider r.breakers) [
  | some b ↦ ok (r, b)
  | none ↦ elim (init r.failure_threshold r.recovery_seconds) [
    | ok b ↦ ok (record r { breakers = insert provider b r.breakers }, b)
    | raise e ↦ raise e
  ]
]

-- A method of the breaker that `get` returned writes to the object that the registry holds.
unfoldable pub put : String → Breaker → Registry → Registry
put provider b r = record r { breakers = insert provider b r.breakers }

unfoldable pub all_states : Registry → Dict CircuitState
all_states r = map (λ (e : String × Breaker). (e.0, e.1.state)) r.breakers

unfoldable pub reset_all : Registry → Registry
reset_all r = record r { breakers = map (λ (e : String × Breaker). (e.0, reset e.1)) r.breakers }

-- The breaker that a registry answers with: the one it holds, or a fresh one.
unfoldable pub breaker_of : String → Registry → Breaker
breaker_of provider r = elim (lookup provider r.breakers) [
  | some b ↦ b
  | none ↦ fresh r.failure_threshold r.recovery_seconds
]

-- The registry after a `get`: the provider's breaker is in it.
unfoldable pub got : String → Registry → Registry
unfolding breaker_of
got provider r = elim (lookup provider r.breakers) [
  | some b ↦ r
  | none ↦ record r { breakers = insert provider (breaker_of provider r) r.breakers }
]

-- With a positive configuration `get` does not raise and answers with the provider's breaker; the
-- breakers of all providers are what they were, and a write to this one changes no other.
pub get-put :
    (p q : String) (b : Breaker) (r : Registry)
    → 0 < r.failure_threshold
    → 0 < r.recovery_seconds
    → (get p r ≡ ok (got p r, breaker_of p r))
      × (breaker_of q (got p r) ≡ breaker_of q r)
      × (breaker_of q (put p b (got p r)) ≡ (if str_eq p q then b else breaker_of q r))
unfolding get put got
get-put p q b r ht hr =
    let f = fresh r.failure_threshold r.recovery_seconds in
    ground (
      arith,
      str_eq_iff p q,
      init-fresh r.failure_threshold r.recovery_seconds ht hr,
      lookup-insert p q f r.breakers,
      lookup-insert p q b r.breakers,
      lookup-insert p q b (insert p f r.breakers),
    )

-- Every breaker of a registry is valid, those still to be made as well.
pub record AllValid (r : Registry) : Type 0 where
  pub threshold_pos : 0 < r.failure_threshold
  pub recovery_pos : 0 < r.recovery_seconds
  pub each : (p : String) → IsValid (breaker_of p r)

pub breaker_of-put :
    (p q : String) (b : Breaker) (r : Registry)
    → breaker_of q (put p b r) ≡ (if str_eq p q then b else breaker_of q r)
unfolding put breaker_of
breaker_of-put p q b r = ground (arith, lookup-insert p q b r.breakers)

-- Writing a valid breaker keeps them all valid.
pub put-AllValid :
    (p : String) (b : Breaker) (r : Registry) → AllValid r → IsValid b → AllValid (put p b r)
unfolding put
put-AllValid p b r v vb = record {
  threshold_pos = v.threshold_pos;
  recovery_pos = v.recovery_pos;
  each = λ q. elim (Bool-cases (str_eq p q)) [
    | inl this ↦ rw (breaker_of-put p q b r, this) vb
    | inr other ↦ rw (breaker_of-put p q b r, other) (v.each q)
  ];
}

got_config :
    (p : String) (r : Registry)
    → ((got p r).failure_threshold ≡ r.failure_threshold)
      × ((got p r).recovery_seconds ≡ r.recovery_seconds)
unfolding got
got_config p r = ground arith

-- So does asking for a breaker.
pub got-AllValid : (p : String) (r : Registry) → AllValid r → AllValid (got p r)
got-AllValid p r v =
    let (t, s) = got_config p r in
    record {
      threshold_pos = omega (arith, v.threshold_pos, t);
      recovery_pos = omega (arith, v.recovery_pos, s);
      each = λ q.
          let reads = get-put p q (breaker_of p r) r v.threshold_pos v.recovery_pos in
          rw reads.1 (v.each q);
    }

lookup-map-reset :
    (q : String) (d : Dict Breaker)
    → lookup q (map (λ (e : String × Breaker). (e.0, reset e.1)) d)
      ≡ elim (lookup q d) [ none ↦ none | some b ↦ some (reset b) ]
unfolding lookup
lookup-map-reset q [] = refl
lookup-map-reset q ((j, b) ∷ d) = ground (arith, lookup-map-reset q d)

-- `reset_all` leaves every provider's breaker closed, with no failure counted.
pub reset_all-closed :
    (q : String) (r : Registry)
    → ((breaker_of q (reset_all r)).state ≡ closed) × ((breaker_of q (reset_all r)).failures ≡ 0)
unfolding reset_all breaker_of reset
reset_all-closed q r = ground (arith, lookup-map-reset q r.breakers)
