-- ===== src/Llm/Router/Attempts.antt =====
-- What one attempt of the router does (llm/router.py, `_attempt`).
use haojie.Common.{
  ℕ, ◌≡◌, ◌≢◌, ◌↔◌, refl, true, Option, none, some, List, [], ◌∷◌, ◌++◌, arith, is_some, Bool-cases,
  inl, inr,
}
use haojie.Breaker
use haojie.Breaker.{Breaker}
use haojie.Breaker.Invariant.{
  IsValid, record_success-IsValid, record_failure-IsValid, asked, answers, asked-IsValid,
  ensure_allowed-asked,
}
use haojie.Breaker.Registry as Breakers
use haojie.Breaker.Registry.{AllValid, got, breaker_of, get-put, put-AllValid, got-AllValid}
use haojie.Llm.Limiter
use haojie.Llm.Catalog.{ModelInfo, estimated_cost}
use haojie.Llm.Router.{
  Status, success, skipped, failure, ErrorCode, provider_unavailable, circuit_open, rate_limited,
  provider_timeout, llm_error, internal_error, Attempt, Candidate, Outcome, Reply, ok, World,
  Router, attempt, returned, timed_out, failed_llm, failed_other, record_attempt, settle, call,
  admit,
}

-- One attempt adds one record, of its model; it is a success exactly when there is a candidate, and
-- the candidate is then of that model and at the recorded cost.
pub record Attempted (m : ModelInfo) (before after : List Attempt) (o : Option Candidate)
    : Type 0 where
  pub made : Attempt
  pub appended : after ≡ before ++ made ∷ []
  pub of_provider : made.provider ≡ m.provider
  pub of_model : made.model_id ≡ m.model_id
  pub succeeded : (made.status ≡ success) ↔ (is_some o ≡ true)
  pub candidate : (c : Candidate) → o ≡ some c → (c.model ≡ m) × (c.cost ≡ made.cost)

module _ (w : World) where
  record_attempt-Attempted :
      (m : ModelInfo) (s : Status) (e : Option ErrorCode) (r : Router w)
      → s ≢ success
      → Attempted m r.attempts (record_attempt w m s e 0 r).attempts none
  unfolding record_attempt
  record_attempt-Attempted m s e r ne = record {
    made = record {
      provider = m.provider;
      model_id = m.model_id;
      status = s;
      error_code = e;
      cost = 0;
    };
    appended = refl;
    of_provider = refl;
    of_model = refl;
    succeeded = (λ h. absurd (ne h), λ h. cc);
    candidate = λ c h. cc;
  }

  breakers-record_attempt :
      (m : ModelInfo) (s : Status) (e : Option ErrorCode) (n : ℕ) (r : Router w)
      → (record_attempt w m s e n r).breakers ≡ r.breakers
  unfolding record_attempt
  breakers-record_attempt m s e n r = refl

  settle-Attempted :
      (m : ModelInfo) (b : Breaker) (out : w.State × Outcome) (r : Router w)
      → IsValid b
      → AllValid r.breakers
      → Attempted m r.attempts (settle w m b out r).0.attempts (settle w m b out r).1
        × AllValid (settle w m b out r).0.breakers
  unfolding settle record_attempt
  settle-Attempted m b (s, returned x) r vb v = (
    record {
      made = record {
        provider = m.provider;
        model_id = m.model_id;
        status = success;
        error_code = none;
        cost = estimated_cost m x.prompt_tokens x.completion_tokens;
      };
      appended = refl;
      of_provider = refl;
      of_model = refl;
      succeeded = (λ h. refl, λ h. refl);
      candidate = λ c h. ground arith;
    },
    put-AllValid m.provider (Breaker.record_success b) r.breakers v (record_success-IsValid b vb),
  )
  settle-Attempted m b (s, timed_out) r vb v = (
    record_attempt-Attempted m failure (some provider_timeout) r (λ h. cc),
    put-AllValid m.provider (Breaker.record_failure (w.now s) b) r.breakers v
        (record_failure-IsValid (w.now s) b vb),
  )
  settle-Attempted m b (s, failed_llm code) r vb v = (
    record_attempt-Attempted m failure (some (llm_error code)) r (λ h. cc),
    put-AllValid m.provider (Breaker.record_failure (w.now s) b) r.breakers v
        (record_failure-IsValid (w.now s) b vb),
  )
  settle-Attempted m b (s, failed_other) r vb v = (
    record_attempt-Attempted m failure (some internal_error) r (λ h. cc),
    put-AllValid m.provider (Breaker.record_failure (w.now s) b) r.breakers v
        (record_failure-IsValid (w.now s) b vb),
  )

  call-Attempted :
      (m : ModelInfo) (b : Breaker) (r : Router w)
      → IsValid b
      → AllValid r.breakers
      → Attempted m r.attempts (call w m b r).0.attempts (call w m b r).1
        × AllValid (call w m b r).0.breakers
  unfolding call
  call-Attempted m b r vb v =
      let limited = Limiter.ensure_allowed m.provider (w.now r.world) r.limiters in
      let r' : Router w = record r { limiters = limited.0 } in
      elim (Bool-cases limited.1) [
        | inl go ↦ rw go (settle-Attempted m b (w.complete m r.world) r' vb v)
        | inr stop ↦
            rw stop (record_attempt-Attempted m skipped (some rate_limited) r' (λ h. cc), v)
      ]

  -- What an attempt does, in one statement.
  abbrev pub Tries : ModelInfo → Router w → Router w × Reply (Option Candidate) → Type 0
  Tries m r p =
      (o : Option Candidate) × (p.1 ≡ ok o)
      × Attempted m r.attempts p.0.attempts o
      × AllValid p.0.breakers

  admit-Tries :
      (m : ModelInfo) (b : Breaker) (r : Router w)
      → IsValid b
      → AllValid r.breakers
      → Tries m r (admit w m b r)
  unfolding admit
  admit-Tries m b r vb v =
      let now = w.now r.world in
      let vb' = asked-IsValid now b vb in
      let r' : Router w = record r {
        breakers = Breakers.put m.provider (asked now b) r.breakers;
      } in
      let v' = put-AllValid m.provider (asked now b) r.breakers v vb' in
      elim (Bool-cases (answers now b)) [
        | inl go ↦
            rw (ensure_allowed-asked now b vb, go)
              (let (made, valid) = call-Attempted m (asked now b) r' vb' v' in
                ((call w m (asked now b) r').1, refl, made, valid))
        | inr stop ↦
            rw (ensure_allowed-asked now b vb, stop)
              (none, refl, record_attempt-Attempted m skipped (some circuit_open) r' (λ h. cc), v')
      ]

  -- With a positive configuration and valid breakers, which it keeps valid, an attempt raises
  -- nothing. It adds one record, of its model; that is a success exactly when there is a
  -- candidate, and the candidate is then of that model and at the recorded cost.
  pub attempt-Tries :
      (m : ModelInfo) (r : Router w) → AllValid r.breakers → Tries m r (attempt w m r)
  unfolding attempt
  attempt-Tries m r v = elim (Bool-cases (w.available m.provider r.world)) [
    | inr down ↦
        rw down (
          none,
          refl,
          record_attempt-Attempted m skipped (some provider_unavailable) r (λ h. cc),
          v,
        )
    | inl up ↦
        let (found, _, _) =
          get-put m.provider m.provider (breaker_of m.provider r.breakers) r.breakers
            v.threshold_pos v.recovery_pos in
        rw (up, found)
          (admit-Tries m (breaker_of m.provider r.breakers)
            (record r { breakers = got m.provider r.breakers }) (v.each m.provider)
            (got-AllValid m.provider r.breakers v))
  ]
