-- ===== src/Llm/Router.antt =====
-- The completion router of llm/router.py: one attempt, and the `single` and `fallback` strategies.
-- Which models are tried is in Selection, and the choice of the parallel strategies in Choice.
--
-- The providers' calls and the clock belong to a world that is threaded through. Metrics and log
-- lines are left out, and of the settings what the router reads is here.
pub mod Attempts
pub mod Selection
pub mod Targets
pub mod Choice
pub mod Fallback
use haojie.Common.{
  ℕ, ◌+◌, ◌*◌, ◌≡◌, Bool, true, false, not, ◌&&◌, ◌||◌, Option, none, some, String, List, [], ◌∷◌,
  ◌++◌, leb, ltb, if◌then◌else◌, str_eq, any, length, Dict, lookup, insert,
}
use haojie.Breaker
use haojie.Breaker.{Breaker, circuit_open_error}
use haojie.Breaker.Registry as Breakers
use haojie.Llm.Limiter
use haojie.Llm.Catalog.{ModelInfo, estimated_cost, get_model}

pub data Strategy : Type 0 where
  single fallback parallel_any parallel_vote confidence : Strategy

pub data ErrorCode : Type 0 where
  provider_unavailable circuit_open rate_limited provider_timeout internal_error : ErrorCode
  llm_error : String → ErrorCode

pub data Status : Type 0 where
  success skipped failure : Status

pub record ProviderResult : Type 0 where
  pub content : String
  pub prompt_tokens : ℕ
  pub completion_tokens : ℕ
  pub confidence : ℕ

-- `CompletionAttempt`, without its messages and latencies.
pub record Attempt : Type 0 where
  pub provider : String
  pub model_id : String
  pub status : Status
  pub error_code : Option ErrorCode
  pub cost : ℕ

-- `_Candidate`
pub record Candidate : Type 0 where
  pub model : ModelInfo
  pub result : ProviderResult
  pub cost : ℕ

-- How a provider's `complete` ends: a result, `ProviderTimeoutError`, another `LLMError` with its
-- code, or any other exception.
pub data Outcome : Type 0 where
  returned : ProviderResult → Outcome
  timed_out : Outcome
  failed_llm : String → Outcome
  failed_other : Outcome

-- What the router raises. `misconfigured` is the `ValueError` of a breaker's constructor and
-- `broken` its failed assertion.
pub data RouterError : Type 0 where
  provider_failed : Option ErrorCode → String → RouterError
  no_provider_available : RouterError
  unknown_model : String → RouterError
  budget_exceeded : RouterError
  misconfigured broken : RouterError

-- How a method of the router ends; the router's state is kept either way.
pub data Reply (A : Type 0) : Type 0 where
  ok : A → Reply A
  raise : RouterError → Reply A

is_status : Status → Attempt → Bool
is_status s a = elim s [
  | success ↦ elim a.status [ success ↦ true | _ ↦ false ]
  | skipped ↦ elim a.status [ skipped ↦ true | _ ↦ false ]
  | failure ↦ elim a.status [ failure ↦ true | _ ↦ false ]
]

pub last_of : Status → List Attempt → Option Attempt
unfolding is_status
last_of s [] = none
last_of s (a ∷ rest) = elim (last_of s rest) [
  | some b ↦ some b
  | none ↦ if is_status s a then some a else none
]

-- `_attempts_to_error`: the last failure is named; if there is none, every target was skipped.
unfoldable pub attempts_to_error : List Attempt → RouterError
unfolding last_of
attempts_to_error attempts = elim (last_of failure attempts) [
  | some a ↦ provider_failed a.error_code a.provider
  | none ↦ no_provider_available
]

-- The outside: the providers that are configured, their calls, and the clock.
pub record World : Type 1 where
  pub State : Type 0
  pub now : State → ℕ
  pub available : String → State → Bool
  pub complete : ModelInfo → State → State × Outcome

module _ (w : World) where
  open w use {State, now, available, complete}

  pub record Router : Type 0 where
    pub breakers : Breakers.Registry
    pub limiters : Limiter.Registry
    pub world : State
    pub attempts : List Attempt

  -- `attempts.append(...)`
  pub record_attempt : ModelInfo → Status → Option ErrorCode → ℕ → Router → Router
  record_attempt m status code cost r = record r {
    attempts =
        r.attempts
        ++ record {
          provider = m.provider;
          model_id = m.model_id;
          status = status;
          error_code = code;
          cost = cost;
        }
          ∷ [];
  }

  -- After the provider's call: the breaker that `get` returned is written, and the attempt recorded.
  pub settle : ModelInfo → Breaker → State × Outcome → Router → Router × Option Candidate
  unfolding record_attempt
  settle m b (s, returned result) r =
      let cost = estimated_cost m result.prompt_tokens result.completion_tokens in
      let r' : Router = record r {
        world = s;
        breakers = Breakers.put m.provider (Breaker.record_success b) r.breakers;
      } in
      (
        record_attempt m success none cost r',
        some (record { model = m; result = result; cost = cost }),
      )
  settle m b (s, timed_out) r =
      let r' : Router = record r {
        world = s;
        breakers = Breakers.put m.provider (Breaker.record_failure (now s) b) r.breakers;
      } in
      (record_attempt m failure (some provider_timeout) 0 r', none)
  settle m b (s, failed_llm code) r =
      let r' : Router = record r {
        world = s;
        breakers = Breakers.put m.provider (Breaker.record_failure (now s) b) r.breakers;
      } in
      (record_attempt m failure (some (llm_error code)) 0 r', none)
  settle m b (s, failed_other) r =
      let r' : Router = record r {
        world = s;
        breakers = Breakers.put m.provider (Breaker.record_failure (now s) b) r.breakers;
      } in
      (record_attempt m failure (some internal_error) 0 r', none)

  -- The rate limiter, and the provider's call.
  pub call : ModelInfo → Breaker → Router → Router × Option Candidate
  unfolding record_attempt settle Limiter.ensure_allowed
  call m b r =
      let (limiters, allowed) = Limiter.ensure_allowed m.provider (now r.world) r.limiters in
      let r' : Router = record r { limiters = limiters } in
      let called = settle m b (complete m r'.world) r' in
      let throttled = record_attempt m skipped (some rate_limited) 0 r' in
      if allowed then called else (throttled, none)

  admitted :
      ModelInfo → Router → Breaker × Breaker.Result (Unit {0}) → Router × Reply (Option Candidate)
  unfolding record_attempt call
  admitted m r (b, Breaker.ok _) =
      let called = call m b (record r { breakers = Breakers.put m.provider b r.breakers }) in
      (called.0, ok called.1)
  admitted m r (b, Breaker.raise circuit_open_error) = (
    record_attempt m skipped (some circuit_open) 0
        (record r { breakers = Breakers.put m.provider b r.breakers }),
    ok none,
  )
  admitted m r (b, Breaker.raise _) = (r, raise broken)

  -- The circuit breaker, which keeps what `allow` wrote.
  pub admit : ModelInfo → Breaker → Router → Router × Reply (Option Candidate)
  unfolding admitted
  admit m b r = admitted m r (Breaker.ensure_allowed (now r.world) b)

  -- `_attempt`: a candidate, or `none` with the reason in the last recorded attempt.
  unfoldable pub attempt : ModelInfo → Router → Router × Reply (Option Candidate)
  unfolding record_attempt admit
  attempt m r =
      if not (available m.provider r.world)
      then (record_attempt m skipped (some provider_unavailable) 0 r, ok none)
      else elim (Breakers.get m.provider r.breakers) [
        | Breaker.ok (breakers, b) ↦ admit m b (record r { breakers = breakers })
        | Breaker.raise e ↦ (r, raise misconfigured)
      ]

  -- `_run_single`
  unfoldable pub run_single : ModelInfo → Router → Router × Reply Candidate
  unfolding attempts_to_error
  run_single m r =
      let (r', reply) = attempt m r in
      elim reply [
        | raise e ↦ (r', raise e)
        | ok (some c) ↦ (r', ok c)
        | ok none ↦ (r', raise (attempts_to_error r'.attempts))
      ]

  -- `_run_fallback`: the first target that answers.
  unfoldable pub run_fallback : List ModelInfo → Router → Router × Reply Candidate
  unfolding attempts_to_error
  run_fallback [] r = (r, raise (attempts_to_error r.attempts))
  run_fallback (m ∷ ms) r =
      let tried = attempt m r in
      elim tried.1 [
        | raise e ↦ (tried.0, raise e)
        | ok (some c) ↦ (tried.0, ok c)
        | ok none ↦ run_fallback ms tried.0
      ]
