-- ===== src/Llm/Router/Fallback.antt =====
-- The `single` and `fallback` strategies (llm/router.py, `_run_single` and `_run_fallback`).
use mathlib.Core.List.{append_assoc, append-nil}
use haojie.Common.{
  ◌≡◌, ◌≢◌, refl, sym, ap, ◌∙◌, Option, none, some, List, [], ◌∷◌, ◌++◌, arith, All,
}
use haojie.Breaker.Registry.{AllValid}
use haojie.Llm.Catalog.{ModelInfo}
use haojie.Llm.Router.{
  success, failure, Attempt, Candidate, last_of, provider_failed, no_provider_available, Reply, ok,
  raise, World, Router, attempt, attempts_to_error, run_single, run_fallback,
}
use haojie.Llm.Router.Attempts.{Attempted, Tries, attempt-Tries}

-- The targets in their order, each tried once until the first success: the records that are made,
-- and the candidate.
pub data Tried : List ModelInfo → List Attempt → Option Candidate → Type 0 where
  exhausted : Tried [] [] none
  next :
      {m : ModelInfo} {ms : List ModelInfo} {a : Attempt} {l : List Attempt} {o : Option Candidate}
      → a.model_id ≡ m.model_id
      → a.status ≢ success
      → Tried ms l o
      → Tried (m ∷ ms) (a ∷ l) o
  won :
      {m : ModelInfo} {ms : List ModelInfo} {a : Attempt} {c : Candidate}
      → a.model_id ≡ m.model_id
      → a.status ≡ success
      → c.model ≡ m
      → c.cost ≡ a.cost
      → Tried (m ∷ ms) (a ∷ []) (some c)

-- A candidate is the reply, and without one the error of all the attempts recorded.
pub reply_of : Option Candidate → List Attempt → Reply Candidate
reply_of (some c) attempts = ok c
reply_of none attempts = raise (attempts_to_error attempts)

module _ (w : World) where
  -- How a strategy ends that goes through the targets in order.
  pub record Ran (ms : List ModelInfo) (r : Router w) (p : Router w × Reply Candidate)
      : Type 0 where
    pub records : List Attempt
    pub winner : Option Candidate
    pub tried : Tried ms records winner
    pub appended : p.0.attempts ≡ r.attempts ++ records
    pub replied : p.1 ≡ reply_of winner p.0.attempts
    pub valid : AllValid p.0.breakers

  fallback_won :
      (m : ModelInfo) (ms : List ModelInfo) (r : Router w) (c : Candidate)
      → (attempt w m r).1 ≡ ok (some c)
      → run_fallback w (m ∷ ms) r ≡ ((attempt w m r).0, ok c)
  unfolding run_fallback
  fallback_won m ms r c e = ground arith

  fallback_next :
      (m : ModelInfo) (ms : List ModelInfo) (r : Router w)
      → (attempt w m r).1 ≡ ok none
      → run_fallback w (m ∷ ms) r ≡ run_fallback w ms (attempt w m r).0
  unfolding run_fallback
  fallback_next m ms r e = ground arith

  -- A success ends the search.
  Ran-won :
      (m : ModelInfo) (ms : List ModelInfo) (r : Router w) (c : Candidate)
      → let p = attempt w m r in
        Attempted m r.attempts p.0.attempts (some c)
        → AllValid p.0.breakers
        → Ran (m ∷ ms) r (p.0, ok c)
  unfolding reply_of
  Ran-won m ms r c made valid = record {
    records = made.made ∷ [];
    winner = some c;
    tried =
        won made.of_model (made.succeeded.1 refl) (made.candidate c refl).0
          (made.candidate c refl).1;
    appended = made.appended;
    replied = refl;
    valid = valid;
  }

  -- A failure goes before the records of the rest.
  Ran-next :
      (m : ModelInfo) (ms : List ModelInfo) (r : Router w) (p : Router w × Reply Candidate)
      → let r' = (attempt w m r).0 in
        Attempted m r.attempts r'.attempts none → Ran ms r' p → Ran (m ∷ ms) r p
  Ran-next m ms r p made ran = record {
    records = made.made ∷ ran.records;
    winner = ran.winner;
    tried = next made.of_model (λ s. absurd (grind (arith, made.succeeded.0 s))) ran.tried;
    appended =
        ran.appended
        ∙ ap (λ l. l ++ ran.records) made.appended
        ∙ append_assoc r.attempts (made.made ∷ []) ran.records;
    replied = ran.replied;
    valid = ran.valid;
  }

  -- With a positive configuration and valid breakers, `fallback` tries the targets in their order,
  -- each once, records every attempt, stops at the first success and answers with it; if no target
  -- succeeds it raises the error of all the attempts. Nothing else is raised, and the breakers
  -- stay valid.
  pub run_fallback-Ran :
      (ms : List ModelInfo) (r : Router w) → AllValid r.breakers → Ran ms r (run_fallback w ms r)
  unfolding run_fallback reply_of
  run_fallback-Ran [] r v = record {
    records = [];
    winner = none;
    tried = exhausted;
    appended = sym (append-nil r.attempts);
    replied = refl;
    valid = v;
  }
  run_fallback-Ran (m ∷ ms) r v =
      let rest = run_fallback-Ran ms (attempt w m r).0 (attempt-Tries w m r v).3 in
      fallback_step (attempt-Tries w m r v) rest
    where
      fallback_step :
          Tries w m r (attempt w m r)
          → Ran ms (attempt w m r).0 (run_fallback w ms (attempt w m r).0)
          → Ran (m ∷ ms) r (run_fallback w (m ∷ ms) r)
      fallback_step (some c, e, made, valid) rest =
          rw (fallback_won m ms r c e) (Ran-won m ms r c made valid)
      fallback_step (none, e, made, valid) rest =
          rw (fallback_next m ms r e) (Ran-next m ms r _ made rest)

  -- `single` does what `fallback` does with the one target.
  pub run_single-fallback :
      (m : ModelInfo) (r : Router w) → run_single w m r ≡ run_fallback w (m ∷ []) r
  unfolding run_single run_fallback
  run_single-fallback m r = ground arith

  -- `single` is `fallback` with one target.
  pub run_single-Ran :
      (m : ModelInfo) (r : Router w) → AllValid r.breakers → Ran (m ∷ []) r (run_single w m r)
  run_single-Ran m r v = rw (run_single-fallback m r) (run_fallback-Ran (m ∷ []) r v)

-- No attempt of the list failed.
abbrev pub NoneFailed : List Attempt → Type 0
NoneFailed = All (λ a. a.status ≢ failure)

last_of-none : (l : List Attempt) → NoneFailed l → last_of failure l ≡ none
unfolding last_of
last_of-none [] h = refl
last_of-none (a ∷ l) h = ground (arith, last_of-none l h.1, h.0)

last_of-last :
    (before after : List Attempt) (a : Attempt)
    → a.status ≡ failure
    → NoneFailed after
    → last_of failure (before ++ a ∷ after) ≡ some a
unfolding last_of
last_of-last [] after a f h = ground (arith, last_of-none after h)
last_of-last (b ∷ before) after a f h = ground (arith, last_of-last before after a f h)

-- The error names the last failed attempt, whatever was skipped after it; attempts none of which
-- failed give the error that no provider is available.
pub attempts_to_error_lem :
    (before after : List Attempt) (a : Attempt)
    → a.status ≡ failure
    → NoneFailed after
    → (attempts_to_error (before ++ a ∷ after) ≡ provider_failed a.error_code a.provider)
      × (attempts_to_error after ≡ no_provider_available)
unfolding attempts_to_error
attempts_to_error_lem before after a f h = (
  rw (last_of-last before after a f h, attempts_to_error),
  rw (last_of-none after h, attempts_to_error),
)
