-- ===== src/Tests/Routes.antt =====
-- Runs of the router of llm/router.py against a world that counts its calls, in which "google" is
-- not configured and only "stub" answers.
use haojie.Common.{
  insert, ℕ, ◌+◌, ◌≡◌, refl, not, some, [], ◌∷◌, arith, if◌then◌else◌, lookup, String, str_eq,
}
use haojie.Breaker.Registry as Breakers
use haojie.Breaker.Invariant.{fresh-IsValid}
use haojie.Breaker.Registry.{AllValid}
use haojie.Llm.Catalog.{ModelInfo, default_capabilities}
use haojie.Llm.Router.{
  World, Router, Attempt, Candidate, skipped, failure, circuit_open, internal_error, returned,
  failed_other, run_fallback,
}
use haojie.Llm.Router.Choice.{by_vote}
use haojie.Llm.Router.Choice.Winner.{Elected, by_vote-Elected}
use haojie.Llm.Router.Fallback.{Ran, run_fallback-Ran}

abbrev model : String → String → ℕ → ModelInfo
model id provider price = record {
  model_id = id;
  provider = provider;
  remote_name = id;
  context_window = 8192;
  max_output_tokens = 1024;
  price_per_1k_prompt = price;
  price_per_1k_completion = price;
  capabilities = default_capabilities;
  audiences = "any" ∷ [];
}

abbrev down : ModelInfo
down = model "gpt" "openai" 500

abbrev absent : ModelInfo
absent = model "gemini" "google" 300

abbrev up : ModelInfo
up = model "stub" "stub" 100

abbrev world : World
world = record {
  State = ℕ;
  now = λ s. s;
  available = λ p s. not (str_eq p "google");
  complete = λ m s. (
    s + 1,
    if str_eq m.provider "stub"
        then returned (record {
          content = "yes";
          prompt_tokens = 1000;
          completion_tokens = 1000;
          confidence = 5000;
        })
        else failed_other,
  );
}

abbrev router : Router world
router = record {
  breakers = record { failure_threshold = 2; recovery_seconds = 10; breakers = [] };
  limiters = record { rate_per_minute = 60; burst = 2; buckets = [] };
  world = 0;
  attempts = [];
}

router-AllValid : AllValid router.breakers
unfolding Breakers.breaker_of lookup
router-AllValid = record {
  threshold_pos = omega arith;
  recovery_pos = omega arith;
  each = λ p. fresh-IsValid 2 10 (omega arith) (omega arith);
}

run_fallback-Ran_example :
    Ran world (down ∷ absent ∷ up ∷ []) router (run_fallback world (down ∷ absent ∷ up ∷ []) router)
run_fallback-Ran_example = run_fallback-Ran world (down ∷ absent ∷ up ∷ []) router router-AllValid

abbrev made : Attempt
made = record {
  provider = "openai";
  model_id = "gpt";
  status = failure;
  error_code = some internal_error;
  cost = 0;
}

abbrev late : Attempt
late = record {
  provider = "google";
  model_id = "gemini";
  status = skipped;
  error_code = some circuit_open;
  cost = 0;
}

abbrev says : String → ℕ → Candidate
says content confidence = record {
  model = up;
  result = record {
    content = content;
    prompt_tokens = 10;
    completion_tokens = 10;
    confidence = confidence;
  };
  cost = 1;
}

-- Two votes, once trimmed, win against a surer one.
by_vote_test :
    by_vote (says "b" 9000 ∷ says " a" 4000 ∷ says "a\n" 6000 ∷ []) ≡ some (says "a\n" 6000)
unfolding by_vote insert lookup
by_vote_test = refl

by_vote-Elected_example :
    (k : String) × (w : Candidate) × (by_vote (says "b" 9000 ∷ says " a" 4000 ∷ []) ≡ some w)
    × Elected (says "b" 9000 ∷ says " a" 4000 ∷ []) k w
by_vote-Elected_example = by_vote-Elected (says "b" 9000) (says " a" 4000 ∷ [])
