-- ===== src/Tests/Engines.antt =====
-- The decision engine and its service over a policy without rules and a model that answers every
-- other time.
use haojie.Common.{
  ℕ, ◌+◌, ◌<◌, ◌≤◌, ◌≡◌, ◌≢◌, ◌⊎◌, refl, true, false, Option, none, some, String, List, [], ◌∷◌,
  arith, lookup, insert, erase, upper_eq,
}
use haojie.Breaker
use haojie.Breaker.{Breaker}
use haojie.Breaker.Invariant.{IsValid, fresh, fresh-IsValid, answers}
use haojie.Cache
use haojie.Cache.{Redis, lru}
use haojie.Cache.Memory.{IsValid as IsBounded}
use haojie.Decision.Features.{DecisionRequest, extract}
use haojie.Decision.Catalog.{is_registered, actions_for_audience}
use haojie.Decision.Rules as Rules
use haojie.Decision.Rules.{Rule, is_allowed}
use haojie.Decision.Ensemble.{
  Outcome, Weights, circuit_open, model_failed, ml as ml_name, rules as rules_name,
}
use haojie.Decision.Engine.{
  ml, failed, Model, by_ml, rules_fallback, EngineDecision, ok, Engine, evaluate, resolve_strategy,
}
use haojie.Decision.Engine.Fallbacks.{Decides, evaluate-Decides}
use haojie.Decision.Service.{
  is_valid, ServiceSettings, ServiceRequest, DecisionResponse, answer, Service, decide,
  cached_answer, materialize,
}
use haojie.Decision.Service.Review.{IsRanking, materialize-reviewed}
use haojie.Decision.Service.Shared.{without_stock, decide-shared}

abbrev ruled : Outcome
ruled = record {
  candidates = ("approve_purchase", 7500) ∷ ("check_inventory", 5000) ∷ [];
  risk_score = 1000;
  strategy = rules_name;
  ml_fallback = none;
}

abbrev learned : Outcome
learned = record {
  candidates = ("check_inventory", 9000) ∷ [];
  risk_score = 3000;
  strategy = ml_name;
  ml_fallback = none;
}

abbrev weights : Weights
weights = record { rules = 60; ml = 40 }

abbrev model : Model
model = record {
  State = ℕ;
  now = λ n. n;
  evaluate = λ f n. (n + 1, failed model_failed);
  evaluate_batch = λ fs n. (n + 1, failed model_failed);
}

abbrev body : DecisionRequest
body = record {
  intent = "purchase";
  confidence = 9000;
  user_type = "b2b";
  urgency = "low";
  unit_price = some 1000;
  quantity = some 2;
  total_amount = none;
  budget = none;
  discount_pct = none;
  supplier_rating = none;
  history_orders = 0;
  history_returns = 0;
  risk_score = none;
  lead_time_days = none;
  in_stock = some false;
  promotion_active = none;
  has_alternatives = none;
  has_product_id = true;
}

abbrev engine : Engine model []
engine = record {
  settings = record {
    strategy = ml;
    allow_rules_fallback = true;
    low_confidence_threshold = 4000;
    weights = weights;
  };
  has_ml = true;
  breaker = fresh 2 30;
  model = 0;
}

by_model : resolve_strategy model [] none engine ≡ ok by_ml
unfolding resolve_strategy upper_eq
by_model = refl

differ : by_ml ≢ rules_fallback
differ h = cc h

evaluate-Decides_example :
    Decides model [] (extract body) engine by_ml (evaluate model [] (extract body) none engine)
evaluate-Decides_example =
    evaluate-Decides model [] (extract body) none engine by_ml
      (fresh-IsValid 2 30 (omega arith) (omega arith)) refl by_model differ

abbrev tripped : Breaker
tripped = record {
  failure_threshold = 2;
  recovery_seconds = 30;
  state = Breaker.opened;
  failures = 2;
  opened_at = some 0;
}

tripped-IsValid : IsValid tripped
tripped-IsValid = ground arith

abbrev shut_engine : Engine model []
shut_engine = record engine { breaker = tripped }

by_model_too : resolve_strategy model [] none shut_engine ≡ ok by_ml
unfolding resolve_strategy upper_eq
by_model_too = refl

shut : answers 0 tripped ≡ false
unfolding answers
shut = refl

abbrev settings : ServiceSettings
settings = record {
  cache_enabled = true;
  top_k_alternatives = 2;
  confident_threshold = 6500;
  risk_review_threshold = 7000;
  require_human_review_above = 10000000;
  max_auto_approve_amount = 5000000;
}

abbrev request : ServiceRequest
request = record {
  request_id = some "q1";
  session_id = none;
  language = "en";
  strategy_override = none;
  body = body;
}

abbrev ruled_decision : EngineDecision
ruled_decision = record {
  outcome = ruled;
  features = extract body;
  actual_strategy = rules_fallback;
  fallback_reasons = circuit_open ∷ [];
}

materialize-reviewed_example :
    let x = materialize settings request (extract body) ruled_decision in
    IsRanking (x.action, x.confidence) 3 x.candidates
    × (x.requires_review ≡ false
        → (x.risk_score < 7000)
          × (((extract body).total_amount ≡ 0) ⊎ ((extract body).total_amount < 10000000))
          × (x.action ≢ "escalate_to_human")
          × (x.action ≡ "approve_purchase" → (extract body).total_amount ≤ 5000000))
materialize-reviewed_example = materialize-reviewed settings request (extract body) ruled_decision

abbrev no_redis : Redis DecisionResponse
no_redis = record {
  Server = Unit;
  fetch = λ k s. (s, none);
  setex = λ k ttl raw s. (s, false);
  flushdb = λ s. (s, false);
  loads = λ raw. none;
  dumps = λ v. "";
}

abbrev digest : List String → List ℕ → Option String → String
digest texts numbers override = "key"

abbrev Decisions : Type 0
Decisions = Service model [] no_redis digest

abbrev decisions : Decisions
decisions = record {
  settings = settings;
  engine = shut_engine;
  cache = record { mem = lru 10; ttl = 60; namespaced = λ k. k; client = none };
}

abbrev response : DecisionResponse
response = record {
  request_id = some "q1";
  session_id = none;
  action = "request_more_info";
  confidence = 5000;
  confident = false;
  risk_score = 0;
  requires_review = false;
  candidates = ("request_more_info", 5000) ∷ ("no_action", 3000) ∷ [];
  strategy = rules_fallback;
  cached = false;
  ml_fallback = none;
  fallback_reasons = circuit_open ∷ [];
}

abbrev after_first : Decisions
after_first = record decisions {
  cache = record {
    mem = record { capacity = 10; store = ("key", response) ∷ [] };
    ttl = 60;
    namespaced = λ k. k;
    client = none;
  };
}

first_decision : decide model [] no_redis digest request decisions ≡ (after_first, answer response)
unfolding decide Cache.get Cache.set lru lookup insert erase evaluate upper_eq
    Breaker.ensure_allowed Rules.evaluate is_registered is_allowed actions_for_audience
first_decision = refl

memory_bound : IsBounded decisions.cache.mem × (0 < decisions.cache.mem.capacity)
unfolding lru
memory_bound = (record { bounded = omega arith; distinct = tt }, omega arith)

valid_body : is_valid body ≡ true
unfolding is_valid
valid_body = refl

decide-shared_example :
    let p = decide model [] no_redis digest (without_stock request) after_first in
    (p.1 ≡ answer (cached_answer request response)) × (p.0.engine ≡ after_first.engine)
decide-shared_example =
    decide-shared model [] no_redis digest request response decisions after_first refl memory_bound
      first_decision refl refl valid_body
