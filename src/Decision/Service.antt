-- ===== src/Decision/Service.antt =====
-- The decision service (decision/service.py): the cache before the engine, and the response with its
-- flag for a human's review.
--
-- The features are those of Features; the language of a request is text, and only part of the cache's
-- key here. The digest that makes a key of texts and numbers is a parameter. Labels, rationales and
-- next steps are left out.
pub mod Review
pub mod Shared
use haojie.Common.{
  ℕ, suc, ◌+◌, Bool, true, false, ◌&&◌, Option, none, some, String, List, [], ◌∷◌, take, ltb, leb,
  ◌==◌, if◌then◌else◌, str_eq, Dict,
}
use haojie.Cache
use haojie.Cache.{Redis, Cache}
use haojie.Decision.Catalog.{fallback_action, is_registered}
use haojie.Decision.Features.{
  DecisionRequest, FeatureVector, Flag, zero_flag, half_flag, one_flag, extract,
}
use haojie.Decision.Rules.{Rule}
use haojie.Decision.Ensemble.{Outcome, Reason}
use haojie.Decision.Engine.{Model, Engine, EngineDecision, Kind, Raised, Reply, ok, raise, evaluate}

-- What the service reads of `DecisionSettings`; amounts are in hundredths, the rest in ten-thousandths.
pub record ServiceSettings : Type 0 where
  pub cache_enabled : Bool
  pub top_k_alternatives : ℕ
  pub confident_threshold : ℕ
  pub risk_review_threshold : ℕ
  pub require_human_review_above : ℕ
  pub max_auto_approve_amount : ℕ

pub record ServiceRequest : Type 0 where
  pub request_id : Option String
  pub session_id : Option String
  pub language : String
  pub strategy_override : Option String
  pub body : DecisionRequest

pub record DecisionResponse : Type 0 where
  pub request_id : Option String
  pub session_id : Option String
  pub action : String
  pub confidence : ℕ
  pub confident : Bool
  pub risk_score : ℕ
  pub requires_review : Bool
  pub candidates : Dict ℕ
  pub strategy : Kind
  pub cached : Bool
  pub ml_fallback : Option Reason
  pub fallback_reasons : List Reason

-- `int(flag)`: 0.5 is cut to 0.
unfoldable pub int_of : Flag → ℕ
int_of zero_flag = 0
int_of half_flag = 0
int_of one_flag = 1

abbrev bit : Bool → ℕ
bit true = 1
bit false = 0

-- The numbers of `FeatureVector.cache_key`, in its order.
unfoldable pub key_numbers : FeatureVector → List ℕ
unfolding int_of
key_numbers f =
    f.intent_confidence
    ∷ f.unit_price
    ∷ f.quantity
    ∷ f.total_amount
    ∷ f.budget
    ∷ f.discount_pct
    ∷ f.supplier_rating
    ∷ f.history_orders
    ∷ f.history_returns
    ∷ f.buyer_risk_score
    ∷ f.lead_time_days
    ∷ int_of f.in_stock
    ∷ int_of f.promotion_active
    ∷ int_of f.has_alternatives
    ∷ bit f.has_budget
    ∷ bit f.has_product
    ∷ []

-- `x or y`, for two optional texts.
unfoldable pub truthy_or : Option String → Option String → Option String
truthy_or none y = y
truthy_or (some x) y = if str_eq x "" then y else some x

-- The first candidates of an outcome, those that are registered.
unfoldable pub registered : Dict ℕ → Dict ℕ
registered [] = []
registered (e ∷ d) = let rest = registered d in if is_registered e.0 then e ∷ rest else rest

unfoldable pub or_none : Dict ℕ → Dict ℕ
or_none [] = (fallback_action, 0) ∷ []
or_none (e ∷ d) = e ∷ d

unfoldable pub top_of : Dict ℕ → String × ℕ
top_of [] = (fallback_action, 0)
top_of (e ∷ d) = e

-- `_needs_review`
unfoldable pub needs_review : ServiceSettings → FeatureVector → String → ℕ → Bool
needs_review s f action risk =
    if leb s.risk_review_threshold risk
    then true
    else if ltb 0 f.total_amount && leb s.require_human_review_above f.total_amount
    then true
    else if str_eq action "escalate_to_human"
    then true
    else str_eq action "approve_purchase" && ltb s.max_auto_approve_amount f.total_amount

-- `_materialize`
unfoldable pub materialize :
    ServiceSettings → ServiceRequest → FeatureVector → EngineDecision → DecisionResponse
unfolding registered or_none top_of needs_review
materialize s r f d =
    let candidates = or_none (registered (take (1 + s.top_k_alternatives) d.outcome.candidates)) in
    let top = top_of candidates in
    record {
      request_id = r.request_id;
      session_id = r.session_id;
      action = top.0;
      confidence = top.1;
      confident = leb s.confident_threshold top.1;
      risk_score = d.outcome.risk_score;
      requires_review = needs_review s f top.0 d.outcome.risk_score;
      candidates = candidates;
      strategy = d.actual_strategy;
      cached = false;
      ml_fallback = d.outcome.ml_fallback;
      fallback_reasons = d.fallback_reasons;
    }

unfoldable pub cached_answer : ServiceRequest → DecisionResponse → DecisionResponse
unfolding truthy_or
cached_answer r x = record x {
  cached = true;
  request_id = truthy_or r.request_id x.request_id;
  session_id = truthy_or r.session_id x.session_id;
}

-- `ValidationDecisionError`, or an error of the engine.
pub data ServiceError : Type 0 where
  invalid : ServiceError
  engine_error : Raised → ServiceError

pub data Answer : Type 0 where
  answer : DecisionResponse → Answer
  error : ServiceError → Answer

-- `_validate_request`: amounts are never negative here; a quantity must be positive.
unfoldable pub is_valid : DecisionRequest → Bool
is_valid r = elim r.quantity [ none ↦ true | some q ↦ ltb 0 q ]

module _ (M : Model) (policy : List Rule) (redis : Redis DecisionResponse)
    (digest : List String → List ℕ → Option String → String) where
  pub record Service : Type 0 where
    pub settings : ServiceSettings
    pub engine : Engine M policy
    pub cache : Cache redis

  -- `_cache_key`
  unfoldable pub cache_key : FeatureVector → ServiceRequest → String
  unfolding key_numbers
  cache_key f r =
      digest (f.intent ∷ f.user_type ∷ f.urgency ∷ r.language ∷ []) (key_numbers f)
        r.strategy_override

  pub look : String → Service → Cache redis × Option DecisionResponse
  look key s = if s.settings.cache_enabled then Cache.get redis key s.cache else (s.cache, none)

  pub memorise : Bool → String → DecisionResponse → Cache redis → Cache redis
  memorise true key x c = Cache.set redis key x c
  memorise false key x c = c

  pub after_engine :
      ServiceRequest
      → FeatureVector
      → Engine M policy × Reply EngineDecision
      → Service
      → Service × Answer
  unfolding materialize memorise cache_key
  after_engine r f (e, ok d) s =
      let x = materialize s.settings r f d in
      (
        record s {
          engine = e;
          cache = memorise s.settings.cache_enabled (cache_key f r) x s.cache;
        },
        answer x,
      )
  after_engine r f (e, raise z) s = (record s { engine = e }, error (engine_error z))

  pub after_look :
      ServiceRequest
      → FeatureVector
      → Cache redis × Option DecisionResponse
      → Service
      → Service × Answer
  unfolding after_engine cached_answer
  after_look r f (c, some x) s = (record s { cache = c }, answer (cached_answer r x))
  after_look r f (c, none) s =
      after_engine r f (evaluate M policy f r.strategy_override s.engine) (record s { cache = c })

  -- `decide`
  unfoldable pub decide : ServiceRequest → Service → Service × Answer
  unfolding look after_look extract is_valid cache_key
  decide r s =
      let f = extract r.body in
      if is_valid r.body then after_look r f (look (cache_key f r) s) s else (s, error invalid)
