-- ===== src/Decision/Engine.antt =====
-- The decision engine (decision/engine.py): the choice of the strategy, the breaker before the model,
-- and the fallback to the rules. The breaker is the class of llm/circuit_breaker.py under another name.
--
-- The model is a parameter, whose state is threaded through, with the clock. An ensemble that is built
-- on demand is the one that would be built at the start. Metrics and latencies are left out.
pub mod Fallbacks
use haojie.Common.{
  ℕ, Bool, true, false, Option, none, some, String, List, [], ◌∷◌, ltb, if◌then◌else◌, str_eq,
  upper_eq, map,
}
use haojie.Breaker
use haojie.Breaker.{Breaker, circuit_open_error}
use haojie.Decision.Features.{FeatureVector}
use haojie.Decision.Rules as Rules
use haojie.Decision.Rules.{Rule}
use haojie.Decision.Ensemble.{
  Outcome, Weights, Reason, ml_not_configured, circuit_open, model_not_ready, model_failed,
  of_rules, top_confidence, tag_only_rules, blend,
}

pub data DecisionStrategyKind : Type 0 where
  rules ml ensemble : DecisionStrategyKind

abbrev pub kind_value : DecisionStrategyKind → String
kind_value rules = "rules"
kind_value ml = "ml"
kind_value ensemble = "ensemble"

-- How the model ends: with an answer, or one of its errors.
pub data ModelReply (A : Type 0) : Type 0 where
  answered : A → ModelReply A
  failed : Reason → ModelReply A

pub record Model : Type 1 where
  pub State : Type 0
  pub now : State → ℕ
  pub evaluate : FeatureVector → State → State × ModelReply Outcome
  pub evaluate_batch : List FeatureVector → State → State × ModelReply (List Outcome)

pub record EngineSettings : Type 0 where
  pub strategy : DecisionStrategyKind
  pub allow_rules_fallback : Bool
  pub low_confidence_threshold : ℕ
  pub weights : Weights

-- `actual_strategy`
pub data Kind : Type 0 where
  by_rules by_ml by_ensemble rules_fallback : Kind

pub record EngineDecision : Type 0 where
  pub outcome : Outcome
  pub features : FeatureVector
  pub actual_strategy : Kind
  pub fallback_reasons : List Reason

-- What the engine raises; `broken` is the failed assertion of the breaker.
pub data Raised : Type 0 where
  unsupported_strategy broken : Raised
  model_error : Reason → Raised

pub data Reply (A : Type 0) : Type 0 where
  ok : A → Reply A
  raise : Raised → Reply A

-- `kind = (override or settings.strategy.value).lower()`; the values are texts of ASCII.
unfoldable pub kind_of : Option String → DecisionStrategyKind → String
kind_of none kind = kind_value kind
kind_of (some v) kind = if str_eq v "" then kind_value kind else v

-- An ensemble catches the errors of the model, its own included.
unfoldable pub ensemble_of : EngineSettings → Outcome → ModelReply Outcome → Outcome
ensemble_of s r (failed reason) = tag_only_rules r reason
ensemble_of s r (answered o) =
    blend s.weights (ltb (top_confidence o) s.low_confidence_threshold) r o

module _ (M : Model) (policy : List Rule) where
  open M use {State, now}

  -- The model may be missing; the rules are the same all along.
  pub record Engine : Type 0 where
    pub settings : EngineSettings
    pub has_ml : Bool
    pub breaker : Breaker
    pub model : State

  -- `self.rules.evaluate`
  unfoldable pub by_policy : FeatureVector → Outcome
  unfolding of_rules
  by_policy f = of_rules (Rules.evaluate policy f)

  -- `_resolve_strategy`
  unfoldable pub resolve_strategy : Option String → Engine → Reply Kind
  unfolding kind_of
  resolve_strategy override e =
      let kind = kind_of override e.settings.strategy in
      if upper_eq kind "rules"
      then ok by_rules
      else if upper_eq kind "ml"
      then (if e.has_ml then ok by_ml else raise unsupported_strategy)
      else if upper_eq kind "ensemble"
      then ok by_ensemble
      else raise unsupported_strategy

  pub decided : FeatureVector → Outcome → Kind → List Reason → EngineDecision
  decided f o kind reasons = record {
    outcome = o;
    features = f;
    actual_strategy = kind;
    fallback_reasons = reasons;
  }

  -- The model was called behind the breaker. Its own open circuit is caught outside, and unheard of.
  after_model : FeatureVector → Engine → State × ModelReply Outcome → Engine × Reply EngineDecision
  unfolding decided by_policy
  after_model f e (m, answered o) = (
    record e { model = m; breaker = Breaker.record_success e.breaker },
    ok (decided f o by_ml []),
  )
  after_model f e (m, failed circuit_open) =
      (record e { model = m }, ok (decided f (by_policy f) rules_fallback (circuit_open ∷ [])))
  after_model f e (m, failed reason) =
      let e' : Engine = record e {
        model = m;
        breaker = Breaker.record_failure (now m) e.breaker;
      } in
      if e.settings.allow_rules_fallback
      then (e', ok (decided f (by_policy f) rules_fallback (reason ∷ [])))
      else (e', raise (model_error reason))

  after_ensure :
      FeatureVector → Engine → Breaker × Breaker.Result (Unit {0}) → Engine × Reply EngineDecision
  unfolding after_model decided by_policy
  after_ensure f e (b, Breaker.ok _) =
      after_model f (record e { breaker = b }) (M.evaluate f e.model)
  after_ensure f e (b, Breaker.raise circuit_open_error) =
      (record e { breaker = b }, ok (decided f (by_policy f) rules_fallback (circuit_open ∷ [])))
  after_ensure f e (b, Breaker.raise _) = (e, raise broken)

  pub reasons_of : Option Reason → List Reason
  reasons_of none = []
  reasons_of (some r) = r ∷ []

  pub after_ensemble :
      FeatureVector → Engine → State × ModelReply Outcome → Engine × Reply EngineDecision
  unfolding decided by_policy ensemble_of reasons_of
  after_ensemble f e (m, reply) =
      let o = ensemble_of e.settings (by_policy f) reply in
      (record e { model = m }, ok (decided f o by_ensemble (reasons_of o.ml_fallback)))

  with_kind : FeatureVector → Engine → Reply Kind → Engine × Reply EngineDecision
  unfolding after_ensure after_ensemble decided by_policy
  with_kind f e (raise x) = (e, raise x)
  with_kind f e (ok by_ml) = after_ensure f e (Breaker.ensure_allowed (now e.model) e.breaker)
  with_kind f e (ok by_ensemble) =
      after_ensemble f e
        (if e.has_ml then M.evaluate f e.model else (e.model, failed ml_not_configured))
  with_kind f e (ok _) = (e, ok (decided f (by_policy f) by_rules []))

  -- `evaluate`
  unfoldable pub evaluate : FeatureVector → Option String → Engine → Engine × Reply EngineDecision
  unfolding with_kind resolve_strategy
  evaluate f override e = with_kind f e (resolve_strategy override e)

  -- `zip`, for outcomes of the batch in its order.
  pub decided_each : Kind → List FeatureVector → List Outcome → List EngineDecision
  unfolding decided reasons_of
  decided_each kind [] os = []
  decided_each kind (f ∷ fs) [] = []
  decided_each kind (f ∷ fs) (o ∷ os) =
      decided f o kind (reasons_of o.ml_fallback) ∷ decided_each kind fs os

  -- `evaluate_batch` of the rules
  by_policy_each : List FeatureVector → List Outcome
  unfolding by_policy
  by_policy_each fs = map by_policy fs

  -- `evaluate_batch` of the ensemble, with the model's answers
  blend_each : EngineSettings → List FeatureVector → List Outcome → List Outcome
  unfolding by_policy ensemble_of
  blend_each s [] os = []
  blend_each s (f ∷ fs) [] = []
  blend_each s (f ∷ fs) (o ∷ os) = ensemble_of s (by_policy f) (answered o) ∷ blend_each s fs os

  ensemble_each : EngineSettings → List FeatureVector → ModelReply (List Outcome) → List Outcome
  unfolding blend_each by_policy_each
  ensemble_each s fs (answered os) = blend_each s fs os
  ensemble_each s fs (failed reason) = map (λ o. tag_only_rules o reason) (by_policy_each fs)

  after_model_batch :
      List FeatureVector
      → Engine
      → State × ModelReply (List Outcome)
      → Engine × Reply (List EngineDecision)
  unfolding decided_each by_policy_each
  after_model_batch fs e (m, answered os) = (
    record e { model = m; breaker = Breaker.record_success e.breaker },
    ok (decided_each by_ml fs os),
  )
  after_model_batch fs e (m, failed circuit_open) =
      (record e { model = m }, ok (decided_each rules_fallback fs (by_policy_each fs)))
  after_model_batch fs e (m, failed reason) =
      let e' : Engine = record e {
        model = m;
        breaker = Breaker.record_failure (now m) e.breaker;
      } in
      if e.settings.allow_rules_fallback
      then (e', ok (decided_each rules_fallback fs (by_policy_each fs)))
      else (e', raise (model_error reason))

  pub after_ensure_batch :
      List FeatureVector
      → Engine
      → Breaker × Breaker.Result (Unit {0})
      → Engine × Reply (List EngineDecision)
  unfolding after_model_batch decided_each by_policy_each
  after_ensure_batch fs e (b, Breaker.ok _) =
      after_model_batch fs (record e { breaker = b }) (M.evaluate_batch fs e.model)
  after_ensure_batch fs e (b, Breaker.raise circuit_open_error) =
      (record e { breaker = b }, ok (decided_each rules_fallback fs (by_policy_each fs)))
  after_ensure_batch fs e (b, Breaker.raise _) = (e, raise broken)

  pub with_kind_batch :
      List FeatureVector → Engine → Reply Kind → Engine × Reply (List EngineDecision)
  unfolding after_ensure_batch ensemble_each decided_each by_policy_each
  with_kind_batch fs e (raise x) = (e, raise x)
  with_kind_batch fs e (ok by_ml) =
      after_ensure_batch fs e (Breaker.ensure_allowed (now e.model) e.breaker)
  with_kind_batch fs e (ok by_ensemble) =
      let (m, reply) =
        if e.has_ml then M.evaluate_batch fs e.model else (e.model, failed ml_not_configured) in
      (record e { model = m }, ok (decided_each by_ensemble fs (ensemble_each e.settings fs reply)))
  with_kind_batch fs e (ok _) = (e, ok (decided_each by_rules fs (by_policy_each fs)))

  -- `evaluate_batch`
  unfoldable pub evaluate_batch :
      List FeatureVector → Option String → Engine → Engine × Reply (List EngineDecision)
  unfolding with_kind_batch resolve_strategy
  evaluate_batch [] override e = (e, ok [])
  evaluate_batch (f ∷ fs) override e = with_kind_batch (f ∷ fs) e (resolve_strategy override e)
