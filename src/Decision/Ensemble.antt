-- ===== src/Decision/Ensemble.antt =====
-- The ensemble of the decision service (decision/strategies/ensemble.py): the rules and the model,
-- blended.
--
-- Weights are in hundredths. Confidences and risks are in ten-thousandths, so that a rule's hundredths
-- are exact; the rounding to four places is written out. Texts are left out.
pub mod Blend
use haojie.Common.{
  ℕ, ◌+◌, ◌*◌, Bool, true, false, Option, none, some, String, List, [], ◌∷◌, ltb, ◌==◌,
  if◌then◌else◌, min, Dict, lookup, insert, get_or, map,
}
use haojie.Llm.Catalog.{round_half_even}
use haojie.Decision.Catalog.{fallback_action}
use haojie.Decision.Rules as Rules
use haojie.Decision.Rules.{ordered}

-- Why the model has not answered: it is not configured, or one of its errors; `crashed` is any
-- other exception.
pub data Reason : Type 0 where
  ml_not_configured circuit_open model_not_ready model_failed : Reason

pub data StrategyName : Type 0 where
  rules ml ensemble_rules ensemble_rules_dominant ensemble_blended : StrategyName

-- `StrategyOutcome`, of any strategy.
pub record Outcome : Type 0 where
  pub candidates : Dict ℕ
  pub risk_score : ℕ
  pub strategy : StrategyName
  pub ml_fallback : Option Reason

-- `top_confidence`
unfoldable pub top_confidence : Outcome → ℕ
top_confidence o = elim o.candidates [ [] ↦ 0 | e ∷ d ↦ e.1 ]

-- What the rule strategy answers.
unfoldable pub of_rules : Rules.StrategyOutcome → Outcome
of_rules o = record {
  candidates = map (λ (e : String × ℕ). (e.0, e.1 * 100)) o.candidates;
  risk_score = o.risk_score * 100;
  strategy = rules;
  ml_fallback = none;
}

pub record Weights : Type 0 where
  pub rules : ℕ
  pub ml : ℕ

-- `_tag_only_rules`
unfoldable pub tag_only_rules : Outcome → Reason → Outcome
tag_only_rules o reason = record o { strategy = ensemble_rules; ml_fallback = some reason }

-- The loop over the candidates of one strategy.
unfoldable pub add_scores : ℕ → Dict ℕ → Dict ℕ → Dict ℕ
add_scores w [] scores = scores
add_scores w (e ∷ d) scores =
    add_scores w d (insert e.0 (get_or (lookup e.0 scores) 0 + w * e.1) scores)

unfoldable pub or_nothing : Dict ℕ → Dict ℕ
or_nothing [] = (fallback_action, 0) ∷ []
or_nothing (e ∷ d) = e ∷ d

-- `ordered[0][1] or 1.0`; where the highest score is 0 all are, whatever they are divided by.
unfoldable pub max_score : Dict ℕ → ℕ
max_score [] = 1
max_score (e ∷ d) = if e.1 == 0 then 1 else e.1

-- `round(min(1.0, s / max_score), 4)`
unfoldable pub relative : ℕ → ℕ → ℕ
relative top s = min 10000 (round_half_even (s * 10000) top)

unfoldable pub normalised : Dict ℕ → Dict ℕ
unfolding max_score relative
normalised d = map (λ (e : String × ℕ). (e.0, relative (max_score d) e.1)) d

-- The weights in ten-thousandths, the model's cut to a third where it is unsure.
unfoldable pub rules_weight : Weights → ℕ
rules_weight w = w.rules * 100

unfoldable pub ml_weight : Weights → Bool → ℕ
ml_weight w low = w.ml * (if low then 33 else 100)

unfoldable pub blended_scores : Weights → Bool → Outcome → Outcome → Dict ℕ
unfolding add_scores rules_weight ml_weight
blended_scores w low r m =
    add_scores (ml_weight w low) m.candidates (add_scores (rules_weight w) r.candidates [])

-- The weights are not both 0, and so the lower bound of the divisor is never met.
unfoldable pub blended_risk : Weights → Bool → Outcome → Outcome → ℕ
unfolding rules_weight ml_weight
blended_risk w low r m =
    let wr = rules_weight w in
    let wm = ml_weight w low in
    let total = r.risk_score * wr + m.risk_score * wm in
    if low
    then min 10000 (round_half_even (total + 500 * (wr + wm)) (wr + wm))
    else round_half_even total (wr + wm)

-- `_blend`
unfoldable pub blend : Weights → Bool → Outcome → Outcome → Outcome
unfolding blended_scores or_nothing normalised blended_risk
blend w low r m = record {
  candidates = normalised (ordered (or_nothing (blended_scores w low r m)));
  risk_score = blended_risk w low r m;
  strategy = if low then ensemble_rules_dominant else ensemble_blended;
  ml_fallback = none;
}
