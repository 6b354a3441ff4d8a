-- ===== src/Tests/Decisions.antt =====
-- Runs of the decision rules: a business orders 20 pieces at 6 000 each, above the review threshold.
use haojie.Common.{
  ℕ, ◌≤◌, ◌≡◌, refl, true, none, some, [], ◌∷◌, lookup, if◌then◌else◌, arith, inl, str_eq_iff,
  insert, ◌&&◌, min,
}
use haojie.Decision.Catalog.{is_registered, actions_for_audience}
use haojie.Decision.Features.{DecisionRequest, FeatureVector, extract}
use haojie.Decision.Rules.{evaluate, is_allowed, vote}
use haojie.Decision.Rules.Policy.{DecisionSettings, build_default_rules}
use haojie.Decision.Rules.Votes.{lookup-evaluate, has_vote, votes}
use haojie.Decision.Rules.Approval.{high_value_escalates}

abbrev settings : DecisionSettings
settings = record { max_auto_approve_amount = 5000000; require_human_review_above = 10000000 }

abbrev request : DecisionRequest
request = record {
  intent = "bulk_order";
  confidence = 9000;
  user_type = "b2b";
  urgency = "high";
  unit_price = some 600000;
  quantity = some 20;
  total_amount = none;
  budget = none;
  discount_pct = none;
  supplier_rating = none;
  history_orders = 3;
  history_returns = 0;
  risk_score = none;
  lead_time_days = none;
  in_stock = some true;
  promotion_active = none;
  has_alternatives = none;
  has_product_id = true;
}

abbrev large : FeatureVector
large = extract request

abbrev small : FeatureVector
small = extract (record request { quantity = some 2 })

evaluate_test :
    (evaluate (build_default_rules settings) large).candidates
    ≡ ("escalate_to_human", 90) ∷ ("bulk_order", 80) ∷ []
unfolding evaluate build_default_rules extract vote insert lookup is_registered is_allowed
    actions_for_audience
evaluate_test = refl

lookup-evaluate_example :
    lookup "bulk_order" (evaluate (build_default_rules settings) small).candidates ≡ (
      if is_allowed small.user_type "bulk_order"
        && is_registered "bulk_order"
        && has_vote "bulk_order" (build_default_rules settings) small
      then some (min 100 (votes "bulk_order" (build_default_rules settings) small))
      else none)
lookup-evaluate_example =
    lookup-evaluate "bulk_order" (build_default_rules settings) small
      (λ e. ground (arith, (str_eq_iff "bulk_order" "no_action").1 e))
      (λ e. ground (arith, (str_eq_iff "bulk_order" "request_more_info").1 e))

large_b2b : large.user_type ≡ "b2b"
unfolding extract
large_b2b = refl

large_high : 10000000 ≤ large.total_amount
unfolding extract
large_high = omega arith

high_value_escalates_example :
    ((n : ℕ) × (lookup "escalate_to_human"
          (evaluate (build_default_rules settings) large).candidates
        ≡ some n)
      × (90 ≤ n))
    × (lookup "approve_purchase" (evaluate (build_default_rules settings) large).candidates ≡ none)
high_value_escalates_example =
    high_value_escalates settings large (inl large_b2b) (omega arith) large_high
