-- ===== src/Decision/Rules/Policy.antt =====
-- The default policy (decision/strategies/rules.py, `_build_default_rules`): its rules in their order.
use haojie.Common.{
  ℕ, ◌*◌, Bool, true, false, ◌&&◌, not, String, List, [], ◌∷◌, leb, ltb, str_eq, any, all,
}
use haojie.Decision.Features.{FeatureVector, Ratio, Flag, zero_flag, half_flag, one_flag}
use haojie.Decision.Rules.{Rule}

-- The two thresholds of the settings that the policy reads.
pub record DecisionSettings : Type 0 where
  pub max_auto_approve_amount : ℕ
  pub require_human_review_above : ℕ

abbrev pub Predicate : Type 0
Predicate = FeatureVector → Bool

unfoldable pub intent_in : List String → Predicate
intent_in ids f = any (str_eq f.intent) ids

unfoldable pub is_b2b : Predicate
is_b2b f = str_eq f.user_type "b2b"

unfoldable pub is_b2c : Predicate
is_b2c f = str_eq f.user_type "b2c"

unfoldable pub and_all : List Predicate → Predicate
and_all preds f = all (λ p. p f) preds

unfoldable pub is_one : Flag → Bool
is_one zero_flag = false
is_one half_flag = false
is_one one_flag = true

is_zero : Flag → Bool
is_zero zero_flag = true
is_zero half_flag = false
is_zero one_flag = false

-- `ratio >= 1.5` and `ratio > 1.0`
unfoldable pub well_over : Ratio → Bool
well_over r = leb (3 * r.den) (2 * r.num)

unfoldable pub over : Ratio → Bool
over r = ltb r.den r.num

rule : String → Predicate → String → ℕ → ℕ → Rule
rule name when action score risk_delta = record {
  name = name;
  when = when;
  action = action;
  score = score;
  risk_delta = risk_delta;
}

unfoldable pub small_purchase : ℕ → Predicate
unfolding is_one
small_purchase floor f =
    ltb 0 f.total_amount
    && leb f.total_amount floor
    && any (str_eq f.intent) ("place_order" ∷ "bulk_order" ∷ [])
    && is_one f.in_stock
    && ltb f.buyer_risk_score 5000

unfoldable pub high_value : ℕ → Predicate
high_value ceiling f = leb ceiling f.total_amount

unfoldable pub over_budget : Predicate
unfolding well_over
over_budget f = f.has_budget && ltb 0 f.total_amount && well_over f.price_to_budget_ratio

unfoldable pub build_default_rules : DecisionSettings → List Rule
unfolding rule intent_in is_b2b is_b2c and_all is_one is_zero well_over over small_purchase
    high_value over_budget
build_default_rules settings =
    rule "explicit_cancel" (intent_in ("cancel_order" ∷ [])) "cancel_request" 95 10
    ∷ rule "explicit_return" (intent_in ("return_refund" ∷ [])) "initiate_return" 95 5
    ∷ rule "complaint_escalate" (intent_in ("complaint" ∷ "contact_support" ∷ []))
        "escalate_to_human" 85 20
    ∷ rule "search_then_recommend" (intent_in ("search_product" ∷ "get_recommendation" ∷ []))
        "recommend_alternatives" 70 0
    ∷ rule "compare_alts" (intent_in ("compare_products" ∷ [])) "compare_alternatives" 85 0
    ∷ rule "show_details" (intent_in ("product_info" ∷ "view_reviews" ∷ [])) "show_product_details"
        80 0
    ∷ rule "check_stock_intent" (intent_in ("check_stock" ∷ [])) "check_inventory" 85 0
    ∷ rule "oos_recommend_alts" (λ f. is_zero f.in_stock && is_one f.has_alternatives)
        "recommend_alternatives" 65 0
    ∷ rule "b2c_place_order"
        (and_all (
          is_b2c
          ∷ intent_in ("place_order" ∷ [])
          ∷ (λ f. not (f.has_budget && well_over f.price_to_budget_ratio))
          ∷ []))
        "proceed_to_checkout" 85 10
    ∷ rule "b2c_search_in_stock_add_cart"
        (and_all (
          is_b2c
          ∷ intent_in ("inquire_price" ∷ "search_product" ∷ [])
          ∷ (λ f. is_one f.in_stock)
          ∷ []))
        "add_to_cart" 55 0
    ∷ rule "wait_for_promo"
        (and_all (
          is_b2c
          ∷ (λ f. is_zero f.promotion_active && str_eq f.urgency "low" && f.has_product)
          ∷ []))
        "wait_for_promotion" 45 0
    ∷ rule "b2b_request_quote"
        (and_all (is_b2b ∷ intent_in ("request_quote" ∷ "inquire_price" ∷ []) ∷ [])) "request_quote"
        85 5
    ∷ rule "b2b_bulk_order" (and_all (is_b2b ∷ intent_in ("bulk_order" ∷ "place_order" ∷ []) ∷ []))
        "bulk_order" 80 20
    ∷ rule "b2b_negotiate" (and_all (is_b2b ∷ intent_in ("negotiate_terms" ∷ []) ∷ []))
        "negotiate_terms" 85 10
    ∷ rule "b2b_supplier_info" (and_all (is_b2b ∷ intent_in ("supplier_info" ∷ []) ∷ []))
        "contact_supplier" 75 0
    ∷ rule "auto_approve_small_purchase" (small_purchase settings.max_auto_approve_amount)
        "approve_purchase" 75 15
    ∷ rule "escalate_high_value" (high_value settings.require_human_review_above)
        "escalate_to_human" 90 30
    ∷ rule "reject_over_budget" over_budget "reject_purchase" 80 25
    ∷ rule "defer_marginal_budget"
        (λ f.
          f.has_budget && over f.price_to_budget_ratio && not (well_over f.price_to_budget_ratio))
        "defer_decision" 55 10
    ∷ rule "high_risk_buyer_review"
        (λ f.
          leb 7000 f.buyer_risk_score
          && any (str_eq f.intent) ("place_order" ∷ "bulk_order" ∷ "request_quote" ∷ []))
        "escalate_to_human" 70 30
    ∷ rule "poor_supplier_warning"
        (λ f. ltb 0 f.supplier_rating && ltb f.supplier_rating 25000 && is_b2b f) "contact_supplier"
        50 20
    ∷ rule "greeting" (intent_in ("greeting" ∷ [])) "no_action" 55 0
    ∷ rule "farewell" (intent_in ("farewell" ∷ [])) "no_action" 55 0
    ∷ rule "unclear_request_more_info"
        (λ f. ltb 0 f.intent_confidence && ltb f.intent_confidence 4000) "request_more_info" 55 0
    ∷ []
