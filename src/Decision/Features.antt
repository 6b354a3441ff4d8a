-- ===== src/Decision/Features.antt =====
-- The features of a decision request (decision/features.py).
--
-- The numbers are exact here: amounts of money in hundredths, confidences, risks and ratings in
-- ten-thousandths, and a quotient as a fraction. An amount of a request that is missing counts as 0.
-- The language and the metadata are only passed on to texts, and left out.
use haojie.Common.{
  ℕ, ◌*◌, Bool, true, false, Option, none, some, String, ltb, ◌==◌, if◌then◌else◌, get_or, max,
}

pub record Ratio : Type 0 where
  pub num : ℕ
  pub den : ℕ

-- A boolean as a float: 0.0, 0.5 for unknown, or 1.0.
pub data Flag : Type 0 where
  zero_flag half_flag one_flag : Flag

-- What the extractor reads of `DecisionRequest`.
pub record DecisionRequest : Type 0 where
  pub intent : String
  pub confidence : ℕ
  pub user_type : String
  pub urgency : String
  pub unit_price : Option ℕ
  pub quantity : Option ℕ
  pub total_amount : Option ℕ
  pub budget : Option ℕ
  pub discount_pct : Option ℕ
  pub supplier_rating : Option ℕ
  pub history_orders : ℕ
  pub history_returns : ℕ
  pub risk_score : Option ℕ
  pub lead_time_days : Option ℕ
  pub in_stock : Option Bool
  pub promotion_active : Option Bool
  pub has_alternatives : Option Bool
  pub has_product_id : Bool

pub record FeatureVector : Type 0 where
  pub intent : String
  pub user_type : String
  pub urgency : String
  pub intent_confidence : ℕ
  pub unit_price : ℕ
  pub quantity : ℕ
  pub total_amount : ℕ
  pub budget : ℕ
  pub price_to_budget_ratio : Ratio
  pub discount_pct : ℕ
  pub supplier_rating : ℕ
  pub history_orders : ℕ
  pub history_returns : ℕ
  pub return_ratio : Ratio
  pub buyer_risk_score : ℕ
  pub lead_time_days : ℕ
  pub in_stock : Flag
  pub promotion_active : Flag
  pub has_alternatives : Flag
  pub has_budget : Bool
  pub has_product : Bool

-- `_bool_to_float`
bool_to_flag : Option Bool → Flag
bool_to_flag none = half_flag
bool_to_flag (some true) = one_flag
bool_to_flag (some false) = zero_flag

-- `_clip` to the interval from 0 to `hi`; a quotient is never negative, and 0 where the divisor is.
clip : ℕ → Ratio → Ratio
clip hi r = if ltb (hi * r.den) r.num then record { num = hi; den = 1 } else r

-- `x / y if y > 0 else 0.0`
quotient : ℕ → ℕ → Ratio
quotient x y = if ltb 0 y then record { num = x; den = y } else record { num = 0; den = 1 }

-- `product.total_amount or unit_price * max(quantity, 1.0)`
total_of : Option ℕ → ℕ → ℕ → ℕ
total_of given unit_price quantity =
    let stated = get_or given 0 in if stated == 0 then unit_price * max quantity 1 else stated

unfoldable pub extract : DecisionRequest → FeatureVector
unfolding bool_to_flag clip quotient total_of
extract q =
    let unit_price = get_or q.unit_price 0 in
    let quantity = get_or q.quantity 0 in
    let total_amount = total_of q.total_amount unit_price quantity in
    let budget = get_or q.budget 0 in
    record {
      intent = q.intent;
      user_type = q.user_type;
      urgency = q.urgency;
      intent_confidence = q.confidence;
      unit_price = unit_price;
      quantity = quantity;
      total_amount = total_amount;
      budget = budget;
      price_to_budget_ratio = clip 10 (quotient total_amount budget);
      discount_pct = get_or q.discount_pct 0;
      supplier_rating = get_or q.supplier_rating 0;
      history_orders = q.history_orders;
      history_returns = q.history_returns;
      return_ratio = clip 1 (quotient q.history_returns q.history_orders);
      buyer_risk_score = get_or q.risk_score 0;
      lead_time_days = get_or q.lead_time_days 0;
      in_stock = bool_to_flag q.in_stock;
      promotion_active = bool_to_flag q.promotion_active;
      has_alternatives = bool_to_flag q.has_alternatives;
      has_budget = ltb 0 budget;
      has_product = q.has_product_id;
    }
