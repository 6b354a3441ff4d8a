-- ===== src/Decision/Catalog.antt =====
-- The actions that the decision engine may propose (decision/catalog.py).
--
-- Labels, descriptions and next steps are texts for a reader, and left out.
use haojie.Common.{Bool, true, false, ◌||◌, String, List, [], ◌∷◌, if◌then◌else◌, str_eq, any}

pub data Severity : Type 0 where
  low medium high : Severity

pub record ActionDefinition : Type 0 where
  pub id : String
  pub audiences : List String
  pub severity : Severity
  pub terminal : Bool

-- An entry of `_RAW`; each has one audience.
action : String → String → Severity → Bool → ActionDefinition
action id audience severity terminal = record {
  id = id;
  audiences = audience ∷ [];
  severity = severity;
  terminal = terminal;
}

-- `ACTION_REGISTRY` in its order.
unfoldable pub action_registry : List ActionDefinition
unfolding action
action_registry =
    action "request_more_info" "any" low false
    ∷ action "show_product_details" "any" low false
    ∷ action "recommend_alternatives" "any" low false
    ∷ action "compare_alternatives" "any" low false
    ∷ action "check_inventory" "any" low false
    ∷ action "add_to_cart" "b2c" low false
    ∷ action "proceed_to_checkout" "b2c" medium true
    ∷ action "wait_for_promotion" "b2c" low false
    ∷ action "request_quote" "b2b" medium false
    ∷ action "negotiate_terms" "b2b" medium false
    ∷ action "bulk_order" "b2b" high true
    ∷ action "approve_purchase" "any" medium true
    ∷ action "reject_purchase" "any" high true
    ∷ action "defer_decision" "any" low false
    ∷ action "escalate_to_human" "any" high false
    ∷ action "contact_supplier" "b2b" medium false
    ∷ action "cancel_request" "any" medium true
    ∷ action "initiate_return" "any" medium true
    ∷ action "no_action" "any" low false
    ∷ []

abbrev pub fallback_action : String
fallback_action = "no_action"

-- `action_id in ACTION_REGISTRY`
unfoldable pub is_registered : String → Bool
unfolding action_registry
is_registered id = any (λ a. str_eq a.id id) action_registry

serves : String → ActionDefinition → Bool
serves audience a =
    any (λ x. str_eq x audience) a.audiences || any (λ x. str_eq x "any") a.audiences

keep : (ActionDefinition → Bool) → List ActionDefinition → List ActionDefinition
keep p [] = []
keep p (a ∷ rest_of) = let rest = keep p rest_of in if p a then a ∷ rest else rest

-- The audience is in lower case, and `any` where it was empty.
unfoldable pub actions_for_audience : String → List ActionDefinition
unfolding action_registry serves keep
actions_for_audience audience =
    if str_eq audience "any" then action_registry else keep (serves audience) action_registry
