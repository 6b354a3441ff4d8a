-- ===== src/Decision/Rules/Approval.antt =====
-- What the default policy approves and what it escalates (decision/strategies/rules.py).
use haojie.Common.{
  ℕ, ◌+◌, ◌≤◌, ◌<◌, ◌≡◌, ◌⊎◌, refl, true, false, ◌&&◌, ◌||◌, none, some, String, List, [], ◌∷◌, leb,
  if◌then◌else◌, min, str_eq, str_eq_iff, any, lookup, arith, inl, inr,
}
use haojie.Decision.Catalog.{is_registered, actions_for_audience}
use haojie.Decision.Features.{one_flag, FeatureVector}
use haojie.Decision.Rules.{Rule, is_allowed, evaluate}
use haojie.Decision.Rules.Votes.{votes, has_vote, lookup-evaluate}
use haojie.Decision.Rules.Policy.{
  DecisionSettings, Predicate, small_purchase, high_value, build_default_rules,
}

-- The rules that vote for an action.
ballots : String → List Rule → List Rule
ballots id [] = []
ballots id (rule ∷ rules) =
    let rest = ballots id rules in if str_eq rule.action id then rule ∷ rest else rest

has_vote-ballots :
    (id : String) (rules : List Rule) (f : FeatureVector)
    → has_vote id rules f ≡ any (λ rule. rule.when f) (ballots id rules)
unfolding has_vote ballots
has_vote-ballots id [] f = refl
has_vote-ballots id (rule ∷ rules) f = ground (arith, has_vote-ballots id rules f)

sum_scores : List Rule → FeatureVector → ℕ
sum_scores [] f = 0
sum_scores (rule ∷ rules) f = (if rule.when f then rule.score else 0) + sum_scores rules f

votes-ballots :
    (id : String) (rules : List Rule) (f : FeatureVector)
    → votes id rules f ≡ sum_scores (ballots id rules) f
unfolding votes ballots sum_scores
votes-ballots id [] f = refl
votes-ballots id (rule ∷ rules) f = ground (arith, votes-ballots id rules f)

-- The buyers that a request may name.
abbrev pub IsBuyer : FeatureVector → Type 0
IsBuyer f = (f.user_type ≡ "b2b") ⊎ (f.user_type ≡ "b2c")

open_to :
    (id : String) (f : FeatureVector)
    → IsBuyer f
    → is_allowed "b2b" id ≡ true
    → is_allowed "b2c" id ≡ true
    → is_allowed f.user_type id ≡ true
open_to id f (inl b2b) h h' = rw b2b h
open_to id f (inr b2c) h h' = rw b2c h'

approve_allowed : (f : FeatureVector) → IsBuyer f → is_allowed f.user_type "approve_purchase" ≡ true
unfolding is_allowed actions_for_audience
approve_allowed f b = open_to "approve_purchase" f b refl refl

escalate_allowed :
    (f : FeatureVector) → IsBuyer f → is_allowed f.user_type "escalate_to_human" ≡ true
unfolding is_allowed actions_for_audience
escalate_allowed f b = open_to "escalate_to_human" f b refl refl

approve_ballots :
    (s : DecisionSettings) (f : FeatureVector)
    → (any (λ rule. rule.when f) (ballots "approve_purchase" (build_default_rules s))
        ≡ (small_purchase s.max_auto_approve_amount f || false))
      × (sum_scores (ballots "approve_purchase" (build_default_rules s)) f
          ≡ (if small_purchase s.max_auto_approve_amount f then 75 else 0) + 0)
unfolding ballots sum_scores build_default_rules
approve_ballots s f = (refl, refl)

approve_registered : is_registered "approve_purchase" ≡ true
unfolding is_registered
approve_registered = refl

escalate_registered : is_registered "escalate_to_human" ≡ true
unfolding is_registered
escalate_registered = refl

approve_lookup :
    (s : DecisionSettings) (f : FeatureVector)
    → IsBuyer f
    → lookup "approve_purchase" (evaluate (build_default_rules s) f).candidates
      ≡ (if small_purchase s.max_auto_approve_amount f then some 75 else none)
approve_lookup s f b =
    let rules = build_default_rules s in
    rw
      (
        lookup-evaluate "approve_purchase" rules f
            (λ e. ground (arith, (str_eq_iff "approve_purchase" "no_action").1 e))
            (λ e. ground (arith, (str_eq_iff "approve_purchase" "request_more_info").1 e)),
        approve_allowed f b,
        approve_registered,
        has_vote-ballots "approve_purchase" rules f,
        votes-ballots "approve_purchase" rules f,
        (approve_ballots s f).0,
        (approve_ballots s f).1,
      )
      (ground arith)

-- An order of a positive amount within the ceiling, in stock, from a buyer of a risk below 0.5.
pub record IsSmall (ceiling : ℕ) (f : FeatureVector) : Type 0 where
  pub positive : 0 < f.total_amount
  pub within : f.total_amount ≤ ceiling
  pub is_order : (f.intent ≡ "place_order") ⊎ (f.intent ≡ "bulk_order")
  pub stocked : f.in_stock ≡ one_flag
  pub trusted : f.buyer_risk_score < 5000

-- The rules that escalate: a complaint, a high value, and a risky buyer.
abbrev complains : Predicate
complains f = any (str_eq f.intent) ("complaint" ∷ "contact_support" ∷ [])

abbrev is_risky : Predicate
is_risky f =
    leb 7000 f.buyer_risk_score
    && any (str_eq f.intent) ("place_order" ∷ "bulk_order" ∷ "request_quote" ∷ [])

escalate_ballots :
    (s : DecisionSettings) (f : FeatureVector)
    → (any (λ rule. rule.when f) (ballots "escalate_to_human" (build_default_rules s))
        ≡ (complains f || (high_value s.require_human_review_above f || (is_risky f || false))))
      × (sum_scores (ballots "escalate_to_human" (build_default_rules s)) f
          ≡ (if complains f then 85 else 0)
            + ((if high_value s.require_human_review_above f then 90 else 0)
                + ((if is_risky f then 70 else 0) + 0)))
unfolding ballots sum_scores build_default_rules
escalate_ballots s f = (refl, refl)

-- Under the default policy, for a b2b or b2c buyer and thresholds that leave a gap, a purchase at
-- or above the review threshold has the escalation to a human among its candidates, with a
-- confidence of at least 0.9, and the approval is not among them.
pub high_value_escalates :
    (s : DecisionSettings) (f : FeatureVector)
    → IsBuyer f
    → s.max_auto_approve_amount < s.require_human_review_above
    → s.require_human_review_above ≤ f.total_amount
    → let candidates = (evaluate (build_default_rules s) f).candidates in
      ((n : ℕ) × (lookup "escalate_to_human" candidates ≡ some n) × (90 ≤ n))
      × (lookup "approve_purchase" candidates ≡ none)
unfolding small_purchase high_value
high_value_escalates s f b gap high =
    let rules = build_default_rules s in
    let n = min 100 (votes "escalate_to_human" rules f) in
    (
      (
        n,
        rw
            (
              lookup-evaluate "escalate_to_human" rules f
                  (λ e. ground (arith, (str_eq_iff "escalate_to_human" "no_action").1 e))
                  (λ e. ground (arith, (str_eq_iff "escalate_to_human" "request_more_info").1 e)),
              escalate_allowed f b,
              escalate_registered,
              has_vote-ballots "escalate_to_human" rules f,
              (escalate_ballots s f).0,
            )
            (ground arith),
        ground (arith, votes-ballots "escalate_to_human" rules f, (escalate_ballots s f).1),
      ),
      ground (arith, approve_lookup s f b),
    )
