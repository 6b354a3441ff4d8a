-- ===== src/Decision/Service/Review.antt =====
-- The response that is made of a decision (decision/service.py, `_materialize` and `_needs_review`).
use haojie.Common.{
  ℕ, suc, ◌+◌, ◌≤◌, ◌<◌, ◌≡◌, ◌≢◌, refl, true, false, String, [], ◌∷◌, arith, take, length,
  length-take-le, All, Dict, str_eq_iff, ◌⊎◌,
}
use haojie.Decision.Catalog.{fallback_action, is_registered}
use haojie.Decision.Features.{FeatureVector}
use haojie.Decision.Engine.{EngineDecision}
use haojie.Decision.Service.{
  ServiceSettings, ServiceRequest, registered, or_none, top_of, needs_review, materialize,
}

abbrev pub IsKnown : String × ℕ → Type 0
IsKnown e = is_registered e.0 ≡ true

registered-All : (d : Dict ℕ) → All IsKnown (registered d)
unfolding registered
registered-All [] = tt
registered-All (e ∷ d) = ground (arith, registered-All d)

length-registered-le : (d : Dict ℕ) → length (registered d) ≤ length d
unfolding registered
length-registered-le [] = omega arith
length-registered-le (e ∷ d) = ground (arith, length-registered-le d)

fallback_known : is_registered fallback_action ≡ true
unfolding is_registered
fallback_known = refl

-- Some candidates, all registered, of which the first is on top.
abbrev pub IsRanking : String × ℕ → ℕ → Dict ℕ → Type 0
IsRanking top n d = ((es : Dict ℕ) × (d ≡ top ∷ es)) × All IsKnown d × (length d ≤ n)

or_none-IsRanking :
    (n : ℕ) (d : Dict ℕ)
    → All IsKnown d
    → length d ≤ suc n
    → IsRanking (top_of (or_none d)) (suc n) (or_none d)
unfolding or_none top_of
or_none-IsRanking n [] h le = (([], refl), (fallback_known, tt), omega arith)
or_none-IsRanking n (e ∷ d) h le = ((d, refl), h, le)

needs_review-false :
    (s : ServiceSettings) (f : FeatureVector) (action : String) (risk : ℕ)
    → needs_review s f action risk ≡ false
    → (risk < s.risk_review_threshold)
      × ((f.total_amount ≡ 0) ⊎ (f.total_amount < s.require_human_review_above))
      × (action ≢ "escalate_to_human")
      × (action ≡ "approve_purchase" → f.total_amount ≤ s.max_auto_approve_amount)
unfolding needs_review
needs_review-false s f action risk h =
    ground (arith, str_eq_iff action "escalate_to_human", str_eq_iff action "approve_purchase", h)

-- The candidates of a response are one or more, at most the alternatives and one, all registered,
-- with the answer on top. Where no review is asked for, the risk is below its threshold, the
-- amount is 0 or below the threshold for a review, the answer is no escalation, and an approval is
-- within the amount that may be approved alone.
pub materialize-reviewed :
    (s : ServiceSettings) (r : ServiceRequest) (f : FeatureVector) (d : EngineDecision)
    → let x = materialize s r f d in
      IsRanking (x.action, x.confidence) (suc s.top_k_alternatives) x.candidates
      × (x.requires_review ≡ false
          → (x.risk_score < s.risk_review_threshold)
            × ((f.total_amount ≡ 0) ⊎ (f.total_amount < s.require_human_review_above))
            × (x.action ≢ "escalate_to_human")
            × (x.action ≡ "approve_purchase" → f.total_amount ≤ s.max_auto_approve_amount))
unfolding materialize
materialize-reviewed s r f d =
    let first = take (1 + s.top_k_alternatives) d.outcome.candidates in
    let candidates = or_none (registered first) in
    (
      or_none-IsRanking s.top_k_alternatives (registered first) (registered-All first) (
          omega (
            arith,
            length-registered-le first,
            length-take-le (1 + s.top_k_alternatives) d.outcome.candidates,
          )),
      λ h. needs_review-false s f (top_of candidates).0 d.outcome.risk_score h,
    )
