-- ===== src/Decision/Rules/Ranking.antt =====
-- The shape of the rule strategy's outcome (decision/strategies/rules.py, `evaluate`), for any rules.
use haojie.Common.{ℕ, ◌≤◌, ◌≡◌, refl, true, String, List, [], ◌∷◌, min, Dict, All, arith}
use haojie.Decision.Catalog.{fallback_action, is_registered}
use haojie.Decision.Features.{FeatureVector}
use haojie.Decision.Rules.{
  Rule, Tally, tally, place, ordered, normalised, is_allowed, filtered, or_fallback, settled,
  evaluate,
}

-- The highest vote first.
abbrev pub Descending : Dict ℕ → Type 0
Descending [] = Unit
Descending (e ∷ d) = All (λ x. x.1 ≤ e.1) d × Descending d

AtMost-weaken : (n m : ℕ) (d : Dict ℕ) → n ≤ m → All (λ x. x.1 ≤ n) d → All (λ x. x.1 ≤ m) d
AtMost-weaken n m [] le h = tt
AtMost-weaken n m (e ∷ d) le h = (omega arith, AtMost-weaken n m d le h.1)

AtMost-place :
    (n : ℕ) (e : String × ℕ) (d : Dict ℕ)
    → e.1 ≤ n
    → All (λ x. x.1 ≤ n) d
    → All (λ x. x.1 ≤ n) (place e d)
unfolding place
AtMost-place n e [] le h = ground arith
AtMost-place n e (x ∷ d) le h = ground (arith, AtMost-place n e d le h.1)

place-Descending : (e : String × ℕ) (d : Dict ℕ) → Descending d → Descending (place e d)
unfolding place
place-Descending e [] h = ground arith
place-Descending e (x ∷ d) h =
    ground (arith, place-Descending e d h.1, AtMost-place x.1 e d, AtMost-weaken x.1 e.1 d)

pub ordered-Descending : (d : Dict ℕ) → Descending (ordered d)
unfolding ordered
ordered-Descending [] = tt
ordered-Descending (e ∷ d) = place-Descending e (ordered d) (ordered-Descending d)

AtMost-normalised :
    (n : ℕ) (d : Dict ℕ) → All (λ x. x.1 ≤ n) d → All (λ x. x.1 ≤ min 100 n) (normalised d)
unfolding normalised
AtMost-normalised n [] h = tt
AtMost-normalised n (e ∷ d) h = ground (arith, AtMost-normalised n d h.1)

normalised-Descending : (d : Dict ℕ) → Descending d → Descending (normalised d)
unfolding normalised
normalised-Descending [] h = tt
normalised-Descending (e ∷ d) h =
    ground (arith, normalised-Descending d h.1, AtMost-normalised e.1 d h.0)

AtMost-filtered :
    (audience : String) (n : ℕ) (d : Dict ℕ)
    → All (λ x. x.1 ≤ n) d
    → All (λ x. x.1 ≤ n) (filtered audience d)
unfolding filtered
AtMost-filtered audience n [] h = tt
AtMost-filtered audience n (e ∷ d) h = ground (arith, AtMost-filtered audience n d h.1)

filtered-Descending :
    (audience : String) (d : Dict ℕ) → Descending d → Descending (filtered audience d)
unfolding filtered
filtered-Descending audience [] h = tt
filtered-Descending audience (e ∷ d) h =
    ground (arith, filtered-Descending audience d h.1, AtMost-filtered audience e.1 d h.0)

or_fallback-Descending : (d : Dict ℕ) → Descending d → Descending (or_fallback d)
unfolding or_fallback
or_fallback-Descending [] h = (tt, tt)
or_fallback-Descending (e ∷ d) h = h

-- A candidate that the buyer may get, with a confidence of at most 1.
abbrev pub IsOffer : String → String × ℕ → Type 0
IsOffer audience e = (is_registered e.0 ≡ true) × (is_allowed audience e.0 ≡ true) × (e.1 ≤ 100)

-- The two that the filters ask for one after the other.
abbrev IsVote : String × ℕ → Type 0
IsVote e = (is_registered e.0 ≡ true) × (e.1 ≤ 100)

normalised-IsVote : (d : Dict ℕ) → All IsVote (normalised d)
unfolding normalised
normalised-IsVote [] = tt
normalised-IsVote (e ∷ d) = ground (arith, normalised-IsVote d)

filtered-IsOffer :
    (audience : String) (d : Dict ℕ) → All IsVote d → All (IsOffer audience) (filtered audience d)
unfolding filtered
filtered-IsOffer audience [] h = tt
filtered-IsOffer audience (e ∷ d) h = ground (arith, filtered-IsOffer audience d h.1)

fallback_registered : is_registered fallback_action ≡ true
unfolding is_registered
fallback_registered = refl

fallback_allowed : (audience : String) → is_allowed audience fallback_action ≡ true
unfolding is_allowed
fallback_allowed audience = ground arith

or_fallback-IsVote : (d : Dict ℕ) → All IsVote d → All IsVote (or_fallback d)
unfolding or_fallback
or_fallback-IsVote [] h = ((fallback_registered, omega arith), tt)
or_fallback-IsVote (e ∷ d) h = h

or_fallback-IsOffer :
    (audience : String) (d : Dict ℕ)
    → All (IsOffer audience) d
    → All (IsOffer audience) (or_fallback d)
unfolding or_fallback
or_fallback-IsOffer audience [] h =
    ((fallback_registered, fallback_allowed audience, omega arith), tt)
or_fallback-IsOffer audience (e ∷ d) h = h

or_fallback-cons : (d : Dict ℕ) → (e : String × ℕ) × (es : Dict ℕ) × (or_fallback d ≡ e ∷ es)
unfolding or_fallback
or_fallback-cons [] = ((fallback_action, 0), [], refl)
or_fallback-cons (e ∷ d) = (e, d, refl)

-- For any rules and features there is at least one candidate, the candidates stand in descending
-- order of confidence, each is registered, allowed to the buyer and has a confidence of at most 1,
-- and the risk is at most 1.
pub evaluate-IsOffer :
    (rules : List Rule) (f : FeatureVector)
    → let o = evaluate rules f in
      ((e : String × ℕ) × (es : Dict ℕ) × (o.candidates ≡ e ∷ es))
      × Descending o.candidates
      × All (IsOffer f.user_type) o.candidates
      × (o.risk_score ≤ 100)
unfolding evaluate
evaluate-IsOffer rules f =
    let t : Tally = record { scored = []; risks = 0; matched = [] } in
    let t' = settled f (tally rules f t) in
    let n = or_fallback (normalised (ordered t'.scored)) in
    let falls =
      or_fallback-Descending (normalised (ordered t'.scored))
        (normalised-Descending (ordered t'.scored) (ordered-Descending t'.scored)) in
    let votes =
      or_fallback-IsVote (normalised (ordered t'.scored)) (normalised-IsVote (ordered t'.scored)) in
    (
      or_fallback-cons (filtered f.user_type n),
      or_fallback-Descending (filtered f.user_type n) (filtered-Descending f.user_type n falls),
      or_fallback-IsOffer f.user_type (filtered f.user_type n)
          (filtered-IsOffer f.user_type n votes),
      omega arith,
    )
