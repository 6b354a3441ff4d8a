-- ===== src/Decision/Rules.antt =====
-- The rule strategy (decision/strategies/rules.py): every rule that matches votes for an action.
--
-- Scores and risks are in hundredths, so that rounding to four places changes nothing. Rationales,
-- next steps and the language are texts, and left out.
pub mod Policy
pub mod Votes
pub mod Ranking
pub mod Approval
use haojie.Common.{
  ℕ, ◌+◌, Bool, true, false, ◌&&◌, ◌||◌, not, Option, none, some, String, List, [], ◌∷◌, ◌++◌, leb,
  ltb, if◌then◌else◌, min, str_eq, any, Dict, lookup, insert, get_or,
}
use haojie.Decision.Catalog.{ActionDefinition, fallback_action, is_registered, actions_for_audience}
use haojie.Decision.Features.{FeatureVector}

pub record Rule : Type 0 where
  pub name : String
  pub when : FeatureVector → Bool
  pub action : String
  pub score : ℕ
  pub risk_delta : ℕ

pub record StrategyOutcome : Type 0 where
  pub candidates : Dict ℕ
  pub risk_score : ℕ
  pub matched_rules : List (String × String)

-- The loop over the rules: the votes, the risks, and the rules that matched.
pub record Tally : Type 0 where
  pub scored : Dict ℕ
  pub risks : ℕ
  pub matched : List (String × String)

unfoldable pub vote : Rule → Tally → Tally
vote rule t = record {
  scored = insert rule.action (get_or (lookup rule.action t.scored) 0 + rule.score) t.scored;
  risks = t.risks + rule.risk_delta;
  matched = t.matched ++ (rule.name, rule.action) ∷ [];
}

unfoldable pub tally : List Rule → FeatureVector → Tally → Tally
tally [] f t = t
tally (rule ∷ rules) f t = tally rules f (if rule.when f then vote rule t else t)

-- `_fallback_scores`
unfoldable pub fallback_scores : FeatureVector → Dict ℕ
fallback_scores f =
    if ltb f.intent_confidence 3000
    then ("no_action", 50) ∷ ("request_more_info", 40) ∷ []
    else ("request_more_info", 50) ∷ ("no_action", 30) ∷ []

-- `sorted(..., reverse=True)` by the votes: the highest first, and the older one first among equals.
unfoldable pub place : String × ℕ → Dict ℕ → Dict ℕ
place e [] = e ∷ []
place e (x ∷ xs) = if leb x.1 e.1 then e ∷ x ∷ xs else x ∷ place e xs

unfoldable pub ordered : Dict ℕ → Dict ℕ
unfolding place
ordered [] = []
ordered (e ∷ d) = place e (ordered d)

-- The actions that are registered, each with a vote of at most 1.
unfoldable pub normalised : Dict ℕ → Dict ℕ
normalised [] = []
normalised (e ∷ d) =
    let rest = normalised d in if is_registered e.0 then (e.0, min 100 e.1) ∷ rest else rest

-- The actions that the audience may get, and the three that every audience may.
unfoldable pub is_allowed : String → String → Bool
is_allowed audience id =
    any (λ a. str_eq a.id id) (actions_for_audience audience)
    || any (λ x. str_eq x id) (fallback_action ∷ "escalate_to_human" ∷ "request_more_info" ∷ [])

unfoldable pub filtered : String → Dict ℕ → Dict ℕ
filtered audience [] = []
filtered audience (e ∷ d) =
    let rest = filtered audience d in if is_allowed audience e.0 then e ∷ rest else rest

or_fallback : Dict ℕ → Dict ℕ
or_fallback [] = (fallback_action, 0) ∷ []
or_fallback (e ∷ d) = e ∷ d

-- `if not scored`: no rule has matched.
settled : FeatureVector → Tally → Tally
unfolding fallback_scores
settled f t = elim t.scored [
  | [] ↦ record t {
    scored = fallback_scores f;
    matched = t.matched ++ ("fallback", fallback_action) ∷ [];
  }
  | e ∷ d ↦ t
]

unfoldable pub evaluate : List Rule → FeatureVector → StrategyOutcome
unfolding tally ordered normalised filtered or_fallback settled
evaluate rules f =
    let t = settled f (tally rules f (record { scored = []; risks = 0; matched = [] })) in
    record {
      candidates = or_fallback (filtered f.user_type (or_fallback (normalised (ordered t.scored))));
      risk_score = min 100 t.risks;
      matched_rules = t.matched;
    }
