-- ===== src/Intent/Classifier.antt =====
-- The classifier of intents (intent/classifier.py): the transformer behind its breaker, blended with the
-- keywords where it is unsure, and the keywords where it fails. The breaker is the class of
-- llm/circuit_breaker.py under another name.
--
-- The transformer is a parameter, whose state is threaded through, with the clock. A text is the
-- normalised one. Metrics and latencies are left out.
pub mod Blend
pub mod Failures
use haojie.Common.{
  ℕ, Bool, true, false, ◌&&◌, ◌||◌, not, Option, none, some, String, List, [], ◌∷◌, take, leb, ltb,
  ◌==◌, if◌then◌else◌, str_eq, Dict, get_or, map,
}
use haojie.Breaker
use haojie.Breaker.{Breaker, circuit_open_error}
use haojie.Intent.Taxonomy.{fallback_intent}
use haojie.Intent.Rules as Rules

pub data IntentBackend : Type 0 where
  rules transformer ensemble : IntentBackend

-- `backend` of an outcome.
pub data Source : Type 0 where
  by_rules by_transformer ensemble_transformer ensemble_rules ensemble_lowconf : Source

pub record ClassificationOutcome : Type 0 where
  pub candidates : Dict ℕ
  pub source : Source

-- What the classifier reads of a request: the clean text, its language, and the audience.
pub record Query : Type 0 where
  pub clean : String
  pub language : String
  pub audience : String

pub record IntentSettings : Type 0 where
  pub backend : IntentBackend
  pub top_k : ℕ
  pub low_confidence_threshold : ℕ
  pub allow_rules_fallback : Bool

-- How `predict` ends: scores by text, or an error of the model.
pub data Prediction : Type 0 where
  predicted : List (Dict ℕ) → Prediction
  model_error : Prediction

pub record Transformer : Type 1 where
  pub State : Type 0
  pub now : State → ℕ
  pub predict : List String → ℕ → State → State × Prediction

-- `index_error` is that of an empty list of predictions.
pub data Raised : Type 0 where
  model_failed broken index_error : Raised

pub data Reply (A : Type 0) : Type 0 where
  ok : A → Reply A
  raise : Raised → Reply A

unfoldable pub or_other : Dict ℕ → Dict ℕ
or_other [] = (fallback_intent, 0) ∷ []
or_other (e ∷ d) = e ∷ d

-- The candidates of the transformer that are not the one of the rules.
unfoldable pub others : String → Dict ℕ → Dict ℕ
others id [] = []
others id (e ∷ d) = let rest = others id d in if str_eq e.0 id then rest else e ∷ rest

unfoldable pub top_score : Dict ℕ → ℕ
top_score [] = 0
top_score (e ∷ d) = e.1

unfoldable pub is_transformer : IntentBackend → Bool
is_transformer transformer = true
is_transformer _ = false

unfoldable pub is_rules : IntentBackend → Bool
is_rules rules = true
is_rules _ = false

-- `_combine`, from the rules' best match on.
unfoldable pub combine_with : String × ℕ → Dict ℕ → ℕ → ClassificationOutcome
unfolding others top_score
combine_with best scores top_k =
    if not (str_eq best.0 fallback_intent) && ltb (top_score scores) best.1
    then record { candidates = take top_k (best ∷ others best.0 scores); source = ensemble_rules }
    else record { candidates = take top_k scores; source = ensemble_lowconf }

-- `_combine`: the loop stops at `top_k` candidates, as the slice does.
unfoldable pub combine : IntentSettings → String × ℕ → Dict ℕ → ℕ → ClassificationOutcome
unfolding or_other combine_with is_transformer top_score
combine s best tf top_k =
    let scores = or_other tf in
    if is_transformer s.backend
    then record { candidates = take top_k scores; source = by_transformer }
    else if leb s.low_confidence_threshold (top_score scores)
    then record { candidates = take top_k scores; source = ensemble_transformer }
    else combine_with best scores top_k

module _ (lower : String → String) (score : Bool → ℕ → ℕ) (T : Transformer) where
  open T use {State, now, predict}

  pub record Classifier : Type 0 where
    pub settings : IntentSettings
    pub has_transformer : Bool
    pub breaker : Breaker
    pub model : State

  -- `_classify_rules`
  unfoldable pub classify_rules : Query → ℕ → ClassificationOutcome
  unfolding or_other
  classify_rules q k = record {
    candidates = or_other (Rules.classify lower score q.clean q.language q.audience k);
    source = by_rules;
  }

  combined : Query → ℕ → Dict ℕ → Classifier → ClassificationOutcome
  unfolding combine
  combined q k scores c =
      combine c.settings (Rules.classify_best lower score q.clean q.language q.audience) scores k

  -- After `predict`, whose error is a failure to the breaker.
  pub after_predict :
      Query → ℕ → Classifier → State × Prediction → Classifier × Reply ClassificationOutcome
  unfolding combined classify_rules
  after_predict q k c (m, predicted []) = (record c { model = m }, raise index_error)
  after_predict q k c (m, predicted (d ∷ ds)) =
      (record c { model = m; breaker = Breaker.record_success c.breaker }, ok (combined q k d c))
  after_predict q k c (m, model_error) =
      let c' : Classifier = record c {
        model = m;
        breaker = Breaker.record_failure (now m) c.breaker;
      } in
      if c.settings.allow_rules_fallback
      then (c', ok (classify_rules q k))
      else (c', raise model_failed)

  pub after_ensure :
      Query
      → ℕ
      → Classifier
      → Breaker × Breaker.Result (Unit {0})
      → Classifier × Reply ClassificationOutcome
  unfolding after_predict classify_rules
  after_ensure q k c (b, Breaker.ok _) =
      after_predict q k (record c { breaker = b }) (predict (q.clean ∷ []) k c.model)
  after_ensure q k c (b, Breaker.raise circuit_open_error) =
      (record c { breaker = b }, ok (classify_rules q k))
  after_ensure q k c (b, Breaker.raise _) = (c, raise broken)

  -- `top_k or self.settings.top_k`
  unfoldable pub top_k_of : Option ℕ → Classifier → ℕ
  top_k_of none c = c.settings.top_k
  top_k_of (some k) c = if k == 0 then c.settings.top_k else k

  -- `classify`
  unfoldable pub classify : Query → Option ℕ → Classifier → Classifier × Reply ClassificationOutcome
  unfolding after_ensure classify_rules top_k_of is_rules
  classify q top_k c =
      let k = top_k_of top_k c in
      if is_rules c.settings.backend || not c.has_transformer
      then (c, ok (classify_rules q k))
      else after_ensure q k c (Breaker.ensure_allowed (now c.model) c.breaker)

  pub then_next :
      Classifier × Reply ClassificationOutcome
      → Classifier × Reply (List ClassificationOutcome)
      → Classifier × Reply (List ClassificationOutcome)
  then_next (c, raise x) rest = (c, raise x)
  then_next (c, ok o) (c', ok os) = (c', ok (o ∷ os))
  then_next (c, ok o) (c', raise x) = (c', raise x)

  -- The items one by one.
  unfoldable pub classify_each :
      List Query → Option ℕ → Classifier → Classifier × Reply (List ClassificationOutcome)
  unfolding classify then_next
  classify_each [] top_k c = (c, ok [])
  classify_each (q ∷ qs) top_k c =
      let one = classify q top_k c in then_next one (classify_each qs top_k one.0)

  -- `zip` of the items and their predictions.
  combined_each : List Query → ℕ → List (Dict ℕ) → Classifier → List ClassificationOutcome
  unfolding combined
  combined_each [] k ds c = []
  combined_each (q ∷ qs) k [] c = []
  combined_each (q ∷ qs) k (d ∷ ds) c = combined q k d c ∷ combined_each qs k ds c

  pub after_predict_batch :
      List Query
      → Option ℕ
      → Classifier
      → State × Prediction
      → Classifier × Reply (List ClassificationOutcome)
  unfolding combined_each classify_each top_k_of
  after_predict_batch qs top_k c (m, predicted ds) = (
    record c { model = m; breaker = Breaker.record_success c.breaker },
    ok (combined_each qs (top_k_of top_k c) ds c),
  )
  after_predict_batch qs top_k c (m, model_error) =
      let c' : Classifier = record c {
        model = m;
        breaker = Breaker.record_failure (now m) c.breaker;
      } in
      if c.settings.allow_rules_fallback
      then classify_each qs (some (top_k_of top_k c)) c'
      else (c', raise model_failed)

  pub after_ensure_batch :
      List Query
      → Option ℕ
      → Classifier
      → Breaker × Breaker.Result (Unit {0})
      → Classifier × Reply (List ClassificationOutcome)
  unfolding after_predict_batch classify_each top_k_of
  after_ensure_batch qs top_k c (b, Breaker.ok _) =
      after_predict_batch qs top_k (record c { breaker = b })
        (predict (map (λ (q : Query). q.clean) qs) (top_k_of top_k c) c.model)
  after_ensure_batch qs top_k c (b, Breaker.raise circuit_open_error) =
      classify_each qs (some (top_k_of top_k c)) (record c { breaker = b })
  after_ensure_batch qs top_k c (b, Breaker.raise _) = (c, raise broken)

  pub is_open : Breaker → Bool
  is_open b = elim b.state [ Breaker.opened ↦ true | _ ↦ false ]

  -- `classify_batch`
  unfoldable pub classify_batch :
      List Query → Option ℕ → Classifier → Classifier × Reply (List ClassificationOutcome)
  unfolding after_ensure_batch classify_each is_rules is_open top_k_of
  classify_batch [] top_k c = (c, ok [])
  classify_batch (q ∷ qs) top_k c =
      if is_rules c.settings.backend || not c.has_transformer || is_open c.breaker
      then classify_each (q ∷ qs) (some (top_k_of top_k c)) c
      else after_ensure_batch (q ∷ qs) top_k c (Breaker.ensure_allowed (now c.model) c.breaker)
