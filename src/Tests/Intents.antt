-- ===== src/Tests/Intents.antt =====
-- The classifier of intents before a transformer that is out.
use haojie.Common.{
  ℕ, ◌+◌, ◌<◌, ◌≡◌, ◌↔◌, refl, Bool, true, none, String, List, [], ◌∷◌, arith, length, lookup,
}
use haojie.Breaker.{closed}
use haojie.Breaker.Invariant.{fresh, fresh-IsValid}
use haojie.Intent.Classifier.{
  is_rules, is_transformer, ensemble, combine, IntentSettings, ClassificationOutcome, Query,
  model_error, Transformer, ok, Classifier, classify_batch,
}
use haojie.Intent.Classifier.Blend.{Led, combine-Led}
use haojie.Intent.Classifier.Failures.{classify_batch-failing}

abbrev same : String → String
same s = s

abbrev score : Bool → ℕ → ℕ
score served n = n

abbrev out : Transformer
out = record { State = ℕ; now = λ n. n; predict = λ texts k n. (n + 1, model_error) }

abbrev query : Query
query = record { clean = "where is my order"; language = "en-US"; audience = "b2c" }

abbrev settings : IntentSettings
settings = record {
  backend = ensemble;
  top_k = 3;
  low_confidence_threshold = 4500;
  allow_rules_fallback = true;
}

-- The transformer is unsure between two orders, and the rules know one of them better.
combine-Led_example :
    Led
      ("track_order", 5000)
      3
      (combine settings
        ("track_order", 5000)
        (("place_order", 4000) ∷ ("track_order", 3500) ∷ [])
        3)
unfolding lookup is_transformer
combine-Led_example =
    combine-Led settings ("track_order", 5000) ("place_order", 4000) (("track_order", 3500) ∷ []) 2
      (refl, (refl, tt))

abbrev classifier : Classifier same score out
classifier = record {
  settings = settings;
  has_transformer = true;
  breaker = fresh 3 30;
  model = 100;
}

-- Two requests and a threshold of three.
classify_batch-failing_example :
    ((os : List ClassificationOutcome) × ((classify_batch same score out
          (query ∷ query ∷ [])
          none
          classifier).1
        ≡ ok os))
    × (((classify_batch same score out (query ∷ query ∷ []) none classifier).0.breaker.state
          ≡ closed)
        ↔ (0 + 1 + length (query ∷ query ∷ []) < 3))
unfolding is_rules
classify_batch-failing_example =
    classify_batch-failing same score out (λ texts k n. refl) query (query ∷ []) none classifier
      refl refl refl (fresh-IsValid 3 30 (omega arith) (omega arith)) refl
