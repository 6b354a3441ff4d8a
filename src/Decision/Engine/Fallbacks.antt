-- ===== src/Decision/Engine/Fallbacks.antt =====
-- What the engine decides by, and what its breaker hears (decision/engine.py, `evaluate` and
-- `evaluate_batch`).
use haojie.Common.{
  ℕ, ◌≡◌, ◌≢◌, refl, Bool, true, false, Option, String, List, [], ◌∷◌, arith, if◌then◌else◌,
  Bool-cases, inl, inr,
}
use haojie.Breaker
use haojie.Breaker.{Breaker, circuit_open_error}
use haojie.Breaker.Invariant.{
  IsValid, asked, answers, asked-IsValid, ensure_allowed-asked, record_success-IsValid,
  record_failure-IsValid,
}
use haojie.Decision.Features.{FeatureVector}
use haojie.Decision.Rules.{Rule}
use haojie.Decision.Ensemble.{
  Outcome, Reason, ml_not_configured, circuit_open, model_not_ready, model_failed,
}
use haojie.Decision.Engine.{
  ModelReply, answered, failed, Model, EngineSettings, Kind, by_rules, by_ml, by_ensemble,
  rules_fallback, EngineDecision, Reply, ok, ensemble_of, Engine, by_policy, resolve_strategy,
  decided, reasons_of, after_ensemble, after_model, after_ensure, with_kind, with_kind_batch,
  after_ensure_batch, decided_each, evaluate, evaluate_batch,
}

module _ (M : Model) (policy : List Rule) where
  -- The breaker lets the model be asked.
  abbrev pub permitted : Engine M policy → Bool
  permitted e = answers (M.now e.model) e.breaker

  -- What the model replies: an ensemble without one has its own word for it.
  abbrev pub reply_of : FeatureVector → Engine M policy → Kind → M.State × ModelReply Outcome
  reply_of f e by_ensemble =
      if e.has_ml then M.evaluate f e.model else (e.model, failed ml_not_configured)
  reply_of f e _ = M.evaluate f e.model

  -- The outcome and the strategy that it comes of.
  abbrev pub expected :
      FeatureVector → EngineSettings → Kind → Bool → ModelReply Outcome → Outcome × Kind
  expected f s by_ml true (answered o) = (o, by_ml)
  expected f s by_ml true (failed _) = (by_policy M policy f, rules_fallback)
  expected f s by_ml false _ = (by_policy M policy f, rules_fallback)
  expected f s by_ensemble _ reply = (ensemble_of s (by_policy M policy f) reply, by_ensemble)
  expected f s _ _ reply = (by_policy M policy f, by_rules)

  -- What the breaker hears of the model's reply, at the time after it.
  abbrev pub heard : ModelReply Outcome → ℕ → Breaker → Breaker
  heard (answered _) now b = Breaker.record_success b
  heard (failed circuit_open) now b = b
  heard (failed _) now b = Breaker.record_failure now b

  abbrev pub breaker_after : FeatureVector → Engine M policy → Kind → Breaker
  breaker_after f e by_ml =
      if permitted e
      then heard (M.evaluate f e.model).1 (M.now (M.evaluate f e.model).0)
          (asked (M.now e.model) e.breaker)
      else e.breaker
  breaker_after f e _ = e.breaker

  pub record Decides (f : FeatureVector) (e : Engine M policy) (k : Kind)
      (p : Engine M policy × Reply EngineDecision) : Type 0 where
    pub made : EngineDecision
    pub answers_so : p.1 ≡ ok made
    pub of_features : made.features ≡ f
    pub outcome :
        (made.outcome, made.actual_strategy)
        ≡ expected f e.settings k (permitted e) (reply_of f e k).1
    pub explained : made.actual_strategy ≡ rules_fallback → made.fallback_reasons ≢ []
    pub breaker : p.0.breaker ≡ breaker_after f e k
    pub valid : IsValid p.0.breaker

  abbrev asked_now : Engine M policy → Breaker
  asked_now e = asked (M.now e.model) e.breaker

  -- The model has answered.
  Decides-answered :
      (f : FeatureVector) (e : Engine M policy) (m : M.State) (o : Outcome)
      → IsValid e.breaker
      → permitted e ≡ true
      → M.evaluate f e.model ≡ (m, answered o)
      → Decides f e by_ml (
        record e { model = m; breaker = Breaker.record_success (asked_now e) },
        ok (decided M policy f o by_ml []),
      )
  unfolding decided
  Decides-answered f e m o v open_ q = record {
    made = decided M policy f o by_ml [];
    answers_so = refl;
    of_features = refl;
    outcome = rw (open_, q);
    explained = λ h. cc;
    breaker = rw (open_, q);
    valid = record_success-IsValid (asked_now e) (asked-IsValid (M.now e.model) e.breaker v);
  }

  -- It has failed, and the breaker has heard of it or not.
  Decides-fallen :
      (f : FeatureVector) (e : Engine M policy) (m : M.State) (reason : Reason) (b : Breaker)
      → permitted e ≡ true
      → M.evaluate f e.model ≡ (m, failed reason)
      → b ≡ heard (failed reason) (M.now m) (asked_now e)
      → IsValid b
      → Decides f e by_ml (
        record e { model = m; breaker = b },
        ok (decided M policy f (by_policy M policy f) rules_fallback (reason ∷ [])),
      )
  unfolding decided
  Decides-fallen f e m reason b open_ q heard_so valid_b = record {
    made = decided M policy f (by_policy M policy f) rules_fallback (reason ∷ []);
    answers_so = refl;
    of_features = refl;
    outcome = rw (open_, q);
    explained = λ h. λ z. cc z;
    breaker = rw (open_, q, heard_so);
    valid = valid_b;
  }

  abbrev failed_now : M.State → Engine M policy → Breaker
  failed_now m e = Breaker.record_failure (M.now m) (asked_now e)

  failed_now-IsValid :
      (m : M.State) (e : Engine M policy) → IsValid e.breaker → IsValid (failed_now m e)
  failed_now-IsValid m e v =
      record_failure-IsValid (M.now m) (asked_now e) (asked-IsValid (M.now e.model) e.breaker v)

  after_model-Decides :
      (f : FeatureVector) (e : Engine M policy) (p : M.State × ModelReply Outcome)
      → IsValid e.breaker
      → e.settings.allow_rules_fallback ≡ true
      → permitted e ≡ true
      → M.evaluate f e.model ≡ p
      → Decides f e by_ml
          (after_model M policy f (record e { breaker = asked (M.now e.model) e.breaker }) p)
  unfolding after_model decided
  after_model-Decides f e (m, answered o) v lenient open_ q = Decides-answered f e m o v open_ q
  after_model-Decides f e (m, failed circuit_open) v lenient open_ q =
      Decides-fallen f e m circuit_open (asked_now e) open_ q refl
        (asked-IsValid (M.now e.model) e.breaker v)
  after_model-Decides f e (m, failed ml_not_configured) v lenient open_ q = simp lenient (
      Decides-fallen f e m ml_not_configured (failed_now m e) open_ q refl
        (failed_now-IsValid m e v))
  after_model-Decides f e (m, failed model_not_ready) v lenient open_ q = simp lenient (
      Decides-fallen f e m model_not_ready (failed_now m e) open_ q refl (failed_now-IsValid m e v))
  after_model-Decides f e (m, failed model_failed) v lenient open_ q =
      simp lenient
        (Decides-fallen f e m model_failed (failed_now m e) open_ q refl (failed_now-IsValid m e v))

  abbrev ensured : Engine M policy → Breaker × Breaker.Result (Unit {0})
  ensured e = (asked_now e, if permitted e then Breaker.ok tt else Breaker.raise circuit_open_error)

  asked_shut : (now : ℕ) (b : Breaker) → answers now b ≡ false → asked now b ≡ b
  unfolding asked answers
  asked_shut now b h = ground (arith, h)

  Decides-shut :
      (f : FeatureVector) (e : Engine M policy)
      → IsValid e.breaker
      → permitted e ≡ false
      → Decides f e by_ml (
        record e { breaker = asked_now e },
        ok (decided M policy f (by_policy M policy f) rules_fallback (circuit_open ∷ [])),
      )
  unfolding decided
  Decides-shut f e v shut = record {
    made = decided M policy f (by_policy M policy f) rules_fallback (circuit_open ∷ []);
    answers_so = refl;
    of_features = refl;
    outcome = rw shut;
    explained = λ h. λ z. cc z;
    breaker = rw (shut, asked_shut (M.now e.model) e.breaker shut);
    valid = asked-IsValid (M.now e.model) e.breaker v;
  }

  after_ensure-Decides :
      (f : FeatureVector) (e : Engine M policy)
      → IsValid e.breaker
      → e.settings.allow_rules_fallback ≡ true
      → Decides f e by_ml (after_ensure M policy f e (ensured e))
  unfolding after_ensure
  after_ensure-Decides f e v lenient = elim (Bool-cases (permitted e)) [
    | inl open_ ↦ simp open_ (after_model-Decides f e (M.evaluate f e.model) v lenient open_ refl)
    | inr shut ↦ simp shut (Decides-shut f e v shut)
  ]

  with_rules-Decides :
      (f : FeatureVector) (e : Engine M policy)
      → IsValid e.breaker
      → Decides f e by_rules (with_kind M policy f e (ok by_rules))
  unfolding with_kind decided
  with_rules-Decides f e v = record {
    made = decided M policy f (by_policy M policy f) by_rules [];
    answers_so = refl;
    of_features = refl;
    outcome = refl;
    explained = λ h. absurd (ground (arith, h));
    breaker = refl;
    valid = v;
  }

  after_ensemble-Decides :
      (f : FeatureVector) (e : Engine M policy) (p : M.State × ModelReply Outcome)
      → IsValid e.breaker
      → reply_of f e by_ensemble ≡ p
      → Decides f e by_ensemble (after_ensemble M policy f e p)
  unfolding after_ensemble decided reasons_of
  after_ensemble-Decides f e (m, reply) v q =
      let o = ensemble_of e.settings (by_policy M policy f) reply in
      record {
        made = decided M policy f o by_ensemble (reasons_of M policy o.ml_fallback);
        answers_so = refl;
        of_features = refl;
        outcome = rw q;
        explained = λ h. absurd (ground (arith, h));
        breaker = refl;
        valid = v;
      }

  -- With a valid breaker, the fallback allowed and a strategy that is known, `evaluate` raises
  -- nothing. Asked for the model, it decides by the model's answer if the breaker lets the call
  -- through and the model answers, and else by the rules, with a reason; the breaker hears of the
  -- answer or the failure, unless it had refused. The ensemble and the rules leave the breaker as
  -- it is, even when the model fails the ensemble, which then is the rules.
  pub evaluate-Decides :
      (f : FeatureVector) (override : Option String) (e : Engine M policy) (k : Kind)
      → IsValid e.breaker
      → e.settings.allow_rules_fallback ≡ true
      → resolve_strategy M policy override e ≡ ok k
      → k ≢ rules_fallback
      → Decides f e k (evaluate M policy f override e)
  unfolding evaluate with_kind after_ensemble decided
  evaluate-Decides f override e by_rules v lenient known ne = rw known (with_rules-Decides f e v)
  evaluate-Decides f override e by_ml v lenient known ne =
      rw (known, ensure_allowed-asked (M.now e.model) e.breaker v)
        (after_ensure-Decides f e v lenient)
  evaluate-Decides f override e by_ensemble v lenient known ne =
      rw known (after_ensemble-Decides f e (reply_of f e by_ensemble) v refl)
  evaluate-Decides f override e rules_fallback v lenient known ne = absurd (ne refl)

  -- When the breaker refuses the model, a batch of one request is decided as the request alone is,
  -- by the rules, but without the reason that the single decision gives.
  pub evaluate_batch-reasons :
      (f : FeatureVector) (override : Option String) (e : Engine M policy)
      → IsValid e.breaker
      → resolve_strategy M policy override e ≡ ok by_ml
      → permitted e ≡ false
      → (d : EngineDecision) × ((evaluate M policy f override e).1 ≡ ok d)
        × ((evaluate_batch M policy (f ∷ []) override e).1
            ≡ ok (record d { fallback_reasons = [] } ∷ []))
        × (d.fallback_reasons ≡ circuit_open ∷ [])
  unfolding evaluate evaluate_batch with_kind with_kind_batch after_ensure after_ensure_batch
      decided decided_each
  evaluate_batch-reasons f override e v known shut = (
    decided M policy f (by_policy M policy f) rules_fallback (circuit_open ∷ []),
    rw (known, ensure_allowed-asked (M.now e.model) e.breaker v, shut) refl,
    rw (known, ensure_allowed-asked (M.now e.model) e.breaker v, shut) refl,
    refl,
  )
