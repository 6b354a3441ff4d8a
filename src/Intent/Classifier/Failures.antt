-- ===== src/Intent/Classifier/Failures.antt =====
-- What a transformer that always fails does to the breaker (intent/classifier.py, `classify` and
-- `classify_batch`).
use mathlib.Core.Path.{subst}
use haojie.Common.{
  ℕ, suc, ◌+◌, ◌↔◌, ◌<◌, ◌≤◌, ◌≡◌, ◌≢◌, refl, ap, ◌∙◌, Bool, true, false, Option, some, String,
  List, [], ◌∷◌, arith, if◌then◌else◌, length, map, ltb, Bool-cases, inl, inr,
}
use haojie.Breaker
use haojie.Breaker.{Breaker, closed, opened, circuit_open_error}
use haojie.Breaker.Invariant.{
  IsValid, asked, answers, asked-IsValid, ensure_allowed-asked, record_failure-IsValid,
}
use haojie.Intent.Classifier.{
  is_open, is_rules, ClassificationOutcome, Query, Prediction, predicted, model_error, Transformer,
  Reply, ok, raise, Classifier, classify_rules, after_predict, after_ensure, top_k_of, classify,
  classify_each, after_predict_batch, after_ensure_batch, classify_batch, then_next,
}

-- A breaker of threshold `t` that was closed and has heard of nothing but failures, `n` in all.
pub record Heard (t n : ℕ) (b : Breaker) : Type 0 where
  pub valid : IsValid b
  pub threshold : b.failure_threshold ≡ t
  pub below : n < t → (b.state ≡ closed) × (b.failures ≡ n)
  pub above : t ≤ n → b.state ≢ closed

-- A call that fails, if it is let through.
abbrev hit : ℕ → ℕ → Breaker → Breaker
hit now later b = if answers now b then Breaker.record_failure later (asked now b) else asked now b

hit-IsValid : (now later : ℕ) (b : Breaker) → IsValid b → IsValid (hit now later b)
hit-IsValid now later b v = elim (Bool-cases (answers now b)) [
  | inl go ↦ rw go (record_failure-IsValid later (asked now b) (asked-IsValid now b v))
  | inr stop ↦ rw stop (asked-IsValid now b v)
]

hit_lem :
    (now later : ℕ) (b : Breaker)
    → IsValid b
    → ((hit now later b).failure_threshold ≡ b.failure_threshold)
      × (b.state ≢ closed → (hit now later b).state ≢ closed)
      × (b.state ≡ closed
          → b.failures + 1 < b.failure_threshold
          → ((hit now later b).state ≡ closed) × ((hit now later b).failures ≡ b.failures + 1))
      × (b.state ≡ closed → b.failure_threshold ≤ b.failures + 1 → (hit now later b).state ≢ closed)
unfolding asked answers Breaker.record_failure
hit_lem now later b v = ground arith

Heard-below :
    (t n now later : ℕ) (b : Breaker)
    → Heard t n b
    → n + 1 < t
    → (b.state ≡ closed
        → b.failures + 1 < b.failure_threshold
        → ((hit now later b).state ≡ closed) × ((hit now later b).failures ≡ b.failures + 1))
    → ((hit now later b).state ≡ closed) × ((hit now later b).failures ≡ n + 1)
Heard-below t n now later b h lt counts =
    let (shut, heard) = h.below (omega arith) in
    let (shut', heard') = counts shut (rw (heard, h.threshold) lt) in
    (shut', heard' ∙ ap (λ k. k + 1) heard)

Heard-above :
    (t n now later : ℕ) (b : Breaker)
    → Heard t n b
    → t ≤ n + 1
    → (b.state ≢ closed → (hit now later b).state ≢ closed)
    → (b.state ≡ closed → b.failure_threshold ≤ b.failures + 1 → (hit now later b).state ≢ closed)
    → (hit now later b).state ≢ closed
Heard-above t n now later b h le stays trips = elim (Bool-cases (ltb n t)) [
  | inl under ↦
      let (shut, heard) = h.below (ground arith) in trips shut (rw (heard, h.threshold) le)
  | inr over ↦ stays (h.above (ground arith))
]

Heard-hit : (t n now later : ℕ) (b : Breaker) → Heard t n b → Heard t (n + 1) (hit now later b)
Heard-hit t n now later b h =
    let (same, stays, counts, trips) = hit_lem now later b h.valid in
    record {
      valid = hit-IsValid now later b h.valid;
      threshold = same ∙ h.threshold;
      below = λ lt. Heard-below t n now later b h lt counts;
      above = λ le. Heard-above t n now later b h le stays trips;
    }

module _ (lower : String → String) (score : Bool → ℕ → ℕ) (T : Transformer)
    (fails : (texts : List String) (k : ℕ) (m : Transformer.State T)
      → (Transformer.predict T texts k m).1 ≡ model_error) where
  open T use {State, now, predict}

  abbrev Machine : Type 0
  Machine = Classifier lower score T

  -- A classifier that asks its transformer first, with a breaker that has heard of `n` failures.
  record IsFailing (t n : ℕ) (c : Machine) : Type 0 where
    pub asks : is_rules c.settings.backend ≡ false
    pub present : c.has_transformer ≡ true
    pub lenient : c.settings.allow_rules_fallback ≡ true
    pub heard : Heard t n c.breaker

  -- The classifier after a reply, which is no error.
  record Failed {A : Type 0} (t n : ℕ) (r : Machine × Reply A) : Type 0 where
    pub failing : IsFailing t n r.0
    pub value : A
    pub given : r.1 ≡ ok value

  -- The breaker after a call at the state `c.model`, which ends at the time `later`.
  abbrev struck : Machine → ℕ → Breaker
  struck c later = hit (now c.model) later c.breaker

  struck-IsFailing :
      (t n : ℕ) (c : Machine) (m : State) (b : Breaker) (later : ℕ)
      → IsFailing t n c
      → b ≡ struck c later
      → IsFailing t (n + 1) (record c { model = m; breaker = b })
  struck-IsFailing t n c m b later f eq = record {
    asks = f.asks;
    present = f.present;
    lenient = f.lenient;
    heard = rw eq (Heard-hit t n (now c.model) later c.breaker f.heard);
  }

  after_predict-Failed :
      (t n : ℕ) (q : Query) (k : ℕ) (c : Machine) (p : State × Prediction)
      → IsFailing t n c
      → answers (now c.model) c.breaker ≡ true
      → p.1 ≡ model_error
      → Failed t
          (n + 1)
          (after_predict lower score T q k (record c { breaker = asked (now c.model) c.breaker }) p)
  unfolding after_predict
  after_predict-Failed t n q k c (m, predicted []) f go err = absurd (ground arith)
  after_predict-Failed t n q k c (m, predicted (d ∷ ds)) f go err = absurd (ground arith)
  after_predict-Failed t n q k c (m, model_error) f go err = simp f.lenient (record {
    failing =
        struck-IsFailing t n c m (Breaker.record_failure (now m) (asked (now c.model) c.breaker))
          (now m) f (rw go refl);
    value = classify_rules lower score T q k;
    given = refl;
  })

  -- The machine after the breaker was asked, whether or not it lets the call through.
  abbrev ensured : Machine → Breaker × Breaker.Result (Unit {0})
  ensured c = (
    asked (now c.model) c.breaker,
    if answers (now c.model) c.breaker then Breaker.ok tt else Breaker.raise circuit_open_error,
  )

  after_ensure-Failed :
      (t n : ℕ) (q : Query) (k : ℕ) (c : Machine)
      → IsFailing t n c
      → Failed t (n + 1) (after_ensure lower score T q k c (ensured c))
  unfolding after_ensure
  after_ensure-Failed t n q k c f = elim (Bool-cases (answers (now c.model) c.breaker)) [
    | inl go ↦ simp go (
        after_predict-Failed t n q k c (predict (q.clean ∷ []) k c.model) f go
          (fails (q.clean ∷ []) k c.model))
    | inr stop ↦ simp stop (record {
      failing = struck-IsFailing t n c c.model (asked (now c.model) c.breaker) 0 f (rw stop refl);
      value = classify_rules lower score T q k;
      given = refl;
    })
  ]

  classify-Failed :
      (t n : ℕ) (q : Query) (top_k : Option ℕ) (c : Machine)
      → IsFailing t n c
      → Failed t (n + 1) (classify lower score T q top_k c)
  unfolding classify
  classify-Failed t n q top_k c f =
      simp (f.asks, f.present, ensure_allowed-asked (now c.model) c.breaker f.heard.valid)
        (after_ensure-Failed t n q (top_k_of lower score T top_k c) c f)

  then_next-Failed :
      (t n k : ℕ) (one : Machine × Reply ClassificationOutcome)
      (rest : Machine × Reply (List ClassificationOutcome))
      → Failed t n one
      → Failed t k rest
      → Failed t k (then_next lower score T one rest)
  unfolding then_next
  then_next-Failed t n k (c, raise x) rest f g = absurd (ground (arith, f.given))
  then_next-Failed t n k (c, ok o) (c', raise x) f g = absurd (ground (arith, g.given))
  then_next-Failed t n k (c, ok o) (c', ok os) f g = record {
    failing = g.failing;
    value = o ∷ os;
    given = refl;
  }

  classify_each-Failed :
      (t n : ℕ) (qs : List Query) (top_k : Option ℕ) (c : Machine)
      → IsFailing t n c
      → Failed t (n + length qs) (classify_each lower score T qs top_k c)
  unfolding classify_each
  classify_each-Failed t n [] top_k c f = record {
    failing = subst (λ j. IsFailing t j c) (omega arith) f;
    value = [];
    given = refl;
  }
  classify_each-Failed t n (q ∷ qs) top_k c f =
      let one = classify-Failed t n q top_k c f in
      then_next-Failed t (n + 1) (n + suc (length qs)) (classify lower score T q top_k c)
        (classify_each lower score T qs top_k (classify lower score T q top_k c).0) one
        (subst
          (λ j.
            Failed t j (classify_each lower score T qs top_k (classify lower score T q top_k c).0))
          (omega arith)
          (classify_each-Failed t (n + 1) qs top_k (classify lower score T q top_k c).0
            one.failing))

  after_predict_batch-Failed :
      (t n : ℕ) (qs : List Query) (top_k : Option ℕ) (c : Machine) (p : State × Prediction)
      → IsFailing t n c
      → answers (now c.model) c.breaker ≡ true
      → p.1 ≡ model_error
      → Failed t (n + 1 + length qs) (
          after_predict_batch lower score T qs top_k
            (record c { breaker = asked (now c.model) c.breaker })
            p)
  unfolding after_predict_batch
  after_predict_batch-Failed t n qs top_k c (m, predicted ds) f go err = absurd (ground arith)
  after_predict_batch-Failed t n qs top_k c (m, model_error) f go err =
      let b = Breaker.record_failure (now m) (asked (now c.model) c.breaker) in
      simp f.lenient (
        classify_each-Failed t (n + 1) qs
          (some
            (top_k_of lower score T top_k (record c { breaker = asked (now c.model) c.breaker })))
          (record c { model = m; breaker = b }) (struck-IsFailing t n c m b (now m) f (rw go refl)))

  answers-closed : (time : ℕ) (b : Breaker) → b.state ≡ closed → answers time b ≡ true
  unfolding answers
  answers-closed time b shut = rw shut refl

  is_open-closed : (b : Breaker) → b.state ≡ closed → is_open lower score T b ≡ false
  unfolding is_open
  is_open-closed b shut = rw shut refl

  after_ensure_batch-Failed :
      (t n : ℕ) (qs : List Query) (top_k : Option ℕ) (c : Machine)
      → IsFailing t n c
      → answers (now c.model) c.breaker ≡ true
      → Failed t (n + 1 + length qs) (after_ensure_batch lower score T qs top_k c (ensured c))
  unfolding after_ensure_batch
  after_ensure_batch-Failed t n qs top_k c f go =
      let texts = map (λ (q : Query). q.clean) qs in
      let k = top_k_of lower score T top_k c in
      simp go (
        after_predict_batch-Failed t n qs top_k c (predict texts k c.model) f go
          (fails texts k c.model))

  classify_batch-Failed :
      (t n : ℕ) (q : Query) (qs : List Query) (top_k : Option ℕ) (c : Machine)
      → IsFailing t n c
      → c.breaker.state ≡ closed
      → Failed t (n + 1 + length (q ∷ qs)) (classify_batch lower score T (q ∷ qs) top_k c)
  unfolding classify_batch
  classify_batch-Failed t n q qs top_k c f shut =
      simp
        (
          f.asks,
          f.present,
          is_open-closed c.breaker shut,
          ensure_allowed-asked (now c.model) c.breaker f.heard.valid,
        )
        (after_ensure_batch-Failed t n (q ∷ qs) top_k c f
          (answers-closed (now c.model) c.breaker shut))

  Heard-closed : (t n : ℕ) (b : Breaker) → Heard t n b → (b.state ≡ closed) ↔ (n < t)
  Heard-closed t n b h = (
    (λ shut. elim (Bool-cases (ltb n t)) [
      | inl under ↦ ground arith
      | inr over ↦ absurd (h.above (ground arith) shut)
    ]),
    λ lt. (h.below lt).0,
  )

  closed-Heard :
      (b : Breaker) → IsValid b → b.state ≡ closed → Heard b.failure_threshold b.failures b
  closed-Heard b v shut = record {
    valid = v;
    threshold = refl;
    below = λ lt. (shut, refl);
    above = λ le. ground arith;
  }

  -- While the transformer fails, every batch of n requests has an answer, and a breaker that was
  -- closed stays so if and only if the failures it counted, with n + 1 more, are below its
  -- threshold. The settings ask the transformer first, and allow the fallback.
  pub classify_batch-failing :
      (q : Query) (qs : List Query) (top_k : Option ℕ) (c : Classifier lower score T)
      → is_rules c.settings.backend ≡ false
      → c.has_transformer ≡ true
      → c.settings.allow_rules_fallback ≡ true
      → IsValid c.breaker
      → c.breaker.state ≡ closed
      → ((os : List ClassificationOutcome) × ((classify_batch lower score T (q ∷ qs) top_k c).1
            ≡ ok os))
        × (((classify_batch lower score T (q ∷ qs) top_k c).0.breaker.state ≡ closed)
            ↔ (c.breaker.failures + 1 + length (q ∷ qs) < c.breaker.failure_threshold))
  classify_batch-failing q qs top_k c asks present lenient v shut =
      let f : Failed c.breaker.failure_threshold (c.breaker.failures + 1 + length (q ∷ qs))
          (classify_batch lower score T (q ∷ qs) top_k c) =
        classify_batch-Failed c.breaker.failure_threshold c.breaker.failures q qs top_k c
          (record {
            asks = asks;
            present = present;
            lenient = lenient;
            heard = closed-Heard c.breaker v shut;
          })
          shut in
      (
        (f.value, f.given),
        Heard-closed c.breaker.failure_threshold (c.breaker.failures + 1 + length (q ∷ qs))
            (classify_batch lower score T (q ∷ qs) top_k c).0.breaker f.failing.heard,
      )
