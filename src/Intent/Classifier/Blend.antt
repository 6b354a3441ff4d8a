-- ===== src/Intent/Classifier/Blend.antt =====
-- Who leads when the transformer is blended with the keywords (intent/classifier.py, `_combine`).
use haojie.Common.{
  ℕ, zero, suc, ◌≤◌, ◌≡◌, refl, Bool, ◌&&◌, not, none, String, [], ◌∷◌, take, arith, if◌then◌else◌,
  length, leb, ltb, Bool-cases, inl, inr, str_eq, str_eq_iff, Dict, lookup, Distinct,
  length-take-le,
}
use haojie.Intent.Taxonomy.{fallback_intent}
use haojie.Intent.Classifier.{
  is_transformer, top_score, others, or_other, ClassificationOutcome, IntentSettings, combine,
  combine_with,
}

lookup-take : (j : String) (n : ℕ) (d : Dict ℕ) → lookup j d ≡ none → lookup j (take n d) ≡ none
unfolding lookup
lookup-take j zero d h = refl
lookup-take j (suc n) [] h = refl
lookup-take j (suc n) ((i, v) ∷ d) h = ground (arith, lookup-take j n d)

Distinct-take : (n : ℕ) (d : Dict ℕ) → Distinct d → Distinct (take n d)
Distinct-take zero d h = tt
Distinct-take (suc n) [] h = tt
Distinct-take (suc n) ((i, v) ∷ d) h = (lookup-take i n d h.0, Distinct-take n d h.1)

lookup-others : (j id : String) (d : Dict ℕ) → lookup j d ≡ none → lookup j (others id d) ≡ none
unfolding others lookup
lookup-others j id [] h = refl
lookup-others j id ((i, v) ∷ d) h = ground (arith, lookup-others j id d)

lookup-others_self : (id : String) (d : Dict ℕ) → lookup id (others id d) ≡ none
unfolding others lookup
lookup-others_self id [] = refl
lookup-others_self id ((i, v) ∷ d) =
    ground (arith, str_eq_iff i id, str_eq_iff id i, lookup-others_self id d)

Distinct-others : (id : String) (d : Dict ℕ) → Distinct d → Distinct (others id d)
unfolding others lookup
Distinct-others id [] h = tt
Distinct-others id ((i, v) ∷ d) h = ground (arith, lookup-others i id d, Distinct-others id d)

-- At most `n` candidates, `top` the first, and no intent twice.
pub record Led (top : String × ℕ) (n : ℕ) (o : ClassificationOutcome) : Type 0 where
  pub rest : Dict ℕ
  pub led : o.candidates ≡ top ∷ rest
  pub once : Distinct o.candidates
  pub bounded : length o.candidates ≤ n

Led-take :
    (top : String × ℕ) (n : ℕ) (d : Dict ℕ) (o : ClassificationOutcome)
    → o.candidates ≡ take (suc n) (top ∷ d)
    → Distinct (top ∷ d)
    → Led top (suc n) o
Led-take top n d o eq h = record {
  rest = take n d;
  led = eq;
  once = rw eq (Distinct-take (suc n) (top ∷ d) h);
  bounded = rw eq (length-take-le (suc n) (top ∷ d));
}

-- The rules are asked, know an intent, and are surer of it.
abbrev pub overruled : IntentSettings → String × ℕ → ℕ → Bool
overruled s best score =
    not (is_transformer s.backend)
    && not (leb s.low_confidence_threshold score)
    && not (str_eq best.0 fallback_intent)
    && ltb score best.1

-- The transformer's first intent leads, unless its score is under the threshold of an ensemble and
-- the rules have a match other than the fallback with a higher score, which then leads. No intent
-- is listed twice if the transformer lists none twice, and there are at most as many as are asked
-- for, which is one or more.
pub combine-Led :
    (s : IntentSettings) (best top : String × ℕ) (d : Dict ℕ) (n : ℕ)
    → Distinct (top ∷ d)
    → Led (if overruled s best top.1 then best else top) (suc n) (combine s best (top ∷ d) (suc n))
unfolding combine combine_with or_other top_score
combine-Led s best top d n h = elim (Bool-cases (is_transformer s.backend)) [
  | inl alone ↦ simp alone (Led-take top n d _ refl h)
  | inr both ↦ elim (Bool-cases (leb s.low_confidence_threshold top.1)) [
    | inl sure ↦ simp (both, sure) (Led-take top n d _ refl h)
    | inr unsure ↦ elim (Bool-cases (not (str_eq best.0 fallback_intent) && ltb top.1 best.1)) [
      | inl won ↦
          simp (both, unsure, won)
            (Led-take best n (others best.0 (top ∷ d)) _ refl
              (lookup-others_self best.0 (top ∷ d), Distinct-others best.0 (top ∷ d) h))
      | inr lost ↦ simp (both, unsure, lost) (Led-take top n d _ refl h)
    ]
  ]
]
