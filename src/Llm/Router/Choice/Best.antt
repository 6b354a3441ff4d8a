-- ===== src/Llm/Router/Choice/Best.antt =====
-- The first of the best of llm/router.py (`max` in `_run_parallel_vote` and `_run_confidence`).
use haojie.Common.{
  ℕ, ◌≤◌, ◌<◌, ◌≡◌, refl, ap, Bool, true, false, some, String, List, [], ◌∷◌, arith, ltb,
  if◌then◌else◌, Dict, All, length, Bool-cases, inl, inr,
}
use haojie.Llm.Router.{Candidate}
use haojie.Llm.Router.Choice.{most_confident, pick, beats, score, top_key}

most_confident_more :
    (best c : Candidate) (cs : List Candidate)
    → ltb best.result.confidence c.result.confidence ≡ true
    → most_confident best (c ∷ cs) ≡ most_confident c cs
unfolding most_confident
most_confident_more best c cs more = ap (λ b. most_confident (if b then c else best) cs) more

most_confident_less :
    (best c : Candidate) (cs : List Candidate)
    → ltb best.result.confidence c.result.confidence ≡ false
    → most_confident best (c ∷ cs) ≡ most_confident best cs
unfolding most_confident
most_confident_less best c cs less = ap (λ b. most_confident (if b then c else best) cs) less

most_confident_nil : (best : Candidate) → most_confident best [] ≡ best
unfolding most_confident
most_confident_nil best = refl

-- A candidate with the property, and none of the list is more confident.
pub record IsSurest (P : Candidate → Type 0) (l : List Candidate) (w : Candidate) : Type 0 where
  pub holds : P w
  pub surest : All (λ x. x.result.confidence ≤ w.result.confidence) l

-- The first of the most confident is one of them, and none is more confident.
pub most_confident-IsSurest :
    (P : Candidate → Type 0) (best : Candidate) (cs : List Candidate)
    → All P (best ∷ cs)
    → IsSurest P (best ∷ cs) (most_confident best cs)
most_confident-IsSurest P best [] h =
    rw (most_confident_nil best) (record { holds = h.0; surest = (omega arith, tt) })
most_confident-IsSurest P best (c ∷ cs) h =
    elim (Bool-cases (ltb best.result.confidence c.result.confidence)) [
      | inl more ↦
          let s = most_confident-IsSurest P c cs h.1 in
          let (le, les) = s.surest in
          rw (most_confident_more best c cs more)
            (record { holds = s.holds; surest = (ground arith, (le, les)) })
      | inr less ↦
          let s = most_confident-IsSurest P best cs (h.0, h.1.1) in
          let (le, les) = s.surest in
          rw (most_confident_less best c cs less)
            (record { holds = s.holds; surest = (le, (ground arith, les)) })
    ]

beats_trans : (a b c : ℕ × ℕ) → beats a b ≡ true → beats c b ≡ false → beats c a ≡ false
unfolding beats
beats_trans a b c h h' = ground arith

beats_still : (a b c : ℕ × ℕ) → beats a b ≡ false → beats c a ≡ false → beats c b ≡ false
unfolding beats
beats_still a b c h h' = ground arith

pub beats_irrefl : (a : ℕ × ℕ) → beats a a ≡ false
unfolding beats
beats_irrefl a = ground arith

module _ (by_key : Dict (List Candidate)) where
  abbrev at : String × ℕ → ℕ × ℕ
  at e = score by_key e

  top_key_nil : (best : String × ℕ) → top_key by_key best [] ≡ best
  unfolding top_key
  top_key_nil best = refl

  top_key_next :
      (b : Bool) (best e : String × ℕ) (tally : Dict ℕ)
      → beats (at best) (at e) ≡ b
      → top_key by_key best (e ∷ tally) ≡ top_key by_key (if b then e else best) tally
  unfolding top_key
  top_key_next b best e tally q = ap (λ b. top_key by_key (if b then e else best) tally) q

  -- An entry with the property, and none of the list beats it.
  pub record IsTop (P : String × ℕ → Type 0) (l : Dict ℕ) (w : String × ℕ) : Type 0 where
    pub holds : P w
    pub unbeaten : All (λ e. beats (at w) (at e) ≡ false) l

  pub top_key-IsTop :
      (P : String × ℕ → Type 0) (best : String × ℕ) (tally : Dict ℕ)
      → All P (best ∷ tally)
      → IsTop P (best ∷ tally) (top_key by_key best tally)
  top_key-IsTop P best [] h =
      rw (top_key_nil best) (record { holds = h.0; unbeaten = (beats_irrefl (at best), tt) })
  top_key-IsTop P best (e ∷ tally) h = elim (Bool-cases (beats (at best) (at e))) [
    | inl more ↦
        let s = top_key-IsTop P e tally h.1 in
        let (le, les) = s.unbeaten in
        rw (top_key_next true best e tally more) (record {
          holds = s.holds;
          unbeaten =
              (beats_trans (at best) (at e) (at (top_key by_key e tally)) more le, (le, les));
        })
    | inr less ↦
        let s = top_key-IsTop P best tally (h.0, h.1.1) in
        let (le, les) = s.unbeaten in
        rw (top_key_next false best e tally less) (record {
          holds = s.holds;
          unbeaten =
              (le, (beats_still (at best) (at e) (at (top_key by_key best tally)) less le, les));
        })
  ]

-- `pick` finds one in a list with a candidate in it.
pub pick-IsSurest :
    (P : Candidate → Type 0) (l : List Candidate)
    → All P l
    → 0 < length l
    → (w : Candidate) × (pick l ≡ some w) × IsSurest P l w
unfolding pick
pick-IsSurest P [] h p = absurd (omega (arith, p))
pick-IsSurest P (c ∷ cs) h p = (most_confident c cs, refl, most_confident-IsSurest P c cs h)
