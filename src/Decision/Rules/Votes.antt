-- ===== src/Decision/Rules/Votes.antt =====
-- What the rule strategy's candidates are (decision/strategies/rules.py, `evaluate`), for any rules.
use haojie.Common.{
  ℕ, ◌+◌, ◌≡◌, ◌≢◌, refl, sym, ap, Bool, true, false, ◌&&◌, ◌||◌, Option, none, some, String, List,
  [], ◌∷◌, if◌then◌else◌, min, str_eq, str_eq_iff, any, Dict, lookup, insert, get_or, Distinct,
  arith, lookup-insert, Bool-cases, inl, inr, is_some,
}
use haojie.Decision.Catalog.{fallback_action, is_registered}
use haojie.Decision.Features.{FeatureVector}
use haojie.Decision.Rules.{
  Rule, Tally, vote, tally, fallback_scores, place, ordered, normalised, is_allowed, filtered,
  or_fallback, settled, evaluate,
}

-- The votes of the rules that match, for one action.
unfoldable pub votes : String → List Rule → FeatureVector → ℕ
votes id [] f = 0
votes id (rule ∷ rules) f =
    (if rule.when f && str_eq rule.action id then rule.score else 0) + votes id rules f

-- Whether a rule that matches votes for the action.
unfoldable pub has_vote : String → List Rule → FeatureVector → Bool
has_vote id rules f = any (λ rule. rule.when f && str_eq rule.action id) rules

-- The action's place in the scores after the loop: what it had and the votes.
unfoldable pub counted : Bool → Option ℕ → ℕ → Option ℕ
counted voted had n = if voted || is_some had then some (get_or had 0 + n) else none

counted_none : (had : Option ℕ) → counted false had 0 ≡ had
unfolding counted
counted_none none = refl
counted_none (some n) = ap some (omega arith)

-- A vote and then the others count as all of them do.
counted-counted :
    (same voted : Bool) (had : Option ℕ) (n m : ℕ)
    → counted voted (if same then some (get_or had 0 + n) else had) m
      ≡ counted (same || voted) had ((if same then n else 0) + m)
unfolding counted
counted-counted same voted none n m = ground arith
counted-counted same voted (some k) n m = ground arith

tally_nil : (f : FeatureVector) (t : Tally) → tally [] f t ≡ t
unfolding tally
tally_nil f t = refl

tally_skips :
    (rule : Rule) (rules : List Rule) (f : FeatureVector) (t : Tally)
    → rule.when f ≡ false
    → tally (rule ∷ rules) f t ≡ tally rules f t
unfolding tally
tally_skips rule rules f t skips = ap (λ b. tally rules f (if b then vote rule t else t)) skips

tally_votes :
    (rule : Rule) (rules : List Rule) (f : FeatureVector) (t : Tally)
    → rule.when f ≡ true
    → tally (rule ∷ rules) f t ≡ tally rules f (vote rule t)
unfolding tally
tally_votes rule rules f t matches = ap (λ b. tally rules f (if b then vote rule t else t)) matches

-- One vote, for whatever action.
vote-lookup :
    (id : String) (rule : Rule) (t : Tally)
    → lookup id (vote rule t).scored ≡ (
        if str_eq rule.action id
        then some (get_or (lookup id t.scored) 0 + rule.score)
        else lookup id t.scored)
unfolding vote
vote-lookup id rule t = elim (Bool-cases (str_eq rule.action id)) [
  | inl same ↦
      let q : lookup rule.action t.scored ≡ lookup id t.scored =
        ap (λ k. lookup k t.scored) ((str_eq_iff rule.action id).0 same) in
      ground (
        arith,
        q,
        lookup-insert rule.action id (get_or (lookup rule.action t.scored) 0 + rule.score) t.scored,
      )
  | inr other ↦ ground (
    arith,
    lookup-insert rule.action id (get_or (lookup rule.action t.scored) 0 + rule.score) t.scored,
  )
]

tally-lookup :
    (id : String) (rules : List Rule) (f : FeatureVector) (t : Tally)
    → lookup id (tally rules f t).scored
      ≡ counted (has_vote id rules f) (lookup id t.scored) (votes id rules f)
unfolding votes has_vote
tally-lookup id [] f t = rw (tally_nil f t) (sym (counted_none (lookup id t.scored)))
tally-lookup id (rule ∷ rules) f t = elim (Bool-cases (rule.when f)) [
  | inr skips ↦
      let e : 0 + votes id rules f ≡ votes id rules f = omega arith in
      rw (tally_skips rule rules f t skips, skips, e) (tally-lookup id rules f t)
  | inl matches ↦
      rw (tally_votes rule rules f t matches, matches)
        (rw (tally-lookup id rules f (vote rule t), vote-lookup id rule t)
          (counted-counted (str_eq rule.action id) (has_vote id rules f) (lookup id t.scored)
            rule.score (votes id rules f)))
]

module _ {ℓ} {V : Type ℓ} where
  Distinct-insert : (k : String) (v : V) (d : Dict V) → Distinct d → Distinct (insert k v d)
  unfolding insert lookup
  Distinct-insert k v [] h = ground arith
  Distinct-insert k v ((j, w) ∷ d) h =
      ground
        (arith, str_eq_iff j k, str_eq_iff k j, Distinct-insert k v d h.1, lookup-insert k j v d)

vote-Distinct : (rule : Rule) (t : Tally) → Distinct t.scored → Distinct (vote rule t).scored
unfolding vote
vote-Distinct rule t h = Distinct-insert _ _ t.scored h

tally-Distinct :
    (rules : List Rule) (f : FeatureVector) (t : Tally)
    → Distinct t.scored
    → Distinct (tally rules f t).scored
unfolding tally
tally-Distinct [] f t h = h
tally-Distinct (rule ∷ rules) f t h = elim (Bool-cases (rule.when f)) [
  | inr skips ↦ rw (tally_skips rule rules f t skips) (tally-Distinct rules f t h)
  | inl matches ↦
      rw (tally_votes rule rules f t matches)
        (tally-Distinct rules f (vote rule t) (vote-Distinct rule t h))
]

lookup-place :
    (id : String) (e : String × ℕ) (d : Dict ℕ)
    → lookup e.0 d ≡ none
    → lookup id (place e d) ≡ (if str_eq e.0 id then some e.1 else lookup id d)
unfolding place lookup
lookup-place id e [] h = ground arith
lookup-place id e (x ∷ d) h =
    ground (arith, str_eq_iff e.0 id, str_eq_iff x.0 id, str_eq_iff x.0 e.0, lookup-place id e d)

pub lookup-ordered : (id : String) (d : Dict ℕ) → Distinct d → lookup id (ordered d) ≡ lookup id d
unfolding ordered lookup
lookup-ordered id [] h = refl
lookup-ordered id (e ∷ d) h =
    ground (arith, lookup-ordered e.0 d h.1, lookup-ordered id d h.1, lookup-place id e (ordered d))

capped : Option ℕ → Option ℕ
capped none = none
capped (some n) = some (min 100 n)

lookup-normalised :
    (id : String) (d : Dict ℕ)
    → lookup id (normalised d) ≡ (if is_registered id then capped (lookup id d) else none)
unfolding normalised lookup capped
lookup-normalised id [] = ground arith
lookup-normalised id (e ∷ d) = elim (Bool-cases (str_eq e.0 id)) [
  | inl same ↦
      let q : e.0 ≡ id = (str_eq_iff e.0 id).0 same in
      ground (arith, ap is_registered q, lookup-normalised id d)
  | inr other ↦ ground (arith, lookup-normalised id d)
]

lookup-filtered :
    (audience id : String) (d : Dict ℕ)
    → lookup id (filtered audience d) ≡ (if is_allowed audience id then lookup id d else none)
unfolding filtered lookup
lookup-filtered audience id [] = ground arith
lookup-filtered audience id (e ∷ d) = elim (Bool-cases (str_eq e.0 id)) [
  | inl same ↦
      let q : e.0 ≡ id = (str_eq_iff e.0 id).0 same in
      ground (arith, ap (is_allowed audience) q, lookup-filtered audience id d)
  | inr other ↦ ground (arith, lookup-filtered audience id d)
]

lookup-or_fallback :
    (id : String) (d : Dict ℕ) → id ≢ fallback_action → lookup id (or_fallback d) ≡ lookup id d
unfolding or_fallback lookup
lookup-or_fallback id [] ne = ground (arith, str_eq_iff fallback_action id)
lookup-or_fallback id (e ∷ d) ne = refl

-- Without a vote the two actions of the fallback get one; no other action does.
lookup-settled :
    (id : String) (f : FeatureVector) (t : Tally)
    → id ≢ "no_action"
    → id ≢ "request_more_info"
    → lookup id (settled f t).scored ≡ lookup id t.scored
unfolding settled fallback_scores lookup
lookup-settled id f t na rmi = at t.scored refl
  where
    at : (d : Dict ℕ) → t.scored ≡ d → lookup id (settled f t).scored ≡ lookup id t.scored
    at [] e =
        rw (settled, e)
          (ground (arith, str_eq_iff "no_action" id, str_eq_iff "request_more_info" id))
    at (x ∷ d) e = rw (settled, e) (rw e refl)

settled-Distinct :
    (f : FeatureVector) (t : Tally) → Distinct t.scored → Distinct (settled f t).scored
unfolding settled fallback_scores lookup
settled-Distinct f t h = at t.scored refl
  where
    at : (d : Dict ℕ) → t.scored ≡ d → Distinct (settled f t).scored
    at [] e = rw (settled, e) (ground arith)
    at (x ∷ d) e = rw (settled, e) h

-- For any rules, an action other than the two of the fallback is a candidate exactly when it is
-- registered, is allowed to the buyer, and has a vote from a rule that matches; its confidence is
-- the sum of these votes, at most 1.
pub lookup-evaluate :
    (id : String) (rules : List Rule) (f : FeatureVector)
    → id ≢ "no_action"
    → id ≢ "request_more_info"
    → lookup id (evaluate rules f).candidates ≡ (
        if is_allowed f.user_type id && is_registered id && has_vote id rules f
        then some (min 100 (votes id rules f))
        else none)
unfolding evaluate counted capped lookup
lookup-evaluate id rules f na rmi =
    let t : Tally = record { scored = []; risks = 0; matched = [] } in
    let t' = settled f (tally rules f t) in
    let distinct = settled-Distinct f (tally rules f t) (tally-Distinct rules f t tt) in
    rw
      (
        lookup-or_fallback id _ na,
        lookup-filtered f.user_type id _,
        lookup-or_fallback id _ na,
        lookup-normalised id _,
        lookup-ordered id t'.scored distinct,
        lookup-settled id f (tally rules f t) na rmi,
        tally-lookup id rules f t,
      )
      (ground arith)
