-- ===== src/Llm/Router/Choice/Winner.antt =====
-- Who wins the vote of llm/router.py (`_run_parallel_vote`).
use haojie.Common.{
  ℕ, zero, suc, ◌≤◌, ◌<◌, ◌≡◌, refl, sym, ap, ◌∙◌, false, none, some, String, List, [], ◌∷◌, arith,
  Dict, lookup, Distinct, All, get_or, length, str_eq, str_eq_iff, str_eq_refl, Bool-cases, inl,
  inr,
}
use mathlib.Core.Path.{subst}
use haojie.Llm.Router.{Candidate}
use haojie.Llm.Router.Choice.{
  key_of, count_votes, group, pick, top_confidence, beats, score, top_key, elected, by_vote,
}
use haojie.Llm.Router.Choice.Tally.{
  IsAmong, here, voters, voters-All, voters_pos, counts, group-lookup, count_votes-lookup,
  count_votes-Distinct,
}
use haojie.Llm.Router.Choice.Best.{IsTop, top_key-IsTop, pick-IsSurest}

-- The votes for a text, and the confidence of the surest candidate with it.
unfoldable pub standing : List Candidate → String → ℕ × ℕ
standing all k = (length (voters k all), top_confidence (voters k all))

-- `w` has the text `k`, no candidate's text stands better, and none with this text is surer.
pub record Elected (all : List Candidate) (k : String) (w : Candidate) : Type 0 where
  pub among : IsAmong w all
  pub text : key_of w ≡ k
  pub unbeaten :
      (c : Candidate) → IsAmong c all → beats (standing all k) (standing all (key_of c)) ≡ false
  pub surest : All (λ c. c.result.confidence ≤ w.result.confidence) (voters k all)

All-lookup :
    (P : String × ℕ → Type 0) (k : String) (v : ℕ) (d : Dict ℕ)
    → All P d
    → lookup k d ≡ some v
    → P (k, v)
unfolding lookup
All-lookup P k v [] h e = absurd (ground (arith, e))
All-lookup P k v ((j, w) ∷ d) h e = elim (Bool-cases (str_eq j k)) [
  | inl same ↦
      let q : j ≡ k = (str_eq_iff j k).0 same in
      let q' : w ≡ v = ground (arith, e) in rw (← q, ← q') h.0
  | inr other ↦ All-lookup P k v d h.1 (ground (arith, e))
]

lookup-All :
    (P : String × ℕ → Type 0) (d : Dict ℕ)
    → Distinct d
    → ((k : String) (v : ℕ) → lookup k d ≡ some v → P (k, v))
    → All P d
unfolding lookup
lookup-All P [] u h = tt
lookup-All P ((j, w) ∷ d) u h = (
  h j w (ground (arith, str_eq_refl j)),
  lookup-All P d u.1
      (λ k v e. h k v (ground (arith, str_eq_iff j k, ap (λ i. lookup i d), u.0, e))),
)

module _ (all : List Candidate) where
  by_key : Dict (List Candidate)
  by_key = group all []

  tally : Dict ℕ
  tally = count_votes all []

  by_key-lookup : (k : String) → get_or (lookup k by_key) [] ≡ voters k all
  unfolding by_key lookup
  by_key-lookup k = group-lookup k all []

  tally-lookup : (k : String) → lookup k tally ≡ counts none (length (voters k all))
  unfolding tally lookup
  tally-lookup k = count_votes-lookup k all []

  -- An entry of the tally counts the voters of its text, of which there is one.
  abbrev IsCount : String × ℕ → Type 0
  IsCount e = (e.1 ≡ length (voters e.0 all)) × (0 < e.1)

  counts-some : (n v : ℕ) → counts none n ≡ some v → (v ≡ n) × (0 < v)
  unfolding counts
  counts-some zero v e = absurd (ground (arith, e))
  counts-some (suc n) v e = ground (arith, e)

  tally-IsCount : All IsCount tally
  unfolding tally
  tally-IsCount =
      lookup-All IsCount tally (count_votes-Distinct all [] tt)
        (λ k v e. counts-some (length (voters k all)) v (sym (tally-lookup k) ∙ e))

  score-standing : (e : String × ℕ) → IsCount e → score by_key e ≡ standing all e.0
  unfolding score standing
  score-standing (k, n) h = rw (by_key-lookup k, h.0) refl

  tally_has :
      (x : Candidate)
      → IsAmong x all
      → lookup (key_of x) tally ≡ some (length (voters (key_of x) all))
  unfolding counts
  tally_has x i = ground (arith, tally-lookup (key_of x), voters_pos x all i)

  unbeaten_of_top :
      (r : String × ℕ) (t : Dict ℕ)
      → tally ≡ t
      → IsTop by_key IsCount t r
      → (x : Candidate) → IsAmong x all
      → beats (standing all r.0) (standing all (key_of x)) ≡ false
  unbeaten_of_top r t e top x i =
      let n = length (voters (key_of x) all) in
      let q : beats (score by_key r) (score by_key (key_of x, n)) ≡ false =
        All-lookup (λ y. beats (score by_key r) (score by_key y) ≡ false) (key_of x) n t
          top.unbeaten (ap (lookup (key_of x)) (sym e) ∙ tally_has x i) in
      rw (← score-standing r top.holds, ← score-standing (key_of x, n) (refl, voters_pos x all i)) q

  -- The surest of those who vote for the entry that is chosen.
  pick-Elected :
      (r : String × ℕ) (t : Dict ℕ)
      → tally ≡ t
      → IsTop by_key IsCount t r
      → (w : Candidate) × (pick (get_or (lookup r.0 by_key) []) ≡ some w) × Elected all r.0 w
  pick-Elected r t e top =
      let p : 0 < length (voters r.0 all) = ground (arith, top.holds) in
      let (w, q, s) =
        pick-IsSurest (λ x. IsAmong x all × (key_of x ≡ r.0)) (voters r.0 all)
          (voters-All r.0 all all (λ x i. i)) p in
      (
        w,
        ap pick (by_key-lookup r.0) ∙ q,
        record {
          among = s.holds.0;
          text = s.holds.1;
          unbeaten = unbeaten_of_top r t e top;
          surest = s.surest;
        },
      )

  elected-Elected :
      (x : Candidate)
      → IsAmong x all
      → (t : Dict ℕ) → tally ≡ t
      → (k : String) × (w : Candidate) × (elected by_key t ≡ some w) × Elected all k w
  unfolding elected lookup
  elected-Elected x i [] e = absurd (ground (arith, sym (tally_has x i) ∙ ap (lookup (key_of x)) e))
  elected-Elected x i (r ∷ t) e =
      let h : All IsCount (r ∷ t) = subst (λ l. All IsCount l) e tally-IsCount in
      let top = top_key-IsTop by_key IsCount r t h in
      let (w, q, el) = pick-Elected (top_key by_key r t) (r ∷ t) e top in
      ((top_key by_key r t).0, w, q, el)

-- Of the candidates of `parallel_vote`, one or more, the vote answers with one: no candidate's
-- trimmed text has more votes than its own, or as many and a surer candidate, and no candidate
-- with its text is surer than it.
pub by_vote-Elected :
    (c : Candidate) (cs : List Candidate)
    → (k : String) × (w : Candidate) × (by_vote (c ∷ cs) ≡ some w) × Elected (c ∷ cs) k w
unfolding by_vote by_key tally
by_vote-Elected c cs = elected-Elected (c ∷ cs) c here (tally (c ∷ cs)) refl
