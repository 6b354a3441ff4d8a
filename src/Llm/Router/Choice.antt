-- ===== src/Llm/Router/Choice.antt =====
-- The choice among the candidates of the parallel strategies (llm/router.py, `_run_parallel_vote` and
-- `_run_confidence`). The candidates come in the order of their targets, as `gather` returns them.
pub mod Tally
pub mod Best
pub mod Winner
use haojie.Common.{
  ℕ, ◌+◌, Bool, true, false, Option, none, some, String, List, [], ◌∷◌, ◌++◌, ltb, ◌==◌, ◌&&◌, ◌||◌,
  if◌then◌else◌, Dict, lookup, insert, get_or, strip,
}
use haojie.Llm.Router.{Candidate}

-- The text that a candidate votes for.
unfoldable pub key_of : Candidate → String
unfolding strip
key_of c = strip c.result.content

-- `tally` and `by_key`, entry by entry.
unfoldable pub count_votes : List Candidate → Dict ℕ → Dict ℕ
unfolding key_of
count_votes [] tally = tally
count_votes (c ∷ cs) tally =
    count_votes cs (insert (key_of c) (get_or (lookup (key_of c) tally) 0 + 1) tally)

unfoldable pub group : List Candidate → Dict (List Candidate) → Dict (List Candidate)
unfolding key_of
group [] by_key = by_key
group (c ∷ cs) by_key =
    group cs (insert (key_of c) (get_or (lookup (key_of c) by_key) [] ++ c ∷ []) by_key)

-- `max(..., key=confidence)`: the first of the most confident.
unfoldable pub most_confident : Candidate → List Candidate → Candidate
most_confident best [] = best
most_confident best (c ∷ cs) =
    most_confident (if ltb best.result.confidence c.result.confidence then c else best) cs

-- `max(c.result.confidence for c in ...)`; no group is empty.
unfoldable pub top_confidence : List Candidate → ℕ
unfolding most_confident
top_confidence [] = 0
top_confidence (c ∷ cs) = (most_confident c cs).result.confidence

-- Pairs in the order of tuples: the second is greater.
unfoldable pub beats : ℕ × ℕ → ℕ × ℕ → Bool
beats (n, c) (n', c') = ltb n n' || n == n' && ltb c c'

unfoldable pub score : Dict (List Candidate) → String × ℕ → ℕ × ℕ
unfolding top_confidence
score by_key (key, n) = (n, top_confidence (get_or (lookup key by_key) []))

-- `max(tally.items(), ...)`: the first of the best.
unfoldable pub top_key : Dict (List Candidate) → String × ℕ → Dict ℕ → String × ℕ
unfolding score beats
top_key by_key best [] = best
top_key by_key best (e ∷ tally) =
    top_key by_key (if beats (score by_key best) (score by_key e) then e else best) tally

unfoldable pub pick : List Candidate → Option Candidate
unfolding most_confident
pick [] = none
pick (c ∷ cs) = some (most_confident c cs)

-- `_run_confidence`, after the attempts; `none` is the error.
unfoldable pub by_confidence : List Candidate → Option Candidate
unfolding pick
by_confidence candidates = pick candidates

unfoldable pub elected : Dict (List Candidate) → Dict ℕ → Option Candidate
unfolding top_key pick
elected by_key [] = none
elected by_key (e ∷ tally) = pick (get_or (lookup (top_key by_key e tally).0 by_key) [])

-- `_run_parallel_vote`, after the attempts.
unfoldable pub by_vote : List Candidate → Option Candidate
unfolding count_votes group elected
by_vote candidates = elected (group candidates []) (count_votes candidates [])
