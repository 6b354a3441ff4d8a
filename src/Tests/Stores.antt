-- ===== src/Tests/Stores.antt =====
-- Runs of the rate limiters (gateway/rate_limiting/token_bucket.py and llm/rate_limiter.py): buckets
-- of two tokens, refilled at 60 a minute, one a second.
use haojie.Common.{
  ℕ, ◌≡◌, ◌↔◌, refl, true, false, [], ◌∷◌, arith, List, ◌≤◌, ◌*◌, ◌+◌, ◌-◌, Dict, lookup, insert,
}
use haojie.RateLimit.{unit, Bucket, Decision, try_consume, refilled}
use haojie.RateLimit.Budget.{Request, spent, spent-le-budget}
use haojie.RateLimit.Retry.{retry_iff}
use haojie.RateLimit.Stores.{verdicts, verdicts_redis, stores_agree}

abbrev at : ℕ → Request
at now = record { key = "ann"; cost = 1; now = now }

abbrev requests : List Request
requests =
    at 0 ∷ at 10 ∷ at 20 ∷ record { key = "bob"; cost = 2; now = 30 } ∷ at 1010 ∷ at 4000000 ∷ []

-- One token left an instant ago, of two.
abbrev store : Dict Bucket
store = ("ann", record { tokens = 30000; updated_at = 1000 }) ∷ []

verdicts_test :
    verdicts 2 60 requests []
    ≡ (true, 1, 2) ∷ (true, 0, 2) ∷ (false, 0, 2) ∷ (true, 0, 2) ∷ (true, 0, 2) ∷ (true, 1, 2) ∷ []
unfolding verdicts try_consume lookup insert
verdicts_test = refl

spent-le-budget_example : spent 2 60 "ann" requests [] * unit ≤ 2 * unit + (4000000 - 0) * 60
spent-le-budget_example = spent-le-budget 2 60 "ann" 0 4000000 requests (ground arith)

abbrev answer : Decision
answer = (try_consume "ann" 2 60 1 1100 store).1

abbrev next : Dict Bucket
next = (try_consume "ann" 2 60 1 1100 store).0

abbrev filled : Bucket
filled = refilled (lookup "ann" store) 1100 2 60

refused : answer.allowed ≡ false
unfolding try_consume lookup
refused = refl

retry_iff_example :
    ((try_consume "ann" 2 60 1 (1100 + 400) next).1.allowed ≡ true)
    ↔ (answer.reset_in.num ≤ 400 * answer.reset_in.den)
retry_iff_example = retry_iff 2 60 "ann" 1 1100 400 store (omega arith) (omega arith) refused

abbrev large : Decision
large = (try_consume "ann" 2 60 3 1100 store).1

stores_agree_example : verdicts 2 60 requests [] ≡ verdicts_redis 2 60 requests []
stores_agree_example = stores_agree 2 60 0 4000000 requests (omega arith) (ground arith)
