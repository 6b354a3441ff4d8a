-- ===== src/Llm/Limiter.antt =====
-- The per-provider token buckets of llm/rate_limiter.py.
--
-- The floats are exact numbers here: time is in milliseconds and tokens are counted in 60000ths, so
-- that a rate of `n` tokens a minute is `n` such units a millisecond. The clock does not run
-- backwards, so that the truncated difference of two times is the source's.
pub mod Budget
use haojie.Common.{
  ℕ, ◌+◌, ◌-◌, ◌*◌, Bool, true, false, Option, none, some, String, List, [], ◌∷◌, leb, ◌==◌,
  if◌then◌else◌, min, Dict, lookup, insert,
}

abbrev pub unit : ℕ
unit = 60000

pub record TokenBucket : Type 0 where
  pub rate_per_minute : ℕ
  pub capacity : ℕ
  pub tokens : ℕ
  pub last_refill : ℕ

unfoldable pub init : ℕ → ℕ → ℕ → TokenBucket
init rate_per_minute burst now = record {
  rate_per_minute = rate_per_minute;
  capacity = burst;
  tokens = burst * unit;
  last_refill = now;
}

unfoldable pub refill : ℕ → TokenBucket → TokenBucket
refill now b = record b {
  tokens = min (b.capacity * unit) (b.tokens + (now - b.last_refill) * b.rate_per_minute);
  last_refill = now;
}

-- A rate of 0 turns the limiter off.
unfoldable pub try_acquire : ℕ → ℕ → TokenBucket → TokenBucket × Bool
unfolding refill
try_acquire tokens now b =
    if b.rate_per_minute == 0
    then (b, true)
    else let r = refill now b in
      if leb (tokens * unit) r.tokens
      then (record r { tokens = r.tokens - tokens * unit }, true)
      else (r, false)

-- `RateLimiterRegistry`
pub record Registry : Type 0 where
  pub rate_per_minute : ℕ
  pub burst : ℕ
  pub buckets : Dict TokenBucket

unfoldable pub bucket_of : String → ℕ → Registry → TokenBucket
unfolding init
bucket_of provider now r = elim (lookup provider r.buckets) [
  | some b ↦ b
  | none ↦ init r.rate_per_minute r.burst now
]

-- `ensure_allowed`: `false` is a `RateLimitedError`. The bucket is kept in the registry either way.
unfoldable pub ensure_allowed : String → ℕ → Registry → Registry × Bool
unfolding bucket_of try_acquire
ensure_allowed provider now r =
    let (b, allowed) = try_acquire 1 now (bucket_of provider now r) in
    (record r { buckets = insert provider b r.buckets }, allowed)
