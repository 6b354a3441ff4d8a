-- ===== src/RateLimit/Retry.antt =====
-- What one call of the in-memory store decides, and how long a refusal lasts
-- (gateway/rate_limiting/token_bucket.py).
use haojie.Common.{
  ℕ, ◌+◌, ◌-◌, ◌*◌, ◌≤◌, ◌<◌, ◌≡◌, ◌↔◌, true, false, Option, none, some, String, arith, leb,
  if◌then◌else◌, Dict, lookup, insert, lookup-insert, lookup-insert_self, str_eq,
}
use haojie.RateLimit.{decide, unit, Bucket, refilled, consume, try_consume}

-- The bucket after an attempt at `b`.
abbrev pub taken : ℕ → ℕ → Bucket → Bucket
taken cost now b = record {
  tokens = if leb (cost * unit) b.tokens then b.tokens - cost * unit else b.tokens;
  updated_at = now;
}

module _ (capacity refill cost : ℕ) where
  attempt_lem :
      (now : ℕ) (o : Option Bucket)
      → let b = refilled o now capacity refill in
        let d = decide capacity refill cost (consume cost b) in
        ((consume cost b).0 ≡ taken cost now b)
        × (d.allowed ≡ leb (cost * unit) b.tokens)
        × (b.tokens ≤ capacity * unit)
        × (d.limit ≡ capacity)
  unfolding refilled consume decide
  attempt_lem now none = ground arith
  attempt_lem now (some b) = ground arith

  refusal_lem :
      (now : ℕ) (o : Option Bucket)
      → let b = refilled o now capacity refill in
        let d = decide capacity refill cost (consume cost b) in
        0 < refill
        → d.allowed ≡ false
        → ((consume cost b).0 ≡ b)
          × (b.updated_at ≡ now)
          × (b.tokens < cost * unit)
          × (d.reset_in.num ≡ cost * unit - b.tokens)
          × (d.reset_in.den ≡ refill)
  unfolding refilled consume decide
  refusal_lem now none pos h = ground arith
  refusal_lem now (some b) pos h = ground arith

  retried_lem :
      (now wait : ℕ) (b : Bucket)
      → b.updated_at ≡ now
      → b.tokens < cost * unit
      → cost ≤ capacity
      → (leb (cost * unit) (refilled (some b) (now + wait) capacity refill).tokens ≡ true)
        ↔ (cost * unit - b.tokens ≤ wait * refill)
  unfolding refilled
  retried_lem now wait b e less fits =
      let elapsed : now + wait - b.updated_at ≡ wait = omega arith in
      rw elapsed (ground arith, ground arith)

module _ (capacity refill : ℕ) where
  -- One call grants exactly when the refilled bucket covers the cost, takes just that from it,
  -- never holds more than the capacity, writes the time, and leaves every other key alone.
  pub try_consume_lem :
      (key other : String) (cost now : ℕ) (buckets : Dict Bucket)
      → let b = refilled (lookup key buckets) now capacity refill in
        let (after, d) = try_consume key capacity refill cost now buckets in
        (d.allowed ≡ leb (cost * unit) b.tokens)
        × (d.limit ≡ capacity)
        × (b.tokens ≤ capacity * unit)
        × (lookup other after
            ≡ (if str_eq key other then some (taken cost now b) else lookup other buckets))
  unfolding try_consume
  try_consume_lem key other cost now buckets =
      let (wrote, answer, held, limit) =
        attempt_lem capacity refill cost now (lookup key buckets) in
      (answer, limit, held, rw (lookup-insert, wrote))

  -- A refusal of a cost that the capacity covers, under a positive refill, holds for just the time
  -- that it reports: the same request, `wait` later with none for that key between, is granted
  -- exactly when `wait` has reached it.
  pub retry_iff :
      (key : String) (cost now wait : ℕ) (buckets : Dict Bucket)
      → 0 < refill
      → cost ≤ capacity
      → (try_consume key capacity refill cost now buckets).1.allowed ≡ false
      → let (after, d) = try_consume key capacity refill cost now buckets in
        ((try_consume key capacity refill cost (now + wait) after).1.allowed ≡ true)
        ↔ (d.reset_in.num ≤ wait * d.reset_in.den)
  unfolding try_consume
  retry_iff key cost now wait buckets pos fits refused =
      let o = lookup key buckets in
      let b = refilled o now capacity refill in
      let (kept, dated, less, num, den) = refusal_lem capacity refill cost now o pos refused in
      let again = attempt_lem capacity refill cost (now + wait) (some b) in
      let found : lookup key (insert key b buckets) ≡ some b = lookup-insert_self key b buckets in
      rw (kept, found, num, den, again.1)
        (retried_lem capacity refill cost now wait b dated less fits)

  -- A cost above the capacity is refused in every state and at every time, although under a
  -- positive refill the refusal names a time to wait.
  pub oversized_refused :
      (key : String) (cost now : ℕ) (buckets : Dict Bucket)
      → 0 < refill
      → capacity < cost
      → let d = (try_consume key capacity refill cost now buckets).1 in
        (d.allowed ≡ false) × (0 < d.reset_in.num) × (d.reset_in.den ≡ refill)
  unfolding try_consume
  oversized_refused key cost now buckets pos big =
      let o = lookup key buckets in
      let (wrote, answer, held, limit) = attempt_lem capacity refill cost now o in
      ground (arith, answer, held, refusal_lem capacity refill cost now o pos)
