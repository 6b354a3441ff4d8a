-- ===== src/RateLimit.antt =====
-- The gateway's token buckets (gateway/rate_limiting/token_bucket.py): the in-memory store, and the
-- Redis store with its Lua script.
--
-- The floats are exact numbers here. Time is in milliseconds, tokens are counted in 60000ths, so a
-- refill of `n` tokens a minute is `n` such units a millisecond. Redis is taken to read the same
-- clock as its callers. A time to wait is a fraction of a
-- millisecond, and 0 where the source returns 0.0.
pub mod Budget
pub mod Retry
pub mod Stores
use haojie.Common.{
  ℕ, ◌+◌, ◌-◌, ◌*◌, ◌/◌, Bool, true, false, Option, none, some, String, leb, ltb, ◌==◌,
  if◌then◌else◌, min, max, Dict, lookup, insert, List, [], ◌∷◌,
}

abbrev pub unit : ℕ
unit = 60000

pub record Ratio : Type 0 where
  pub num : ℕ
  pub den : ℕ

pub record Decision : Type 0 where
  pub allowed : Bool
  pub remaining : ℕ
  pub limit : ℕ
  pub reset_in : Ratio

-- `_BucketState`
pub record Bucket : Type 0 where
  pub tokens : ℕ
  pub updated_at : ℕ

-- `x / refill if refill > 0 else 0.0`
unfoldable pub wait_for : ℕ → ℕ → Ratio
wait_for missing refill =
    if ltb 0 refill then record { num = missing; den = refill } else record { num = 0; den = 1 }

-- The bucket of the key after its refill: a new key starts full. The truncated difference is the
-- source's `max(0.0, now - updated_at)`.
unfoldable pub refilled : Option Bucket → ℕ → ℕ → ℕ → Bucket
refilled none now capacity refill = record { tokens = capacity * unit; updated_at = now }
refilled (some b) now capacity refill = record {
  tokens = min (capacity * unit) (b.tokens + (now - b.updated_at) * refill);
  updated_at = now;
}

-- What is consumed: the bucket after it, and whether there was enough.
unfoldable pub consume : ℕ → Bucket → Bucket × Bool
consume cost b =
    if leb (cost * unit) b.tokens
    then (record b { tokens = b.tokens - cost * unit }, true)
    else (b, false)

pub decide : ℕ → ℕ → ℕ → Bucket × Bool → Decision
unfolding wait_for
decide capacity refill cost (b, true) = record {
  allowed = true;
  remaining = b.tokens / unit;
  limit = capacity;
  reset_in = wait_for (capacity * unit - b.tokens) refill;
}
decide capacity refill cost (b, false) = record {
  allowed = false;
  remaining = b.tokens / unit;
  limit = capacity;
  reset_in = wait_for (cost * unit - b.tokens) refill;
}

-- `InMemoryTokenBucketStore.try_consume`
unfoldable pub try_consume : String → ℕ → ℕ → ℕ → ℕ → Dict Bucket → Dict Bucket × Decision
unfolding refilled consume decide
try_consume key capacity refill cost now buckets =
    let outcome = consume cost (refilled (lookup key buckets) now capacity refill) in
    (insert key outcome.0 buckets, decide capacity refill cost outcome)

-- A hash in Redis, with the time at which `EXPIRE` drops it.
pub record Hash : Type 0 where
  pub bucket : Bucket
  pub expires_at : ℕ

-- `HMGET`: an expired hash reads as a missing one.
unfoldable pub hmget : Option Hash → ℕ → Option Bucket
hmget none now = none
hmget (some h) now = if ltb now h.expires_at then some h.bucket else none

-- `_SCRIPT`: the refilled bucket, the attempt, and a lifetime of an hour. Redis cuts a Lua number
-- that it returns to an integer.
unfoldable pub script : ℕ → ℕ → ℕ → ℕ → Option Hash → Hash × Bool × ℕ
unfolding refilled consume hmget
script capacity refill cost now hash =
    let (b, allowed) = consume cost (refilled (hmget hash now) now capacity refill) in
    (record { bucket = b; expires_at = now + 3600000 }, allowed, b.tokens / unit)

-- `RedisTokenBucketStore.try_consume`: the wait is worked out from the truncated tokens, and only
-- for a refusal.
unfoldable pub try_consume_redis : String → ℕ → ℕ → ℕ → ℕ → Dict Hash → Dict Hash × Decision
unfolding script wait_for
try_consume_redis key capacity refill cost now hashes =
    let (hash, allowed, tokens) = script capacity refill cost now (lookup key hashes) in
    (
      insert key hash hashes,
      record {
        allowed = allowed;
        remaining = tokens;
        limit = capacity;
        reset_in =
            if allowed
            then record { num = 0; den = 1 }
            else wait_for (cost * unit - tokens * unit) refill;
      },
    )
