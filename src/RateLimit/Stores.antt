-- ===== src/RateLimit/Stores.antt =====
-- The in-memory store and the Redis store decide alike (gateway/rate_limiting/token_bucket.py).
use haojie.Common.{
  ℕ, ◌+◌, ◌-◌, ◌*◌, ◌/◌, ◌≤◌, ◌≡◌, refl, Bool, true, false, Option, none, some, String, List, [],
  ◌∷◌, arith, ltb, Dict, lookup, insert, lookup-insert, str_eq, Bool-cases, inl, inr,
}
use haojie.RateLimit.{
  decide, unit, Decision, Bucket, Hash, refilled, consume, try_consume, hmget, script,
  try_consume_redis,
}
use haojie.RateLimit.Budget.{Request, Ordered}

-- What a caller acts on: whether it may go on, what is left, and the limit.
abbrev pub Verdict : Type 0
Verdict = Bool × ℕ × ℕ

abbrev pub verdict : Decision → Verdict
verdict d = (d.allowed, d.remaining, d.limit)

module _ (capacity refill : ℕ) where
  -- The verdicts of a run of requests on each store.
  unfoldable pub verdicts : List Request → Dict Bucket → List Verdict
  verdicts [] buckets = []
  verdicts (r ∷ rs) buckets =
      let (after, d) = try_consume r.key capacity refill r.cost r.now buckets in
      verdict d ∷ verdicts rs after

  unfoldable pub verdicts_redis : List Request → Dict Hash → List Verdict
  verdicts_redis [] hashes = []
  verdicts_redis (r ∷ rs) hashes =
      let (after, d) = try_consume_redis r.key capacity refill r.cost r.now hashes in
      verdict d ∷ verdicts_redis rs after

  -- From `now` on the two entries of a key refill alike.
  abbrev Agree : ℕ → Option Bucket → Option Hash → Type 0
  Agree now o h =
      (t : ℕ) → now ≤ t → refilled o t capacity refill ≡ refilled (hmget h t) t capacity refill

  abbrev AgreeAll : ℕ → Dict Bucket → Dict Hash → Type 0
  AgreeAll now buckets hashes = (k : String) → Agree now (lookup k buckets) (lookup k hashes)

  -- An entry that has expired was full by then, if an hour refills the capacity.
  long_full :
      (t now : ℕ)
      → capacity * unit ≤ 3600000 * refill
      → now + 3600000 ≤ t
      → capacity * unit ≤ (t - now) * refill
  long_full t now hour late = grind arith

  Agree-stored :
      (now : ℕ) (b : Bucket)
      → capacity * unit ≤ 3600000 * refill
      → b.updated_at ≡ now
      → Agree now (some b) (some (record { bucket = b; expires_at = now + 3600000 }))
  unfolding refilled hmget
  Agree-stored now b hour dated t le = elim (Bool-cases (ltb t (now + 3600000))) [
    | inl fresh ↦ ground arith
    | inr old ↦ ground (arith, long_full t now hour)
  ]

  consume-dated :
      (now cost : ℕ) (o : Option Bucket)
      → (consume cost (refilled o now capacity refill)).0.updated_at ≡ now
  unfolding consume refilled
  consume-dated now cost none = ground arith
  consume-dated now cost (some b) = ground arith

  decide-verdict :
      (cost : ℕ) (o : Bucket × Bool)
      → verdict (decide capacity refill cost o) ≡ (o.1, o.0.tokens / unit, capacity)
  unfolding decide
  decide-verdict cost (b, true) = refl
  decide-verdict cost (b, false) = refl

  AgreeAll-insert :
      (start now : ℕ) (key : String) (b : Bucket) (buckets : Dict Bucket) (hashes : Dict Hash)
      → capacity * unit ≤ 3600000 * refill
      → start ≤ now
      → b.updated_at ≡ now
      → AgreeAll start buckets hashes
      → AgreeAll now
          (insert key b buckets)
          (insert key (record { bucket = b; expires_at = now + 3600000 }) hashes)
  AgreeAll-insert start now key b buckets hashes hour le dated same k t late =
      let h : Hash = record { bucket = b; expires_at = now + 3600000 } in
      elim (Bool-cases (str_eq key k)) [
        | inl this ↦
            rw (lookup-insert key k b buckets, lookup-insert key k h hashes, this)
              (Agree-stored now b hour dated t late)
        | inr other ↦
            rw (lookup-insert key k b buckets, lookup-insert key k h hashes, other)
              (same k t (omega arith))
      ]

  verdicts-agree :
      (start end : ℕ) (rs : List Request) (buckets : Dict Bucket) (hashes : Dict Hash)
      → capacity * unit ≤ 3600000 * refill
      → Ordered start end rs
      → AgreeAll start buckets hashes
      → verdicts rs buckets ≡ verdicts_redis rs hashes
  unfolding verdicts verdicts_redis try_consume try_consume_redis script
  verdicts-agree start end [] buckets hashes hour o same = refl
  verdicts-agree start end (r ∷ rs) buckets hashes hour o same =
      let b = refilled (lookup r.key buckets) r.now capacity refill in
      let c = consume r.cost b in
      let e : b ≡ refilled (hmget (lookup r.key hashes) r.now) r.now capacity refill =
        same r.key r.now o.0 in
      let dated = consume-dated r.now r.cost (lookup r.key buckets) in
      let kept = AgreeAll-insert start r.now r.key c.0 buckets hashes hour o.0 dated same in
      let h : Hash = record { bucket = c.0; expires_at = r.now + 3600000 } in
      let rest =
        verdicts-agree r.now end rs (insert r.key c.0 buckets) (insert r.key h hashes) hour o.1
          kept in
      rw (← e) (rw (decide-verdict r.cost c, rest))

-- When an hour's refill covers the capacity, a fresh Redis store and a fresh in-memory one give
-- the same verdicts (admission, tokens left, limit) to any requests in the order of the clock: the
-- expiry of idle hashes is never seen.
pub stores_agree :
    (capacity refill start end : ℕ) (rs : List Request)
    → capacity * unit ≤ 3600000 * refill
    → Ordered start end rs
    → verdicts capacity refill rs [] ≡ verdicts_redis capacity refill rs []
unfolding lookup hmget
stores_agree capacity refill start end rs hour o =
    verdicts-agree capacity refill start end rs [] [] hour o (λ k t le. refl)
