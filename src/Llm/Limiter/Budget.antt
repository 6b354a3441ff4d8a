-- ===== src/Llm/Limiter/Budget.antt =====
-- How many calls the limiter of llm/rate_limiter.py lets through over time.
use haojie.Common.{
  span, ℕ, ◌+◌, ◌-◌, ◌*◌, ◌≤◌, ◌<◌, ◌≡◌, refl, List, [], ◌∷◌, arith, if◌then◌else◌, length,
}
use haojie.Llm.Limiter.{unit, TokenBucket, init, try_acquire}

-- Calls at the given times, one token each: the bucket after them, and how many got through.
unfoldable pub acquire_at : List ℕ → TokenBucket → TokenBucket × ℕ
acquire_at [] b = (b, 0)
acquire_at (t ∷ ts) b =
    let (b', allowed) = try_acquire 1 t b in
    let (b'', n) = acquire_at ts b' in (b'', (if allowed then 1 else 0) + n)

abbrev pub Ordered : ℕ → ℕ → List ℕ → Type 0
Ordered start end [] = start ≤ end
Ordered start end (t ∷ ts) = (start ≤ t) × Ordered t end ts

Ordered-le : (start end : ℕ) (ts : List ℕ) → Ordered start end ts → start ≤ end
Ordered-le start end [] o = o
Ordered-le start end (t ∷ ts) o = omega (arith, Ordered-le t end ts o.1)

try_acquire_lem :
    (t end : ℕ) (b : TokenBucket)
    → 0 < b.rate_per_minute
    → b.last_refill ≤ t
    → t ≤ end
    → let (b', allowed) = try_acquire 1 t b in
      ((if allowed then 1 else 0) * unit + b'.tokens + (end - t) * b.rate_per_minute
        ≤ b.tokens + (end - b.last_refill) * b.rate_per_minute)
      × (b'.last_refill ≡ t)
      × (b'.rate_per_minute ≡ b.rate_per_minute)
      × (b'.capacity ≡ b.capacity)
      × (b'.tokens ≤ b.capacity * unit)
unfolding try_acquire
try_acquire_lem t end b pos le le' =
    ground (arith, span b.last_refill t end b.rate_per_minute le le')

acquire_at-le :
    (end : ℕ) (ts : List ℕ) (b : TokenBucket)
    → 0 < b.rate_per_minute
    → Ordered b.last_refill end ts
    → (acquire_at ts b).1 * unit ≤ b.tokens + (end - b.last_refill) * b.rate_per_minute
unfolding acquire_at
acquire_at-le end [] b pos o = omega arith
acquire_at-le end (t ∷ ts) b pos o =
    let b' = (try_acquire 1 t b).0 in
    let (paid, at, rate, cap, full) = try_acquire_lem t end b pos o.0 (Ordered-le t end ts o.1) in
    let o' : Ordered b'.last_refill end ts = rw at o.1 in
    let ih = acquire_at-le end ts b' (omega (arith, rate)) o' in ground (arith, paid, at, rate, ih)

-- Calls in the order of the clock from a new bucket with a positive rate: over any span of time a
-- provider gets at most the burst and the rate times the span.
pub limiter_budget :
    (rate burst start end : ℕ) (ts : List ℕ)
    → 0 < rate
    → Ordered start end ts
    → (acquire_at ts (init rate burst start)).1 * unit ≤ burst * unit + (end - start) * rate
unfolding init
limiter_budget rate burst start end ts pos o =
    acquire_at-le end ts
      (record {
        rate_per_minute = rate;
        capacity = burst;
        tokens = burst * unit;
        last_refill = start;
      })
      pos o

-- With a rate of 0 every call gets through and nothing is written; with a rate and no burst none
-- ever does.
off_lem : (ts : List ℕ) (b : TokenBucket) → b.rate_per_minute ≡ 0 → acquire_at ts b ≡ (b, length ts)
unfolding acquire_at try_acquire
off_lem [] b z = refl
off_lem (t ∷ ts) b z = ground (arith, off_lem ts b z)
