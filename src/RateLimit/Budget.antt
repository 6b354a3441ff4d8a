-- ===== src/RateLimit/Budget.antt =====
-- How much the in-memory store grants over time (gateway/rate_limiting/token_bucket.py).
use haojie.Common.{
  span, ℕ, ◌+◌, ◌-◌, ◌*◌, ◌≤◌, ◌≡◌, refl, ap, Bool, true, false, Option, none, some, String, List,
  [], ◌∷◌, arith, if◌then◌else◌, Dict, lookup, insert, lookup-insert, Bool-cases, inl, inr, str_eq,
  str_eq_iff,
}
use haojie.RateLimit.{decide, unit, Bucket, refilled, consume, try_consume}

-- `cost` if it was granted.
unfoldable pub granted : Bool → ℕ → ℕ
granted allowed cost = if allowed then cost else 0

-- A request at its time, in the order of the clock.
pub record Request : Type 0 where
  pub key : String
  pub cost : ℕ
  pub now : ℕ

-- The requests come in the order of the clock, from `start` to `end`.
abbrev pub Ordered : ℕ → ℕ → List Request → Type 0
Ordered start end [] = start ≤ end
Ordered start end (r ∷ rs) = (start ≤ r.now) × Ordered r.now end rs

Ordered-le : (start end : ℕ) (rs : List Request) → Ordered start end rs → start ≤ end
Ordered-le start end [] o = o
Ordered-le start end (r ∷ rs) o = omega (arith, Ordered-le r.now end rs o.1)

-- A run of requests that all bring the same parameters, and the tokens granted to one key.
module _ (capacity refill : ℕ) (key : String) where
  unfoldable pub spent : List Request → Dict Bucket → ℕ
  unfolding granted
  spent [] buckets = 0
  spent (r ∷ rs) buckets =
      let (buckets', d) = try_consume r.key capacity refill r.cost r.now buckets in
      (if str_eq r.key key then granted d.allowed r.cost else 0) + spent rs buckets'

  -- What the key can be granted until `end`, if nothing is asked before `start`.
  unfoldable pub credit : ℕ → ℕ → Option Bucket → ℕ
  credit start end none = capacity * unit + (end - start) * refill
  credit start end (some b) = b.tokens + (end - b.updated_at) * refill

  -- The bucket was written before `start`.
  abbrev pub Written : ℕ → Option Bucket → Type 0
  Written start none = Unit
  Written start (some b) = b.updated_at ≤ start

  step-credit :
      (start now end cost : ℕ) (o : Option Bucket)
      → start ≤ now
      → now ≤ end
      → Written start o
      → let (b, allowed) = consume cost (refilled o now capacity refill) in
        (granted allowed cost * unit + credit now end (some b) ≤ credit start end o)
        × (b.updated_at ≡ now)
  unfolding consume refilled credit granted
  step-credit start now end cost none le le' w = ground (arith, span start now end refill le le')
  step-credit start now end cost (some b) le le' w =
      ground (arith, span b.updated_at now end refill)

  Written-credit :
      (start now end : ℕ) (o : Option Bucket)
      → start ≤ now
      → now ≤ end
      → Written start o
      → (credit now end o ≤ credit start end o) × Written now o
  unfolding credit
  Written-credit start now end none le le' w = (omega (arith, span start now end refill le le'), tt)
  Written-credit start now end (some b) le le' w = (omega arith, omega arith)

  decide-allowed : (cost : ℕ) (o : Bucket × Bool) → (decide capacity refill cost o).allowed ≡ o.1
  unfolding decide
  decide-allowed cost (b, true) = refl
  decide-allowed cost (b, false) = refl

  try_consume-lookup :
      (r : Request) (buckets : Dict Bucket)
      → let outcome = consume r.cost (refilled (lookup r.key buckets) r.now capacity refill) in
        let (after, d) = try_consume r.key capacity refill r.cost r.now buckets in
        (after ≡ insert r.key outcome.0 buckets) × (d.allowed ≡ outcome.1)
  unfolding try_consume
  try_consume-lookup r buckets = (
    refl,
    decide-allowed r.cost (consume r.cost (refilled (lookup r.key buckets) r.now capacity refill)),
  )

  step-spent :
      (start end : ℕ) (r : Request) (buckets : Dict Bucket)
      → start ≤ r.now
      → r.now ≤ end
      → Written start (lookup key buckets)
      → let (after, d) = try_consume r.key capacity refill r.cost r.now buckets in
        ((if str_eq r.key key then granted d.allowed r.cost else 0) * unit
            + credit r.now end (lookup key after)
          ≤ credit start end (lookup key buckets))
        × Written r.now (lookup key after)
  step-spent start end r buckets le le' w =
      let out = consume r.cost (refilled (lookup r.key buckets) r.now capacity refill) in
      let (wrote, answer) = try_consume-lookup r buckets in
      elim (Bool-cases (str_eq r.key key)) [
        | inl same ↦
            let e : r.key ≡ key = (str_eq_iff r.key key).0 same in
            let held : lookup r.key buckets ≡ lookup key buckets = ap (λ k. lookup k buckets) e in
            ground (
              arith,
              wrote,
              answer,
              held,
              lookup-insert r.key key out.0 buckets,
              step-credit start r.now end r.cost (lookup key buckets) le le' w,
            )
        | inr other ↦ ground (
          arith,
          wrote,
          lookup-insert r.key key out.0 buckets,
          Written-credit start r.now end (lookup key buckets) le le' w,
        )
      ]

  spent-credit :
      (start end : ℕ) (rs : List Request) (buckets : Dict Bucket)
      → Ordered start end rs
      → Written start (lookup key buckets)
      → spent rs buckets * unit ≤ credit start end (lookup key buckets)
  unfolding spent
  spent-credit start end [] buckets o w = omega arith
  spent-credit start end (r ∷ rs) buckets o w =
      let after = (try_consume r.key capacity refill r.cost r.now buckets).0 in
      let stepped = step-spent start end r buckets o.0 (Ordered-le r.now end rs o.1) w in
      omega (arith, stepped.0, spent-credit r.now end rs after o.1 stepped.1)

-- Over any requests in the order of the clock, from an empty store, a key is granted at most its
-- capacity and what is refilled from the first moment to the last, whatever is asked for other
-- keys.
pub spent-le-budget :
    (capacity refill : ℕ) (key : String) (start end : ℕ) (rs : List Request)
    → Ordered start end rs
    → spent capacity refill key rs [] * unit ≤ capacity * unit + (end - start) * refill
unfolding credit lookup
spent-le-budget capacity refill key start end rs o =
    spent-credit capacity refill key start end rs [] o tt
