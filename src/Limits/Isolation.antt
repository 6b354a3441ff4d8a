-- ===== src/Limits/Isolation.antt =====
-- Callers do not spend each other's limits (gateway/rate_limiting/strategies.py).
use text.Mathlib.TextLemmas.{nil-append, cons-append}
use haojie.Common.{
  ℕ, String, before, after, lacks, split-append, str_eq, if◌then◌else◌, true, false, ◌≡◌, refl, sym,
  ap, ◌∙◌, Dict, lookup, lookup-insert, str_eq_iff, inl, inr, Bool-cases,
}
use haojie.Access.{
  GatewayUserType, b2b_purchaser, b2c_consumer, partner, internal, admin, anonymous,
  GatewayPrincipal,
}
use haojie.RateLimit.{Bucket, try_consume, refilled, consume, decide}
use haojie.Limits.{GatewaySettings, get_parameters, value_of, get_key, check}

value_of-lacks : (t : GatewayUserType) → lacks 58 (value_of t) ≡ true
unfolding lacks value_of
value_of-lacks b2b_purchaser = refl
value_of-lacks b2c_consumer = refl
value_of-lacks partner = refl
value_of-lacks internal = refl
value_of-lacks admin = refl
value_of-lacks anonymous = refl

-- The type and the id are read back from a key.
get_key-split :
    (p : GatewayPrincipal) (path : String)
    → (before 58 (get_key p path) ≡ value_of p.user_type) × (after 58 (get_key p path) ≡ p.user_id)
unfolding get_key
get_key-split p path =
    rw (cons-append ":" "" p.user_id, nil-append p.user_id)
      (split-append ":" (value_of p.user_type) p.user_id (value_of-lacks p.user_type) refl)

-- The user type of a value.
type_of : String → GatewayUserType
type_of s =
    if str_eq s "B2B_PURCHASER"
    then b2b_purchaser
    else if str_eq s "B2C_CONSUMER"
    then b2c_consumer
    else if str_eq s "PARTNER"
    then partner
    else if str_eq s "INTERNAL"
    then internal
    else if str_eq s "ADMIN"
    then admin
    else anonymous

type_of-value_of : (t : GatewayUserType) → type_of (value_of t) ≡ t
unfolding type_of value_of
type_of-value_of b2b_purchaser = refl
type_of-value_of b2c_consumer = refl
type_of-value_of partner = refl
type_of-value_of internal = refl
type_of-value_of admin = refl
type_of-value_of anonymous = refl

-- A key tells the caller's type and id.
get_key-injective :
    (p q : GatewayPrincipal) (path path' : String)
    → get_key p path ≡ get_key q path'
    → (p.user_type ≡ q.user_type) × (p.user_id ≡ q.user_id)
get_key-injective p q path path' e =
    let (t, id) = get_key-split p path in
    let (t', id') = get_key-split q path' in
    (
      sym (type_of-value_of p.user_type)
          ∙ ap type_of (sym t ∙ ap (before 58) e ∙ t')
          ∙ type_of-value_of q.user_type,
      sym id ∙ ap (after 58) e ∙ id',
    )

-- A call decides by the bucket of its key alone.
try_consume-decision :
    (key : String) (capacity refill cost now : ℕ) (buckets buckets' : Dict Bucket)
    → lookup key buckets ≡ lookup key buckets'
    → (try_consume key capacity refill cost now buckets).1
      ≡ (try_consume key capacity refill cost now buckets').1
unfolding try_consume
try_consume-decision key capacity refill cost now buckets buckets' e =
    ap (λ o. decide capacity refill cost (consume cost (refilled o now capacity refill))) e

try_consume-lookup :
    (key other : String) (capacity refill cost now : ℕ) (buckets : Dict Bucket)
    → str_eq key other ≡ false
    → lookup other (try_consume key capacity refill cost now buckets).0 ≡ lookup other buckets
unfolding try_consume
try_consume-lookup key other capacity refill cost now buckets e =
    rw (lookup-insert key other _ buckets, e) refl

-- A check of one caller changes no decision for another, who differs in user type or id: keys of
-- different callers are different.
pub check-isolated :
    (s : GatewaySettings) (p q : GatewayPrincipal) (path path' : String) (now now' : ℕ)
    (buckets : Dict Bucket)
    → ¬ ((p.user_type ≡ q.user_type) × (p.user_id ≡ q.user_id))
    → (check s q path' now' (check s p path now buckets).0).1 ≡ (check s q path' now' buckets).1
unfolding check
check-isolated s p q path path' now now' buckets other =
    let (capacity, refill) = get_parameters s p in
    let (capacity', refill') = get_parameters s q in
    elim (Bool-cases (str_eq (get_key p path) (get_key q path'))) [
      | inl same ↦ absurd (
          other (
            get_key-injective p q path path'
              ((str_eq_iff (get_key p path) (get_key q path')).0 same)))
      | inr differ ↦
          try_consume-decision (get_key q path') capacity' refill' 1 now'
            (try_consume (get_key p path) capacity refill 1 now buckets).0 buckets
            (try_consume-lookup (get_key p path) (get_key q path') capacity refill 1 now buckets
              differ)
    ]
