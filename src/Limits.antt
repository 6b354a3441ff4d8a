-- ===== src/Limits.antt =====
-- The limits of the gateway per user type (gateway/rate_limiting/strategies.py): the parameters and
-- the key of a caller's bucket, and the check against the in-memory store.
--
-- A rate of `n` tokens a minute is `n` of the units of RateLimit a millisecond, so the division by
-- 60 of the source is exact. The metric of refusals is left out.
pub mod Isolation
use haojie.Common.{ℕ, String, append, max, Dict}
use haojie.Access.{
  GatewayUserType, b2b_purchaser, b2c_consumer, partner, internal, admin, anonymous,
  GatewayPrincipal,
}
use haojie.RateLimit.{Bucket, Decision, try_consume}

-- The limits that the strategy reads, in calls a minute.
pub record GatewaySettings : Type 0 where
  pub rl_b2b_purchaser_per_minute : ℕ
  pub rl_b2c_consumer_per_minute : ℕ
  pub rl_partner_per_minute : ℕ
  pub rl_internal_per_minute : ℕ
  pub rl_anonymous_per_minute : ℕ

-- `self._map`: every user type has a limit.
unfoldable pub per_minute : GatewaySettings → GatewayUserType → ℕ
per_minute s b2b_purchaser = s.rl_b2b_purchaser_per_minute
per_minute s b2c_consumer = s.rl_b2c_consumer_per_minute
per_minute s partner = s.rl_partner_per_minute
per_minute s internal = s.rl_internal_per_minute
per_minute s admin = s.rl_internal_per_minute
per_minute s anonymous = s.rl_anonymous_per_minute

-- `get_parameters`: the capacity and the refill.
unfoldable pub get_parameters : GatewaySettings → GatewayPrincipal → ℕ × ℕ
unfolding per_minute
get_parameters s p = (max 1 (per_minute s p.user_type), per_minute s p.user_type)

-- `user_type.value`
unfoldable pub value_of : GatewayUserType → String
value_of b2b_purchaser = "B2B_PURCHASER"
value_of b2c_consumer = "B2C_CONSUMER"
value_of partner = "PARTNER"
value_of internal = "INTERNAL"
value_of admin = "ADMIN"
value_of anonymous = "ANONYMOUS"

unfoldable pub get_key : GatewayPrincipal → String → String
unfolding value_of
get_key p path = append (value_of p.user_type) (append ":" p.user_id)

-- `RateLimiter.check`, at the cost 1 of the store's default.
unfoldable pub check :
    GatewaySettings → GatewayPrincipal → String → ℕ → Dict Bucket → Dict Bucket × Decision
unfolding get_parameters get_key
check s p path now buckets =
    let (capacity, refill) = get_parameters s p in
    try_consume (get_key p path) capacity refill 1 now buckets
