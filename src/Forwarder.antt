-- ===== src/Forwarder.antt =====
-- The forwarder of the gateway (gateway/routing/forwarder.py) over its circuit breaker, and the proxy
-- route before it (gateway/api/proxy_routes.py).
--
-- The upstream is a parameter: the reply to the `n`-th request, and the clock once it is in. Of a
-- request the headers are here; method, path, query and body are passed on as they are. Header names
-- are texts of ASCII. Metrics and error texts are left out.
pub mod Attempts
pub mod Headers
use haojie.Common.{
  ℕ, zero, suc, ◌+◌, ◌≡◌, Bool, true, false, ◌&&◌, ◌||◌, not, Option, none, some, String, List, [],
  ◌∷◌, ◌++◌, append, leb, if◌then◌else◌, Dict, insert, any, length, upper_eq, str_eq, map,
}
use haojie.GatewayBreaker
use haojie.GatewayBreaker.{Breaker}
use haojie.Access.{
  GatewayPrincipal, GatewayRole, is_anonymous, PolicyRule, Verdict, granted, unauthorized,
  forbidden, authorize,
}
use haojie.Limits.{value_of}
use haojie.Tokens.{role_value}

-- How a request of the HTTP client ends: a response with its status, a timeout, or another error.
pub data Reply : Type 0 where
  responded : ℕ → Reply
  timeout_exception http_error : Reply

pub data Raised : Type 0 where
  circuit_open upstream_timeout bad_gateway assertion_error not_authenticated not_allowed : Raised

-- The response is passed on, whatever its status.
pub data Result : Type 0 where
  response : ℕ → Result
  raise : Raised → Result

pub record Forwarder : Type 0 where
  pub max_retries : ℕ
  pub breaker : Breaker
  pub sent : List (Dict String)

unfoldable pub hop_by_hop : List String
hop_by_hop =
    "connection" ∷ "keep-alive" ∷ "proxy-authenticate" ∷ "proxy-authorization" ∷ "te" ∷ "trailer"
    ∷ "transfer-encoding" ∷ "upgrade" ∷ "host" ∷ "content-length" ∷ []

-- `k.lower() in hop_by_hop`
unfoldable pub is_hop_by_hop : String → Bool
unfolding hop_by_hop
is_hop_by_hop k = any (upper_eq k) hop_by_hop

unfoldable pub without : (String → Bool) → Dict String → Dict String
without p [] = []
without p (e ∷ d) = let rest = without p d in if p e.0 then rest else e ∷ rest

unfoldable pub filtered : Dict String → Dict String
unfolding without
filtered d = without is_hop_by_hop d

-- `",".join(...)`
join_roles : List GatewayRole → String
join_roles [] = ""
join_roles (r ∷ []) = role_value r
join_roles (r ∷ s ∷ rs) = append (role_value r) (append "," (join_roles (s ∷ rs)))

unfoldable pub with_roles : List GatewayRole → Dict String → Dict String
unfolding join_roles
with_roles [] d = d
with_roles (r ∷ rs) d = insert "X-User-Roles" (join_roles (r ∷ rs)) d

unfoldable pub with_name : Option String → Dict String → Dict String
with_name none d = d
with_name (some name) d = if str_eq name "" then d else insert "X-User-Name" name d

-- The headers that speak for the caller, if he is known.
unfoldable pub with_principal : Option GatewayPrincipal → Dict String → Dict String
unfolding with_roles with_name
with_principal none d = d
with_principal (some p) d =
    if is_anonymous p
    then d
    else with_name p.username (
        with_roles p.roles
          (insert "X-User-Type" (value_of p.user_type) (insert "X-User-Id" p.user_id d)))

unfoldable pub build_forward_headers : Dict String → Option GatewayPrincipal → Dict String
unfolding filtered with_principal
build_forward_headers headers principal =
    with_principal principal (insert "X-Forwarded-By" "ilbuyai-gateway" (filtered headers))

-- What the last attempt makes of its reply.
unfoldable pub final : Reply → Result
final (responded status) = response status
final timeout_exception = raise upstream_timeout
final http_error = raise bad_gateway

-- A status from 500 on, like an exception, is a failure to the breaker.
unfoldable pub is_good : Reply → Bool
is_good (responded status) = not (leb 500 status)
is_good timeout_exception = false
is_good http_error = false

unfoldable pub note : Reply → ℕ → Breaker → Breaker
unfolding is_good
note reply now b =
    if is_good reply then GatewayBreaker.record_success b else GatewayBreaker.record_failure now b

module _ (reply : ℕ → Reply) (clock : ℕ → ℕ) where
  -- The loop, with as many attempts left after this one.
  unfoldable pub attempts_from : ℕ → Dict String → Forwarder → Forwarder × Result
  unfolding note is_good final
  attempts_from zero headers f =
      let n = length f.sent in
      (
        record f { breaker = note (reply n) (clock n) f.breaker; sent = f.sent ++ headers ∷ [] },
        final (reply n),
      )
  attempts_from (suc left) headers f =
      let n = length f.sent in
      let f' : Forwarder = record f {
        breaker = note (reply n) (clock n) f.breaker;
        sent = f.sent ++ headers ∷ [];
      } in
      let rest = attempts_from left headers f' in
      if is_good (reply n) then (f', final (reply n)) else rest

  -- What follows the breaker's answer, whose failed assertion is `none`.
  unfoldable pub after_allow :
      Option (Breaker × Bool)
      → Dict String
      → Option GatewayPrincipal
      → Forwarder
      → Forwarder × Result
  unfolding attempts_from build_forward_headers
  after_allow none headers principal f = (f, raise assertion_error)
  after_allow (some (b, false)) headers principal f = (record f { breaker = b }, raise circuit_open)
  after_allow (some (b, true)) headers principal f =
      attempts_from f.max_retries (build_forward_headers headers principal)
        (record f { breaker = b })

  -- `forward` at the time `start`.
  unfoldable pub forward :
      Dict String → Option GatewayPrincipal → ℕ → Forwarder → Forwarder × Result
  unfolding after_allow
  forward headers principal start f =
      after_allow (GatewayBreaker.allow start f.breaker) headers principal f

  -- `_proxy`: the caller is checked, and is not handed on.
  after_authorize : Verdict → Dict String → ℕ → Forwarder → Forwarder × Result
  unfolding forward
  after_authorize granted headers start f = forward headers none start f
  after_authorize unauthorized headers start f = (f, raise not_authenticated)
  after_authorize forbidden headers start f = (f, raise not_allowed)

  unfoldable pub proxy :
      List PolicyRule
      → GatewayPrincipal
      → String
      → String
      → Dict String
      → ℕ
      → Forwarder
      → Forwarder × Result
  unfolding after_authorize
  proxy rules p method path headers start f =
      after_authorize (authorize rules p method path) headers start f
