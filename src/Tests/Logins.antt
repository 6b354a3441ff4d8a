-- ===== src/Tests/Logins.antt =====
-- Requests without and with a login under the default policy of gateway/auth/rbac.py.
use haojie.Common.{
  false, List, Bool, arith, ap, upper_eq, none, some, ◌≡◌, refl, true, [], ◌∷◌, if◌then◌else◌,
}
use haojie.Access.{
  anonymous_principal, GatewayPrincipal, b2c_consumer, b2c_consumer_role, is_anonymous,
  has_permission, granted, unauthorized, forbidden, authorize, default_policy, has_any_role,
  matches, judge,
}
use haojie.Limits.{GatewaySettings, check}
use haojie.Limits.Isolation.{check-isolated}
use haojie.Blacklist.{Server, contains}
use haojie.Blacklist.Memory.{Event, revoke, ask, is_live, revoked_until, run, contains-run}
use haojie.Access.Public.{is_public, public_iff}

abbrev nobody : GatewayPrincipal
unfolding anonymous_principal
nobody = anonymous_principal none

abbrev ann : GatewayPrincipal
ann = record {
  user_id = "u1";
  user_type = b2c_consumer;
  roles = b2c_consumer_role ∷ [];
  permissions = "inputs:*" ∷ [];
  scopes = [];
  username = some "ann";
  company_id = none;
  auth_method = "jwt";
  token_id = some "t1";
  issued_at = some 100;
  expires_at = some 3700;
}

authorize_test :
    (authorize default_policy ann "POST" "/api/v1/inputs/text" ≡ granted)
    × (authorize default_policy ann "GET" "/admin/breakers" ≡ forbidden)
    × (authorize default_policy nobody "GET" "/auth/token" ≡ unauthorized)
unfolding authorize default_policy matches judge has_permission has_any_role is_anonymous upper_eq
    nobody
authorize_test = (refl, refl, refl)

nobody_anonymous : is_anonymous nobody ≡ true
unfolding is_anonymous nobody
nobody_anonymous = refl

public_iff_example :
    authorize default_policy nobody "POST" "/auth/token"
    ≡ (if is_public "POST" "/auth/token" then granted else unauthorized)
public_iff_example = public_iff nobody "POST" "/auth/token" nobody_anonymous

abbrev settings : GatewaySettings
settings = record {
  rl_b2b_purchaser_per_minute = 1000;
  rl_b2c_consumer_per_minute = 100;
  rl_partner_per_minute = 5000;
  rl_internal_per_minute = 10000;
  rl_anonymous_per_minute = 20;
}

-- The two differ in their user type.
not_same : ¬ ((nobody.user_type ≡ ann.user_type) × (nobody.user_id ≡ ann.user_id))
unfolding is_anonymous nobody anonymous_principal
not_same e = absurd (ground (arith, ap (λ t. is_anonymous (record ann { user_type = t })) e.0))

check-isolated_example :
    (check settings ann "/ws" 200 (check settings nobody "/docs" 100 []).0).1
    ≡ (check settings ann "/ws" 200 []).1
check-isolated_example = check-isolated settings nobody ann "/docs" "/ws" 100 200 [] not_same

-- A gateway with no Redis.
abbrev no_server : Server
no_server = record {
  State = Bool;
  get_redis = λ r. false;
  setex = λ key ttl r. none;
  exists = λ key r. none;
}

abbrev revocations : List Event
revocations = revoke "t1" 60 1000 ∷ ask "t1" 2000 ∷ revoke "t2" 5 3000 ∷ ask "t2" 9000 ∷ []

revoked_test :
    (is_live 10000 (revoked_until "t1" revocations none) ≡ true)
    × (is_live 10000 (revoked_until "t2" revocations none) ≡ false)
unfolding is_live revoked_until
revoked_test = (refl, refl)

contains-run_example :
    (contains no_server "t2" 10000
      (run no_server revocations (record { memory = []; redis = true }))).1
    ≡ is_live 10000 (revoked_until "t2" revocations none)
contains-run_example =
    contains-run no_server (λ r. refl) "t2" 10000 revocations true
      (omega arith, (omega arith, (omega arith, (omega arith, tt))))
