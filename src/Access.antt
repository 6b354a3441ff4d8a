-- ===== src/Access.antt =====
-- Role-based access control at the gateway (gateway/auth/rbac.py and gateway/auth/user_types.py).
--
-- Methods are texts of ASCII. What an error says beside its kind is left out.
pub mod Public
use text.Mathlib.Text.{starts_with}
use haojie.Common.{
  ℕ, Option, none, some, upper_eq, Bool, true, false, ◌&&◌, ◌||◌, not, String, List, [], ◌∷◌, ◌++◌,
  if◌then◌else◌, str_eq, any, before, append,
}

pub data GatewayUserType : Type 0 where
  b2b_purchaser b2c_consumer partner internal admin anonymous : GatewayUserType

pub data GatewayRole : Type 0 where
  super_admin admin_role b2b_purchaser_role b2c_consumer_role partner_role : GatewayRole
  internal_user analyst guest : GatewayRole

pub record GatewayPrincipal : Type 0 where
  pub user_id : String
  pub user_type : GatewayUserType
  pub roles : List GatewayRole
  pub permissions : List String
  pub scopes : List String
  pub username : Option String
  pub company_id : Option String
  pub auth_method : String
  pub token_id : Option String
  pub issued_at : Option ℕ
  pub expires_at : Option ℕ

unfoldable pub is_anonymous : GatewayPrincipal → Bool
is_anonymous p = elim p.user_type [ anonymous ↦ true | _ ↦ false ]

abbrev pub same_role : GatewayRole → GatewayRole → Bool
same_role super_admin super_admin = true
same_role admin_role admin_role = true
same_role b2b_purchaser_role b2b_purchaser_role = true
same_role b2c_consumer_role b2c_consumer_role = true
same_role partner_role partner_role = true
same_role internal_user internal_user = true
same_role analyst analyst = true
same_role guest guest = true
same_role _ _ = false

-- `ip_address or 'unknown'`
abbrev address : Option String → String
address none = "unknown"
address (some ip) = if str_eq ip "" then "unknown" else ip

-- `GatewayPrincipal.anonymous`
unfoldable pub anonymous_principal : Option String → GatewayPrincipal
anonymous_principal ip_address = record {
  user_id = append "anon:" (address ip_address);
  user_type = anonymous;
  roles = guest ∷ [];
  permissions = [];
  scopes = [];
  username = none;
  company_id = none;
  auth_method = "anonymous";
  token_id = none;
  issued_at = none;
  expires_at = none;
}

unfoldable pub has_role : GatewayRole → GatewayPrincipal → Bool
has_role role p = any (same_role role) p.roles

unfoldable pub has_any_role : List GatewayRole → GatewayPrincipal → Bool
has_any_role roles p = any (λ r. any (same_role r) p.roles) roles

is_nil {ℓ} : {A : Type ℓ} → List A → Bool
is_nil [] = true
is_nil (x ∷ xs) = false

-- A permission is held itself, or by the wildcard of its resource, or by that of everything.
unfoldable pub has_permission : String → GatewayPrincipal → Bool
unfolding before
has_permission permission p =
    any (str_eq permission) p.permissions
    || any (str_eq (append (before 58 permission) ":*")) p.permissions
    || any (str_eq "*") p.permissions

pub record PolicyRule : Type 0 where
  pub method : String
  pub path_prefix : String
  pub required_permissions : List String
  pub required_roles : List GatewayRole
  pub allow_anonymous : Bool

unfoldable pub matches : PolicyRule → String → String → Bool
matches r method path =
    (str_eq r.method "*" || upper_eq r.method method) && starts_with path r.path_prefix

-- `authorize` returns, or raises one of the two errors.
pub data Verdict : Type 0 where
  granted unauthorized forbidden : Verdict

-- What the first rule that matches says.
unfoldable pub judge : PolicyRule → GatewayPrincipal → Verdict
unfolding is_anonymous has_any_role has_permission is_nil
judge r p =
    if r.allow_anonymous
    then granted
    else if is_anonymous p
    then unauthorized
    else if not (is_nil r.required_roles) && not (has_any_role r.required_roles p)
    then forbidden
    else if not (is_nil r.required_permissions)
        && not (any (λ x. has_permission x p) r.required_permissions)
    then forbidden
    else granted

unfoldable pub authorize : List PolicyRule → GatewayPrincipal → String → String → Verdict
unfolding matches judge is_anonymous
authorize [] p method path = if is_anonymous p then unauthorized else granted
authorize (r ∷ rules) p method path =
    let rest = authorize rules p method path in if matches r method path then judge r p else rest

unfoldable pub public : String → String → PolicyRule
public method prefix = record {
  method = method;
  path_prefix = prefix;
  required_permissions = [];
  required_roles = [];
  allow_anonymous = true;
}

unfoldable pub guarded : String → List String → List GatewayRole → PolicyRule
guarded prefix permissions roles = record {
  method = "*";
  path_prefix = prefix;
  required_permissions = permissions;
  required_roles = roles;
  allow_anonymous = false;
}

unfoldable pub public_rules : List PolicyRule
unfolding public
public_rules =
    public "*" "/health"
    ∷ public "*" "/metrics"
    ∷ public "*" "/docs"
    ∷ public "*" "/openapi.json"
    ∷ public "POST" "/auth/token"
    ∷ public "POST" "/auth/refresh"
    ∷ []

unfoldable pub guarded_rules : List PolicyRule
unfolding guarded
guarded_rules =
    guarded "/api/v1/inputs" ("inputs:write" ∷ "inputs:*" ∷ []) []
    ∷ guarded "/api/v1/sessions" ("sessions:read" ∷ "sessions:*" ∷ []) []
    ∷ guarded "/api/v1/system" [] (admin_role ∷ super_admin ∷ analyst ∷ [])
    ∷ guarded "/ws" ("ws:connect" ∷ "inputs:*" ∷ []) []
    ∷ guarded "/admin" [] (admin_role ∷ super_admin ∷ [])
    ∷ []

-- `_default_policy`
unfoldable pub default_policy : List PolicyRule
unfolding public_rules guarded_rules
default_policy = public_rules ++ guarded_rules
