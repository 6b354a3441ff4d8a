-- ===== src/Tokens.antt =====
-- The tokens of the gateway (gateway/auth/jwt_manager.py): issue, verification, rotation and
-- revocation, over the blacklist of gateway/auth/token_blacklist.py.
--
-- The coding of JWTs is a parameter, and so are the random ids of tokens. Claims are what the manager
-- writes and reads of them; extra claims, of which no caller has any, are left out. The clock is in
-- milliseconds, the claims are in seconds. Metrics are left out.
pub mod Principals
pub mod Rotation
use haojie.Common.{
  ℕ, zero, suc, ◌+◌, ◌-◌, ◌*◌, ◌/◌, ◌≤◌, ◌≡◌, Bool, true, false, Option, none, some, String, List,
  [], ◌∷◌, leb, if◌then◌else◌, str_eq, map, get_or,
}
use haojie.Access.{
  GatewayUserType, b2b_purchaser, b2c_consumer, partner, internal, admin, anonymous, GatewayRole,
  super_admin, admin_role, b2b_purchaser_role, b2c_consumer_role, partner_role, internal_user,
  analyst, guest, GatewayPrincipal,
}
use haojie.Limits.{value_of}
use haojie.Blacklist.{Server, TokenBlacklist, add, contains}

-- `GatewayUserType(value)`
unfoldable pub user_type_of : String → Option GatewayUserType
user_type_of s =
    if str_eq s "B2B_PURCHASER"
    then some b2b_purchaser
    else if str_eq s "B2C_CONSUMER"
    then some b2c_consumer
    else if str_eq s "PARTNER"
    then some partner
    else if str_eq s "INTERNAL"
    then some internal
    else if str_eq s "ADMIN"
    then some admin
    else if str_eq s "ANONYMOUS"
    then some anonymous
    else none

-- `role.value`
unfoldable pub role_value : GatewayRole → String
role_value super_admin = "SUPER_ADMIN"
role_value admin_role = "ADMIN"
role_value b2b_purchaser_role = "B2B_PURCHASER"
role_value b2c_consumer_role = "B2C_CONSUMER"
role_value partner_role = "PARTNER"
role_value internal_user = "INTERNAL_USER"
role_value analyst = "ANALYST"
role_value guest = "GUEST"

-- `GatewayRole(value)`
unfoldable pub role_of : String → Option GatewayRole
role_of s =
    if str_eq s "SUPER_ADMIN"
    then some super_admin
    else if str_eq s "ADMIN"
    then some admin_role
    else if str_eq s "B2B_PURCHASER"
    then some b2b_purchaser_role
    else if str_eq s "B2C_CONSUMER"
    then some b2c_consumer_role
    else if str_eq s "PARTNER"
    then some partner_role
    else if str_eq s "INTERNAL_USER"
    then some internal_user
    else if str_eq s "ANALYST"
    then some analyst
    else if str_eq s "GUEST"
    then some guest
    else none

pub data Typ : Type 0 where
  access refresh_typ : Typ

-- The payload of a token; the lists are empty in a refresh token.
pub record Claims : Type 0 where
  pub sub : String
  pub iat : ℕ
  pub user_type : Option String
  pub typ : Typ
  pub jti : String
  pub exp : ℕ
  pub roles : List String
  pub permissions : List String
  pub scopes : List String
  pub username : Option String
  pub company_id : Option String

pub data Decoded : Type 0 where
  decoded : Claims → Decoded
  expired_signature invalid_token : Decoded

-- `jwt.encode` and `jwt.decode`, with the key and the algorithm of the settings, at a time.
-- The texts of tokens are a type of their own.
pub record Codec : Type 1 where
  pub Token : Type 0
  pub encode : Claims → Token
  pub decode : ℕ → Token → Decoded

-- A token that is not over decodes to what was encoded, and from its end on it is refused.
pub record IsLawful (j : Codec) : Type 0 where
  pub decode-encode :
      (now : ℕ) (c : Claims)
      → j.decode now (j.encode c)
        ≡ (if leb (c.exp * 1000) now then expired_signature else decoded c)

pub record JwtSettings : Type 0 where
  pub jwt_access_minutes : ℕ
  pub jwt_refresh_days : ℕ

pub record TokenPair (Token : Type 0) : Type 0 where
  pub access_token : Token
  pub refresh_token : Token
  pub access_expires_in : ℕ
  pub refresh_expires_in : ℕ

pub data Raised : Type 0 where
  invalid token_expired token_revoked unknown_user_type : Raised

pub data Result (A : Type 0) : Type 0 where
  ok : A → Result A
  raise : Raised → Result A

-- `if username: base["username"] = username`
abbrev pub if_truthy : Option String → Option String
if_truthy none = none
if_truthy (some s) = if str_eq s "" then none else some s

-- Whom a token is issued for.
pub record Subject : Type 0 where
  pub user_id : String
  pub user_type : GatewayUserType
  pub roles : List GatewayRole
  pub permissions : List String
  pub scopes : List String
  pub username : Option String
  pub company_id : Option String

unfoldable pub access_claims : JwtSettings → Subject → String → ℕ → Claims
unfolding value_of role_value
access_claims s who jti now = record {
  sub = who.user_id;
  iat = now / 1000;
  user_type = some (value_of who.user_type);
  typ = access;
  jti = jti;
  exp = (now + s.jwt_access_minutes * 60000) / 1000;
  roles = map role_value who.roles;
  permissions = who.permissions;
  scopes = who.scopes;
  username = if_truthy who.username;
  company_id = if_truthy who.company_id;
}

unfoldable pub refresh_claims : JwtSettings → Subject → String → ℕ → Claims
unfolding value_of
refresh_claims s who jti now = record {
  sub = who.user_id;
  iat = now / 1000;
  user_type = some (value_of who.user_type);
  typ = refresh_typ;
  jti = jti;
  exp = (now + s.jwt_refresh_days * 86400000) / 1000;
  roles = [];
  permissions = [];
  scopes = [];
  username = none;
  company_id = none;
}

-- `GatewayUserType(...)` with the consumer as a default.
abbrev pub or_consumer : Option GatewayUserType → GatewayUserType
or_consumer o = get_or o b2c_consumer

-- The roles that are known.
unfoldable pub known_roles : List String → List GatewayRole
unfolding role_of
known_roles [] = []
known_roles (s ∷ ss) = elim (role_of s) [ none ↦ known_roles ss | some r ↦ r ∷ known_roles ss ]

unfoldable pub principal_from_claims : Claims → GatewayPrincipal
unfolding user_type_of known_roles
principal_from_claims c = record {
  user_id = c.sub;
  user_type = or_consumer (user_type_of (get_or c.user_type "B2C_CONSUMER"));
  roles = known_roles c.roles;
  permissions = c.permissions;
  scopes = c.scopes;
  username = c.username;
  company_id = c.company_id;
  auth_method = "jwt";
  token_id = some c.jti;
  issued_at = some c.iat;
  expires_at = some c.exp;
}

module _ (j : Codec) (s : JwtSettings) (S : Server) where
  -- `issue`, with the ids of the two tokens.
  unfoldable pub issue : Subject → String → String → ℕ → TokenPair j.Token
  unfolding access_claims refresh_claims
  issue who access_jti refresh_jti now = record {
    access_token = j.encode (access_claims s who access_jti now);
    refresh_token = j.encode (refresh_claims s who refresh_jti now);
    access_expires_in = s.jwt_access_minutes * 60;
    refresh_expires_in = s.jwt_refresh_days * 86400;
  }

  -- The token must be of the type that is asked for.
  has_typ : Typ → Typ → Bool
  has_typ access access = true
  has_typ refresh_typ refresh_typ = true
  has_typ _ _ = false

  verify_decoded : Typ → ℕ → Decoded → TokenBlacklist S → TokenBlacklist S × Result Claims
  unfolding contains has_typ
  verify_decoded t now expired_signature b = (b, raise token_expired)
  verify_decoded t now invalid_token b = (b, raise invalid)
  verify_decoded t now (decoded c) b =
      if has_typ t c.typ
      then (let (b', revoked) = contains S c.jti now b in
          (b', if revoked then raise token_revoked else ok c))
      else (b, raise invalid)

  verify : Typ → ℕ → j.Token → TokenBlacklist S → TokenBlacklist S × Result Claims
  unfolding verify_decoded
  verify t now token b = verify_decoded t now (j.decode now token) b

  unfoldable pub verify_access :
      ℕ → j.Token → TokenBlacklist S → TokenBlacklist S × Result GatewayPrincipal
  unfolding verify principal_from_claims
  verify_access now token b =
      let (b', result) = verify access now token b in
      (b', elim result [ ok c ↦ ok (principal_from_claims c) | raise e ↦ raise e ])

  unfoldable pub verify_refresh : ℕ → j.Token → TokenBlacklist S → TokenBlacklist S × Result Claims
  unfolding verify
  verify_refresh now token b = verify refresh_typ now token b

  -- `max(0, int(exp - now))`
  unfoldable pub remaining : ℕ → ℕ → ℕ
  remaining exp now = (exp * 1000 - now) / 1000

  -- The new pair for the claims of the old one.
  reissue :
      Claims → List GatewayRole → List String → String → String → ℕ → Result (TokenPair j.Token)
  unfolding issue user_type_of
  reissue c roles permissions access_jti refresh_jti now =
      elim (user_type_of (get_or c.user_type "B2C_CONSUMER")) [
        | none ↦ raise unknown_user_type
        | some t ↦ ok (
            issue
              (record {
                user_id = c.sub;
                user_type = t;
                roles = roles;
                permissions = permissions;
                scopes = [];
                username = c.username;
                company_id = c.company_id;
              })
              access_jti refresh_jti now)
      ]

  -- `refresh`: the old token is revoked before the new pair is issued.
  unfoldable pub refresh :
      j.Token
      → List GatewayRole
      → List String
      → String
      → String
      → ℕ
      → TokenBlacklist S
      → TokenBlacklist S × Result (TokenPair j.Token)
  unfolding verify_refresh remaining reissue add
  refresh token roles permissions access_jti refresh_jti now b =
      let (b', result) = verify_refresh now token b in
      elim result [
        | raise e ↦ (b', raise e)
        | ok c ↦ (
          add S c.jti (remaining c.exp now) now b',
          reissue c roles permissions access_jti refresh_jti now,
        )
      ]

  -- `revoke`: of a token that does not decode there is nothing to revoke.
  unfoldable pub revoke : j.Token → ℕ → TokenBlacklist S → TokenBlacklist S × Bool
  unfolding remaining add
  revoke token now b = elim (j.decode now token) [
    | decoded c ↦ (add S c.jti (remaining c.exp now) now b, true)
    | expired_signature ↦ (b, false)
    | invalid_token ↦ (b, false)
  ]
