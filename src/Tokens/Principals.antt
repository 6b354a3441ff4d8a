-- ===== src/Tokens/Principals.antt =====
-- Whom a token speaks for (gateway/auth/jwt_manager.py, `issue` and `verify_access`).
use haojie.Common.{ℕ, ◌+◌, ◌*◌, ◌/◌, some, String, if◌then◌else◌}
use haojie.Access.{GatewayPrincipal}
use haojie.Blacklist.{Server, TokenBlacklist, contains}
use haojie.Tokens.{
  access, Decoded, decoded, expired_signature, invalid_token, Codec, JwtSettings, Result, ok, raise,
  token_expired, token_revoked, if_truthy, Subject, principal_from_claims, has_typ, invalid,
}

-- The principal that a token stands for.
abbrev pub principal_of : JwtSettings → Subject → String → ℕ → GatewayPrincipal
principal_of s who jti now = record {
  user_id = who.user_id;
  user_type = who.user_type;
  roles = who.roles;
  permissions = who.permissions;
  scopes = who.scopes;
  username = if_truthy who.username;
  company_id = if_truthy who.company_id;
  auth_method = "jwt";
  token_id = some jti;
  issued_at = some (now / 1000);
  expires_at = some ((now + s.jwt_access_minutes * 60000) / 1000);
}

module _ (j : Codec) (s : JwtSettings) (S : Server) where
  -- What a verified access token comes to.
  abbrev answer : ℕ → TokenBlacklist S → Decoded → Result GatewayPrincipal
  answer now b expired_signature = raise token_expired
  answer now b invalid_token = raise invalid
  answer now b (decoded c) =
      if has_typ j s S access c.typ
      then if (contains S c.jti now b).1 then raise token_revoked else ok (principal_from_claims c)
      else raise invalid
