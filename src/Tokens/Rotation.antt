-- ===== src/Tokens/Rotation.antt =====
-- That a refresh token is used once (gateway/auth/jwt_manager.py, `refresh`), without Redis.
use haojie.Common.{ℕ, String, List, if◌then◌else◌}
use haojie.Access.{GatewayRole}
use haojie.Blacklist.{Server, TokenBlacklist, add, contains}
use haojie.Tokens.{
  refresh_typ, Claims, Decoded, decoded, expired_signature, invalid_token, Codec, JwtSettings,
  TokenPair, Result, ok, raise, invalid, token_expired, token_revoked, has_typ, remaining, reissue,
}

module _ (j : Codec) (s : JwtSettings) (S : Server) where
  -- What the verification of a refresh token comes to.
  abbrev answer : ℕ → TokenBlacklist S → Decoded → Result Claims
  answer now b expired_signature = raise token_expired
  answer now b invalid_token = raise invalid
  answer now b (decoded c) =
      if has_typ j s S refresh_typ c.typ
      then if (contains S c.jti now b).1 then raise token_revoked else ok c
      else raise invalid

  -- What it leaves of the blacklist.
  abbrev asked : ℕ → TokenBlacklist S → Decoded → TokenBlacklist S
  asked now b (decoded c) =
      if has_typ j s S refresh_typ c.typ then (contains S c.jti now b).0 else b
  asked now b _ = b

  -- What a refresh makes of the verification of the old token.
  abbrev reissued :
      List GatewayRole
      → List String
      → String
      → String
      → ℕ
      → TokenBlacklist S × Result Claims
      → TokenBlacklist S × Result (TokenPair j.Token)
  reissued roles permissions jti jti' now (b, raise e) = (b, raise e)
  reissued roles permissions jti jti' now (b, ok c) = (
    add S c.jti (remaining j s S c.exp now) now b,
    reissue j s S c roles permissions jti jti' now,
  )
