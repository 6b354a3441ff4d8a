-- ===== src/Tests/Tokens.antt =====
-- Tokens of gateway/auth/jwt_manager.py, whose coding is here the identity, with a blacklist in
-- memory.
use haojie.Common.{
  ◌*◌, insert, ◌≡◌, refl, Bool, true, false, none, some, [], ◌∷◌, leb, if◌then◌else◌, lookup,
}
use haojie.Access.{partner, analyst, guest}
use haojie.Blacklist.{Server, TokenBlacklist, contains, contains_memory}
use haojie.Tokens.{
  Claims, refresh_typ, decoded, expired_signature, Codec, JwtSettings, Subject, ok, verify_refresh,
  refresh, refresh_claims,
}

abbrev codec : Codec
codec = record {
  Token = Claims;
  encode = λ c. c;
  decode = λ now c. if leb (c.exp * 1000) now then expired_signature else decoded c;
}

abbrev server : Server
server = record {
  State = Bool;
  get_redis = λ r. false;
  setex = λ key ttl r. none;
  exists = λ key r. none;
}

abbrev settings : JwtSettings
settings = record { jwt_access_minutes = 15; jwt_refresh_days = 7 }

abbrev ann : Subject
ann = record {
  user_id = "ann";
  user_type = partner;
  roles = analyst ∷ guest ∷ [];
  permissions = "inputs:*" ∷ [];
  scopes = [];
  username = some "Ann";
  company_id = none;
}

abbrev empty : TokenBlacklist server
empty = record { memory = []; redis = true }

-- A refresh token that ends at 10 s, and is used at 8.4 s.
abbrev old : Claims
old = record (refresh_claims settings ann "t3" 0) { typ = refresh_typ; jti = "t3"; exp = 10 }

-- It is used again at 9.5 s: its one whole second is over.
replay_test :
    (verify_refresh codec settings server 9500 old
      (refresh codec settings server old [] [] "t4" "t5" 8400 empty).0).1
    ≡ ok old
unfolding verify_refresh refresh contains contains_memory lookup insert
replay_test = refl
