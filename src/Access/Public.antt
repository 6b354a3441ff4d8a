-- ===== src/Access/Public.antt =====
-- What the default policy lets through without a login (gateway/auth/rbac.py).
use text.Mathlib.Text.{starts_with}
use haojie.Common.{
  refl, List, [], ◌∷◌, false, true, inl, inr, Bool-cases, All, ap, ◌∙◌, ◌++◌, ◌≡◌, Bool, true, ◌&&◌,
  ◌||◌, String, [], ◌∷◌, if◌then◌else◌, upper_eq, any,
}
use haojie.Access.{
  public, guarded, PolicyRule, GatewayPrincipal, is_anonymous, matches, granted, unauthorized,
  judge, authorize, default_policy, public_rules, guarded_rules,
}

-- The paths that need no login, and the two that need none when posted to.
abbrev pub is_public : String → String → Bool
is_public method path =
    any (starts_with path) ("/health" ∷ "/metrics" ∷ "/docs" ∷ "/openapi.json" ∷ [])
    || upper_eq "POST" method && any (starts_with path) ("/auth/token" ∷ "/auth/refresh" ∷ [])

-- For a caller without a login: rules that are all guarded refuse, and open ones before them grant
-- what they match.
module _ (p : GatewayPrincipal) (method path : String) (a : is_anonymous p ≡ true) where
  authorize-guarded :
      (rules : List PolicyRule)
      → All (λ r. r.allow_anonymous ≡ false) rules
      → authorize rules p method path ≡ unauthorized
  unfolding authorize judge
  authorize-guarded [] h = rw a refl
  authorize-guarded (r ∷ rules) h = elim (Bool-cases (matches r method path)) [
    | inl met ↦ rw (met, h.0, a) refl
    | inr missed ↦ rw missed (authorize-guarded rules h.1)
  ]

  authorize-open :
      (opened rules : List PolicyRule)
      → All (λ r. r.allow_anonymous ≡ true) opened
      → All (λ r. r.allow_anonymous ≡ false) rules
      → authorize (opened ++ rules) p method path
        ≡ (if any (λ r. matches r method path) opened then granted else unauthorized)
  unfolding authorize judge
  authorize-open [] rules h g = authorize-guarded rules g
  authorize-open (r ∷ opened) rules h g = elim (Bool-cases (matches r method path)) [
    | inl met ↦ rw (met, h.0) refl
    | inr missed ↦ rw missed (authorize-open opened rules h.1 g)
  ]

or_regroup :
    (a b c d u e f : Bool)
    → any (λ x. x) (a ∷ b ∷ c ∷ d ∷ (u && e) ∷ (u && f) ∷ [])
      ≡ (any (λ x. x) (a ∷ b ∷ c ∷ d ∷ []) || u && any (λ x. x) (e ∷ f ∷ []))
or_regroup true b c d u e f = refl
or_regroup false true c d u e f = refl
or_regroup false false true d u e f = refl
or_regroup false false false true u e f = refl
or_regroup false false false false true e f = refl
or_regroup false false false false false e f = refl

-- Under the default policy an anonymous caller is granted exactly the public paths (/health,
-- /metrics, /docs and /openapi.json with any method, /auth/token and /auth/refresh with POST),
-- each with all that it is a prefix of, and is answered `unauthorized` everywhere else.
pub public_iff :
    (p : GatewayPrincipal) (method path : String)
    → is_anonymous p ≡ true
    → authorize default_policy p method path
      ≡ (if is_public method path then granted else unauthorized)
unfolding default_policy matches public_rules guarded_rules public guarded
public_iff p method path a =
    let at = starts_with path in
    authorize-open p method path a public_rules guarded_rules
      (refl, (refl, (refl, (refl, (refl, (refl, tt)))))) (refl, (refl, (refl, (refl, (refl, tt)))))
    ∙ ap (λ b. if b then granted else unauthorized)
        (or_regroup (at "/health") (at "/metrics") (at "/docs") (at "/openapi.json")
          (upper_eq "POST" method) (at "/auth/token") (at "/auth/refresh"))
