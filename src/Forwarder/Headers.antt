-- ===== src/Forwarder/Headers.antt =====
-- What the upstream reads in the headers (`_build_forward_headers` of gateway/routing/forwarder.py), and
-- what `_proxy` of gateway/api/proxy_routes.py lets through to it.
use haojie.Common.{
  ℕ, suc, ◌+◌, ◌≡◌, ◌≢◌, refl, sym, ◌∙◌, ap, Bool, true, false, Option, none, some, String, List,
  [], ◌∷◌, ◌++◌, Dict, lookup, lookup-insert, lookup-insert_ne, length, str_eq, str_eq_iff,
  if◌then◌else◌, arith,
}
use haojie.GatewayBreaker
use haojie.GatewayBreaker.{Breaker}
use haojie.Access.{GatewayPrincipal, GatewayRole, is_anonymous, PolicyRule, granted, authorize}
use haojie.Forwarder.{
  Reply, Forwarder, is_hop_by_hop, without, filtered, with_name, with_roles, with_principal,
  build_forward_headers, final, forward, proxy,
}
use haojie.Forwarder.Attempts.{copies, forward-allowed}

lookup-without :
    (p : String → Bool) (k : String) (d : Dict String)
    → lookup k (without p d) ≡ (if p k then none else lookup k d)
unfolding lookup without
lookup-without p k [] = ground arith
lookup-without p k ((j, v) ∷ d) =
    let same : str_eq j k ≡ true → p j ≡ p k = λ h. ap p ((str_eq_iff j k).0 h) in
    ground (arith, same, lookup-without p k d)

lookup-filtered :
    (k : String) (d : Dict String)
    → lookup k (filtered d) ≡ (if is_hop_by_hop k then none else lookup k d)
unfolding filtered
lookup-filtered k d = lookup-without is_hop_by_hop k d

-- X
pub lookup-build_forward_headers :
    (k : String) (d : Dict String)
    → is_hop_by_hop k ≡ false
    → k ≢ "X-Forwarded-By"
    → lookup k (build_forward_headers d none) ≡ lookup k d
unfolding build_forward_headers with_principal
lookup-build_forward_headers k d h ne =
    lookup-insert_ne "X-Forwarded-By" k "ilbuyai-gateway" (filtered d) (λ e. ne (sym e))
    ∙ lookup-filtered k d
    ∙ rw h

user_id-with_name :
    (n : Option String) (d : Dict String)
    → lookup "X-User-Id" (with_name n d) ≡ lookup "X-User-Id" d
unfolding with_name
user_id-with_name none d = refl
user_id-with_name (some n) d = ground (arith, lookup-insert "X-User-Name" "X-User-Id" n d)

user_id-with_roles :
    (rs : List GatewayRole) (d : Dict String)
    → lookup "X-User-Id" (with_roles rs d) ≡ lookup "X-User-Id" d
unfolding with_roles
user_id-with_roles [] d = refl
user_id-with_roles (r ∷ rs) d = rw lookup-insert

-- X
pub lookup-user_id :
    (d : Dict String) (p : GatewayPrincipal)
    → is_anonymous p ≡ false
    → lookup "X-User-Id" (build_forward_headers d (some p)) ≡ some p.user_id
unfolding build_forward_headers with_principal
lookup-user_id d p known =
    rw (known, user_id-with_name, user_id-with_roles, lookup-insert, lookup-insert)

module _ (reply : ℕ → Reply) (clock : ℕ → ℕ) where
  proxy-granted :
      (rules : List PolicyRule) (p : GatewayPrincipal) (method path : String)
      (headers : Dict String) (start : ℕ) (f : Forwarder)
      → authorize rules p method path ≡ granted
      → proxy reply clock rules p method path headers start f
        ≡ forward reply clock headers none start f
  unfolding proxy
  proxy-granted rules p method path headers start f granted_here = rw granted_here

  -- When a request is granted and the breaker lets it through, every copy that the proxy sends
  -- upstream has, under each name that is no hop-by-hop header and not X-Forwarded-By, just what
  -- the client wrote there, and the result is the upstream's last reply.
  pub proxy-trusts :
      (rules : List PolicyRule) (p : GatewayPrincipal) (method path : String)
      (headers : Dict String) (start : ℕ) (f : Forwarder) (b : Breaker) (key : String)
      → authorize rules p method path ≡ granted
      → GatewayBreaker.allow start f.breaker ≡ some (b, true)
      → is_hop_by_hop key ≡ false
      → key ≢ "X-Forwarded-By"
      → (k : ℕ) × (h : Dict String) × (lookup key h ≡ lookup key headers)
        × ((proxy reply clock rules p method path headers start f).0.sent
            ≡ f.sent ++ copies (suc k) h)
        × ((proxy reply clock rules p method path headers start f).1
            ≡ final (reply (length f.sent + k)))
  proxy-trusts rules p method path headers start f b key granted_here allowed h ne =
      let (k, ends, eq) = forward-allowed reply clock headers none start f b allowed in
      let all = proxy-granted rules p method path headers start f granted_here ∙ eq in
      (
        k,
        build_forward_headers headers none,
        lookup-build_forward_headers key headers h ne,
        ap (λ r. r.0.sent) all,
        ap (λ r. r.1) all,
      )
