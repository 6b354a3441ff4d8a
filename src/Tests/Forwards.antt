-- ===== src/Tests/Forwards.antt =====
-- The forwarder of the gateway with one retry, before an upstream that fails once and then answers.
use haojie.Common.{
  ℕ, zero, suc, ◌+◌, ◌*◌, upper_eq, ◌≡◌, ◌≢◌, refl, true, false, none, some, String, [], ◌∷◌, ◌++◌,
  Dict, lookup, length, str_eq_iff,
}
use haojie.GatewayBreaker
use haojie.GatewayBreaker.{Breaker, init}
use haojie.Access.{
  GatewayPrincipal, b2b_purchaser, granted, authorize, default_policy, matches, judge,
  has_permission, has_any_role, is_anonymous,
}
use haojie.Forwarder.{
  Reply, responded, timeout_exception, Result, Forwarder, build_forward_headers, final, forward,
  proxy, is_hop_by_hop,
}
use haojie.Forwarder.Attempts.{Ends, after_requests, copies, forward-allowed}
use haojie.Forwarder.Headers.{proxy-trusts}

abbrev replies : ℕ → Reply
replies zero = timeout_exception
replies (suc n) = responded 200

abbrev clock : ℕ → ℕ
clock n = 100 * n

abbrev idle : Forwarder
idle = record { max_retries = 1; breaker = init 5 30 600 3; sent = [] }

-- A consumer who writes the name of another into his request.
abbrev forged : Dict String
forged = ("host", "gw") ∷ ("x-user-id", "admin") ∷ []

abbrev ann : GatewayPrincipal
ann = record {
  user_id = "ann";
  user_type = b2b_purchaser;
  roles = [];
  permissions = "inputs:*" ∷ [];
  scopes = [];
  username = some "Ann";
  company_id = none;
  auth_method = "jwt";
  token_id = some "t1";
  issued_at = some 100;
  expires_at = some 3700;
}

idle_allows : GatewayBreaker.allow 0 idle.breaker ≡ some (idle.breaker, true)
unfolding GatewayBreaker.allow init
idle_allows = refl

forward_test :
    let r = forward replies clock forged none 0 idle in
    (length r.0.sent ≡ 2) × (r.1 ≡ Result.response 200)
unfolding forward GatewayBreaker.allow init
forward_test = (refl, refl)

forward-allowed_example :
    (k : ℕ) × Ends replies clock 0 1 k
    × (forward replies clock forged none 0 idle ≡ (
      after_requests replies clock 0 k
          (build_forward_headers forged none)
          (record idle { breaker = init 5 30 600 3 }),
      final (replies (0 + k)),
    ))
forward-allowed_example =
    forward-allowed replies clock forged none 0 idle (init 5 30 600 3) idle_allows

ann_known : is_anonymous ann ≡ false
unfolding is_anonymous
ann_known = refl

access_of_ann : authorize default_policy ann "POST" "/api/v1/inputs/text" ≡ granted
unfolding authorize default_policy matches judge has_permission has_any_role is_anonymous upper_eq
access_of_ann = refl

end_to_end : is_hop_by_hop "x-user-id" ≡ false
unfolding is_hop_by_hop upper_eq
end_to_end = refl

unlike : ◌≢◌ {A = String} "x-user-id" "X-Forwarded-By"
unlike e = let h : false ≡ true = (str_eq_iff "x-user-id" "X-Forwarded-By").1 e in cc

proxy-trusts_example :
    (k : ℕ) × (h : Dict String) × (lookup "x-user-id" h ≡ lookup "x-user-id" forged)
    × ((proxy replies clock default_policy ann "POST" "/api/v1/inputs/text" forged 0 idle).0.sent
        ≡ [] ++ copies (suc k) h)
    × ((proxy replies clock default_policy ann "POST" "/api/v1/inputs/text" forged 0 idle).1
        ≡ final (replies (0 + k)))
proxy-trusts_example =
    proxy-trusts replies clock default_policy ann "POST" "/api/v1/inputs/text" forged 0 idle
      (init 5 30 600 3) "x-user-id" access_of_ann idle_allows end_to_end unlike
