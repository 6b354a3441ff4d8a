-- ===== src/Report/Service/Hits.antt =====
-- What the service answers from its cache (report/service.py, `generate`).
use mathlib.Core.Path.{subst}
use haojie.Common.{
  ℕ, ◌≤◌, ◌≡◌, refl, ap, ◌∙◌, true, false, Option, none, some, String, arith, if◌then◌else◌,
  if_both, ltb,
}
use haojie.Cache
use haojie.Cache.{Redis, Cache}
use haojie.Cache.Tiers.{IsSound, get-set, get-IsSound}
use haojie.Report.Engine.{
  ReportRequest, ReportResponse, Reply, ok, raise, payload_too_large, World, Engine, render,
}
use haojie.Report.Service.{
  Service, ServiceSettings, key_of, cached_answer, generate, after_engine, after_look,
}

module _ {P C : Type 0} (w : World P C) (redis : Redis (ReportResponse C))
    (payload_size : ReportRequest P → ℕ)
    (fingerprint : Option String → Option String → Option String → Option String → P → String) where
  abbrev Svc : Type 0
  Svc = Service w redis payload_size fingerprint

  -- The requests' answer is kept under their common key.
  kept-get :
      (key : String) (x : ReportResponse C) (c : Cache redis)
      → IsSound redis c
      → (Cache.get redis key (Cache.set redis key x c)).1 ≡ some x
  kept-get key x c v = (get-set redis key x c v.1 v.0).0

  abbrev fingerprint_of : ReportRequest P → String
  fingerprint_of r = fingerprint r.format r.audience r.template_id r.language r.payload

  -- A new answer is in the cache.
  abbrev Kept : ReportRequest P → Svc → Svc × Reply (ReportResponse C) → Type 0
  Kept r s p =
      (x : ReportResponse C)
      → p.1 ≡ ok x
      → x.cached ≡ false
      → (c : Cache redis) × IsSound redis c
        × (p.0.cache ≡ Cache.set redis (fingerprint_of r) x c)
        × (p.0.settings ≡ s.settings)

  after_engine-Kept :
      (r : ReportRequest P) (s : Svc) (p : Engine w × Reply (ReportResponse C))
      → IsSound redis s.cache
      → Kept r s (after_engine w redis payload_size fingerprint (some (fingerprint_of r)) p s)
  unfolding after_engine
  after_engine-Kept r s (e, ok y) v =
      λ x q new. (s.cache, v, ap (λ z. Cache.set redis (fingerprint_of r) z s.cache) (cc q), refl)
  after_engine-Kept r s (e, raise z) v = λ x q new. absurd (ground (arith, q))

  after_look-Kept :
      (fresh : String) (r : ReportRequest P) (s : Svc) (p : Cache redis × Option (ReportResponse C))
      → IsSound redis p.0
      → Kept r s (after_look w redis payload_size fingerprint fresh r (some (fingerprint_of r)) p s)
  unfolding after_look cached_answer
  after_look-Kept fresh r s (c, some y) v = λ x q new. absurd (ground (arith, q, new))
  after_look-Kept fresh r s (c, none) v =
      after_engine-Kept r (record s { cache = c }) (render w fresh r s.engine) v

  key_of_on :
      (r : ReportRequest P) (s : Svc)
      → s.settings.cache_enabled ≡ true
      → key_of w redis payload_size fingerprint r s ≡ some (fingerprint_of r)
  unfolding key_of
  key_of_on r s on = rw on

  generate_on :
      (fresh : String) (r : ReportRequest P) (s : Svc)
      → s.settings.cache_enabled ≡ true
      → generate w redis payload_size fingerprint fresh r s ≡ (
          if ltb s.settings.max_payload_bytes (payload_size r)
          then (s, raise payload_too_large)
          else after_look w redis payload_size fingerprint fresh r
              (some (fingerprint_of r))
              (Cache.get redis (fingerprint_of r) s.cache)
              s)
  unfolding generate
  generate_on fresh r s on = rw (key_of_on r s on)

  generate-Kept :
      (fresh : String) (r : ReportRequest P) (s : Svc)
      → s.settings.cache_enabled ≡ true
      → IsSound redis s.cache
      → Kept r s (generate w redis payload_size fingerprint fresh r s)
  generate-Kept fresh r s on v = rw (generate_on fresh r s on) (
      if_both (λ p. Kept r s p) (ltb s.settings.max_payload_bytes (payload_size r))
        (s, raise payload_too_large)
        (after_look w redis payload_size fingerprint fresh r (some (fingerprint_of r))
          (Cache.get redis (fingerprint_of r) s.cache) s)
        (λ x q new. absurd (ground (arith, q)))
        (after_look-Kept fresh r s (Cache.get redis (fingerprint_of r) s.cache)
          (get-IsSound redis (fingerprint_of r) s.cache v)))

  -- The two requests ask for the same content.
  abbrev pub SameContent : ReportRequest P → ReportRequest P → Type 0
  SameContent r r' =
      (r'.format ≡ r.format)
      × (r'.audience ≡ r.audience)
      × (r'.template_id ≡ r.template_id)
      × (r'.language ≡ r.language)
      × (r'.payload ≡ r.payload)

  same_fingerprint :
      (r r' : ReportRequest P) → SameContent r r' → fingerprint_of r' ≡ fingerprint_of r
  same_fingerprint r r' (f, a, t, l, p) = rw (f, a, t, l, p)

  generate_hit :
      (fresh : String) (r : ReportRequest P) (s : Svc) (x : ReportResponse C)
      → s.settings.cache_enabled ≡ true
      → payload_size r ≤ s.settings.max_payload_bytes
      → (Cache.get redis (fingerprint_of r) s.cache).1 ≡ some x
      → let p = generate w redis payload_size fingerprint fresh r s in
        (p.1 ≡ ok (cached_answer w redis payload_size fingerprint r x)) × (p.0.engine ≡ s.engine)
  unfolding after_look
  generate_hit fresh r s x on small hit =
      let within : ltb s.settings.max_payload_bytes (payload_size r) ≡ false = ground arith in
      rw (generate_on fresh r s on, within, hit) (refl, refl)

  -- With the cache on and sound: once a report is newly generated, a later request for the same
  -- content is answered from the cache, under the id of the first; the engine is left alone, and
  -- nothing is stored, whether or not the request asks for it.
  pub generate-repeated :
      (fresh fresh' : String) (r r' : ReportRequest P) (x : ReportResponse C) (s s' : Svc)
      → s.settings.cache_enabled ≡ true
      → IsSound redis s.cache
      → generate w redis payload_size fingerprint fresh r s ≡ (s', ok x)
      → x.cached ≡ false
      → SameContent r r'
      → payload_size r' ≤ s.settings.max_payload_bytes
      → let p = generate w redis payload_size fingerprint fresh' r' s' in
        (p.1 ≡ ok (cached_answer w redis payload_size fingerprint r' x)) × (p.0.engine ≡ s'.engine)
  generate-repeated fresh fresh' r r' x s s' on v first new same small =
      let kept : Kept r s (s', ok x) =
        subst (λ p. Kept r s p) first (generate-Kept fresh r s on v) in
      let (c, sound, q, settings) = kept x refl new in
      let hit : (Cache.get redis (fingerprint_of r') s'.cache).1 ≡ some x =
        ap (λ k. (Cache.get redis k s'.cache).1) (same_fingerprint r r' same)
        ∙ ap (λ c'. (Cache.get redis (fingerprint_of r) c').1) q
        ∙ kept-get (fingerprint_of r) x c sound in
      generate_hit fresh' r' s' x (ap (λ (z : ServiceSettings). z.cache_enabled) settings ∙ on)
        (rw settings small) hit
