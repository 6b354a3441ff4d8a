-- ===== src/Decision/Service/Shared.antt =====
-- Requests that share a decision of the cache (decision/service.py, `decide`, with the key of
-- decision/features.py, `cache_key`).
use mathlib.Core.Path.{subst}
use haojie.Common.{
  ℕ, ◌≡◌, refl, ap, ◌∙◌, true, false, Option, none, some, String, List, arith, if◌then◌else◌,
  if_both,
}
use haojie.Cache
use haojie.Cache.{Redis, Cache}
use haojie.Cache.Tiers.{IsSound, get-set, get-IsSound}
use haojie.Decision.Features.{extract}
use haojie.Decision.Rules.{Rule}
use haojie.Decision.Engine.{Model, Engine, EngineDecision, Reply, ok, raise, evaluate}
use haojie.Decision.Service.{
  ServiceSettings, ServiceRequest, DecisionResponse, Answer, answer, error, invalid, is_valid,
  cached_answer, materialize, key_numbers, Service, cache_key, look, memorise, after_engine,
  after_look, decide,
}

-- The same request, but that nothing is said of the stock.
abbrev pub without_stock : ServiceRequest → ServiceRequest
without_stock r = record r { body = record r.body { in_stock = none } }

module _ (M : Model) (policy : List Rule) (redis : Redis DecisionResponse)
    (digest : List String → List ℕ → Option String → String) where
  abbrev Svc : Type 0
  Svc = Service M policy redis digest

  abbrev key_of : ServiceRequest → String
  key_of r = cache_key M policy redis digest (extract r.body) r

  -- A new answer is in the cache.
  abbrev Kept : ServiceRequest → Svc → Svc × Answer → Type 0
  Kept r s p =
      (x : DecisionResponse)
      → p.1 ≡ answer x
      → x.cached ≡ false
      → (c : Cache redis) × IsSound redis c
        × (p.0.cache ≡ Cache.set redis (key_of r) x c)
        × (p.0.settings ≡ s.settings)

  after_engine-Kept :
      (r : ServiceRequest) (s : Svc) (p : Engine M policy × Reply EngineDecision)
      → s.settings.cache_enabled ≡ true
      → IsSound redis s.cache
      → Kept r s (after_engine M policy redis digest r (extract r.body) p s)
  unfolding after_engine
  after_engine-Kept r s (e, ok d) on v = λ x q new. (
    s.cache,
    v,
    ap
          (λ b.
            memorise M policy redis digest b (key_of r)
              (materialize s.settings r (extract r.body) d) s.cache)
          on
        ∙ ap (λ z. Cache.set redis (key_of r) z s.cache) (cc q),
    refl,
  )
  after_engine-Kept r s (e, raise z) on v = λ x q new. absurd (ground (arith, q))

  after_look-Kept :
      (r : ServiceRequest) (s : Svc) (p : Cache redis × Option DecisionResponse)
      → s.settings.cache_enabled ≡ true
      → IsSound redis p.0
      → Kept r s (after_look M policy redis digest r (extract r.body) p s)
  unfolding after_look cached_answer
  after_look-Kept r s (c, some y) on v = λ x q new. absurd (ground (arith, q, new))
  after_look-Kept r s (c, none) on v =
      after_engine-Kept r (record s { cache = c })
        (evaluate M policy (extract r.body) r.strategy_override s.engine) on v

  look_on :
      (key : String) (s : Svc)
      → s.settings.cache_enabled ≡ true
      → look M policy redis digest key s ≡ Cache.get redis key s.cache
  unfolding look
  look_on key s on = rw on

  decide_valid :
      (r : ServiceRequest) (s : Svc)
      → s.settings.cache_enabled ≡ true
      → decide M policy redis digest r s ≡ (
          if is_valid r.body
          then after_look M policy redis digest r
              (extract r.body)
              (Cache.get redis (key_of r) s.cache)
              s
          else (s, error invalid))
  unfolding decide
  decide_valid r s on = rw (look_on (key_of r) s on)

  decide-Kept :
      (r : ServiceRequest) (s : Svc)
      → s.settings.cache_enabled ≡ true
      → IsSound redis s.cache
      → Kept r s (decide M policy redis digest r s)
  decide-Kept r s on v = rw (decide_valid r s on) (
      if_both (λ p. Kept r s p) (is_valid r.body)
        (after_look M policy redis digest r (extract r.body) (Cache.get redis (key_of r) s.cache) s)
        (s, error invalid)
        (after_look-Kept r s (Cache.get redis (key_of r) s.cache) on
          (get-IsSound redis (key_of r) s.cache v))
        (λ x q new. absurd (ground (arith, q))))

  decide_hit :
      (r : ServiceRequest) (s : Svc) (x : DecisionResponse)
      → s.settings.cache_enabled ≡ true
      → is_valid r.body ≡ true
      → (Cache.get redis (key_of r) s.cache).1 ≡ some x
      → let p = decide M policy redis digest r s in
        (p.1 ≡ answer (cached_answer r x)) × (p.0.engine ≡ s.engine)
  unfolding after_look
  decide_hit r s x on valid hit = rw (decide_valid r s on, valid, hit) (refl, refl)

  same_key :
      (r : ServiceRequest) → r.body.in_stock ≡ some false → key_of (without_stock r) ≡ key_of r
  unfolding cache_key key_numbers extract
  same_key r out = rw out

  -- With the cache on and sound: once a request for goods that are not in stock is newly decided,
  -- the same request with nothing said of the stock is answered by that decision, and the engine
  -- is not asked.
  pub decide-shared :
      (r : ServiceRequest) (x : DecisionResponse) (s s' : Svc)
      → s.settings.cache_enabled ≡ true
      → IsSound redis s.cache
      → decide M policy redis digest r s ≡ (s', answer x)
      → x.cached ≡ false
      → r.body.in_stock ≡ some false
      → is_valid r.body ≡ true
      → let p = decide M policy redis digest (without_stock r) s' in
        (p.1 ≡ answer (cached_answer r x)) × (p.0.engine ≡ s'.engine)
  unfolding is_valid cached_answer
  decide-shared r x s s' on v first new out valid =
      let kept : Kept r s (s', answer x) = subst (λ p. Kept r s p) first (decide-Kept r s on v) in
      let (c, sound, q, settings) = kept x refl new in
      let hit : (Cache.get redis (key_of (without_stock r)) s'.cache).1 ≡ some x =
        ap (λ k. (Cache.get redis k s'.cache).1) (same_key r out)
        ∙ ap (λ c'. (Cache.get redis (key_of r) c').1) q
        ∙ (get-set redis (key_of r) x c sound.1 sound.0).0 in
      decide_hit (without_stock r) s' x
        (ap (λ (z : ServiceSettings). z.cache_enabled) settings ∙ on) valid hit
