-- ===== src/Input/Store/Hits.antt =====
-- Reads after writes through the manager of cache/manager.py.
use haojie.Common.{
  ℕ, ◌+◌, ◌*◌, ◌<◌, ◌≡◌, Option, some, String, arith, get_or, Option-cases, inl, inr,
}
use haojie.Input.Store.{Backend, IsLawful, CacheManager, full_key, cache_get, cache_set}

module _ {ℓ} {V : Type ℓ} (b : Backend V) where
  -- With a lawful backend, what has just been stored is read until its lifetime is over.
  pub cache_get-cache_set :
      (key namespace : String) (value : V) (ttl : Option ℕ) (now later : ℕ) (c : CacheManager b)
      (s : b.State)
      → IsLawful b
      → (cache_set b key value namespace ttl now c).backend ≡ some s
      → later < now + get_or ttl c.cache_ttl * 1000
      → (cache_get b key namespace later (cache_set b key value namespace ttl now c)).1 ≡ some value
  unfolding cache_get cache_set
  cache_get-cache_set key namespace value ttl now later c s law e lt =
      elim (Option-cases c.backend) [
        | inl off ↦ absurd (ground (arith, e, off))
        | inr (t, on) ↦ ground (
          arith,
          on,
          law.read-write (full_key b namespace key c) value (get_or ttl c.cache_ttl) now later t lt,
        )
      ]

  pub cache_set-cache_ttl :
      (key namespace : String) (value : V) (ttl : Option ℕ) (now : ℕ) (c : CacheManager b)
      → (cache_set b key value namespace ttl now c).cache_ttl ≡ c.cache_ttl
  unfolding cache_set
  cache_set-cache_ttl key namespace value ttl now c = ground arith
