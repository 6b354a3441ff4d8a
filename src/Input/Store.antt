-- ===== src/Input/Store.antt =====
-- The cache of the input service (cache/manager.py): the in-memory backend, and the manager before
-- any backend. Redis is another backend and a parameter, as is what pickling makes of a value.
--
-- Times are in milliseconds and lifetimes in seconds; an entry that never ends has the time 0, as
-- there. The lock makes each method one step. Log lines are left out.
pub mod Entries
pub mod Hits
use haojie.Common.{
  ℕ, zero, suc, ◌+◌, ◌*◌, ◌/◌, ◌≤◌, ◌<◌, ◌≡◌, Bool, true, false, ◌&&◌, Option, none, some, String,
  List, [], ◌∷◌, append, leb, ltb, if◌then◌else◌, max, Dict, lookup, insert, erase, length, get_or,
}

pub record Entry {ℓ} (V : Type ℓ) : Type ℓ where
  pub value : V
  pub expires_at : ℕ

pub record InMemoryCache {ℓ} (V : Type ℓ) : Type ℓ where
  pub store : Dict (Entry V)
  pub max_size : ℕ

module _ {ℓ} {V : Type ℓ} where
  unfoldable pub init : ℕ → InMemoryCache V
  init max_size = record { store = []; max_size = max_size }

  unfoldable pub get : String → ℕ → InMemoryCache V → InMemoryCache V × Option V
  get key now c = elim (lookup key c.store) [
    | none ↦ (c, none)
    | some e ↦
        if ltb 0 e.expires_at && ltb e.expires_at now
        then (record c { store = erase key c.store }, none)
        else (c, some e.value)
  ]

  -- `list(store.keys())[:drop]`, popped one by one.
  unfoldable pub drop_oldest : ℕ → Dict (Entry V) → Dict (Entry V)
  drop_oldest zero d = d
  drop_oldest (suc n) [] = []
  drop_oldest (suc n) (e ∷ d) = drop_oldest n d

  make_room : InMemoryCache V → Dict (Entry V)
  unfolding drop_oldest
  make_room c =
      if leb c.max_size (length c.store)
      then drop_oldest (max 1 (c.max_size / 10)) c.store
      else c.store

  unfoldable pub set : String → V → ℕ → ℕ → InMemoryCache V → InMemoryCache V
  unfolding make_room
  set key value ttl now c = record c {
    store =
        insert key
          (record { value = value; expires_at = if ltb 0 ttl then now + ttl * 1000 else 0 })
          (make_room c);
  }

  unfoldable pub delete : String → InMemoryCache V → InMemoryCache V
  delete key c = record c { store = erase key c.store }

-- `AbstractCacheBackend`, as the manager uses it.
pub record Backend {ℓ} (V : Type ℓ) : Type (ℓ + 1) where
  pub State : Type ℓ
  pub read : String → ℕ → State → State × Option V
  pub write : String → V → ℕ → ℕ → State → State

-- What is stored is read until its lifetime is over.
pub record IsLawful {ℓ} {V : Type ℓ} (b : Backend V) : Type ℓ where
  pub read-write :
      (key : String) (value : V) (ttl now later : ℕ) (s : b.State)
      → later < now + ttl * 1000
      → (b.read key later (b.write key value ttl now s)).1 ≡ some value

abbrev pub memory_backend {ℓ} : {V : Type ℓ} → Backend V
memory_backend {V} = record { State = InMemoryCache V; read = get; write = set }

-- `CacheManager`: `none` is a cache that is not enabled. An exception of the backend counts as a miss,
-- and is part of what the backend answers here.
pub record CacheManager {ℓ} {V : Type ℓ} (b : Backend V) : Type ℓ where
  pub service_name : String
  pub cache_ttl : ℕ
  pub backend : Option b.State

module _ {ℓ} {V : Type ℓ} (b : Backend V) where
  pub full_key : String → String → CacheManager b → String
  full_key namespace key c = append c.service_name (append ":" (append namespace (append ":" key)))

  unfoldable pub cache_get : String → String → ℕ → CacheManager b → CacheManager b × Option V
  unfolding full_key
  cache_get key namespace now c = elim c.backend [
    | none ↦ (c, none)
    | some s ↦
        let (s', answer) = b.read (full_key namespace key c) now s in
        (record c { backend = some s' }, answer)
  ]

  unfoldable pub cache_set : String → V → String → Option ℕ → ℕ → CacheManager b → CacheManager b
  unfolding full_key
  cache_set key value namespace ttl now c = elim c.backend [
    | none ↦ c
    | some s ↦ record c {
      backend = some (b.write (full_key namespace key c) value (get_or ttl c.cache_ttl) now s);
    }
  ]
