-- ===== src/Cache/Tiers.antt =====
-- The two tiers of llm/cache.py together (`LLMCache`), whatever Redis does.
use haojie.Common.{
  Option-cases, inl, inr, ◌<◌, ◌≡◌, Option, none, some, String, arith, lookup, str_eq_refl,
}
use haojie.Cache.{Lru, lru_get, lru_set, Redis, Cache, get, absorb, set}
use haojie.Cache.Memory.{
  IsValid, lru_get-lookup, lru_set-capacity, lru_set-IsValid, lru_get-IsValid,
}
use haojie.Cache.Lookup.{lookup-lru_set}

module _ {ℓ} {V : Type ℓ} (redis : Redis V) where
  open redis use {Server, fetch, setex, loads, dumps}

  mem-set : (key : String) (v : V) (c : Cache redis) → (set redis key v c).mem ≡ lru_set key v c.mem
  unfolding set
  mem-set key v c = ground arith

  get_hit :
      (key : String) (v : V) (c : Cache redis)
      → (lru_get key c.mem).1 ≡ some v
      → ((get redis key c).1 ≡ some v) × ((get redis key c).0.client ≡ c.client)
  unfolding get
  get_hit key v c h = ground arith

  get_miss :
      (key : String) (c : Cache redis) (s : Server)
      → lookup key c.mem.store ≡ none
      → c.client ≡ some s
      → get redis key c ≡ absorb redis key c (fetch (c.namespaced key) s)
  unfolding get
  get_miss key c s absent e = ground arith

  -- Whatever Redis does, a cache with memory returns what it has just stored, from memory: the
  -- read leaves the Redis server as it is.
  pub get-set :
      (key : String) (v : V) (c : Cache redis)
      → 0 < c.mem.capacity
      → IsValid c.mem
      → ((get redis key (set redis key v c)).1 ≡ some v)
        × ((get redis key (set redis key v c)).0.client ≡ (set redis key v c).client)
  get-set key v c pos h = get_hit key v (set redis key v c) (
      rw (mem-set key v c) (
        ground (
          arith,
          lru_get-lookup key (lru_set key v c.mem),
          lru_set-capacity key v c.mem,
          lookup-lru_set key key v c.mem pos h,
          str_eq_refl key,
        )))

  -- What Redis has in store for a key, if anything: the text that it answers with, parsed.
  unfoldable pub remote : String → Cache redis → Server → Option V
  remote key c s = elim (fetch (c.namespaced key) s).1 [ some (some raw) ↦ loads raw | _ ↦ none ]

  -- On a miss in memory the read answers with what Redis has in store. If that is nothing, because
  -- Redis fails, lacks the key or holds a text that does not parse, memory is left alone; if it is
  -- a value, it is copied to memory.
  pub get-remote :
      (key : String) (c : Cache redis) (s : Server)
      → lookup key c.mem.store ≡ none
      → c.client ≡ some s
      → ((get redis key c).1 ≡ remote key c s)
        × ((get redis key c).0.mem
            ≡ elim (remote key c s) [ none ↦ c.mem | some v ↦ lru_set key v c.mem ])
  unfolding remote absorb
  get-remote key c s absent e = rw (get_miss key c s absent e) (ground arith)

  -- The memory has room, and keeps its bound.
  abbrev pub IsSound : Cache redis → Type ℓ
  IsSound c = IsValid c.mem × (0 < c.mem.capacity)

  absorb-IsSound :
      (key : String) (c : Cache redis) (p : Server × Option (Option String))
      → IsSound c
      → IsSound (absorb redis key c p).0
  unfolding absorb
  absorb-IsSound key c (t, none) v = v
  absorb-IsSound key c (t, some none) v = v
  absorb-IsSound key c (t, some (some raw)) v = elim (Option-cases (loads raw)) [
    | inl bad ↦ rw (bad, absorb) v
    | inr (x, good) ↦
        rw (good, absorb)
          (lru_set-IsValid key x c.mem v.0, omega (arith, lru_set-capacity key x c.mem, v.1))
  ]

  lru_get-capacity : (key : String) (c : Lru V) → (lru_get key c).0.capacity ≡ c.capacity
  unfolding lru_get
  lru_get-capacity key c = ground arith

  get-looked :
      (key : String) (c : Cache redis)
      → let c' : Cache redis = record c { mem = (lru_get key c.mem).0 } in
        get redis key c ≡ elim (lru_get key c.mem).1 [
          | some v ↦ (c', some v)
          | none ↦ elim c.client [
            | none ↦ (c', none)
            | some s ↦ absorb redis key c' (fetch (c.namespaced key) s)
          ]
        ]
  unfolding get
  get-looked key c = ground arith

  -- A read keeps it so.
  pub get-IsSound : (key : String) (c : Cache redis) → IsSound c → IsSound (get redis key c).0
  get-IsSound key c v =
      let c' : Cache redis = record c { mem = (lru_get key c.mem).0 } in
      let v' : IsSound c' =
        (lru_get-IsValid key c.mem v.0, omega (arith, lru_get-capacity key c.mem, v.1)) in
      rw (get-looked key c) (elim (Option-cases (lru_get key c.mem).1) [
        | inr (x, hit) ↦ rw hit v'
        | inl miss ↦ elim (Option-cases c.client) [
          | inl alone ↦ rw (miss, alone) v'
          | inr (s, behind) ↦
              rw (miss, behind) (absorb-IsSound key c' (fetch (c.namespaced key) s) v')
        ]
      ])
