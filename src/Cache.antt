-- ===== src/Cache.antt =====
-- The two-tier cache of llm/cache.py: an in-memory LRU before an optional Redis. intent/cache.py,
-- decision/cache.py and report/cache.py hold the same classes under other names.
--
-- An `OrderedDict` is a dictionary in order, oldest entry first. Redis, and the JSON coding of what
-- is stored there, are parameters. Metrics and log lines are left out.
pub mod Memory
pub mod Lookup
pub mod Recency
pub mod Tiers
use haojie.Common.{
  ℕ, suc, ◌-◌, ◌≡◌, Bool, true, false, ◌&&◌, ◌||◌, Option, none, some, String, List, [], ◌∷◌, ◌++◌,
  ltb, ◌==◌, if◌then◌else◌, Dict, lookup, insert, erase, length, is_some,
}

module _ {ℓ} {V : Type ℓ} where
  -- `move_to_end(key)` of a key that is present
  unfoldable pub move_to_end : String → Dict V → Dict V
  move_to_end key d = elim (lookup key d) [ none ↦ d | some v ↦ erase key d ++ (key, v) ∷ [] ]

  -- `while len(store) > capacity: store.popitem(last=False)`
  unfoldable pub trim : ℕ → Dict V → Dict V
  trim capacity [] = []
  trim capacity (e ∷ d) =
      let rest = trim capacity d in if ltb capacity (length (e ∷ d)) then rest else e ∷ d

-- `_LRU`
pub record Lru {ℓ} (V : Type ℓ) : Type ℓ where
  pub capacity : ℕ
  pub store : Dict V

module _ {ℓ} {V : Type ℓ} where
  unfoldable pub lru : ℕ → Lru V
  lru capacity = record { capacity = capacity; store = [] }

  unfoldable pub lru_get : String → Lru V → Lru V × Option V
  unfolding move_to_end
  lru_get key c = if c.capacity == 0 then (c, none) else elim (lookup key c.store) [
    | none ↦ (c, none)
    | some v ↦ (record c { store = move_to_end key c.store }, some v)
  ]

  unfoldable pub lru_set : String → V → Lru V → Lru V
  unfolding move_to_end trim
  lru_set key value c =
      if c.capacity == 0
      then c
      else record c { store = trim c.capacity (move_to_end key (insert key value c.store)) }

  unfoldable pub lru_clear : Lru V → Lru V
  lru_clear c = record c { store = [] }

-- A Redis server as the cache sees it: its state, and calls that answer or raise `RedisError`
-- (`none`). A stored text may fail to parse (`ValueError`).
pub record Redis {ℓ} (V : Type ℓ) : Type (ℓ + 1) where
  pub Server : Type ℓ
  pub fetch : String → Server → Server × Option (Option String)
  pub setex : String → ℕ → String → Server → Server × Bool
  pub flushdb : Server → Server × Bool
  pub loads : String → Option V
  pub dumps : V → String

module _ {ℓ} {V : Type ℓ} (redis : Redis V) where
  open redis use {Server, fetch, setex, flushdb, loads, dumps}

  -- `LLMCache`: `namespaced` is `_key`, and the client is `none` where Redis is not configured or
  -- did not answer the first ping.
  pub record Cache : Type ℓ where
    pub mem : Lru V
    pub ttl : ℕ
    pub namespaced : String → String
    pub client : Option Server

  -- What the reply to a `get` does: a parsed value is copied to memory, and everything else counts
  -- as a miss.
  pub absorb : String → Cache → Server × Option (Option String) → Cache × Option V
  unfolding lru_set
  absorb key c (s, none) = (record c { client = some s }, none)
  absorb key c (s, some none) = (record c { client = some s }, none)
  absorb key c (s, some (some raw)) = elim (loads raw) [
    | none ↦ (record c { client = some s }, none)
    | some v ↦ (record c { client = some s; mem = lru_set key v c.mem }, some v)
  ]

  get_behind : String → Cache → Option Server → Cache × Option V
  unfolding absorb
  get_behind key c none = (c, none)
  get_behind key c (some s) = absorb key c (fetch (c.namespaced key) s)

  unfoldable pub get : String → Cache → Cache × Option V
  unfolding lru_get get_behind
  get key c =
      let (mem, hit) = lru_get key c.mem in
      let c' : Cache = record c { mem = mem } in
      elim hit [ some v ↦ (c', some v) | none ↦ get_behind key c' c'.client ]

  set_behind : String → V → Cache → Option Server → Cache
  set_behind key value c none = c
  set_behind key value c (some s) =
      if ltb 0 c.ttl
      then record c { client = some (setex (c.namespaced key) c.ttl (dumps value) s).0 }
      else c

  unfoldable pub set : String → V → Cache → Cache
  unfolding lru_set set_behind
  set key value c =
      let c' : Cache = record c { mem = lru_set key value c.mem } in
      set_behind key value c' c'.client

  clear_behind : Cache → Option Server → Cache
  clear_behind c none = c
  clear_behind c (some s) = record c { client = some (flushdb s).0 }

  unfoldable pub clear : Cache → Cache
  unfolding lru_clear clear_behind
  clear c = let c' : Cache = record c { mem = lru_clear c.mem } in clear_behind c' c'.client

  unfoldable pub ready : Cache → Bool
  ready c = ltb 0 c.mem.capacity || is_some c.client
