-- ===== src/Blacklist.antt =====
-- The revoked tokens of the gateway (gateway/auth/token_blacklist.py): Redis where there is one, and
-- a dictionary in memory otherwise. Times are in milliseconds, and a lifetime that is not positive
-- is 0. Redis is a parameter: what it answers or that it fails, and whether there is a client at
-- all (`_get_redis`).
pub mod Memory
use haojie.Common.{
  ℕ, zero, suc, ◌+◌, ◌*◌, Bool, true, false, Option, none, some, String, append, ltb, if◌then◌else◌,
  Dict, lookup, insert, erase,
}

-- `none` is an exception.
pub record Server : Type 1 where
  pub State : Type 0
  pub get_redis : State → Bool
  pub setex : String → ℕ → State → Option State
  pub exists : String → State → Option Bool

-- The dictionary holds the time at which a revocation ends.
pub record TokenBlacklist (S : Server) : Type 0 where
  pub memory : Dict ℕ
  pub redis : S.State

unfoldable pub add_memory : String → ℕ → ℕ → Dict ℕ → Dict ℕ
add_memory jti ttl now memory = insert jti (now + ttl * 1000) memory

unfoldable pub contains_memory : String → ℕ → Dict ℕ → Dict ℕ × Bool
contains_memory jti now memory = elim (lookup jti memory) [
  | none ↦ (memory, false)
  | some exp ↦ if ltb exp now then (erase jti memory, false) else (memory, true)
]

module _ (S : Server) where
  set_redis : String → ℕ → S.State → Option S.State
  set_redis jti ttl redis =
      if S.get_redis redis then S.setex (append "blacklist:" jti) ttl redis else none

  unfoldable pub add : String → ℕ → ℕ → TokenBlacklist S → TokenBlacklist S
  unfolding add_memory set_redis
  add jti zero now b = b
  add jti (suc ttl) now b = elim (set_redis jti (suc ttl) b.redis) [
    | some redis ↦ record b { redis = redis }
    | none ↦ record b { memory = add_memory jti (suc ttl) now b.memory }
  ]

  ask_redis : String → S.State → Option Bool
  ask_redis jti redis = if S.get_redis redis then S.exists (append "blacklist:" jti) redis else none

  unfoldable pub contains : String → ℕ → TokenBlacklist S → TokenBlacklist S × Bool
  unfolding contains_memory ask_redis
  contains jti now b = elim (ask_redis jti b.redis) [
    | some answer ↦ (b, answer)
    | none ↦
        let (memory, answer) = contains_memory jti now b.memory in
        (record b { memory = memory }, answer)
  ]
