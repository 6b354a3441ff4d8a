-- ===== src/Blacklist/Memory.antt =====
-- The revocations of gateway/auth/token_blacklist.py without Redis.
use haojie.Common.{
  ℕ, zero, suc, ◌+◌, ◌*◌, ◌≤◌, ◌≡◌, refl, ◌∙◌, Bool, false, Option, none, some, String, List, [],
  ◌∷◌, arith, leb, if◌then◌else◌, Dict, lookup, Distinct, Distinct-insert, Distinct-erase,
  lookup-insert, lookup-erase_ne, lookup-erase_self, str_eq, str_eq_iff, All, Bool-cases, inl, inr,
}
use haojie.Blacklist.{
  set_redis, ask_redis, Server, TokenBlacklist, add_memory, contains_memory, add, contains,
}

-- A call: a revocation, or a question.
pub data Event : Type 0 where
  revoke : String → ℕ → ℕ → Event
  ask : String → ℕ → Event

abbrev pub time_of : Event → ℕ
time_of (revoke jti ttl t) = t
time_of (ask jti t) = t

-- Whether a revocation that ends then still holds.
unfoldable pub is_live : ℕ → Option ℕ → Bool
is_live now none = false
is_live now (some e) = leb now e

-- When the last revocation of a token ends, after what was known before.
unfoldable pub revoked_until : String → List Event → Option ℕ → Option ℕ
revoked_until jti [] o = o
revoked_until jti (revoke k zero t ∷ es) o = revoked_until jti es o
revoked_until jti (revoke k (suc ttl) t ∷ es) o =
    revoked_until jti es (if str_eq k jti then some (t + suc ttl * 1000) else o)
revoked_until jti (ask k t ∷ es) o = revoked_until jti es o

-- The memory tells of a token, at a time, what the last revocation does.
record Tells (jti : String) (now : ℕ) (memory : Dict ℕ) (o : Option ℕ) : Type 0 where
  pub distinct : Distinct memory
  pub told : is_live now (lookup jti memory) ≡ is_live now o

Tells-add :
    (jti k : String) (now ttl t : ℕ) (memory : Dict ℕ) (o : Option ℕ)
    → Tells jti now memory o
    → Tells jti now (add_memory k ttl t memory) (if str_eq k jti then some (t + ttl * 1000) else o)
unfolding add_memory
Tells-add jti k now ttl t memory o h = record {
  distinct = Distinct-insert k (t + ttl * 1000) memory h.distinct;
  told = elim (Bool-cases (str_eq k jti)) [
    | inl same ↦ rw (lookup-insert k jti (t + ttl * 1000) memory, same) refl
    | inr other ↦ rw (lookup-insert k jti (t + ttl * 1000) memory, other) h.told
  ];
}

pub contains_memory-answer :
    (jti : String) (now : ℕ) (memory : Dict ℕ)
    → (contains_memory jti now memory).1 ≡ is_live now (lookup jti memory)
unfolding contains_memory is_live
contains_memory-answer jti now memory = ground arith

-- A question drops an entry of its token that has ended.
contains_memory-lookup :
    (jti k : String) (now t : ℕ) (memory : Dict ℕ)
    → Distinct memory
    → t ≤ now
    → is_live now (lookup jti (contains_memory k t memory).0) ≡ is_live now (lookup jti memory)
unfolding contains_memory is_live
contains_memory-lookup jti k now t memory u le = elim (Bool-cases (str_eq k jti)) [
  | inl same ↦
      let q : k ≡ jti = (str_eq_iff k jti).0 same in
      rw q (ground (arith, lookup-erase_self jti memory u))
  | inr other ↦
      ground
        (arith, lookup-erase_ne k jti memory (λ q. absurd (ground (arith, str_eq_iff k jti, q))))
]

contains_memory-Distinct :
    (k : String) (t : ℕ) (memory : Dict ℕ)
    → Distinct memory
    → Distinct (contains_memory k t memory).0
unfolding contains_memory
contains_memory-Distinct k t memory u = ground (arith, Distinct-erase k memory u)

module _ (S : Server) where
  unfoldable pub run : List Event → TokenBlacklist S → TokenBlacklist S
  unfolding add contains
  run [] b = b
  run (revoke jti ttl t ∷ es) b = run es (add S jti ttl t b)
  run (ask jti t ∷ es) b = run es (contains S jti t b).0

  module _ (offline : (redis : S.State) → S.get_redis redis ≡ false) where
    pub add-offline :
        (jti : String) (ttl t : ℕ) (b : TokenBlacklist S)
        → add S jti (suc ttl) t b ≡ record b { memory = add_memory jti (suc ttl) t b.memory }
    unfolding add set_redis
    add-offline jti ttl t b = ground (arith, offline b.redis)

    pub contains-offline :
        (jti : String) (t : ℕ) (b : TokenBlacklist S)
        → contains S jti t b ≡ (
          record b { memory = (contains_memory jti t b.memory).0 },
          (contains_memory jti t b.memory).1,
        )
    unfolding contains ask_redis
    contains-offline jti t b = ground (arith, offline b.redis)

    run-Tells :
        (jti : String) (now : ℕ) (es : List Event) (b : TokenBlacklist S) (o : Option ℕ)
        → All (λ e. time_of e ≤ now) es
        → Tells jti now b.memory o
        → Tells jti now (run es b).memory (revoked_until jti es o)
    unfolding run revoked_until
    run-Tells jti now [] b o le h = h
    run-Tells jti now (revoke k zero t ∷ es) b o le h = run-Tells jti now es b o le.1 h
    run-Tells jti now (revoke k (suc ttl) t ∷ es) b o le h =
        rw (run, add-offline k ttl t b)
          (run-Tells jti now es (record b { memory = add_memory k (suc ttl) t b.memory })
            (if str_eq k jti then some (t + suc ttl * 1000) else o) le.1
            (Tells-add jti k now (suc ttl) t b.memory o h))
    run-Tells jti now (ask k t ∷ es) b o le h =
        rw (run, contains-offline k t b)
          (run-Tells jti now es (record b { memory = (contains_memory k t b.memory).0 }) o le.1
            (record {
              distinct = contains_memory-Distinct k t b.memory h.distinct;
              told = contains_memory-lookup jti k now t b.memory h.distinct le.0 ∙ h.told;
            }))

    -- Without Redis, after any revocations and questions at times that are not later, a token
    -- counts as revoked exactly when its last revocation with a positive lifetime has not ended,
    -- whatever entries were dropped on the way.
    pub contains-run :
        (jti : String) (now : ℕ) (es : List Event) (redis : S.State)
        → All (λ e. time_of e ≤ now) es
        → (contains S jti now (run es (record { memory = []; redis = redis }))).1
          ≡ is_live now (revoked_until jti es none)
    unfolding is_live lookup
    contains-run jti now es redis le =
        let b = run es (record { memory = []; redis = redis }) in
        let h =
          run-Tells jti now es (record { memory = []; redis = redis }) none le
            (record { distinct = tt; told = refl }) in
        rw (contains-offline jti now b) (contains_memory-answer jti now b.memory ∙ h.told)
