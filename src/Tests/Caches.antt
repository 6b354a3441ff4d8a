-- ===== src/Tests/Caches.antt =====
-- Runs of the cache of llm/cache.py: two entries, and a Redis whose state is the number of calls
-- that it has answered.
use haojie.Common.{
  ℕ, ◌+◌, ◌≡◌, refl, true, false, none, some, [], ◌∷◌, arith, if◌then◌else◌, List, lookup, insert,
  erase, str_eq, str_eq_iff,
}
use haojie.Cache.{Lru, lru_get, lru_set, Redis, Cache}
use haojie.Cache.Memory.{IsValid}
use haojie.Cache.Recency.{Op, read, write, run, recent_survives}

abbrev ab : Lru ℕ
ab = record { capacity = 2; store = ("a", 1) ∷ ("b", 2) ∷ [] }

ab-IsValid : IsValid ab
unfolding lookup
ab-IsValid = record { bounded = omega arith; distinct = (refl, (refl, tt)) }

lru_test : (lru_set "c" 3 (lru_get "a" ab).0).store ≡ ("a", 1) ∷ ("c", 3) ∷ []
unfolding lru_set lru_get lookup insert erase
lru_test = refl

recent_survives_example : (lru_get "c" (run (write "d" 4 ∷ []) (lru_set "c" 3 ab))).1 ≡ some 3
recent_survives_example =
    recent_survives (write "d" 4 ∷ []) "c" 3 ab ab-IsValid (omega arith)
      (λ e. ground (arith, (str_eq_iff "d" "c").1 e), tt)

abbrev ops : List (Op ℕ)
ops = write "a" 1 ∷ write "b" 2 ∷ read "a" ∷ write "c" 3 ∷ []

-- It holds "7" under every key that is not "lost", and fails to write.
abbrev server : Redis ℕ
server = record {
  Server = ℕ;
  fetch = λ k s. (s + 1, if str_eq k "lost" then none else some (some "7"));
  setex = λ k ttl raw s. (s + 1, false);
  flushdb = λ s. (s + 1, true);
  loads = λ raw. if str_eq raw "7" then some 7 else none;
  dumps = λ v. "7";
}

abbrev tiers : Cache server
tiers = record { mem = ab; ttl = 60; namespaced = λ k. k; client = some 0 }

absent : lookup "z" ab.store ≡ none
unfolding lookup
absent = refl
