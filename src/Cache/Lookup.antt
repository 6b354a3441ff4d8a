-- ===== src/Cache/Lookup.antt =====
-- What can be read after a write to the in-memory LRU of llm/cache.py (`_LRU.set`).
use haojie.Common.{
  ℕ, ◌≤◌, ◌<◌, ◌≡◌, ◌≢◌, Bool, false, not, ◌&&◌, Option, none, some, String, [], ◌∷◌, ◌++◌, arith,
  ◌==◌, if◌then◌else◌, Dict, lookup, Distinct, length, is_some, length-append, str_eq, str_eq_iff,
  Option-cases, Bool-cases, inl, inr, ==_iff,
}
use haojie.Cache.Memory.{
  IsValid, renewed, trim_of_length-le, trim_over, renewed-Distinct, renewed_absent,
  length-renewed-le, length-renewed_present, lookup-renewed, lru_set_lem,
}
use haojie.Cache.{trim, Lru, lru_set}

abbrev pub evicts : Option String → String → Bool
evicts none j = false
evicts (some i) j = str_eq i j

ne_of_== : (a b : ℕ) → (a == b) ≡ false → a ≢ b
ne_of_== a b h = ground arith

module _ {ℓ} {V : Type ℓ} where
  -- The one entry that a write of a new key into a full cache pushes out: the oldest.
  abbrev oldest : Dict V → Option String
  oldest [] = none
  oldest ((j, w) ∷ d) = some j

  unfoldable pub victim : String → ℕ → Dict V → Option String
  victim key n d = if not (is_some (lookup key d)) && (length d == n) then oldest d else none

  lookup-trim_over :
      (j i : String) (w : V) (d : Dict V) (n : ℕ)
      → length d ≡ n
      → Distinct ((i, w) ∷ d)
      → lookup j (trim n ((i, w) ∷ d)) ≡ (if str_eq i j then none else lookup j ((i, w) ∷ d))
  unfolding lookup
  lookup-trim_over j i w d n h u = ground (arith, trim_over n (i, w) d h, str_eq_iff i j)

  ne_of_absent : (key i : String) (w : V) (d : Dict V) → lookup key ((i, w) ∷ d) ≡ none → key ≢ i
  unfolding lookup
  ne_of_absent key i w d h = ground (arith, str_eq_iff i key)

  -- The new key is not the one that is pushed out, so that the order of the two tests is free.
  crossed :
      (key j i : String) (v : V) (a b : Option V)
      → key ≢ i
      → a ≡ (if str_eq key j then some v else b)
      → (if str_eq i j then none else a)
        ≡ (if str_eq key j then some v else if str_eq i j then none else b)
  crossed key j i v a b ne h = ground (arith, str_eq_iff key j, str_eq_iff i j)

  lookup-stored_full :
      (key j i : String) (v w : V) (d : Dict V) (n : ℕ)
      → length ((i, w) ∷ d) ≡ n
      → lookup key ((i, w) ∷ d) ≡ none
      → Distinct ((i, w) ∷ d)
      → lookup j (trim n (renewed key v ((i, w) ∷ d)))
        ≡ (if str_eq key j then some v else if str_eq i j then none else lookup j ((i, w) ∷ d))
  lookup-stored_full key j i v w d n len absent u =
      let grown : renewed key v ((i, w) ∷ d) ≡ (i, w) ∷ (d ++ (key, v) ∷ []) =
        renewed_absent key v ((i, w) ∷ d) absent in
      let u' = renewed-Distinct key v ((i, w) ∷ d) u in
      let reads = lookup-renewed key j v ((i, w) ∷ d) u in
      rw grown (
        rw
          (lookup-trim_over j i w (d ++ (key, v) ∷ []) n
            (omega (arith, length-append {ℓ} d ((key, v) ∷ []))) (rw grown at u'))
          (crossed key j i v _ _ (ne_of_absent key i w d absent) (rw grown at reads)))

  lookup-stored_room :
      (key j : String) (v : V) (d : Dict V) (n : ℕ)
      → length (renewed key v d) ≤ n
      → Distinct d
      → lookup j (trim n (renewed key v d)) ≡ (if str_eq key j then some v else lookup j d)
  lookup-stored_room key j v d n fits u =
      rw (trim_of_length-le n (renewed key v d) fits) (lookup-renewed key j v d u)

  lookup-stored :
      (key j : String) (v : V) (n : ℕ) (d : Dict V)
      → 0 < n
      → length d ≤ n
      → Distinct d
      → lookup j (trim n (renewed key v d))
        ≡ (if str_eq key j then some v else if evicts (victim key n d) j then none else lookup j d)
  unfolding victim
  lookup-stored key j v n [] pos h u =
      ground (arith, lookup-stored_room key j v [] n (omega (arith, length-renewed-le key v [])) u)
  lookup-stored key j v n ((i, w) ∷ d) pos h u = elim (Option-cases (lookup key ((i, w) ∷ d))) [
    | inr (x, held) ↦ ground (
      arith,
      lookup-stored_room key j v ((i, w) ∷ d) n
          (omega (arith, length-renewed_present key v x ((i, w) ∷ d) held)) u,
    )
    | inl absent ↦ elim (Bool-cases (length ((i, w) ∷ d) == n)) [
      | inl full ↦
          rw (absent, full) (lookup-stored_full key j i v w d n ((==_iff _ n).0 full) absent u)
      | inr room ↦
          rw (absent, room)
            (lookup-stored_room key j v ((i, w) ∷ d) n
              (omega (arith, length-renewed-le key v ((i, w) ∷ d), ne_of_== _ n room)) u)
    ]
  ]

  -- In a valid cache with room for an entry, a write is read back, the entry that it pushes out is
  -- gone, and every other key reads as before.
  pub lookup-lru_set :
      (key j : String) (v : V) (c : Lru V)
      → 0 < c.capacity
      → IsValid c
      → lookup j (lru_set key v c).store ≡ (
          if str_eq key j
          then some v
          else if evicts (victim key c.capacity c.store) j
          then none
          else lookup j c.store)
  lookup-lru_set key j v c pos h =
      rw (lru_set_lem key v c pos)
        (lookup-stored key j v c.capacity c.store pos h.bounded h.distinct)
