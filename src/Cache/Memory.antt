-- ===== src/Cache/Memory.antt =====
-- The in-memory LRU of llm/cache.py (`_LRU`): bounds, lookups after a write, and what survives.
use haojie.Common.{
  ℕ, ◌+◌, ◌≤◌, ◌<◌, ◌≡◌, refl, none, some, String, [], ◌∷◌, ◌++◌, arith, if◌then◌else◌, Dict,
  lookup, insert, erase, Distinct, length, length-append, str_eq, str_eq_iff, lookup-insert_self,
  erase-insert, lookup-append, lookup-erase_ne, lookup-erase_self, length-erase, erase_absent,
  Distinct-erase, Distinct-append_one, Option-cases, inl, inr,
}
use haojie.Cache.{move_to_end, trim, Lru, lru_get, lru_set}

-- Never more entries than the capacity, and no key twice.
pub record IsValid {ℓ} {V : Type ℓ} (c : Lru V) : Type ℓ where
  pub bounded : length c.store ≤ c.capacity
  pub distinct : Distinct c.store

module _ {ℓ} {V : Type ℓ} where
  pub length-trim-le : (n : ℕ) (d : Dict V) → length (trim n d) ≤ n
  unfolding trim
  length-trim-le n [] = omega arith
  length-trim-le n (e ∷ d) = ground (arith, length-trim-le n d)

  pub trim_of_length-le : (n : ℕ) (d : Dict V) → length d ≤ n → trim n d ≡ d
  unfolding trim
  trim_of_length-le n [] h = refl
  trim_of_length-le n (e ∷ d) h = ground arith

  -- One entry too many: the oldest goes.
  pub trim_over : (n : ℕ) (e : String × V) (d : Dict V) → length d ≡ n → trim n (e ∷ d) ≡ d
  unfolding trim
  trim_over n e d h = ground (arith, trim_of_length-le n d)

  trim-Distinct : (n : ℕ) (d : Dict V) → Distinct d → Distinct (trim n d)
  unfolding trim
  trim-Distinct n [] h = h
  trim-Distinct n (e ∷ d) h = ground (arith, trim-Distinct n d h.1)

  -- A write brings its entry to the end.
  unfoldable pub renewed : String → V → Dict V → Dict V
  renewed key v d = erase key d ++ (key, v) ∷ []

  pub move_to_end-insert :
      (key : String) (v : V) (d : Dict V) → move_to_end key (insert key v d) ≡ renewed key v d
  unfolding move_to_end renewed
  move_to_end-insert key v d =
      rw (lookup-insert_self key v d, move_to_end) (rw (erase-insert key v d))

  pub move_to_end_present :
      (key : String) (v : V) (d : Dict V)
      → lookup key d ≡ some v
      → move_to_end key d ≡ renewed key v d
  unfolding move_to_end renewed
  move_to_end_present key v d h = rw (h, move_to_end)

  pub renewed-Distinct :
      (key : String) (v : V) (d : Dict V) → Distinct d → Distinct (renewed key v d)
  unfolding renewed
  renewed-Distinct key v d h =
      Distinct-append_one key v (erase key d) (Distinct-erase key d h) (lookup-erase_self key d h)

  pub renewed_absent :
      (key : String) (v : V) (d : Dict V)
      → lookup key d ≡ none
      → renewed key v d ≡ d ++ (key, v) ∷ []
  unfolding renewed
  renewed_absent key v d h = rw (erase_absent key d h)

  pub length-renewed-le :
      (key : String) (v : V) (d : Dict V) → length (renewed key v d) ≤ length d + 1
  unfolding renewed
  length-renewed-le key v d = elim (Option-cases (lookup key d)) [
    | inl absent ↦
        rw (erase_absent key d absent) (omega (arith, length-append {ℓ} d ((key, v) ∷ [])))
    | inr (w, held) ↦
        omega (arith, length-append {ℓ} (erase key d) ((key, v) ∷ []), length-erase key w d held)
  ]

  pub lookup-renewed :
      (key j : String) (v : V) (d : Dict V)
      → Distinct d
      → lookup j (renewed key v d) ≡ (if str_eq key j then some v else lookup j d)
  unfolding renewed lookup
  lookup-renewed key j v d h = ground (
    arith,
    str_eq_iff key j,
    lookup-append j (erase key d) ((key, v) ∷ []),
    lookup-erase_self key d h,
    lookup-erase_ne key j d,
  )

  -- A capacity of 0 turns the cache off; otherwise a write is this one.
  pub lru_set_lem :
      (key : String) (v : V) (c : Lru V)
      → 0 < c.capacity
      → lru_set key v c ≡ record c { store = trim c.capacity (renewed key v c.store) }
  unfolding lru_set
  lru_set_lem key v c pos = ground (arith, move_to_end-insert key v c.store)

  pub lru_get_lem :
      (key : String) (c : Lru V)
      → 0 < c.capacity
      → lru_get key c ≡ elim (lookup key c.store) [
        | none ↦ (c, none)
        | some v ↦ (record c { store = renewed key v c.store }, some v)
      ]
  unfolding lru_get
  lru_get_lem key c pos = elim (Option-cases (lookup key c.store)) [
    | inl absent ↦ ground arith
    | inr (v, held) ↦ ground (arith, move_to_end_present key v c.store held)
  ]

  pub lru_set-IsValid : (key : String) (v : V) (c : Lru V) → IsValid c → IsValid (lru_set key v c)
  unfolding lru_set
  lru_set-IsValid key v c h = ground (
    arith,
    length-trim-le c.capacity (move_to_end key (insert key v c.store)),
    trim-Distinct c.capacity (move_to_end key (insert key v c.store)),
    move_to_end-insert key v c.store,
    renewed-Distinct key v c.store h.distinct,
  )

  pub length-renewed_present :
      (key : String) (v w : V) (d : Dict V)
      → lookup key d ≡ some w
      → length (renewed key v d) ≡ length d
  unfolding renewed
  length-renewed_present key v w d held =
      omega (arith, length-append {ℓ} (erase key d) ((key, v) ∷ []), length-erase key w d held)

  pub lru_get-IsValid : (key : String) (c : Lru V) → IsValid c → IsValid (lru_get key c).0
  unfolding lru_get
  lru_get-IsValid key c h = elim (Option-cases (lookup key c.store)) [
    | inl absent ↦ ground arith
    | inr (v, held) ↦ ground (
      arith,
      move_to_end_present key v c.store held,
      renewed-Distinct key v c.store h.distinct,
      length-renewed_present key v v c.store held,
    )
  ]

  pub lru_get-lookup :
      (key : String) (c : Lru V) → 0 < c.capacity → (lru_get key c).1 ≡ lookup key c.store
  lru_get-lookup key c pos = ground (arith, lru_get_lem key c pos)

  pub lru_set-capacity :
      (key : String) (v : V) (c : Lru V) → (lru_set key v c).capacity ≡ c.capacity
  unfolding lru_set
  lru_set-capacity key v c = ground arith
