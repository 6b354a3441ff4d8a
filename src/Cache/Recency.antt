-- ===== src/Cache/Recency.antt =====
-- What survives in the in-memory LRU of llm/cache.py: an entry that was touched recently.
use haojie.Common.{
  ℕ, suc, ◌+◌, ◌≤◌, ◌<◌, ◌≡◌, ◌≢◌, refl, ap, ◌∙◌, Option, none, some, String, List, [], ◌∷◌, ◌++◌,
  arith, if◌then◌else◌, Dict, lookup, erase, Distinct, length, length-append, str_eq, str_eq_iff,
  str_eq_refl, lookup-append, lookup-erase_ne, lookup-erase_self, Option-cases, Bool-cases, inl,
  inr, All,
}
use haojie.Cache.{trim, Lru, lru, lru_get, lru_set}
use haojie.Cache.Memory.{
  IsValid, renewed, lookup-renewed, lru_set_lem, lru_get_lem, lru_set-IsValid, lru_get-IsValid,
}

module _ {ℓ} {V : Type ℓ} where
  -- How many entries are more recent than the key's.
  unfoldable pub younger : String → Dict V → ℕ
  younger k [] = 0
  younger k ((j, w) ∷ d) = if str_eq j k then length d else younger k d

  younger-append_one :
      (k key : String) (v w : V) (d : Dict V)
      → lookup k d ≡ some w
      → younger k (d ++ (key, v) ∷ []) ≡ younger k d + 1
  unfolding younger lookup
  younger-append_one k key v w [] h = cc
  younger-append_one k key v w ((j, u) ∷ d) h =
      ground (arith, length-append {ℓ} d ((key, v) ∷ []), younger-append_one k key v w d)

  length-erase-le : (k : String) (d : Dict V) → length (erase k d) ≤ length d
  unfolding erase
  length-erase-le k [] = omega arith
  length-erase-le k ((j, w) ∷ d) = ground (arith, length-erase-le k d)

  younger-erase-le :
      (k key : String) (w : V) (d : Dict V)
      → key ≢ k
      → lookup k d ≡ some w
      → younger k (erase key d) ≤ younger k d
  unfolding younger lookup erase
  younger-erase-le k key w [] ne h = cc
  younger-erase-le k key w ((j, u) ∷ d) ne h = ground (
    arith,
    str_eq_iff j key,
    str_eq_iff j k,
    length-erase-le key d,
    younger-erase-le k key w d ne,
  )

  younger-trim :
      (k : String) (w : V) (n : ℕ) (d : Dict V)
      → lookup k d ≡ some w
      → younger k d < n
      → (lookup k (trim n d) ≡ some w) × (younger k (trim n d) ≡ younger k d)
  unfolding younger lookup trim
  younger-trim k w n [] h lt = cc
  younger-trim k w n ((j, u) ∷ d) h lt = ground (arith, younger-trim k w n d)

  -- The key holds the value, and fewer than `n` entries are more recent.
  abbrev pub Holds : String → V → ℕ → Dict V → Type ℓ
  Holds k w n d = (lookup k d ≡ some w) × (younger k d < n)

  lookup-erased :
      (k key : String) (w : V) (d : Dict V)
      → key ≢ k
      → lookup k d ≡ some w
      → lookup k (erase key d) ≡ some w
  lookup-erased k key w d ne h = lookup-erase_ne key k d ne ∙ h

  renewed-Holds :
      (k key : String) (v w : V) (n : ℕ) (d : Dict V)
      → key ≢ k
      → Holds k w n d
      → Holds k w (suc n) (renewed key v d)
  unfolding renewed
  renewed-Holds k key v w n d ne h = (
    ground (arith, lookup-append k (erase key d) ((key, v) ∷ []), lookup-erase_ne key k d ne),
    omega (
      arith,
      younger-append_one k key v w (erase key d) (lookup-erased k key w d ne h.0),
      younger-erase-le k key w d ne h.0,
    ),
  )

  younger-append_absent :
      (k : String) (v : V) (d : Dict V) → lookup k d ≡ none → younger k (d ++ (k, v) ∷ []) ≡ 0
  unfolding younger lookup
  younger-append_absent k v [] h = ground (arith, str_eq_refl k)
  younger-append_absent k v ((j, u) ∷ d) h = ground (arith, younger-append_absent k v d)

  renewed-Holds_self :
      (k : String) (v : V) (n : ℕ) (d : Dict V) → Distinct d → Holds k v (suc n) (renewed k v d)
  unfolding renewed
  renewed-Holds_self k v n d u =
      let absent = lookup-erase_self k d u in
      (
        ground (arith, lookup-renewed k k v d u, str_eq_refl k),
        omega (arith, younger-append_absent k v (erase k d) absent),
      )

-- A cache in use: reads and writes of any keys.
pub data Op {ℓ} (V : Type ℓ) : Type ℓ where
  read : String → Op V
  write : String → V → Op V

module _ {ℓ} {V : Type ℓ} where
  unfoldable pub apply : Op V → Lru V → Lru V
  apply (read key) c = (lru_get key c).0
  apply (write key v) c = lru_set key v c

  unfoldable pub run : List (Op V) → Lru V → Lru V
  run [] c = c
  run (o ∷ os) c = run os (apply o c)

  -- No write of the key.
  abbrev pub Spares : String → Op V → Type 0
  Spares k (read key) = Unit
  Spares k (write key v) = key ≢ k

  apply-IsValid : (o : Op V) (c : Lru V) → IsValid c → IsValid (apply o c)
  unfolding apply
  apply-IsValid (read key) c h = lru_get-IsValid key c h
  apply-IsValid (write key v) c h = lru_set-IsValid key v c h

  capacity-apply : (o : Op V) (c : Lru V) → 0 < c.capacity → (apply o c).capacity ≡ c.capacity
  unfolding apply
  capacity-apply (read key) c pos = ground (arith, lru_get_lem key c pos)
  capacity-apply (write key v) c pos = ground (arith, lru_set_lem key v c pos)

  lru_get_absent :
      (key : String) (c : Lru V) → lookup key c.store ≡ none → lru_get key c ≡ (c, none)
  unfolding lru_get
  lru_get_absent key c absent = ground arith

  lru_get_present :
      (key : String) (v : V) (c : Lru V)
      → 0 < c.capacity
      → lookup key c.store ≡ some v
      → lru_get key c ≡ (record c { store = renewed key v c.store }, some v)
  lru_get_present key v c pos present = ground (arith, lru_get_lem key c pos)

  touch-Holds :
      (key k : String) (v w : V) (n : ℕ) (c : Lru V)
      → IsValid c
      → lookup key c.store ≡ some v
      → Holds k w n c.store
      → Holds k w (suc n) (renewed key v c.store)
  touch-Holds key k v w n c h present held = elim (Bool-cases (str_eq key k)) [
    | inl same ↦
        let e : key ≡ k = (str_eq_iff key k).0 same in
        let ev : v ≡ w = cc (present, held.0, ap (λ i. lookup i c.store) e) in
        rw (e, ev) (renewed-Holds_self k w n c.store h.distinct)
    | inr other ↦ renewed-Holds k key v w n c.store (λ e. ground (arith, str_eq_iff key k)) held
  ]

  apply-Holds :
      (o : Op V) (k : String) (w : V) (n : ℕ) (c : Lru V)
      → IsValid c
      → n < c.capacity
      → Spares k o
      → Holds k w n c.store
      → Holds k w (suc n) (apply o c).store
  unfolding apply
  apply-Holds (write key v) k w n c h lt ne held =
      let (found, young) = renewed-Holds k key v w n c.store ne held in
      rw (lru_set_lem key v c (omega arith))
        (ground (arith, younger-trim k w c.capacity (renewed key v c.store) found))
  apply-Holds (read key) k w n c h lt ne held = elim (Option-cases (lookup key c.store)) [
    | inl absent ↦ rw (apply, lru_get_absent key c absent) (held.0, omega (arith, held.1))
    | inr (v, present) ↦
        rw (apply, lru_get_present key v c (omega arith) present)
          (touch-Holds key k v w n c h present held)
  ]

  run-Holds :
      (os : List (Op V)) (k : String) (w : V) (n : ℕ) (c : Lru V)
      → IsValid c
      → n + length os ≤ c.capacity
      → All (Spares k) os
      → Holds k w n c.store
      → lookup k (run os c).store ≡ some w
  unfolding run
  run-Holds [] k w n c h lt sp held = held.0
  run-Holds (o ∷ os) k w n c h lt sp held =
      run-Holds os k w (suc n) (apply o c) (apply-IsValid o c h)
        (omega (arith, capacity-apply o c (omega arith))) sp.1
        (apply-Holds o k w n c h (omega arith) sp.0 held)

  capacity-run : (os : List (Op V)) (c : Lru V) → 0 < c.capacity → (run os c).capacity ≡ c.capacity
  unfolding run
  capacity-run [] c pos = refl
  capacity-run (o ∷ os) c pos =
      let e = capacity-apply o c pos in
      omega (arith, e, capacity-run os (apply o c) (omega (arith, e)))

  lru_set-Holds :
      (k : String) (w : V) (c : Lru V)
      → IsValid c
      → 0 < c.capacity
      → Holds k w 1 (lru_set k w c).store × ((lru_set k w c).capacity ≡ c.capacity)
  lru_set-Holds k w c h pos =
      let (found, young) = renewed-Holds_self k w 0 c.store h.distinct in
      let (kept, still) = younger-trim k w c.capacity (renewed k w c.store) found (omega arith) in
      rw (lru_set_lem k w c pos) ((kept, omega (arith, still)), refl)

  -- What is written into a valid cache is still read after any reads, and any writes of other
  -- keys, as long as the operations are fewer than the capacity.
  pub recent_survives :
      (os : List (Op V)) (k : String) (w : V) (c : Lru V)
      → IsValid c
      → length os < c.capacity
      → All (Spares k) os
      → (lru_get k (run os (lru_set k w c))).1 ≡ some w
  recent_survives os k w c h lt sp =
      let (held, cap) = lru_set-Holds k w c h (omega arith) in
      let d = lru_set k w c in
      let found = run-Holds os k w 1 d (lru_set-IsValid k w c h) (omega (arith, cap)) sp held in
      ap (λ (r : Lru V × Option V). r.1)
        (lru_get_present k w (run os d) (omega (arith, cap, capacity-run os d (omega (arith, cap))))
          found)

  lru-IsValid : (n : ℕ) → IsValid {V = V} (lru n)
  unfolding lru
  lru-IsValid n = record { bounded = omega arith; distinct = tt }

  run-IsValid : (os : List (Op V)) (c : Lru V) → IsValid c → IsValid (run os c)
  unfolding run
  run-IsValid [] c h = h
  run-IsValid (o ∷ os) c h = run-IsValid os (apply o c) (apply-IsValid o c h)

  -- After any reads and writes a new cache holds at most its capacity of entries (none if that is
  -- 0) and no key twice.
  pub run-lru-IsValid : (os : List (Op V)) (n : ℕ) → IsValid (run os (lru n))
  run-lru-IsValid os n = run-IsValid os (lru n) (lru-IsValid n)
