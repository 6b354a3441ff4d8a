-- ===== src/Report/Storage/Refinement.antt =====
-- The backend in memory against a map from ids to objects, without order and without bound
-- (report/storage/memory.py).
use haojie.Common.{
  ℕ, suc, ◌+◌, ◌≤◌, ◌≡◌, refl, ap, Bool, Option, none, some, String, List, [], ◌∷◌, max,
  if◌then◌else◌, Dict, lookup, erase, is_some, length, Distinct, str_eq, str_eq_iff,
  lookup-erase_ne, lookup-erase_self, Distinct-erase, arith, Option-cases, inl, inr, erase_absent,
  length-erase,
}
use haojie.Cache.Memory.{
  trim_of_length-le, renewed, move_to_end-insert, move_to_end_present, renewed-Distinct,
  length-renewed-le, length-renewed_present, lookup-renewed,
}
use haojie.Report.Storage.{StoredObject, MemoryStorage, init, object_of, put, get, exists, delete}

pub data Call (C : Type 0) : Type 0 where
  puts : String → C → String → String → Dict String → ℕ → Call C
  gets exists_ deletes : String → Call C

pub data Answer (C : Type 0) : Type 0 where
  stored : Answer C
  found : Option (StoredObject C) → Answer C
  tested removed : Bool → Answer C

-- The map that the backend stands for.
abbrev pub Contents : Type 0 → Type 0
Contents C = String → Option (StoredObject C)

module _ {C : Type 0} where
  unfoldable pub step : Call C → MemoryStorage C → MemoryStorage C × Answer C
  unfolding put get exists delete
  step (puts id content content_type checksum metadata now) m =
      (put id content content_type checksum metadata now m, stored)
  step (gets id) m = let (m', o) = get id m in (m', found o)
  step (exists_ id) m = (m, tested (exists id m))
  step (deletes id) m = let (m', b) = delete id m in (m', removed b)

  unfoldable pub run : List (Call C) → MemoryStorage C → List (Answer C)
  unfolding step
  run [] m = []
  run (c ∷ cs) m = (step c m).1 ∷ run cs (step c m).0

  abbrev pub updated : String → Option (StoredObject C) → Contents C → Contents C
  updated id o f = λ j. if str_eq id j then o else f j

  abbrev pub ideal_step : Call C → Contents C → Contents C × Answer C
  ideal_step (puts id content content_type checksum metadata now) f =
      (updated id (some (object_of id content content_type checksum metadata now)) f, stored)
  ideal_step (gets id) f = (f, found (f id))
  ideal_step (exists_ id) f = (f, tested (is_some (f id)))
  ideal_step (deletes id) f = (updated id none f, removed (is_some (f id)))

  abbrev pub ideal_run : List (Call C) → Contents C → List (Answer C)
  ideal_run [] f = []
  ideal_run (c ∷ cs) f = (ideal_step c f).1 ∷ ideal_run cs (ideal_step c f).0

  abbrev pub is_put : Call C → ℕ
  is_put (puts _ _ _ _ _ _) = 1
  is_put (gets _) = 0
  is_put (exists_ _) = 0
  is_put (deletes _) = 0

  abbrev pub puts_in : List (Call C) → ℕ
  puts_in [] = 0
  puts_in (c ∷ cs) = is_put c + puts_in cs

  -- The backend stands for the map, and has room for so many writes.
  record Refines (m : MemoryStorage C) (f : Contents C) (room : ℕ) : Type 0 where
    same : (id : String) → lookup id m.store ≡ f id
    distinct : Distinct m.store
    fits : length m.store + room ≤ m.capacity

  put_lem :
      (id : String) (content : C) (content_type checksum : String) (metadata : Dict String)
      (now room : ℕ) (m : MemoryStorage C)
      → length m.store + suc room ≤ m.capacity
      → put id content content_type checksum metadata now m ≡ record m {
        store = renewed id (object_of id content content_type checksum metadata now) m.store;
      }
  unfolding put
  put_lem id content content_type checksum metadata now room m fits =
      let obj = object_of id content content_type checksum metadata now in
      rw (
        move_to_end-insert id obj m.store,
        trim_of_length-le m.capacity (renewed id obj m.store)
            (omega (arith, length-renewed-le id obj m.store)),
      )

  step-puts :
      (id : String) (content : C) (content_type checksum : String) (metadata : Dict String)
      (now room : ℕ) (m : MemoryStorage C) (f : Contents C)
      → Refines m f (suc room)
      → Refines
          (put id content content_type checksum metadata now m)
          (updated id (some (object_of id content content_type checksum metadata now)) f)
          room
  step-puts id content content_type checksum metadata now room m f h =
      let obj = object_of id content content_type checksum metadata now in
      rw (put_lem id content content_type checksum metadata now room m h.fits) (record {
        same = λ j. ground (arith, lookup-renewed id j obj m.store h.distinct, h.same j);
        distinct = renewed-Distinct id obj m.store h.distinct;
        fits = omega (arith, length-renewed-le id obj m.store, h.fits);
      })

  step-gets :
      (id : String) (room : ℕ) (m : MemoryStorage C) (f : Contents C)
      → Refines m f room
      → Refines (get id m).0 f room × ((get id m).1 ≡ f id)
  unfolding get
  step-gets id room m f h = elim (Option-cases (lookup id m.store)) [
    | inl absent ↦ rw (absent, get) (h, rw (← h.same id, absent))
    | inr (obj, held) ↦
        rw (held, get, move_to_end_present id obj m.store held)
          (
            record {
              same = λ j. ground (
                arith,
                lookup-renewed id j obj m.store h.distinct,
                h.same j,
                str_eq_iff id j,
                held,
              );
              distinct = renewed-Distinct id obj m.store h.distinct;
              fits = omega (arith, length-renewed_present id obj obj m.store held, h.fits);
            },
            rw (← h.same id, held),
          )
  ]

  length-erase-le : (id : String) (d : Dict (StoredObject C)) → length (erase id d) ≤ length d
  length-erase-le id d = elim (Option-cases (lookup id d)) [
    | inl absent ↦ rw (erase_absent id d absent) (omega arith)
    | inr (obj, held) ↦ omega (arith, length-erase id obj d held)
  ]

  lookup-erase :
      (id j : String) (d : Dict (StoredObject C))
      → Distinct d
      → lookup j (erase id d) ≡ (if str_eq id j then none else lookup j d)
  lookup-erase id j d h =
      ground (arith, str_eq_iff id j, lookup-erase_ne id j d, lookup-erase_self id d h)

  step-deletes :
      (id : String) (room : ℕ) (m : MemoryStorage C) (f : Contents C)
      → Refines m f room
      → Refines (delete id m).0 (updated id none f) room × ((delete id m).1 ≡ is_some (f id))
  unfolding delete
  step-deletes id room m f h = (
    record {
      same = λ j. rw (lookup-erase id j m.store h.distinct, h.same j);
      distinct = Distinct-erase id m.store h.distinct;
      fits = omega (arith, length-erase-le id m.store, h.fits);
    },
    rw (h.same id),
  )

  weaker : (m : MemoryStorage C) (f : Contents C) (n k : ℕ) → k ≤ n → Refines m f n → Refines m f k
  weaker m f n k le h = record {
    same = h.same;
    distinct = h.distinct;
    fits = omega (arith, h.fits);
  }

  step-Refines :
      (c : Call C) (room : ℕ) (m : MemoryStorage C) (f : Contents C)
      → Refines m f (is_put c + room)
      → Refines (step c m).0 (ideal_step c f).0 room × ((step c m).1 ≡ (ideal_step c f).1)
  unfolding step exists
  step-Refines (puts id content content_type checksum metadata now) room m f h = (
    step-puts id content content_type checksum metadata now room m f
        (weaker m f (1 + room) (suc room) (omega arith) h),
    refl,
  )
  step-Refines (gets id) room m f h =
      let (r, e) = step-gets id room m f (weaker m f (0 + room) room (omega arith) h) in
      (r, ap found e)
  step-Refines (exists_ id) room m f h =
      (weaker m f (0 + room) room (omega arith) h, rw (h.same id))
  step-Refines (deletes id) room m f h =
      let (r, e) = step-deletes id room m f (weaker m f (0 + room) room (omega arith) h) in
      (r, ap removed e)

  run-Refines :
      (cs : List (Call C)) (m : MemoryStorage C) (f : Contents C)
      → Refines m f (puts_in cs)
      → run cs m ≡ ideal_run cs f
  unfolding run
  run-Refines [] m f h = refl
  run-Refines (c ∷ cs) m f h =
      let (r, e) = step-Refines c (puts_in cs) m f h in
      rw (e, run-Refines cs (step c m).0 (ideal_step c f).0 r)

  -- As long as the writes are no more than the capacity, the backend in memory answers any
  -- sequence of writes, reads, tests and removals as a map from ids to objects does, which has
  -- neither order nor bound.
  pub run-ideal_run :
      (capacity : ℕ) (cs : List (Call C))
      → puts_in cs ≤ max 1 capacity
      → run cs (init capacity) ≡ ideal_run cs (λ id. none)
  unfolding init lookup
  run-ideal_run capacity cs h =
      run-Refines cs (init capacity) (λ id. none)
        (record { same = λ id. refl; distinct = tt; fits = omega (arith, h) })
