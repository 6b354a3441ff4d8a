-- ===== src/Input/Store/Entries.antt =====
-- What the in-memory cache of cache/manager.py keeps.
use haojie.Common.{
  ℕ, zero, suc, ◌+◌, ◌-◌, ◌*◌, ◌/◌, ◌≤◌, ◌≡◌, refl, some, String, List, [], ◌∷◌, arith, ltb,
  if◌then◌else◌, max, Dict, insert, erase, length, lookup-insert_self,
}
use haojie.Input.Store.{
  IsLawful, memory_backend, InMemoryCache, Entry, init, get, set, delete, drop_oldest, make_room,
}

-- The calls of the backend, each at its time.
pub data Call {ℓ} (V : Type ℓ) : Type ℓ where
  reads : String → ℕ → Call V
  writes : String → V → ℕ → ℕ → Call V
  deletes : String → Call V

module _ {ℓ} {V : Type ℓ} where
  -- What is stored is read until its lifetime is over.
  pub get-set :
      (key : String) (value : V) (ttl now later : ℕ) (c : InMemoryCache V)
      → later ≤ now + ttl * 1000
      → (get key later (set key value ttl now c)).1 ≡ some value
  unfolding get set
  get-set key value ttl now later c le =
      let e : Entry V = record {
        value = value;
        expires_at = if ltb 0 ttl then now + ttl * 1000 else 0;
      } in
      ground (arith, lookup-insert_self key e (make_room c))

  length-drop_oldest : (n : ℕ) (d : Dict (Entry V)) → length (drop_oldest n d) ≡ length d - n
  unfolding drop_oldest
  length-drop_oldest zero d = omega arith
  length-drop_oldest (suc n) [] = omega arith
  length-drop_oldest (suc n) (e ∷ d) = omega (arith, length-drop_oldest n d)

  -- A cache holds at most its size of entries, and one where the size is 0.
  abbrev pub IsBounded : InMemoryCache V → Type 0
  IsBounded c = length c.store ≤ max c.max_size 1

  length-insert-le :
      (key : String) (e : Entry V) (d : Dict (Entry V)) → length (insert key e d) ≤ length d + 1
  unfolding insert
  length-insert-le key e [] = omega arith
  length-insert-le key e (x ∷ d) = ground (arith, length-insert-le key e d)

  length-erase-le : (key : String) (d : Dict (Entry V)) → length (erase key d) ≤ length d
  unfolding erase
  length-erase-le key [] = omega arith
  length-erase-le key (x ∷ d) = ground (arith, length-erase-le key d)

  set-IsBounded :
      (key : String) (value : V) (ttl now : ℕ) (c : InMemoryCache V)
      → IsBounded c
      → IsBounded (set key value ttl now c)
  unfolding set make_room
  set-IsBounded key value ttl now c h =
      let e : Entry V = record {
        value = value;
        expires_at = if ltb 0 ttl then now + ttl * 1000 else 0;
      } in
      let n = max 1 (c.max_size / 10) in
      ground (
        arith,
        length-drop_oldest n c.store,
        length-insert-le key e c.store,
        length-insert-le key e (drop_oldest n c.store),
      )

  get-IsBounded :
      (key : String) (now : ℕ) (c : InMemoryCache V) → IsBounded c → IsBounded (get key now c).0
  unfolding get
  get-IsBounded key now c h = ground (arith, length-erase-le key c.store)

  unfoldable pub step : Call V → InMemoryCache V → InMemoryCache V
  unfolding get set delete
  step (reads key now) c = (get key now c).0
  step (writes key value ttl now) c = set key value ttl now c
  step (deletes key) c = delete key c

  unfoldable pub run : List (Call V) → InMemoryCache V → InMemoryCache V
  unfolding step
  run [] c = c
  run (call ∷ calls) c = run calls (step call c)

  step-IsBounded : (call : Call V) (c : InMemoryCache V) → IsBounded c → IsBounded (step call c)
  unfolding step
  step-IsBounded (reads key now) c h = get-IsBounded key now c h
  step-IsBounded (writes key value ttl now) c h = set-IsBounded key value ttl now c h
  step-IsBounded (deletes key) c h = ground (arith, length-erase-le key c.store)

  run_from-IsBounded :
      (calls : List (Call V)) (c : InMemoryCache V) → IsBounded c → IsBounded (run calls c)
  unfolding run
  run_from-IsBounded [] c h = h
  run_from-IsBounded (call ∷ calls) c h =
      run_from-IsBounded calls (step call c) (step-IsBounded call c h)

  run-max_size : (calls : List (Call V)) (c : InMemoryCache V) → (run calls c).max_size ≡ c.max_size
  unfolding run step
  run-max_size [] c = refl
  run-max_size (reads key now ∷ calls) c = ground (arith, run-max_size calls (get key now c).0)
  run-max_size (writes key value ttl now ∷ calls) c =
      ground (arith, run-max_size calls (set key value ttl now c))
  run-max_size (deletes key ∷ calls) c = ground (arith, run-max_size calls (delete key c))

  -- After any reads, writes and removals a new in-memory cache holds at most `max_size` entries,
  -- and one where that is 0.
  pub run-bounded :
      (max_size : ℕ) (calls : List (Call V))
      → length (run calls (init max_size)).store ≤ max max_size 1
  unfolding init
  run-bounded max_size calls =
      let c : InMemoryCache V = init max_size in
      omega (arith, run_from-IsBounded calls c (omega arith), run-max_size calls c)

  pub memory_backend-IsLawful : IsLawful (memory_backend {V = V})
  memory_backend-IsLawful = record {
    read-write = λ key value ttl now later c lt. get-set key value ttl now later c (omega arith);
  }
