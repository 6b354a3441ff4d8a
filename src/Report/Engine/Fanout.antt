-- ===== src/Report/Engine/Fanout.antt =====
-- What the storage of a report in all backends does (report/engine.py, `_persist`).
use haojie.Common.{
  ℕ, ◌≡◌, refl, Bool, true, false, ◌&&◌, Option, none, some, String, List, [], ◌∷◌, if◌then◌else◌,
  str_eq, str_eq_refl, Bool-cases, inl, inr, arith,
}
use haojie.Breaker
use haojie.Breaker.{Breaker, circuit_open_error}
use haojie.Breaker.Invariant.{
  IsValid, record_success-IsValid, record_failure-IsValid, asked, answers, asked-IsValid,
  ensure_allowed-asked,
}
use haojie.Breaker.Registry as Breakers
use haojie.Breaker.Registry.{
  AllValid, got, breaker_of, get-put, put-AllValid, got-AllValid, breaker_of-put,
}
use haojie.Report.Engine.{
  RenderOutput, StorageResult, PutResult, located, put_failed, ok, World, Engine, failed_result,
  refused, noted, after_ensure, store_in, persist,
}

-- What a breaker hears of a call.
abbrev pub told : Bool → ℕ → Breaker → Breaker
told true now b = Breaker.record_success b
told false now b = Breaker.record_failure now b

abbrev pub is_located : PutResult → Bool
is_located (located _) = true
is_located put_failed = false

-- A `get`, and two writes to the object that it answers with.
breaker_of-put_got :
    (p q : String) (x : Breaker) (r : Breakers.Registry)
    → AllValid r
    → breaker_of q (Breakers.put p x (got p r)) ≡ (if str_eq p q then x else breaker_of q r)
breaker_of-put_got p q x r v = (get-put p q x r v.threshold_pos v.recovery_pos).2

breaker_of-put_put_got :
    (p q : String) (x y : Breaker) (r : Breakers.Registry)
    → AllValid r
    → breaker_of q (Breakers.put p x (Breakers.put p y (got p r)))
      ≡ (if str_eq p q then x else breaker_of q r)
breaker_of-put_put_got p q x y r v =
    ground (arith, breaker_of-put p q x (Breakers.put p y (got p r)), breaker_of-put_got p q y r v)

asked_refused : (now : ℕ) (b : Breaker) → answers now b ≡ false → asked now b ≡ b
unfolding asked answers
asked_refused now b h = ground (arith, h)

told-IsValid : (good : Bool) (now : ℕ) (b : Breaker) → IsValid b → IsValid (told good now b)
told-IsValid true now b v = record_success-IsValid b v
told-IsValid false now b v = record_failure-IsValid now b v

module _ {P C : Type 0} (w : World P C) where
  -- The breaker lets the call through.
  abbrev pub permitted : String → Engine w → Bool
  permitted name e = answers (w.now e.world) (breaker_of name e.breakers)

  abbrev pub reached : String → Engine w → Bool
  reached name e = permitted name e && w.available name e.world

  abbrev pub written : String → RenderOutput C → String → Engine w → w.State × PutResult
  written id output name e = w.put name id output [] e.world

  -- One backend: the engine `e'` and the result that come of the engine `e`.
  pub record Stored (id : String) (output : RenderOutput C) (name : String) (e e' : Engine w)
      (r : StorageResult) : Type 0 where
    pub of_backend : r.backend ≡ name
    pub world : e'.world ≡ (if reached name e then (written id output name e).0 else e.world)
    pub success : r.success ≡ (reached name e && is_located (written id output name e).1)
    pub own : breaker_of name e'.breakers ≡ (
        if permitted name e
        then told r.success (w.now e'.world) (asked (w.now e.world) (breaker_of name e.breakers))
        else breaker_of name e.breakers)
    pub others :
        (q : String) → str_eq name q ≡ false → breaker_of q e'.breakers ≡ breaker_of q e.breakers
    pub valid : AllValid e'.breakers
    pub backends : e'.storages ≡ e.storages
    pub config : e'.settings ≡ e.settings

  -- All backends, in their order.
  abbrev pub Fanned :
      String → RenderOutput C → List String → Engine w → Engine w → List StorageResult → Type 0
  Fanned id output [] e e' rs = (e' ≡ e) × (rs ≡ [])
  Fanned id output (name ∷ names) e e'' rs =
      (e' : Engine w) × (r : StorageResult) × (rest : List StorageResult) × (rs ≡ r ∷ rest)
      × Stored id output name e e' r
      × Fanned id output names e' e'' rest

  -- The same of an outcome.
  abbrev Stores : String → RenderOutput C → String → Engine w → Engine w × StorageResult → Type 0
  Stores id output name e p = Stored id output name e p.0 p.1

  abbrev fetched : String → Engine w → Engine w
  fetched name e = record e {
    breakers =
        Breakers.put name (asked (w.now e.world) (breaker_of name e.breakers))
          (got name e.breakers);
  }

  breaker_asked-IsValid :
      (name : String) (e : Engine w)
      → AllValid e.breakers
      → IsValid (asked (w.now e.world) (breaker_of name e.breakers))
  breaker_asked-IsValid name e v =
      asked-IsValid (w.now e.world) (breaker_of name e.breakers) (v.each name)

  fetched-AllValid :
      (name : String) (e : Engine w) → AllValid e.breakers → AllValid (fetched name e).breakers
  fetched-AllValid name e v =
      put-AllValid name (asked (w.now e.world) (breaker_of name e.breakers)) (got name e.breakers)
        (got-AllValid name e.breakers v) (breaker_asked-IsValid name e v)

  Stores-open :
      (id : String) (output : RenderOutput C) (name : String) (e : Engine w)
      → AllValid e.breakers
      → permitted name e ≡ false
      → Stores id output name e (fetched name e, failed_result w name)
  unfolding failed_result
  Stores-open id output name e v shut = record {
    of_backend = refl;
    world = rw shut refl;
    success = rw shut refl;
    own = rw (
      breaker_of-put_got name name (asked (w.now e.world) (breaker_of name e.breakers)) e.breakers
          v,
      str_eq_refl name,
      shut,
      asked_refused (w.now e.world) (breaker_of name e.breakers) shut,
    );
    others = λ q ne. rw (
      breaker_of-put_got name q (asked (w.now e.world) (breaker_of name e.breakers)) e.breakers v,
      ne,
    );
    valid = fetched-AllValid name e v;
    backends = refl;
    config = refl;
  }

  -- The call was let through, and ends well or not.
  Stores-told :
      (id : String) (output : RenderOutput C) (name : String) (e : Engine w) (good : Bool)
      (s : w.State) (location : Option String) (bytes : ℕ)
      → AllValid e.breakers
      → permitted name e ≡ true
      → s ≡ (if w.available name e.world then (written id output name e).0 else e.world)
      → good ≡ (w.available name e.world && is_located (written id output name e).1)
      → Stores id output name e (
        record (fetched name e) {
          world = s;
          breakers =
              Breakers.put name
                (told good (w.now s) (asked (w.now e.world) (breaker_of name e.breakers)))
                (fetched name e).breakers;
        },
        record { backend = name; success = good; location = location; bytes_written = bytes },
      )
  Stores-told id output name e good s location bytes v open_ at is_good =
      let b = asked (w.now e.world) (breaker_of name e.breakers) in
      let b' = told good (w.now s) b in
      record {
        of_backend = refl;
        world = rw open_ at;
        success = rw open_ is_good;
        own = rw (breaker_of-put_put_got name name b' b e.breakers v, str_eq_refl name, open_);
        others = λ q ne. rw (breaker_of-put_put_got name q b' b e.breakers v, ne);
        valid =
            put-AllValid name b' (fetched name e).breakers (fetched-AllValid name e v)
              (told-IsValid good (w.now s) b (breaker_asked-IsValid name e v));
        backends = refl;
        config = refl;
      }

  noted-Stores :
      (id : String) (output : RenderOutput C) (name : String) (e : Engine w)
      (p : w.State × PutResult)
      → AllValid e.breakers
      → permitted name e ≡ true
      → w.available name e.world ≡ true
      → written id output name e ≡ p
      → Stores id output name e (
          noted w name
            (asked (w.now e.world) (breaker_of name e.breakers))
            output
            (fetched name e)
            p)
  unfolding noted refused failed_result
  noted-Stores id output name e (s, located location) v open_ up q =
      Stores-told id output name e true s (some location) output.size_bytes v open_ (rw (up, q))
        (rw (up, q))
  noted-Stores id output name e (s, put_failed) v open_ up q =
      Stores-told id output name e false s none 0 v open_ (rw (up, q)) (rw (up, q))

  abbrev granted : String → Engine w → Breaker × Breaker.Result (Unit {0})
  granted name e = (
    asked (w.now e.world) (breaker_of name e.breakers),
    if permitted name e then Breaker.ok tt else Breaker.raise circuit_open_error,
  )

  abbrev gotten : String → Engine w → Engine w
  gotten name e = record e { breakers = got name e.breakers }

  store_in_lem :
      (id : String) (output : RenderOutput C) (name : String) (e : Engine w)
      → AllValid e.breakers
      → store_in w id name output e
        ≡ (let p = after_ensure w id name output (gotten name e) (granted name e) in (p.0, ok p.1))
  unfolding store_in
  store_in_lem id output name e v =
      let (found, _, _) =
        get-put name name (breaker_of name e.breakers) e.breakers v.threshold_pos v.recovery_pos in
      rw (
        found,
        store_in,
        ensure_allowed-asked (w.now e.world) (breaker_of name e.breakers) (v.each name),
      )

  after_ensure-Stores :
      (id : String) (output : RenderOutput C) (name : String) (e : Engine w)
      → AllValid e.breakers
      → Stores id output name e (after_ensure w id name output (gotten name e) (granted name e))
  unfolding after_ensure refused failed_result
  after_ensure-Stores id output name e v = elim (Bool-cases (permitted name e)) [
    | inr shut ↦ rw shut (Stores-open id output name e v shut)
    | inl open_ ↦ elim (Bool-cases (w.available name e.world)) [
      | inr down ↦
          rw (open_, down)
            (Stores-told id output name e false e.world none 0 v open_ (rw down) (rw down))
      | inl up ↦
          rw (open_, up) (noted-Stores id output name e (written id output name e) v open_ up refl)
    ]
  ]

  -- With a positive configuration and valid breakers, the storage in all backends raises nothing
  -- and has one result for each, in their order. A backend is written exactly if its breaker lets
  -- the call through and it is available; the result is a success exactly if that write is one.
  -- The breaker hears just that, it alone, and not at all if it had refused; no failure keeps the
  -- later backends from their turn.
  pub persist-Fanned :
      (id : String) (output : RenderOutput C) (names : List String) (e : Engine w)
      → AllValid e.breakers
      → (e' : Engine w) × (rs : List StorageResult) × (persist w id output names e ≡ (e', ok rs))
        × Fanned id output names e e' rs
  unfolding persist
  persist-Fanned id output [] e v = (e, [], refl, (refl, refl))
  persist-Fanned id output (name ∷ names) e v =
      let p = after_ensure w id name output (gotten name e) (granted name e) in
      let s = after_ensure-Stores id output name e v in
      let (e'', rest, all, fanned) = persist-Fanned id output names p.0 s.valid in
      (
        e'',
        p.1 ∷ rest,
        rw (store_in_lem id output name e v, all) refl,
        (p.0, p.1, rest, refl, s, fanned),
      )
