-- ===== src/Input/Limiter/Window.antt =====
-- How many calls the limiter of managers/input_manager.py lets through in a window.
use haojie.Common.{
  ℕ, ◌+◌, ◌≤◌, ◌<◌, ◌≡◌, refl, Bool, true, false, ◌&&◌, String, List, [], ◌∷◌, ◌++◌, arith, leb,
  ltb, if◌then◌else◌, lookup, length, length-append, ap, ◌∙◌, str_eq, str_eq_iff, lookup-insert,
  Bool-cases, inl, inr, ltb→lt,
}
use haojie.Input.Limiter.{AsyncRateLimiter, init, evict, bucket_of, allow, run}

-- How many of the times lie in the window that ends at `T`.
unfoldable pub count_within : ℕ → ℕ → List ℕ → ℕ
count_within window T [] = 0
count_within window T (t ∷ ts) =
    let rest = count_within window T ts in if ltb T (t + window) && leb t T then rest + 1 else rest

-- The times of the calls of a key that were let through.
unfoldable pub granted : String → List (String × ℕ) → List Bool → List ℕ
granted key [] answers = []
granted key (c ∷ calls) [] = []
granted key ((k, now) ∷ calls) (answer ∷ answers) =
    let rest = granted key calls answers in if str_eq k key && answer then now ∷ rest else rest

-- The calls come in the order of the clock, from a time on.
abbrev pub InOrder : ℕ → List (String × ℕ) → Type 0
InOrder now [] = Unit
InOrder now (c ∷ calls) = (now ≤ c.1) × InOrder c.1 calls

count_within-append :
    (window T : ℕ) (xs ys : List ℕ)
    → count_within window T (xs ++ ys) ≡ count_within window T xs + count_within window T ys
unfolding count_within
count_within-append window T [] ys = omega arith
count_within-append window T (x ∷ xs) ys = ground (arith, count_within-append window T xs ys)

count_within-le-length : (window T : ℕ) (xs : List ℕ) → count_within window T xs ≤ length xs
unfolding count_within
count_within-le-length window T [] = omega arith
count_within-le-length window T (x ∷ xs) = ground (arith, count_within-le-length window T xs)

-- What is evicted has left every later window.
count_within-evict :
    (window now T : ℕ) (xs : List ℕ)
    → now ≤ T
    → count_within window T (evict window now xs) ≡ count_within window T xs
unfolding count_within evict
count_within-evict window now T [] h = refl
count_within-evict window now T (x ∷ xs) h = ground (arith, count_within-evict window now T xs h)

length-evict-le : (window now : ℕ) (xs : List ℕ) → length (evict window now xs) ≤ length xs
unfolding evict
length-evict-le window now [] = omega arith
length-evict-le window now (x ∷ xs) = ground (arith, length-evict-le window now xs)

-- Calls after a moment are not in the window that ends at it.
granted_late :
    (key : String) (window T now : ℕ) (calls : List (String × ℕ)) (answers : List Bool)
    → InOrder now calls
    → T < now
    → count_within window T (granted key calls answers) ≡ 0
unfolding granted count_within
granted_late key window T now [] answers h lt = refl
granted_late key window T now (c ∷ calls) [] h lt = refl
granted_late key window T now ((k, t) ∷ calls) (a ∷ answers) h lt =
    ground (arith, granted_late key window T t calls answers h.1)

-- What a call keeps of the key's bucket, with its own time if it is let through.
abbrev after_call : ℕ → Bool → List ℕ → List ℕ
after_call now answer kept = if answer then kept ++ now ∷ [] else kept

-- One call, whatever comes after it: `more` are the times that are let through later.
within_step :
    (window T now max : ℕ) (same answer : Bool) (bucket bucket' more : List ℕ)
    → let kept = evict window now bucket in
      now ≤ T
      → length bucket ≤ max
      → (same ≡ true → answer ≡ (if leb max (length kept) then false else true))
      → bucket' ≡ (if same then after_call now answer kept else bucket)
      → (length bucket' ≤ max → count_within window T bucket' + count_within window T more ≤ max)
      → count_within window T bucket
          + count_within window T (if same && answer then now ∷ more else more)
        ≤ max
unfolding count_within
within_step window T now max false answer bucket bucket' more le small a b next =
    ground (arith, next, ap length b, ap (count_within window T) b)
within_step window T now max true false bucket bucket' more le small a b next = ground (
  arith,
  next,
  ap length b,
  ap (count_within window T) b,
  length-evict-le window now bucket,
  count_within-evict window now T bucket le,
)
within_step window T now max true true bucket bucket' more le small a b next =
    let kept = evict window now bucket in
    ground (
      arith,
      a refl,
      next,
      ap length b,
      ap (count_within window T) b,
      length-append kept (now ∷ []),
      count_within-append window T kept (now ∷ []),
      count_within-evict window now T bucket le,
    )

module _ (key k : String) (now : ℕ) (l : AsyncRateLimiter) (pos : 0 < l.max) where
  allow-answer :
      (allow k now l).1
      ≡ (if leb l.max (length (evict l.window now (bucket_of k l))) then false else true)
  unfolding allow
  allow-answer = ground arith

  allow-max : ((allow k now l).0.max ≡ l.max) × ((allow k now l).0.window ≡ l.window)
  unfolding allow
  allow-max = ground arith

  bucket_of-allow : bucket_of key (allow k now l).0 ≡ (
      if str_eq k key
      then after_call now (allow k now l).1 (evict l.window now (bucket_of k l))
      else bucket_of key l)
  unfolding allow bucket_of
  bucket_of-allow =
      let kept = evict l.window now (bucket_of k l) in
      ground (
        arith,
        lookup-insert k key kept l.buckets,
        lookup-insert k key (kept ++ now ∷ []) l.buckets,
      )

  -- The same, of the bucket of the key in question.
  bucket_of-allow_key :
      (str_eq k key ≡ true
        → (allow k now l).1
          ≡ (if leb l.max (length (evict l.window now (bucket_of key l))) then false else true))
      × (bucket_of key (allow k now l).0 ≡ (
          if str_eq k key
          then after_call now (allow k now l).1 (evict l.window now (bucket_of key l))
          else bucket_of key l))
  bucket_of-allow_key = elim (Bool-cases (str_eq k key)) [
    | inl same ↦
        let e : k ≡ key = (str_eq_iff k key).0 same in
        (
          (λ _.
              allow-answer
              ∙ ap
                  (λ i.
                    if leb l.max (length (evict l.window now (bucket_of i l))) then false else true)
                  e),
          rw same (
              bucket_of-allow
              ∙ rw same (
                  ap (λ i. after_call now (allow k now l).1 (evict l.window now (bucket_of i l)))
                    e)),
        )
    | inr other ↦ ((λ h. absurd (ground (arith, h, other))), bucket_of-allow ∙ rw other refl)
  ]

run-cons :
    (k : String) (now : ℕ) (calls : List (String × ℕ)) (l : AsyncRateLimiter)
    → (run ((k, now) ∷ calls) l).1 ≡ (allow k now l).1 ∷ (run calls (allow k now l).0).1
unfolding run
run-cons k now calls l = refl

granted-cons :
    (key k : String) (now : ℕ) (calls : List (String × ℕ)) (answer : Bool) (answers : List Bool)
    → granted key ((k, now) ∷ calls) (answer ∷ answers) ≡ (
        if str_eq k key && answer
        then now ∷ granted key calls answers
        else granted key calls answers)
unfolding granted
granted-cons key k now calls answer answers = refl

-- The bucket of the key and the calls to come hold at most `max` times of a window.
window_lem :
    (key : String) (T window max from : ℕ) (calls : List (String × ℕ)) (l : AsyncRateLimiter)
    → 0 < max
    → l.max ≡ max
    → l.window ≡ window
    → InOrder from calls
    → length (bucket_of key l) ≤ max
    → count_within window T (bucket_of key l)
        + count_within window T (granted key calls (run calls l).1)
      ≤ max
unfolding granted count_within
window_lem key T window max from [] l pos m w order small =
    omega (arith, count_within-le-length window T (bucket_of key l))
window_lem key T window max from ((k, now) ∷ calls) l pos m w order small =
    let pos' : 0 < l.max = omega arith in
    let (answer, bucket) = bucket_of-allow_key key k now l pos' in
    let (m', w') = allow-max key k now l pos' in
    let more = granted key calls (run calls (allow k now l).0).1 in
    let old = bucket_of key l in
    elim (Bool-cases (ltb T now)) [
      | inl late ↦ omega (
        arith,
        count_within-le-length window T (bucket_of key l),
        granted_late key window T now ((k, now) ∷ calls) (run ((k, now) ∷ calls) l).1
            (omega arith, order.1) (ltb→lt T now late),
      )
      | inr early ↦
          rw (run-cons k now calls l, granted-cons key k now calls)
            (within_step window T now max (str_eq k key) (allow k now l).1 (bucket_of key l)
              (bucket_of key (allow k now l).0) more (ground (arith, early)) small
              (λ h.
                answer h
                ∙ ap (λ x. if leb x (length (evict l.window now old)) then false else true) m
                ∙ ap (λ x. if leb max (length (evict x now old)) then false else true) w)
              (bucket
                ∙ ap
                    (λ x.
                      if str_eq k key
                      then after_call now (allow k now l).1 (evict x now old)
                      else old)
                    w)
              (λ small'.
                window_lem key T window max now calls (allow k now l).0 pos (m' ∙ m) (w' ∙ w)
                  order.1 small'))
    ]

-- Calls in the order of the clock from a new limiter with a positive bound: in any window that
-- ends at any time, a key is let through at most the bound, whatever is asked for other keys.
pub granted-window :
    (key : String) (T max window : ℕ) (calls : List (String × ℕ))
    → 0 < max
    → InOrder 0 calls
    → count_within window T (granted key calls (run calls (init max window)).1) ≤ max
unfolding init bucket_of lookup
granted-window key T max window calls pos order =
    omega (
      arith,
      window_lem key T window max 0 calls (init max window) pos refl refl order (omega arith),
    )
