-- ===== src/Forwarder/Attempts.antt =====
-- How often the forwarder sends a request (`UpstreamForwarder.forward` of gateway/routing/forwarder.py),
-- and what the breaker hears of it.
use haojie.Common.{
  ℕ, zero, suc, ◌+◌, ◌<◌, ◌≤◌, ◌≡◌, refl, ◌∙◌, ap, Bool, true, false, Option, some, String, List,
  [], ◌∷◌, ◌++◌, ◌⊎◌, inl, inr, Dict, length, length-append, Bool-cases, if◌then◌else◌, arith,
}
use haojie.GatewayBreaker
use haojie.GatewayBreaker.{Breaker}
use haojie.Access.{GatewayPrincipal}
use haojie.Forwarder.{
  Reply, Forwarder, build_forward_headers, is_good, final, note, attempts_from, forward,
}

-- So many copies.
abbrev pub copies {ℓ} : {A : Type ℓ} → ℕ → A → List A
copies zero a = []
copies (suc k) a = a ∷ copies k a

append_one {ℓ} :
    {A : Type ℓ} (xs : List A) (a : A) (ys : List A) → (xs ++ a ∷ []) ++ ys ≡ xs ++ a ∷ ys
append_one [] a ys = refl
append_one (x ∷ xs) a ys = rw (append_one xs a ys)

if_no {ℓ} : {A : Type ℓ} {b : Bool} (x y : A) → b ≡ false → (if b then x else y) ≡ y
if_no x y h = rw h

module _ (reply : ℕ → Reply) (clock : ℕ → ℕ) where
  -- The breaker once it has heard of so many replies, from the `n`-th on.
  abbrev pub heard : ℕ → ℕ → Breaker → Breaker
  heard n zero b = b
  heard n (suc k) b = heard (suc n) k (note (reply n) (clock n) b)

  -- The request that ends the loop, `k` after the `n`-th: those before it fail, and it is good or
  -- the last allowed.
  abbrev pub Ends : ℕ → ℕ → ℕ → Type 0
  Ends n left k =
      (k ≤ left)
      × ((j : ℕ) → j < k → is_good (reply (n + j)) ≡ false)
      × ((is_good (reply (n + k)) ≡ true) ⊎ (k ≡ left))

  abbrev pub after_requests : ℕ → ℕ → Dict String → Forwarder → Forwarder
  after_requests n k h f = record f {
    breaker = heard n (suc k) f.breaker;
    sent = f.sent ++ copies (suc k) h;
  }

  -- What the loop does, told from the number of requests that it makes.
  abbrev Looped : ℕ → ℕ → Dict String → Forwarder → Type 0
  Looped n left h f =
      (k : ℕ) × Ends n left k
      × (attempts_from reply clock left h f ≡ (after_requests n k h f, final (reply (n + k))))

  shift : (n j : ℕ) → reply (suc n + j) ≡ reply (n + suc j)
  shift n j = ap reply (omega arith)

  zero_lem : (n : ℕ) → reply (n + 0) ≡ reply n
  zero_lem n = ap reply (omega arith)

  Ends-zero : (n left : ℕ) → (is_good (reply n) ≡ true) ⊎ (0 ≡ left) → Ends n left 0
  Ends-zero n left (inl good) = (omega arith, λ j less. ground arith, inl (rw (zero_lem n, good)))
  Ends-zero n left (inr last) = (omega arith, λ j less. ground arith, inr last)

  bad_before :
      (n k : ℕ)
      → is_good (reply n) ≡ false
      → ((j : ℕ) → j < k → is_good (reply (suc n + j)) ≡ false)
      → (j : ℕ) → j < suc k
      → is_good (reply (n + j)) ≡ false
  bad_before n k bad rest zero less = rw (zero_lem n, bad)
  bad_before n k bad rest (suc j) less = rw (← shift n j, rest j (omega arith))

  Ends-suc :
      (n left k : ℕ) → is_good (reply n) ≡ false → Ends (suc n) left k → Ends n (suc left) (suc k)
  Ends-suc n left k bad (le, before, inl good) =
      (omega arith, bad_before n k bad before, inl (rw (← shift n k, good)))
  Ends-suc n left k bad (le, before, inr last) =
      (omega arith, bad_before n k bad before, inr (omega arith))

  abbrev noted : ℕ → Dict String → Forwarder → Forwarder
  noted n h f = record f { breaker = note (reply n) (clock n) f.breaker; sent = f.sent ++ h ∷ [] }

  attempts_from-suc :
      (n left : ℕ) (h : Dict String) (f : Forwarder)
      → length f.sent ≡ n
      → attempts_from reply clock (suc left) h f ≡ (
          if is_good (reply n)
          then (noted n h f, final (reply n))
          else attempts_from reply clock left h (noted n h f))
  unfolding attempts_from
  attempts_from-suc n left h f e = rw e

  Looped-suc :
      (n left : ℕ) (h : Dict String) (f : Forwarder)
      → length f.sent ≡ n
      → is_good (reply n) ≡ false
      → Looped (suc n) left h (noted n h f)
      → Looped n (suc left) h f
  Looped-suc n left h f e bad (k, ends, eq) = (
    suc k,
    Ends-suc n left k bad ends,
    attempts_from-suc n left h f e
        ∙ if_no _ _ bad
        ∙ eq
        ∙ rw (shift n k, append_one f.sent h (copies (suc k) h)),
  )

  Looped-all :
      (n left : ℕ) (h : Dict String) (f : Forwarder) → length f.sent ≡ n → Looped n left h f
  unfolding attempts_from
  Looped-all n zero h f e = (0, Ends-zero n 0 (inr refl), rw (e, zero_lem n))
  Looped-all n (suc left) h f e = elim (Bool-cases (is_good (reply n))) [
    | inl good ↦ (0, Ends-zero n (suc left) (inl good), rw (e, good, zero_lem n))
    | inr bad ↦
        Looped-suc n left h f e bad (
          Looped-all (suc n) left h (noted n h f) (omega (arith, length-append f.sent (h ∷ []), e)))
  ]

  forward_passed :
      (headers : Dict String) (principal : Option GatewayPrincipal) (start : ℕ) (f : Forwarder)
      (b : Breaker)
      → GatewayBreaker.allow start f.breaker ≡ some (b, true)
      → forward reply clock headers principal start f
        ≡ attempts_from reply clock f.max_retries
            (build_forward_headers headers principal)
            (record f { breaker = b })
  unfolding forward
  forward_passed headers principal start f b allowed = rw allowed

  -- Once the breaker lets a call through, the loop ends after at most `max_retries` requests and
  -- one more: with the first good reply, or at the last allowed request. Every request has the
  -- same headers, the breaker hears of every reply in its order, and the reply of the last is the
  -- result.
  pub forward-allowed :
      (headers : Dict String) (principal : Option GatewayPrincipal) (start : ℕ) (f : Forwarder)
      (b : Breaker)
      → GatewayBreaker.allow start f.breaker ≡ some (b, true)
      → (k : ℕ) × Ends (length f.sent) f.max_retries k
        × (forward reply clock headers principal start f ≡ (
          after_requests
              (length f.sent)
              k
              (build_forward_headers headers principal)
              (record f { breaker = b }),
          final (reply (length f.sent + k)),
        ))
  forward-allowed headers principal start f b allowed =
      let (k, ends, eq) =
        Looped-all (length f.sent) f.max_retries (build_forward_headers headers principal)
          (record f { breaker = b }) refl in
      (k, ends, forward_passed headers principal start f b allowed ∙ eq)
