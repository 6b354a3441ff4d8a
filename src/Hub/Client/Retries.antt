-- ===== src/Hub/Client/Retries.antt =====
-- How often a stage client posts, what it answers and how long it sleeps (hub/clients/base.py).
use native.Mathlib.Nat.{pow-suc}
use haojie.Common.{
  is_some, not, leb, Bool, if◌then◌else◌, ℕ, zero, suc, ◌+◌, ◌*◌, ◌^◌, ◌<◌, ◌≡◌, refl, sym, ap,
  true, false, Option, none, some, arith, inl, inr, ◌⊎◌, Bool-cases,
}
use haojie.Breaker
use haojie.Breaker.{Breaker}
use haojie.Breaker.Invariant.{
  IsValid, asked, answers, allow-asked, asked-IsValid, record_success-IsValid,
  record_failure-IsValid,
}
use haojie.Hub.Client.{
  responded, timeout_exception, http_error, other_exception, http, Exn, upstream_unavailable,
  Posted, Sent, returned, raised, StageCallResult, Verdict, again, stop, escape, verdict, send_http,
  Client, pause, attempts_from, call_http_with_retries, call, outcome,
}

module _ {J : Type 0} where
  -- The replies that are worth another try: a timeout, an HTTP error, a status of the server's, and
  -- a success whose body is no JSON.
  abbrev pub is_retryable : Posted J → Bool
  is_retryable timeout_exception = true
  is_retryable http_error = true
  is_retryable other_exception = false
  is_retryable (responded status body) =
      if leb 500 status then true else if leb 400 status then false else not (is_some body)

  is_again : Sent J → Bool
  is_again (returned j) = false
  is_again (raised e) = elim (verdict e) [ again ↦ true | _ ↦ false ]

  is_again-send_http : (p : Posted J) → is_again (send_http p) ≡ is_retryable p
  unfolding is_again send_http verdict
  is_again-send_http timeout_exception = refl
  is_again-send_http http_error = refl
  is_again-send_http other_exception = refl
  is_again-send_http (responded status none) = ground arith
  is_again-send_http (responded status (some j)) = ground arith

  answered_final : (p : Posted J) (j : J) → send_http p ≡ returned j → is_retryable p ≡ false
  unfolding is_again
  answered_final p j e = ground (arith, is_again-send_http p, e)

  raised_retryable :
      (p : Posted J) (x : Exn)
      → send_http p ≡ raised x
      → is_retryable p ≡ elim (verdict x) [ again ↦ true | _ ↦ false ]
  unfolding is_again
  raised_retryable p x e = ground (arith, is_again-send_http p, e)

-- The pauses before the attempts from `attempt` on, so many of them.
unfoldable pub pauses : ℕ → ℕ → ℕ → ℕ
pauses backoff attempt zero = 0
pauses backoff attempt (suc n) = pause backoff attempt + pauses backoff (attempt + 1) n

double : (b a : ℕ) → b * 2 ^ suc a ≡ b * 2 ^ a + b * 2 ^ a
double b a = rw pow-suc (omega arith)

pauses-suc : (b a n : ℕ) → pauses b (suc a) n + b * 2 ^ a ≡ b * 2 ^ (a + n)
unfolding pauses pause
pauses-suc b a zero = let e : a + 0 ≡ a = omega arith in rw e (omega arith)
pauses-suc b a (suc n) =
    let e : a + suc n ≡ suc a + n = omega arith in
    let e' : suc a + 1 ≡ suc (suc a) = omega arith in
    rw (e, pauses, e') (omega (arith, pauses-suc b (suc a) n, double b a))

module _ {J : Type 0} (reply : ℕ → Posted J) (clock : ℕ → ℕ) (in_process : ℕ → Sent J) where
  -- The replies from the `k`-th on, so many of them, are worth another try.
  abbrev pub AllRetried : ℕ → ℕ → Type 0
  AllRetried k zero = Unit
  AllRetried k (suc n) = (is_retryable (reply k) ≡ true) × AllRetried (suc k) n

  -- The loop with a budget of posts: it goes on while a reply is worth another try and the budget
  -- lasts, and ends as the last post does.
  pub record Retried (budget attempt : ℕ) (c : Client) (p : Client × Sent J) : Type 0 where
    pub failures : ℕ
    pub within : failures < budget
    pub posted : p.0.posts ≡ c.posts + suc failures
    pub earlier : AllRetried c.posts failures
    pub last : p.1 ≡ send_http (reply (c.posts + failures))
    pub spent : (suc failures ≡ budget) ⊎ (is_retryable (reply (c.posts + failures)) ≡ false)
    pub slept : p.0.slept ≡ c.slept + pauses c.retry_backoff attempt (suc failures)
    pub valid : IsValid p.0.breaker

  -- A reply that ends the loop.
  Retried-last :
      (n attempt : ℕ) (c c' : Client) (x : Sent J)
      → send_http (reply c.posts) ≡ x
      → (1 ≡ suc n) ⊎ (is_retryable (reply c.posts) ≡ false)
      → c'.posts ≡ c.posts + 1
      → c'.slept ≡ c.slept + pause c.retry_backoff attempt
      → IsValid c'.breaker
      → Retried (suc n) attempt c (c', x)
  unfolding pauses
  Retried-last n attempt c c' x e ends posted slept v =
      let same : c.posts + 0 ≡ c.posts = omega arith in
      record {
        failures = 0;
        within = omega arith;
        posted = omega arith;
        earlier = tt;
        last = rw same (sym e);
        spent = rw same ends;
        slept = omega arith;
        valid = v;
      }

  suc-spent : {n m : ℕ} {P : Type 0} → (suc m ≡ n) ⊎ P → (suc (suc m) ≡ suc n) ⊎ P
  suc-spent (inl e) = inl (ap (λ k. suc k) e)
  suc-spent (inr p) = inr p

  -- A reply that is worth another try, and the rest of the loop.
  Retried-again :
      (n attempt : ℕ) (c c' : Client) (p : Client × Sent J)
      → is_retryable (reply c.posts) ≡ true
      → c'.posts ≡ c.posts + 1
      → c'.retry_backoff ≡ c.retry_backoff
      → c'.slept ≡ c.slept + pause c.retry_backoff attempt
      → Retried n (attempt + 1) c' p
      → Retried (suc n) attempt c p
  unfolding pauses
  Retried-again n attempt c c' p more posted same slept rest =
      let one : c'.posts ≡ suc c.posts = omega arith in
      let shifted : c.posts + suc rest.failures ≡ c'.posts + rest.failures = omega arith in
      let first : AllRetried (suc c.posts) rest.failures = rw one at rest.earlier in
      record {
        failures = suc rest.failures;
        within = omega (arith, rest.within);
        posted = omega (arith, rest.posted);
        earlier = (more, first);
        last = rw shifted rest.last;
        spent = rw shifted (suc-spent rest.spent);
        slept =
            omega (arith, rest.slept, ap (λ b. pauses b (attempt + 1) (suc rest.failures)) same);
        valid = rest.valid;
      }

  -- A client after a post.
  posted : ℕ → Client → Breaker → Client
  posted attempt c b = record c {
    breaker = b;
    posts = c.posts + 1;
    slept = c.slept + pause c.retry_backoff attempt;
  }

  abbrev failing : Client → Breaker
  failing c = Breaker.record_failure (clock c.posts) c.breaker

  failing-IsValid : (c : Client) → IsValid c.breaker → IsValid (failing c)
  failing-IsValid c v = record_failure-IsValid (clock c.posts) c.breaker v

  -- One turn of the loop, given the turns after an exception that is worth another try.
  module _ (n attempt : ℕ) (e : Option Exn) (c : Client) (v : IsValid c.breaker) where
    abbrev Rest : Type 0
    Rest =
        (x : Exn)
        → send_http (reply c.posts) ≡ raised x
        → verdict x ≡ again
        → Retried (suc n) attempt c (
            attempts_from reply clock in_process n (attempt + 1) (some x)
              (posted attempt c (failing c)))

    turn_raised :
        (x : Exn) (vd : Verdict)
        → send_http (reply c.posts) ≡ raised x
        → verdict x ≡ vd
        → Rest
        → Retried (suc n) attempt c (attempts_from reply clock in_process (suc n) attempt e c)
    unfolding attempts_from posted
    turn_raised x again eq vd rest = rw (attempts_from, eq, vd) (rest x eq vd)
    turn_raised x stop eq vd rest =
        rw (attempts_from, eq, vd)
          (Retried-last n attempt c (posted attempt c (failing c)) (raised x) eq
            (inr (ground (arith, vd, raised_retryable (reply c.posts) x eq))) refl refl
            (failing-IsValid c v))
    turn_raised x escape eq vd rest =
        rw (attempts_from, eq, vd)
          (Retried-last n attempt c (posted attempt c c.breaker) (raised x) eq
            (inr (ground (arith, vd, raised_retryable (reply c.posts) x eq))) refl refl v)

    turn :
        (x : Sent J)
        → send_http (reply c.posts) ≡ x
        → Rest
        → Retried (suc n) attempt c (attempts_from reply clock in_process (suc n) attempt e c)
    unfolding attempts_from posted
    turn (returned j) eq rest =
        rw (attempts_from, eq)
          (Retried-last n attempt c (posted attempt c (Breaker.record_success c.breaker))
            (returned j) eq (inr (answered_final (reply c.posts) j eq)) refl refl
            (record_success-IsValid c.breaker v))
    turn (raised x) eq rest = turn_raised x (verdict x) eq refl rest

  attempts_from-Retried :
      (n attempt : ℕ) (e : Option Exn) (c : Client)
      → IsValid c.breaker
      → Retried (suc n) attempt c (attempts_from reply clock in_process (suc n) attempt e c)
  unfolding attempts_from posted
  attempts_from-Retried zero attempt e c v =
      turn zero attempt e c v (send_http (reply c.posts)) refl (λ x eq vd.
        Retried-last zero attempt c (posted attempt c (failing c)) (raised x) eq (inl refl) refl
          refl (failing-IsValid c v))
  attempts_from-Retried (suc n) attempt e c v =
      turn (suc n) attempt e c v (send_http (reply c.posts)) refl (λ x eq vd.
        let c' = posted attempt c (failing c) in
        Retried-again (suc n) attempt c c' _
          (ground (arith, vd, raised_retryable (reply c.posts) x eq)) refl refl refl
          (attempts_from-Retried n (attempt + 1) (some x) c' (failing-IsValid c v)))

  pauses_from_0 : (b n : ℕ) → pauses b 0 (suc n) + b ≡ b * 2 ^ n
  unfolding pauses pause
  pauses_from_0 b zero = omega arith
  pauses_from_0 b (suc n) =
      let e : 0 + suc n ≡ suc n = omega arith in
      let e' : 0 + 1 ≡ 1 = omega arith in
      rw (← e, pauses, e') (omega (arith, pauses-suc b 0 (suc n)))

  -- A call in HTTP mode: refused by the breaker, without a post; or at most `max_retries` posts and
  -- one, and the pauses between them doubling.
  pub data Called (start : ℕ) (c : Client) : Client × StageCallResult J → Type 0 where
    refused :
        answers start c.breaker ≡ false
        → Called start c (c, outcome http (raised upstream_unavailable))
    sent :
        (c' : Client) (out : Sent J)
        → answers start c.breaker ≡ true
        → (run : Retried
            (suc c.max_retries)
            0
            (record c { breaker = asked start c.breaker })
            (c', out))
        → c'.slept + c.retry_backoff ≡ c.slept + c.retry_backoff * 2 ^ run.failures
        → Called start c (c', outcome http out)

  call_of_http :
      (start : ℕ) (c : Client)
      → c.mode ≡ http
      → let p = call_http_with_retries reply clock in_process start c in
        call reply clock in_process start c ≡ (p.0, outcome http p.1)
  unfolding call
  call_of_http start c m = ground arith

  http_refused :
      (start : ℕ) (c : Client)
      → IsValid c.breaker
      → answers start c.breaker ≡ false
      → call_http_with_retries reply clock in_process start c ≡ (c, raised upstream_unavailable)
  unfolding call_http_with_retries asked
  http_refused start c v refuses = ground (arith, allow-asked start c.breaker v)

  http_sent :
      (start : ℕ) (c : Client)
      → IsValid c.breaker
      → answers start c.breaker ≡ true
      → call_http_with_retries reply clock in_process start c
        ≡ attempts_from reply clock in_process
            (suc c.max_retries)
            0
            none
            (record c { breaker = asked start c.breaker })
  unfolding call_http_with_retries
  http_sent start c v goes =
      let e : c.max_retries + 1 ≡ suc c.max_retries = omega arith in
      rw (allow-asked start c.breaker v, goes, e) refl

  -- A call of a client in HTTP mode with a valid breaker is refused by the breaker without a post
  -- and leaves the client as it was; or it posts at most `max_retries` times and once more, goes
  -- on just while a reply is a timeout or an error that is no 4xx, ends as the last post does,
  -- sleeps between the posts for pauses that double, and leaves the breaker valid.
  pub call-Called :
      (start : ℕ) (c : Client)
      → IsValid c.breaker
      → c.mode ≡ http
      → Called start c (call reply clock in_process start c)
  call-Called start c v m = elim (Bool-cases (answers start c.breaker)) [
    | inr refuses ↦ rw (call_of_http start c m, http_refused start c v refuses) (refused refuses)
    | inl goes ↦
        let c' : Client = record c { breaker = asked start c.breaker } in
        let ran = attempts_from-Retried c.max_retries 0 none c' (asked-IsValid start c.breaker v) in
        rw (call_of_http start c m, http_sent start c v goes)
          (sent _ _ goes ran (omega (arith, ran.slept, pauses_from_0 c.retry_backoff ran.failures)))
  ]
