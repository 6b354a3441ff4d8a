-- ===== src/Input/Manager/Outcomes.antt =====
-- What the outcome of an input does to the state of the manager (managers/input_manager.py).
use haojie.Common.{
  ℕ, ◌≡◌, refl, Bool, true, false, not, Option, none, some, String, arith, if◌then◌else◌, if_both,
  sym,
}
use haojie.Input.Limiter
use haojie.Input.Limiter.{AsyncRateLimiter}
use haojie.Input.Breaker
use haojie.Input.Breaker.{CircuitBreaker}
use haojie.Input.Store.{Backend, CacheManager, cache_get}
use haojie.Input.Sessions.{Cached, a_session, a_payload}
use haojie.Input.Manager.{
  InputType, same_type, InputRequest, InputItem, Payload, ProcessingResult, Raised, failed, Failure,
  invalid, timed_out, processor_error, crashed, unsupported_format, rate_limit_exceeded,
  circuit_open, Result, ok, raise, key_of, namespace_of, Processed, processed, broke, World,
  Manager, after_failure, attempt, ensure_session, settle, answer, admitted, process, text, image,
  link, voice,
}

module _ {D : Type 0} (W : World D) (b : Backend (Cached (InputItem D) (Payload D))) where
  -- The breaker of the type: a success that is not from the cache closes it, a failure counts unless
  -- the input is refused, and nothing else touches it.
  abbrev pub breaker_after : ℕ → Result (ProcessingResult D) → CircuitBreaker → CircuitBreaker
  breaker_after done (ok result) c = if result.cached then c else Breaker.record_success c
  breaker_after done (raise (failed invalid)) c = c
  breaker_after done (raise (failed _)) c = Breaker.record_failure done c
  breaker_after done (raise _) c = c

  -- The processors, the storage and so on are not called before the guards are passed, nor when the
  -- cache answers.
  abbrev pub is_untouched : Result (ProcessingResult D) → Bool
  is_untouched (ok result) = result.cached
  is_untouched (raise (failed f)) = false
  is_untouched (raise _) = true

  -- The state `m'` and the result that `process` makes of the state `m`.
  pub record Accounts (r : InputRequest W.Data) (done : ℕ) (m : Manager W b) (m' : Manager W b)
      (result : Result (ProcessingResult D)) : Type 0 where
    pub others : (t : InputType) → same_type r.input_type t ≡ false → m'.breakers t ≡ m.breakers t
    pub own : m'.breakers r.input_type ≡ breaker_after done result (m.breakers r.input_type)
    pub idle : is_untouched result ≡ true → m'.world ≡ m.world

  same_type_refl : (t : InputType) → same_type t t ≡ true
  same_type_refl text = refl
  same_type_refl image = refl
  same_type_refl link = refl
  same_type_refl voice = refl

  breaker_after-failed :
      (f : Failure) (done : ℕ) (c : CircuitBreaker)
      → after_failure W b f done c ≡ breaker_after done (raise (failed f)) c
  unfolding after_failure
  breaker_after-failed invalid done c = refl
  breaker_after-failed timed_out done c = refl
  breaker_after-failed processor_error done c = refl
  breaker_after-failed crashed done c = refl

  settle-Accounts :
      (r : InputRequest W.Data) (id : String) (done : ℕ) (w : W.State × Option String × Processed D)
      (m : Manager W b)
      → let (m', result) = settle W b r id done w m in Accounts r done m m' result
  unfolding settle
  settle-Accounts r id done (w, key, broke f) m = record {
    others = λ t h. rw h refl;
    own = rw (same_type_refl r.input_type) (breaker_after-failed f done (m.breakers r.input_type));
    idle = λ h. absurd (ground (arith, h));
  }
  settle-Accounts r id done (w, key, processed p) m = record {
    others = λ t h. rw h refl;
    own = rw (same_type_refl r.input_type) refl;
    idle = λ h. absurd (ground (arith, h));
  }

  answer-Accounts :
      (r : InputRequest W.Data) (id : String) (done : ℕ)
      (reply : CacheManager b × Option (Cached (InputItem D) (Payload D))) (m : Manager W b)
      → let (m', result) = answer W b r id done reply m in Accounts r done m m' result
  unfolding answer
  answer-Accounts r id done (c, some (a_payload p)) m = record {
    others = λ t h. refl;
    own = refl;
    idle = λ h. refl;
  }
  answer-Accounts r id done (c, some (a_session s)) m = record {
    others = λ t h. refl;
    own = refl;
    idle = λ h. refl;
  }
  answer-Accounts r id done (c, none) m =
      let m' : Manager W b = record m { sessions = record m.sessions { cache = c } } in
      let a = settle-Accounts r id done (attempt W b r m.world) m' in
      record { others = a.others; own = a.own; idle = a.idle }

  admitted-Accounts :
      (fresh : String) (r : InputRequest W.Data) (start done : ℕ) (m : Manager W b)
      → let (m', result) = admitted W b fresh r start done m in Accounts r done m m' result
  unfolding admitted
  admitted-Accounts fresh r start done m =
      let (s, id) = ensure_session W b fresh r start m.sessions in
      let m' : Manager W b = record m { sessions = s } in
      let reply = cache_get b (key_of W b r) (namespace_of W b r) start s.cache in
      let a = answer-Accounts r id done reply m' in
      let a' = settle-Accounts r id done (attempt W b r m'.world) m' in
      if_both (λ x. Accounts r done m x.0 x.1) r.config.cache_result (answer W b r id done reply m')
        (settle W b r id done (attempt W b r m'.world) m')
        (record { others = a.others; own = a.own; idle = a.idle })
        (record { others = a'.others; own = a'.own; idle = a'.idle })

  Accounts-refl :
      (r : InputRequest W.Data) (done : ℕ) (m : Manager W b) (l : AsyncRateLimiter) (e : Raised)
      → ((c : CircuitBreaker) → breaker_after done (raise e) c ≡ c)
      → Accounts r done m (record m { limiter = l }) (raise e)
  Accounts-refl r done m l e h = record {
    others = λ t q. refl;
    own = sym (h (m.breakers r.input_type));
    idle = λ q. refl;
  }

  -- Whatever `process` does with a request, the breakers of the other types of input are as
  -- before. If it refuses the type, the rate or the breaker, or answers from the cache, then
  -- neither its own breaker nor the world of processors and storage is touched; if it gets to the
  -- processor, its breaker notes a success just when the request succeeds, nothing when the input
  -- is invalid, and a failure otherwise.
  pub process-Accounts :
      (fresh : String) (r : InputRequest W.Data) (start done : ℕ) (m : Manager W b)
      → let (m', result) = process W b fresh r start done m in Accounts r done m m' result
  unfolding process
  process-Accounts fresh r start done m =
      let (l, allowed) = Limiter.allow r.user_id start m.limiter in
      let m' : Manager W b = record m { limiter = l } in
      let a = admitted-Accounts fresh r start done m' in
      let P = λ (x : Manager W b × Result (ProcessingResult D)). Accounts r done m x.0 x.1 in
      if_both P (not (W.supported r.input_type)) _ _
        (Accounts-refl r done m m.limiter unsupported_format (λ c. refl))
        (if_both P (not allowed) _ _ (Accounts-refl r done m l rate_limit_exceeded (λ c. refl)) (
          if_both P (not (Breaker.allow start (m.breakers r.input_type))) _ _
            (Accounts-refl r done m l circuit_open (λ c. refl))
            (record { others = a.others; own = a.own; idle = a.idle })))
