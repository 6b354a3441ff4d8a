-- ===== src/Hub/Client.antt =====
-- The client of one stage (hub/clients/base.py, BaseStageClient), with its retries and its circuit
-- breaker, which is the one of llm/circuit_breaker.py under another name.
--
-- The other side is a parameter: the reply to the `n`-th post, the clock once it is in, and what the
-- `n`-th call in this process does. Pauses are in the unit of `retry_backoff`. Metrics, log lines
-- and error texts are left out.
pub mod Retries
use haojie.Common.{
  ℕ, zero, suc, ◌+◌, ◌-◌, ◌*◌, ◌^◌, Bool, true, false, ◌&&◌, Option, none, some, leb, ltb,
  if◌then◌else◌,
}
use haojie.Breaker
use haojie.Breaker.{Breaker}

pub data ClientMode : Type 0 where
  embedded http : ClientMode

-- The exceptions that pass through a client: the three that the hub defines, the failed with its
-- status code if it has one, and any other.
pub data Exn : Type 0 where
  upstream_timeout upstream_unavailable unexpected : Exn
  upstream_failed : Option ℕ → Exn

pub data ErrorCode : Type 0 where
  timeout_code unavailable_code failed_code internal_code : ErrorCode

error_code_of : Exn → ErrorCode
error_code_of upstream_timeout = timeout_code
error_code_of upstream_unavailable = unavailable_code
error_code_of (upstream_failed status) = failed_code
error_code_of unexpected = internal_code

-- How a call of the HTTP client ends: a response with its status and its body, if that is JSON, or
-- an exception.
pub data Posted (J : Type 0) : Type 0 where
  responded : ℕ → Option J → Posted J
  timeout_exception http_error other_exception : Posted J

-- What a call returns or raises.
pub data Sent (J : Type 0) : Type 0 where
  returned : J → Sent J
  raised : Exn → Sent J

-- What a stage call comes to, without its latency and error text.
pub record StageCallResult (J : Type 0) : Type 0 where
  pub success : Bool
  pub mode : ClientMode
  pub result : Option J
  pub error_code : Option ErrorCode

-- What the loop does about an exception: try again, record it and raise it, or just raise it.
pub data Verdict : Type 0 where
  again stop escape : Verdict

unfoldable pub verdict : Exn → Verdict
verdict upstream_timeout = again
verdict (upstream_failed none) = again
verdict (upstream_failed (some status)) = if leb 400 status && ltb status 500 then stop else again
verdict upstream_unavailable = escape
verdict unexpected = escape

module _ {J : Type 0} where
  -- `_send_http`, from what the HTTP client does.
  unfoldable pub send_http : Posted J → Sent J
  send_http timeout_exception = raised upstream_timeout
  send_http http_error = raised (upstream_failed none)
  send_http other_exception = raised unexpected
  send_http (responded status body) =
      if leb 500 status
      then raised (upstream_failed (some status))
      else if leb 400 status
      then raised (upstream_failed (some status))
      else elim body [ some j ↦ returned j | none ↦ raised (upstream_failed none) ]

module _ {J : Type 0} where
  -- The result that `call` makes of what is returned or raised.
  unfoldable pub outcome : ClientMode → Sent J → StageCallResult J
  unfolding error_code_of
  outcome mode (returned j) = record {
    success = true;
    mode = mode;
    result = some j;
    error_code = none;
  }
  outcome mode (raised e) = record {
    success = false;
    mode = mode;
    result = none;
    error_code = some (error_code_of e);
  }

-- A client: what is set once, its breaker, and how much it has posted and slept.
pub record Client : Type 0 where
  pub mode : ClientMode
  pub max_retries : ℕ
  pub retry_backoff : ℕ
  pub breaker : Breaker
  pub posts : ℕ
  pub slept : ℕ

-- The constructor, which raises what the constructor of the breaker does.
unfoldable pub init : ClientMode → ℕ → ℕ → ℕ → ℕ → Breaker.Result Client
init mode max_retries retry_backoff failure_threshold recovery_seconds =
    elim (Breaker.init failure_threshold recovery_seconds) [
      | Breaker.raise e ↦ Breaker.raise e
      | Breaker.ok b ↦ Breaker.ok (record {
        mode = mode;
        max_retries = max_retries;
        retry_backoff = retry_backoff;
        breaker = b;
        posts = 0;
        slept = 0;
      })
    ]

-- Before every attempt but the first.
unfoldable pub pause : ℕ → ℕ → ℕ
pause backoff zero = 0
pause backoff (suc attempt) = backoff * 2 ^ attempt

sleep : ℕ → Client → Client
unfolding pause
sleep attempt c = record c { slept = c.slept + pause c.retry_backoff attempt }

succeeded : Client → Client
succeeded c = record c { breaker = Breaker.record_success c.breaker }

failed : ℕ → Client → Client
failed now c = record c { breaker = Breaker.record_failure now c.breaker }

module _ {J : Type 0} (reply : ℕ → Posted J) (clock : ℕ → ℕ) (in_process : ℕ → Sent J) where
  -- The loop from `attempt` on, with as many attempts left, and the last exception.
  unfoldable pub attempts_from : ℕ → ℕ → Option Exn → Client → Client × Sent J
  unfolding sleep succeeded failed
  attempts_from zero attempt none c = (c, raised unexpected)
  attempts_from zero attempt (some e) c = (c, raised e)
  attempts_from (suc n) attempt last c =
      let slept = sleep attempt c in
      let c' : Client = record slept { posts = slept.posts + 1 } in
      let now = clock slept.posts in
      elim (send_http (reply slept.posts)) [
        | returned j ↦ (succeeded c', returned j)
        | raised e ↦ elim (verdict e) [
          | again ↦ attempts_from n (attempt + 1) (some e) (failed now c')
          | stop ↦ (failed now c', raised e)
          | escape ↦ (c', raised e)
        ]
      ]

  allowed : Client → Breaker.Result (Breaker × Bool) → Client × Sent J
  unfolding attempts_from
  allowed c (Breaker.ok (b, true)) =
      attempts_from (c.max_retries + 1) 0 none (record c { breaker = b })
  allowed c (Breaker.ok (b, false)) = (record c { breaker = b }, raised upstream_unavailable)
  allowed c (Breaker.raise e) = (c, raised unexpected)

  -- `_call_http_with_retries` at the time `start`.
  unfoldable pub call_http_with_retries : ℕ → Client → Client × Sent J
  unfolding allowed
  call_http_with_retries start c = allowed c (Breaker.allow start c.breaker)

  dispatch : ClientMode → ℕ → Client → Client × Sent J
  unfolding call_http_with_retries
  dispatch embedded start c = (record c { posts = c.posts + 1 }, in_process c.posts)
  dispatch http start c = call_http_with_retries start c

  -- `call`: every exception becomes a failed result.
  unfoldable pub call : ℕ → Client → Client × StageCallResult J
  unfolding dispatch outcome
  call start c = let (c', sent) = dispatch c.mode start c in (c', outcome c.mode sent)
