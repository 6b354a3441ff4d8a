-- ===== src/Input/Limiter.antt =====
-- The limiter of the input manager (managers/input_manager.py, AsyncRateLimiter): per key, the times
-- of the calls that it let through.
--
-- A call of `time.monotonic()` is an argument `now`, in the unit of the window. The lock makes
-- `allow` one step.
pub mod Window
use haojie.Common.{
  ℕ, ◌+◌, Bool, true, false, String, List, [], ◌∷◌, ◌++◌, leb, ltb, ◌==◌, if◌then◌else◌, Dict,
  lookup, insert, get_or, length,
}

pub record AsyncRateLimiter : Type 0 where
  pub max : ℕ
  pub window : ℕ
  pub buckets : Dict (List ℕ)

unfoldable pub init : ℕ → ℕ → AsyncRateLimiter
init max_requests window_seconds = record {
  max = max_requests;
  window = window_seconds;
  buckets = [];
}

-- The times of the window that ends now: `t > now - window`.
unfoldable pub evict : ℕ → ℕ → List ℕ → List ℕ
evict window now [] = []
evict window now (t ∷ ts) =
    let rest = evict window now ts in if ltb now (t + window) then t ∷ rest else rest

-- `self._buckets.setdefault(key, [])`
unfoldable pub bucket_of : String → AsyncRateLimiter → List ℕ
bucket_of key l = get_or (lookup key l.buckets) []

unfoldable pub allow : String → ℕ → AsyncRateLimiter → AsyncRateLimiter × Bool
unfolding evict bucket_of
allow key now l =
    if l.max == 0
    then (l, true)
    else let kept = evict l.window now (bucket_of key l) in
      if leb l.max (length kept)
      then (record l { buckets = insert key kept l.buckets }, false)
      else (record l { buckets = insert key (kept ++ now ∷ []) l.buckets }, true)

-- Calls in a row, with the answers.
unfoldable pub run : List (String × ℕ) → AsyncRateLimiter → AsyncRateLimiter × List Bool
unfolding allow
run [] l = (l, [])
run ((key, now) ∷ calls) l =
    let (l', answer) = allow key now l in
    let (l'', answers) = run calls l' in (l'', answer ∷ answers)
