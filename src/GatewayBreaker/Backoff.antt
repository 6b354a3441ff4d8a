-- ===== src/GatewayBreaker/Backoff.antt =====
-- The exponential backoff of the gateway's breaker (gateway/circuit_breaker/breaker.py).
use native.Mathlib.Nat.{pow-suc}
use native.Mathlib.Numerals.{towards_suc}
use haojie.Common.{
  ℕ, ◌+◌, ◌*◌, ◌^◌, ◌≤◌, ◌≡◌, refl, Bool, some, List, [], ◌∷◌, arith, if◌then◌else◌, min,
}
use haojie.GatewayBreaker.{
  closed, opened, half_open, same_state, Breaker, init, record_success, record_failure, reset,
  Event, ask, succeed, fail, clear, run,
}
use haojie.GatewayBreaker.Safety.{
  SameConfig, init-IsValid, asked, after, after-SameConfig, final, replies, run-final,
}

-- How often the breaker has tripped since it was last closed from half open or reset: one more
-- whenever it becomes open.
unfoldable pub trips_after : Event → Breaker → ℕ → ℕ
trips_after clear b k = 0
trips_after e b k = elim (after e b).state [
  | opened ↦ if same_state b.state opened then k else k + 1
  | closed ↦ if same_state b.state half_open then 0 else k
  | half_open ↦ k
]

unfoldable pub trips : List Event → Breaker → ℕ → ℕ
trips [] b k = k
trips (e ∷ es) b k = trips es (after e b) (trips_after e b k)

abbrev pub HasBackoff : Breaker → ℕ → Type 0
HasBackoff b k = b.recovery ≡ min b.max_recovery (b.base_recovery * 2 ^ k)

double : (b k : ℕ) → b * 2 ^ (k + 1) ≡ b * 2 ^ k * 2
double b k = simp towards_suc (rw pow-suc (omega arith))

once : (b : ℕ) → b * 2 ^ 0 ≡ b
once b = omega arith

after-HasBackoff :
    (e : Event) (b : Breaker) (k : ℕ)
    → b.base_recovery ≤ b.max_recovery
    → HasBackoff b k
    → HasBackoff (after e b) (trips_after e b k)
unfolding after asked record_success record_failure reset trips_after
after-HasBackoff (ask now) b k le h = ground arith
after-HasBackoff succeed b k le h = ground (arith, once b.base_recovery)
after-HasBackoff (fail now) b k le h = ground (arith, double b.base_recovery k)
after-HasBackoff clear b k le h = ground (arith, once b.base_recovery)

final-HasBackoff :
    (es : List Event) (b : Breaker) (k : ℕ)
    → b.base_recovery ≤ b.max_recovery
    → HasBackoff b k
    → HasBackoff (final es b) (trips es b k) × SameConfig b (final es b)
unfolding final trips
final-HasBackoff [] b k le h = (h, (refl, refl, refl, refl))
final-HasBackoff (e ∷ es) b k le h =
    let same = after-SameConfig e b in
    let (backoff, kept) =
      final-HasBackoff es (after e b) (trips_after e b k) (omega (arith, same))
        (after-HasBackoff e b k le h) in
    (backoff, ground (arith, same, kept))

init_capped : (t r h m : ℕ) → r ≤ m → (init t r h m).base_recovery ≤ (init t r h m).max_recovery
unfolding init
init_capped t r h m le = le

init-HasBackoff : (t r h m : ℕ) → r ≤ m → HasBackoff (init t r h m) 0
unfolding init
init-HasBackoff t r h m le = ground (arith, once r)

capped_eq : {a m m' r r' : ℕ} (p : ℕ) → a ≡ min m' (r' * p) → m' ≡ m → r' ≡ r → a ≡ min m (r * p)
capped_eq p h em er = rw (← em, ← er) h

init_doubled :
    (t r h m : ℕ) (es : List Event)
    → let b = init t r h m in
      HasBackoff (final es b) (trips es b 0)
      → SameConfig b (final es b)
      → (final es b).recovery ≡ min m (r * 2 ^ trips es b 0)
unfolding init
init_doubled t r h m es h' same = capped_eq (2 ^ trips es (init t r h m) 0) h' same.2 same.1

-- After any history from a breaker whose base recovery time is at most its maximum, the recovery
-- time is the base doubled once for each time the breaker has tripped since it was last closed
-- from half open or reset, capped at the maximum.
pub backoff :
    (t r h m : ℕ) (es : List Event)
    → r ≤ m
    → (b : Breaker) × (answers : List Bool) × (run es (init t r h m) ≡ some (b, answers))
      × (b.recovery ≡ min m (r * 2 ^ trips es (init t r h m) 0))
backoff t r h m es le =
    let b = init t r h m in
    let v = init-IsValid t r h m in
    let (doubled, same) =
      final-HasBackoff es b 0 (init_capped t r h m le) (init-HasBackoff t r h m le) in
    (final es b, replies es b, run-final es b v, init_doubled t r h m es doubled same)
