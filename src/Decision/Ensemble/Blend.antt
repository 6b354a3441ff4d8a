-- ===== src/Decision/Ensemble/Blend.antt =====
-- The candidates of a blend (decision/strategies/ensemble.py, `_blend`).
use haojie.Common.{ℕ, ◌+◌, ◌*◌, Option, none, some, get_or}
use haojie.Decision.Ensemble.{relative}

-- The score of an action that has a confidence in one strategy, both or neither.
abbrev pub score_of : ℕ → ℕ → Option ℕ → Option ℕ → Option ℕ
score_of wr wm none none = none
score_of wr wm (some r) none = some (wr * r)
score_of wr wm none (some m) = some (wm * m)
score_of wr wm (some r) (some m) = some (wr * r + wm * m)

-- What a candidate of weight `w` adds to what an action has.
abbrev added : ℕ → Option ℕ → Option ℕ → Option ℕ
added w none had = had
added w (some c) had = some (get_or had 0 + w * c)

-- A score as it is shown, where the highest is `top`.
abbrev pub shown : ℕ → Option ℕ → Option ℕ
shown top none = none
shown top (some s) = some (relative top s)
