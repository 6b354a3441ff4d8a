-- ===== src/Common/Fields.antt =====
-- Texts that are split at a character, as Python's `s.split(c, 1)` does.
use Prim.Native.String.{String, [], ◌∷◌}
use Prim.Native.Char.{Char, code}
use Prim.Native.Nat.{ℕ}
use mathlib.Core.Bool.{Bool, true, false, not, ◌&&◌}
use mathlib.Core.Path.{◌≡◌, refl}
use native.Mathlib.Omega.{arith}
use text.Mathlib.TextLemmas.{nil-append, cons-append}
use haojie.Common.Tests.{◌==◌}
use haojie.Common.Strings.{before, after, append}

-- No character has the code.
unfoldable pub lacks : ℕ → String → Bool
lacks c [] = true
lacks c (x ∷ s) = not (code x == c) && lacks c s

-- A text that lacks the character, then the character and the rest, is split into the two.
pub split-append :
    (d : Char) (s t : String)
    → lacks (code d) s ≡ true
    → (code d == code d) ≡ true
    → (before (code d) (append s (d ∷ t)) ≡ s) × (after (code d) (append s (d ∷ t)) ≡ t)
unfolding before after lacks
split-append d [] t h r = rw (nil-append (d ∷ t), r) (refl, refl)
split-append d (x ∷ s) t h r =
    let q : (code x == code d) ≡ false = ground (arith, h) in
    let (b, a) = split-append d s t (ground (arith, h)) r in
    rw (cons-append x s (d ∷ t), q, b, a) (refl, refl)
