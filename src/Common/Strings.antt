-- ===== src/Common/Strings.antt =====
-- Python's methods on strings, by recursion on the characters.
use Prim.Native.String.{String, [], ◌∷◌, ◌++◌}
use Prim.Native.Char.{Char, code}
use Prim.Native.Nat.{ℕ, ◌-◌}
use mathlib.Core.Bool.{Bool, true, false, ◌&&◌, ◌||◌}
pub use text.Mathlib.Text.{starts_with}
use haojie.Common.Tests.{leb, ◌==◌, if◌then◌else◌}

-- `s.split(c, 1)[0]`, for the character of a code.
unfoldable pub before : ℕ → String → String
before c [] = []
before c (x ∷ s) = let rest = before c s in if code x == c then [] else x ∷ rest

-- What stands behind the first such character.
unfoldable pub after : ℕ → String → String
after c [] = []
after c (x ∷ s) = let rest = after c s in if code x == c then s else rest

abbrev pub append : String → String → String
append s t = s ++ t

-- `c.isspace()`
unfoldable pub is_space : Char → Bool
is_space c =
    let n = code c in
    (leb 9 n && leb n 13)
    || (leb 28 n && leb n 32)
    || n == 133
    || n == 160
    || n == 5760
    || (leb 8192 n && leb n 8202)
    || n == 8232
    || n == 8233
    || n == 8239
    || n == 8287
    || n == 12288

unfoldable pub lstrip : String → String
unfolding is_space
lstrip [] = []
lstrip (c ∷ s) = let rest = lstrip s in if is_space c then rest else c ∷ s

is_empty : String → Bool
is_empty [] = true
is_empty (c ∷ s) = false

unfoldable pub rstrip : String → String
unfolding is_space is_empty
rstrip [] = []
rstrip (c ∷ s) = let rest = rstrip s in if is_empty rest && is_space c then [] else c ∷ rest

-- `s.strip()`
unfoldable pub strip : String → String
unfolding lstrip rstrip
strip s = rstrip (lstrip s)

-- The code of a character in upper case, among the letters of ASCII.
upper_code : Char → ℕ
upper_code c = let n = code c in if leb 97 n && leb n 122 then n - 32 else n

-- `s.upper() == t.upper()`, for texts of ASCII.
unfoldable pub upper_eq : String → String → Bool
unfolding upper_code
upper_eq [] [] = true
upper_eq [] (d ∷ t) = false
upper_eq (c ∷ s) [] = false
upper_eq (c ∷ s) (d ∷ t) = upper_code c == upper_code d && upper_eq s t

-- `needle in s`
unfoldable pub has_part : String → String → Bool
has_part [] needle = starts_with [] needle
has_part (c ∷ s) needle = starts_with (c ∷ s) needle || has_part s needle
