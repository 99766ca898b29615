-- ===== src/Prelude/Text.antt =====
-- The string methods of Python that the program uses, over the code points of a text.
pub mod Laws
use Prim.Native.Nat.{ℕ, zero, suc}
use Prim.Native.Char.{Char, code}
use mathlib.Core.List.{List, [], ◌∷◌}
use Prim.Native.String.{String}
use mathlib.Core.Bool.{Bool, true, ◌&&◌}
use mathlib.Core.Option.{Option, none, some}
use tci.Prelude.Tests.{if◌then◌else◌}
use tci.Prelude.Equality.{◌==◌, nat_eq}

-- `s.removeprefix(p)` where `s.startswith(p)`, and `none` where it does not.
unfoldable pub strip_prefix : String → String → Option String
strip_prefix String.[] s = some s
strip_prefix (String.◌∷◌ c p) String.[] = none
strip_prefix (String.◌∷◌ c p) (String.◌∷◌ d s) =
    let rest = strip_prefix p s in if code c == code d then rest else none

-- `len(s)`.
unfoldable pub len : String → ℕ
len String.[] = 0
len (String.◌∷◌ c s) = suc (len s)

-- `all(test(c) for c in s)`, on code points.
unfoldable pub all_chars : (ℕ → Bool) → String → Bool
all_chars p String.[] = true
all_chars p (String.◌∷◌ c s) = p (code c) && all_chars p s

-- `s[:n]`, for an `n` that is not negative.
unfoldable pub take_chars : ℕ → String → String
take_chars zero s = String.[]
take_chars (suc n) String.[] = String.[]
take_chars (suc n) (String.◌∷◌ c s) = String.◌∷◌ c (take_chars n s)

abbrev add_char : Char → List String → List String
add_char c [] = String.◌∷◌ c String.[] ∷ []
add_char c (s ∷ ss) = String.◌∷◌ c s ∷ ss

-- `s.split(c)`, for the code point of c.
unfoldable pub split_on : ℕ → String → List String
split_on sep String.[] = String.[] ∷ []
split_on sep (String.◌∷◌ c s) =
    let rest = split_on sep s in if code c == sep then String.[] ∷ rest else add_char c rest
