-- ===== src/Prelude/Text/Laws.antt =====
-- Prefixes of texts.
use Prim.Native.Char.{code}
use Prim.Native.String.{String, ◌++◌ as concat}
use Prim.Native.String.append
use mathlib.Core.Path.{◌≡◌, refl}
use mathlib.Core.Logic.{inl, inr}
use mathlib.Core.Bool.{Bool, true, false}
use mathlib.Core.Option.{none, some}
use native.Mathlib.Omega.{arith}
use tci.Prelude.Tests.{if◌then◌else◌, Bool-cases}
use tci.Prelude.Equality.{◌==◌, nat_eq, beq_refl}
use tci.Prelude.Text.{strip_prefix}

pub strip_prefix-append : (p s : String) → strip_prefix p (concat p s) ≡ some s
unfolding strip_prefix
strip_prefix-append String.[] s = rw (append.nil s) refl
strip_prefix-append (String.◌∷◌ c p) s =
    rw (append.cons c p s, beq_refl (code c)) (strip_prefix-append p s)

-- The two texts differ at a place that both have.
unfoldable pub texts_part : String → String → Bool
texts_part String.[] q = false
texts_part (String.◌∷◌ c p) String.[] = false
texts_part (String.◌∷◌ c p) (String.◌∷◌ d q) =
    let rest = texts_part p q in if code c == code d then rest else true

pub strip_prefix-apart :
    (p q s : String) → texts_part p q ≡ true → strip_prefix p (concat q s) ≡ none
unfolding strip_prefix texts_part
strip_prefix-apart String.[] q s h = cc
strip_prefix-apart (String.◌∷◌ c p) String.[] s h = cc
strip_prefix-apart (String.◌∷◌ c p) (String.◌∷◌ d q) s h = elim (Bool-cases (code c == code d)) [
  | inl e ↦ rw (append.cons d q s, e) (strip_prefix-apart p q s (ground (arith, e, h)))
  | inr e ↦ rw (append.cons d q s, e) refl
]
