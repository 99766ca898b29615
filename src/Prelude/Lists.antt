-- ===== src/Prelude/Lists.antt =====
-- Lists measured by native numbers and searched by Boolean tests, with the lemmas that the
-- components share.
use Prim.Native.Nat.{ℕ, suc, ◌+◌, ◌≤◌}
use mathlib.Core.Path.{◌≡◌, refl, ap}
use mathlib.Core.Bool.{Bool, true, false, ◌&&◌, ◌||◌}
use mathlib.Core.Option.{Option, none, some}
use mathlib.Core.List.{List, [], ◌∷◌, ◌++◌}
use native.Mathlib.Omega.{arith}
use tci.Prelude.Tests.{if◌then◌else◌}

abbrev pub All {ℓ κ} : {A : Type ℓ} → (A → Type κ) → List A → Type κ
All P [] = Unit
All P (x ∷ xs) = P x × All P xs

module _ {ℓ} {A : Type ℓ} where
  abbrev pub length : List A → ℕ
  length [] = 0
  length (x ∷ xs) = suc (length xs)

  abbrev pub any : (A → Bool) → List A → Bool
  any p [] = false
  any p (x ∷ xs) = p x || any p xs

  abbrev pub all : (A → Bool) → List A → Bool
  all p [] = true
  all p (x ∷ xs) = p x && all p xs

  abbrev pub filter : (A → Bool) → List A → List A
  filter p [] = []
  filter p (x ∷ xs) = let rest = filter p xs in if p x then x ∷ rest else rest

  abbrev pub find? : (A → Bool) → List A → Option A
  find? p [] = none
  find? p (x ∷ xs) = let rest = find? p xs in if p x then some x else rest

  abbrev prefer : (A → A → Bool) → A → Option A → A
  prefer before x none = x
  prefer before x (some y) = if before y x then y else x

  -- The first row in the order `before`: `ORDER BY ... LIMIT 1`.
  abbrev pub limit_one : (A → A → Bool) → List A → Option A
  limit_one before [] = none
  limit_one before (x ∷ xs) = some (prefer before x (limit_one before xs))

  abbrev pub insert_by : (A → A → Bool) → A → List A → List A
  insert_by before x [] = x ∷ []
  insert_by before x (y ∷ ys) =
      let rest = insert_by before x ys in if before y x then y ∷ rest else x ∷ y ∷ ys

  -- ORDER BY, as an insertion sort.
  abbrev pub order_by : (A → A → Bool) → List A → List A
  order_by before [] = []
  order_by before (x ∷ xs) = insert_by before x (order_by before xs)

  -- `reversed(xs)`
  unfoldable pub reverse : List A → List A
  reverse [] = []
  reverse (x ∷ xs) = reverse xs ++ x ∷ []

  pub length-append : (xs ys : List A) → length (xs ++ ys) ≡ length xs + length ys
  length-append [] ys = omega arith
  length-append (x ∷ xs) ys = omega (arith, length-append xs ys)

module _ {ℓ} {A : Type ℓ} where
  pub length-filter-le : (p : A → Bool) (xs : List A) → length (filter p xs) ≤ length xs
  length-filter-le p [] = omega arith
  length-filter-le p (x ∷ xs) = ground (arith, length-filter-le p xs)

  -- What `find?` returns satisfies the test.
  pub find?_sound : (p : A → Bool) (xs : List A) (a : A) → find? p xs ≡ some a → p a ≡ true
  find?_sound p [] a h = cc
  find?_sound p (x ∷ xs) a h = ground (arith, find?_sound p xs a)

  pub find?-eq-none : (p : A → Bool) (xs : List A) → any p xs ≡ false → find? p xs ≡ none
  find?-eq-none p [] h = refl
  find?-eq-none p (x ∷ xs) h = ground (arith, find?-eq-none p xs)

  pub append-nil : (xs : List A) → xs ++ [] ≡ xs
  append-nil [] = refl
  append-nil (x ∷ xs) = ap (λ ys. x ∷ ys) (append-nil xs)

  pub append_assoc : (xs ys zs : List A) → (xs ++ ys) ++ zs ≡ xs ++ (ys ++ zs)
  append_assoc [] ys zs = refl
  append_assoc (x ∷ xs) ys zs = ap (λ ws. x ∷ ws) (append_assoc xs ys zs)

  pub reverse-append : (xs ys : List A) → reverse (xs ++ ys) ≡ reverse ys ++ reverse xs
  unfolding reverse
  reverse-append [] ys = rw (append-nil (reverse ys)) refl
  reverse-append (x ∷ xs) ys =
      rw (reverse-append xs ys, append_assoc (reverse ys) (reverse xs) (x ∷ [])) refl

  any-insert_by :
      (p : A → Bool) (before : A → A → Bool) (x : A) (ys : List A)
      → any p (insert_by before x ys) ≡ (p x || any p ys)
  any-insert_by p before x [] = refl
  any-insert_by p before x (y ∷ ys) = ground (arith, any-insert_by p before x ys)

  pub any-order_by :
      (p : A → Bool) (before : A → A → Bool) (xs : List A) → any p (order_by before xs) ≡ any p xs
  any-order_by p before [] = refl
  any-order_by p before (x ∷ xs) =
      rw (any-insert_by p before x (order_by before xs), any-order_by p before xs) refl

  pub any-filter : (p q : A → Bool) (xs : List A) → any p (filter q xs) ≡ any (λ x. q x && p x) xs
  any-filter p q [] = refl
  any-filter p q (x ∷ xs) = ground (arith, any-filter p q xs)
