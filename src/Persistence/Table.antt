-- ===== src/Persistence/Table.antt =====
-- SQL on a table that is a list of rows: UPDATE, INSERT and the unique constraints.
use mathlib.Core.Option
use tci.Prelude.{
  ◌≡◌, refl, Bool, true, false, not, ◌&&◌, Option, none, some, List, [], ◌∷◌, arith, any, find?,
  filter, if◌then◌else◌, nat_eq,
}

module _ {ℓ} {A : Type ℓ} where
  -- UPDATE ... SET change WHERE hit
  unfoldable pub update_where : (A → Bool) → (A → A) → List A → List A
  update_where hit change [] = []
  update_where hit change (x ∷ xs) = (if hit x then change x else x) ∷ update_where hit change xs

  -- No row clashes with another one under the unique constraints of the table.
  unfoldable pub no_clash : (A → A → Bool) → List A → Bool
  no_clash clash [] = true
  no_clash clash (x ∷ xs) = not (any (clash x) xs) && no_clash clash xs

  pub any_update :
      (p : A → Bool) (hit : A → Bool) (change : A → A) (xs : List A)
      → ((x : A) → p x ≡ false → hit x ≡ true → p (change x) ≡ false)
      → any p xs ≡ false
      → any p (update_where hit change xs) ≡ false
  unfolding update_where
  any_update p hit change [] keep h = refl
  any_update p hit change (x ∷ xs) keep h = ground (arith, keep x, any_update p hit change xs keep)

  -- A search for a key that the update keeps finds the row as updated.
  pub find?-update :
      (key : A → Bool) (hit : A → Bool) (change : A → A) (xs : List A)
      → ((x : A) → key (change x) ≡ key x)
      → find? key (update_where hit change xs)
        ≡ Option.map (λ x. if hit x then change x else x) (find? key xs)
  unfolding update_where
  find?-update key hit change [] keep = refl
  find?-update key hit change (x ∷ xs) keep =
      ground (arith, keep x, find?-update key hit change xs keep)

  pub any-find? : (p : A → Bool) (xs : List A) (a : A) → find? p xs ≡ some a → any p xs ≡ true
  any-find? p [] a h = cc
  any-find? p (x ∷ xs) a h = ground (arith, any-find? p xs a)

  pub any-weaken :
      (p q : A → Bool) (xs : List A)
      → ((a : A) → p a ≡ false → q a ≡ false)
      → any p xs ≡ false
      → any q xs ≡ false
  any-weaken p q [] weaker h = refl
  any-weaken p q (x ∷ xs) weaker h = ground (arith, weaker x, any-weaken p q xs weaker)

  any-update_pair :
      (clash : A → A → Bool) (hit : A → Bool) (change : A → A) (x : A) (ys : List A)
      → ((a b : A)
          → clash a b ≡ false
          → clash (if hit a then change a else a) (if hit b then change b else b) ≡ false)
      → any (clash x) ys ≡ false
      → any (clash (if hit x then change x else x)) (update_where hit change ys) ≡ false
  unfolding update_where
  any-update_pair clash hit change x [] keep h = refl
  any-update_pair clash hit change x (y ∷ ys) keep h =
      ground (arith, keep x y, any-update_pair clash hit change x ys keep)

  -- A test of the only row that has a key is a test of the row that is found.
  abbrev pub holds : (A → Bool) → Option A → Bool
  holds q none = false
  holds q (some a) = q a

  any_and : (p q : A → Bool) (ys : List A) → any p ys ≡ false → any (λ r. p r && q r) ys ≡ false
  any_and p q [] h = refl
  any_and p q (y ∷ ys) h = ground (arith, any_and p q ys)

  any_of_same :
      (b : Bool) (p : A → Bool) (ys : List A) → b ≡ true → any (λ r. b && p r) ys ≡ any p ys
  any_of_same b p [] e = refl
  any_of_same b p (y ∷ ys) e = ground (arith, any_of_same b p ys e)

  pub any_key :
      (key q : A → Bool) (xs : List A)
      → no_clash (λ a b. key a && key b) xs ≡ true
      → any (λ r. key r && q r) xs ≡ holds q (find? key xs)
  unfolding no_clash
  any_key key q [] h = refl
  any_key key q (x ∷ xs) h =
      ground (arith, any_key key q xs, any_and key q xs, any_of_same (key x) key xs)

  pub no_clash-weaken :
      (c d : A → A → Bool) (xs : List A)
      → ((a b : A) → c a b ≡ false → d a b ≡ false)
      → no_clash c xs ≡ true
      → no_clash d xs ≡ true
  unfolding no_clash
  no_clash-weaken c d [] weaker h = refl
  no_clash-weaken c d (x ∷ xs) weaker h =
      ground (arith, any-weaken (c x) (d x) xs (weaker x), no_clash-weaken c d xs weaker)

  -- An update that makes no pair of rows clash keeps the constraints.
  pub no_clash-update :
      (clash : A → A → Bool) (hit : A → Bool) (change : A → A) (xs : List A)
      → ((a b : A)
          → clash a b ≡ false
          → clash (if hit a then change a else a) (if hit b then change b else b) ≡ false)
      → no_clash clash xs ≡ true
      → no_clash clash (update_where hit change xs) ≡ true
  unfolding no_clash update_where
  no_clash-update clash hit change [] keep h = refl
  no_clash-update clash hit change (x ∷ xs) keep h =
      ground (
        arith,
        any-update_pair clash hit change x xs keep,
        no_clash-update clash hit change xs keep,
      )

  pub find?-filter :
      (key keep : A → Bool) (xs : List A)
      → ((x : A) → key x ≡ true → keep x ≡ true)
      → find? key (filter keep xs) ≡ find? key xs
  find?-filter key keep [] kept = refl
  find?-filter key keep (x ∷ xs) kept = ground (arith, kept x, find?-filter key keep xs kept)
