-- ===== src/Prelude/Equality.antt =====
-- Equality tests by instances. Each test comes with the proof that it decides equality.
use Prim.Native.Nat.{ℕ, compare, Ordering}
use Prim.Native.String.{String}
use mathlib.Core.Path.{◌≡◌, refl, ap}
use mathlib.Core.Logic.{◌↔◌}
use mathlib.Core.Bool.{Bool, true, false}
use mathlib.Core.Option.{Option, none, some}
use native.Mathlib.Omega.{arith}
use text.Mathlib.Text.{◌==◌ as str_beq}
use text.Mathlib.TextEquality.{eq_iff}

pub record EqTest {ℓ} (A : Type ℓ) : Type ℓ where
  pub test : A → A → Bool
  pub test_iff : (a b : A) → (test a b ≡ true) ↔ (a ≡ b)

infix 50 ◌==◌
abbrev pub ◌==◌ {ℓ} : {A : Type ℓ} ⦃inst : EqTest A⦄ → A → A → Bool
◌==◌ ⦃inst⦄ = inst.test

abbrev pub nat_beq : ℕ → ℕ → Bool
nat_beq a b = elim (compare a b) [ Ordering.eq ↦ true | _ ↦ false ]

pub nat_beq_iff : (a b : ℕ) → (nat_beq a b ≡ true) ↔ (a ≡ b)
nat_beq_iff a b = ground arith

instance abbrev pub nat_eq : EqTest ℕ
nat_eq = record { test = nat_beq; test_iff = nat_beq_iff }

instance abbrev pub string_eq : EqTest String
string_eq = record { test = str_beq; test_iff = eq_iff }

abbrev pub bool_beq : Bool → Bool → Bool
bool_beq true b = b
bool_beq false true = false
bool_beq false false = true

pub bool_beq_iff : (a b : Bool) → (bool_beq a b ≡ true) ↔ (a ≡ b)
bool_beq_iff a b = ground arith

instance abbrev pub bool_eq : EqTest Bool
bool_eq = record { test = bool_beq; test_iff = bool_beq_iff }

module _ {ℓ} {A : Type ℓ} ⦃inst : EqTest A⦄ where
  abbrev pub option_beq : Option A → Option A → Bool
  option_beq none none = true
  option_beq none (some b) = false
  option_beq (some a) none = false
  option_beq (some a) (some b) = a == b

  pub option_beq_iff : (a b : Option A) → (option_beq a b ≡ true) ↔ (a ≡ b)
  option_beq_iff none none = (λ h. refl, λ h. refl)
  option_beq_iff none (some b) = (λ h. cc, λ h. cc)
  option_beq_iff (some a) none = (λ h. cc, λ h. cc)
  option_beq_iff (some a) (some b) =
      (λ h. ap some ((inst.test_iff a b).0 h), λ h. (inst.test_iff a b).1 (cc))

  instance abbrev pub option_eq : EqTest (Option A)
  option_eq = record { test = option_beq; test_iff = option_beq_iff }

pub beq_refl {ℓ} : {A : Type ℓ} ⦃inst : EqTest A⦄ → (a : A) → (a == a) ≡ true
beq_refl ⦃inst⦄ a = (inst.test_iff a a).1 refl
