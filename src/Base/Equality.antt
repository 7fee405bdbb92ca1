-- ===== src/Base/Equality.antt =====
-- One `==` for the keys that the program compares, with the law that it decides equality.
use Prim.Native.Nat.{ℕ, compare, Ordering}
use Prim.Native.String.{String}
use mathlib.Core.Path.{◌≡◌}
use mathlib.Core.Logic.{◌↔◌}
use mathlib.Core.Bool.{Bool, true, false, not, ◌&&◌}
use mathlib.Core.List.{List, [], ◌∷◌}
use native.Mathlib.Omega.{arith}
use text.Mathlib.Text.{◌==◌ as string_test}
use text.Mathlib.TextEquality.{eq_iff}

pub record Eq {ℓ} (A : Type ℓ) : Type ℓ where
  pub test : A → A → Bool
  pub test_iff : (a b : A) → (test a b ≡ true) ↔ (a ≡ b)

infix 50 ◌==◌ ◌!=◌
abbrev pub ◌==◌ {ℓ} : {A : Type ℓ} ⦃e : Eq A⦄ → A → A → Bool
◌==◌ ⦃e⦄ = e.test

abbrev pub ◌!=◌ {ℓ} : {A : Type ℓ} ⦃e : Eq A⦄ → A → A → Bool
◌!=◌ ⦃e⦄ a b = not (e.test a b)

abbrev pub nat_test : ℕ → ℕ → Bool
nat_test a b = elim (compare a b) [ Ordering.eq ↦ true | _ ↦ false ]

pub nat_test_iff : (a b : ℕ) → (nat_test a b ≡ true) ↔ (a ≡ b)
nat_test_iff a b = ground arith

instance abbrev pub nat_eq : Eq ℕ
nat_eq = record { test = nat_test; test_iff = nat_test_iff }

instance abbrev pub string_eq : Eq String
string_eq = record { test = string_test; test_iff = eq_iff }

-- Two texts that the program tells apart by `==`.
pub string_iff : (s t : String) → ((s == t) ≡ true) ↔ (s ≡ t)
string_iff s t = eq_iff s t

abbrev pub list_test : List ℕ → List ℕ → Bool
list_test [] [] = true
list_test (x ∷ xs) (y ∷ ys) = nat_test x y && list_test xs ys
list_test _ _ = false

pub list_test_iff : (xs ys : List ℕ) → (list_test xs ys ≡ true) ↔ (xs ≡ ys)
list_test_iff [] [] = ground arith
list_test_iff [] (y ∷ ys) = ground arith
list_test_iff (x ∷ xs) [] = ground arith
list_test_iff (x ∷ xs) (y ∷ ys) = ground (arith, list_test_iff xs ys)

instance abbrev pub list_eq : Eq (List ℕ)
list_eq = record { test = list_test; test_iff = list_test_iff }
