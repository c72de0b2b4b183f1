-- ===== src/Prelude/Classes.antt =====
-- Go's `comparable`: the types that `==` can compare.
use Prim.Native.Nat.{ℕ}
use Prim.Native.String.{String}
use mathlib.Core.Path.{◌≡◌, refl, sym}
use mathlib.Core.Logic.{◌↔◌, ◌≢◌, inl, inr}
use native.Mathlib.Omega.{arith}
use mathlib.Core.Bool.{Bool, true, false}
use text.Mathlib.Text.{◌==◌ as same_text}
use text.Mathlib.TextEquality.{eq_iff}
use constell.Prelude.Tests.{eqb, eqb_iff, Bool-cases}

pub record Comparable {ℓ} (A : Type ℓ) : Type ℓ where
  pub equal : A → A → Bool
  pub equal_iff : (x y : A) → (equal x y ≡ true) ↔ (x ≡ y)

-- Strings by their characters, numbers by their values.
instance abbrev pub string_eq : Comparable String
string_eq = record { equal = same_text; equal_iff = eq_iff }

instance abbrev pub nat_eq : Comparable ℕ
nat_eq = record { equal = eqb; equal_iff = eqb_iff }

module _ {ℓ} {A : Type ℓ} ⦃e : Comparable A⦄ where
  infix 50 ◌==◌
  abbrev pub ◌==◌ : A → A → Bool
  x == y = e.equal x y

  pub equal_refl : (x : A) → (x == x) ≡ true
  equal_refl x = (e.equal_iff x x).1 refl

  pub eq_of_equal : (x y : A) → (x == y) ≡ true → x ≡ y
  eq_of_equal x y = (e.equal_iff x y).0

  pub ne_of_unequal : (x y : A) → (x == y) ≡ false → x ≢ y
  ne_of_unequal x y h same = absurd (ground (arith, (e.equal_iff x y).1 same))

  pub equal_sym : (x y : A) → (x == y) ≡ (y == x)
  equal_sym x y = elim (Bool-cases (x == y)) [
    | inl p ↦ rw (p, eq_of_equal x y p, equal_refl)
    | inr p ↦ elim (Bool-cases (y == x)) [
      | inl q ↦ absurd (ne_of_unequal x y p (sym (eq_of_equal y x q)))
      | inr q ↦ rw (p, q)
    ]
  ]
