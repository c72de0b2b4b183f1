-- ===== src/Prelude/Exec/Keeps.antt =====
-- Invariants of functions with a state, a rule for each way to build one.
use mathlib.Core.Bool.{Bool, true, false}
use constell.Prelude.Tests.{if◌then◌else◌}
use constell.Prelude.Exec.{
  Result, ok, err, Exec, pure, ◌>>=◌, ◌>>◌, reject_if, or_fail, attempt, continue, replace_error,
}

-- `m` leads from states with `P` to states with `P`, whether it fails or not.
pub record Keeps {S E A : Type 0} (P : S → Type 0) (m : Exec S E A) : Type 0 where
  pub at : (s : S) → P s → P (m s).1

module _ {S E A : Type 0} {P : S → Type 0} where
  pub Keeps-pure : (a : A) → Keeps {E = E} P (pure a)
  Keeps-pure a = record { at = λ s h. h }

  pub Keeps-or_fail : {F : Type 0} (f : F) (m : Exec S E A) → Keeps P m → Keeps P (or_fail f m)
  Keeps-or_fail f m k = record { at = λ s h. ground_result (m s) (k.at s h) }
    where
      ground_result : (r : Result E A × S) → P r.1 → P (replace_error f r).1
      ground_result (ok a, t) p = p
      ground_result (err e, t) p = p

  pub Keeps-attempt : {F : Type 0} (m : Exec S E A) → Keeps P m → Keeps {E = F} P (attempt m)
  Keeps-attempt m k = record { at = λ s h. k.at s h }

  pub Keeps-if :
      (b : Bool) (m n : Exec S E A) → Keeps P m → Keeps P n → Keeps P (if b then m else n)
  Keeps-if true m n p q = p
  Keeps-if false m n p q = q

module _ {S E : Type 0} {P : S → Type 0} where
  pub Keeps-reject_if : (b : Bool) (e : E) → Keeps P (reject_if b e)
  Keeps-reject_if true e = record { at = λ s h. h }
  Keeps-reject_if false e = record { at = λ s h. h }

module _ {S E A B : Type 0} {P : S → Type 0} where
  Keeps-continue :
      (r : Result E A × S) (f : A → Exec S E B)
      → ((a : A) → Keeps P (f a))
      → P r.1
      → P (continue r f).1
  Keeps-continue (ok a, s) f k p = (k a).at s p
  Keeps-continue (err e, s) f k p = p

  pub Keeps-bind :
      (m : Exec S E A) (f : A → Exec S E B)
      → Keeps P m
      → ((a : A) → Keeps P (f a))
      → Keeps P (m >>= f)
  Keeps-bind m f k l = record { at = λ s h. Keeps-continue (m s) f l (k.at s h) }

module _ {S E B : Type 0} {P : S → Type 0} where
  pub Keeps-then :
      (m : Exec S E (Unit {0})) (n : Exec S E B) → Keeps P m → Keeps P n → Keeps P (m >> n)
  Keeps-then m n k l = Keeps-bind m (λ _. n) k (λ _. l)

pub ruleset keeps_rules =
    (Keeps-pure, Keeps-or_fail, Keeps-attempt, Keeps-if, Keeps-reject_if, Keeps-bind, Keeps-then)
