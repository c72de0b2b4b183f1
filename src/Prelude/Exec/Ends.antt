-- ===== src/Prelude/Exec/Ends.antt =====
-- How a function with a state ends, one step after another: what holds of every outcome, by the
-- checks and the steps on the way to it.
use constell.Prelude.{◌≡◌, refl, Bool, true, false, nat_eq, string_eq}
use constell.Prelude.Exec.{
  Result, ok, err, Exec, ◌>>=◌, ◌>>◌, or_fail, reject_if, replace_error, continue,
}

module _ {S C B : Type 0} (P : Result C B × S → Type 0) where
  pub after_check :
      (b : Bool) (e : C) (k : Exec S C B) (s : S)
      → (b ≡ true → P (err e, s))
      → (b ≡ false → P (k s))
      → P ((reject_if b e >> k) s)
  after_check true e k s rejected passed = rejected refl
  after_check false e k s rejected passed = passed refl

  -- A step whose error is passed on, and one whose error is replaced.
  pub after_step :
      {A : Type 0} (m : Exec S C A) (k : A → Exec S C B) (s : S)
      → ((e : C) → P (err e, (m s).1))
      → ((a : A) → (m s).0 ≡ ok a → P (k a (m s).1))
      → P ((m >>= k) s)
  after_step {A} m k s bad good = go (m s).0 refl
    where
      go : (r : Result C A) → (m s).0 ≡ r → P (continue (r, (m s).1) k)
      go (ok a) at = good a at
      go (err e) at = bad e

  pub after_failing :
      {A E : Type 0} (c : C) (m : Exec S E A) (k : A → Exec S C B) (s : S)
      → P (err c, (m s).1)
      → ((a : A) → (m s).0 ≡ ok a → P (k a (m s).1))
      → P ((or_fail c m >>= k) s)
  after_failing {A} {E} c m k s bad good = go (m s).0 refl
    where
      go : (r : Result E A) → (m s).0 ≡ r → P (continue (replace_error c (r, (m s).1)) k)
      go (ok a) at = good a at
      go (err e) at = bad

  -- The same, where what holds depends on whether the step failed.
  pub after_outcome :
      {A E : Type 0} (c : C) (m : Exec S E A) (k : A → Exec S C B) (s : S)
      → ((e : E) → (m s).0 ≡ err e → P (err c, (m s).1))
      → ((a : A) → (m s).0 ≡ ok a → P (k a (m s).1))
      → P ((or_fail c m >>= k) s)
  after_outcome {A} {E} c m k s bad good = go (m s).0 refl
    where
      go : (r : Result E A) → (m s).0 ≡ r → P (continue (replace_error c (r, (m s).1)) k)
      go (ok a) at = good a at
      go (err e) at = bad e at

pub last_check :
    {S C : Type 0} (P : Result C (Unit {0}) × S → Type 0) (b : Bool) (e : C) (s : S)
    → (b ≡ true → P (err e, s))
    → (b ≡ false → P (ok tt, s))
    → P (reject_if b e s)
last_check P true e s rejected passed = rejected refl
last_check P false e s rejected passed = passed refl
