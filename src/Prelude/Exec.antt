-- ===== src/Prelude/Exec.antt =====
-- Go functions that read and write a state and return a value or an error. What was written before
-- an error stays written.
pub mod Keeps
pub mod Ends
use mathlib.Core.Path.{◌≡◌, refl}
use mathlib.Core.Bool.{Bool, true, false}
use mathlib.Core.Option.{Option, none, some}
use mathlib.Core.List.{List, [], ◌∷◌}
use Prim.Native.Nat.{ℕ}
use constell.Prelude.Tests.{if◌then◌else◌}

pub data Result (E A : Type 0) : Type 0 where
  ok : A → Result E A
  err : E → Result E A

abbrev pub Exec : Type 0 → Type 0 → Type 0 → Type 0
Exec S E A = S → Result E A × S

abbrev pub pure : {S E A : Type 0} → A → Exec S E A
pure a s = (ok a, s)

abbrev pub fail : {S E A : Type 0} → E → Exec S E A
fail e s = (err e, s)

abbrev pub continue : {S E A B : Type 0} → Result E A × S → (A → Exec S E B) → Result E B × S
continue (ok a, s) f = f a s
continue (err e, s) f = (err e, s)

infixl 5 ◌>>=◌ ◌>>◌
abbrev pub ◌>>=◌ : {S E A B : Type 0} → Exec S E A → (A → Exec S E B) → Exec S E B
◌>>=◌ m f s = continue (m s) f

abbrev pub ◌>>◌ : {S E B : Type 0} → Exec S E (Unit {0}) → Exec S E B → Exec S E B
m >> k = m >>= λ _. k

-- `if cond { return err }`
abbrev pub reject_if : {S E : Type 0} → Bool → E → Exec S E (Unit {0})
reject_if true e s = (err e, s)
reject_if false e s = (ok tt, s)

-- `if err != nil { return other }`
abbrev pub replace_error : {S E F A : Type 0} → F → Result E A × S → Result F A × S
replace_error f (ok a, s) = (ok a, s)
replace_error f (err e, s) = (err f, s)

abbrev pub or_fail : {S E F A : Type 0} → F → Exec S E A → Exec S F A
or_fail f m s = replace_error f (m s)

-- An error that is only logged.
abbrev pub succeed : {S E F A : Type 0} → Result E A × S → Result F (Result E A) × S
succeed (r, s) = (ok r, s)

abbrev pub attempt : {S E F A : Type 0} → Exec S E A → Exec S F (Result E A)
attempt m s = succeed (m s)

-- What a connection to NATS, if there is one, takes of an event as its n-th message.
abbrev pub announced : {A : Type 0} → A → Option (ℕ → Bool) → ℕ → List A
announced event none n = []
announced event (some takes) n = if takes n then event ∷ [] else []
