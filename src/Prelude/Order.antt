-- ===== src/Prelude/Order.antt =====
-- Go's `<` on strings, which compares their bytes. On UTF-8 that is the order by code points.
use Prim.Native.Char.{code}
use Prim.Native.String.{String, [], ◌∷◌}
use mathlib.Core.Path.{◌≡◌, refl}
use mathlib.Core.Bool.{Bool, true, false}
use native.Mathlib.Omega.{arith}
use constell.Prelude.Tests.{ltb, eqb, if◌then◌else◌}

unfoldable pub less : String → String → Bool
less s [] = false
less [] (d ∷ t) = true
less (c ∷ s) (d ∷ t) =
    let rest = less s t in if eqb (code c) (code d) then rest else ltb (code c) (code d)

pub less-asym : (s t : String) → less s t ≡ true → less t s ≡ false
unfolding less
less-asym s [] h = cc
less-asym [] (d ∷ t) h = refl
less-asym (c ∷ s) (d ∷ t) h = ground (arith, less-asym s t)

pub less_irrefl : (s : String) → less s s ≡ false
unfolding less
less_irrefl [] = refl
less_irrefl (c ∷ s) = ground (arith, less_irrefl s)
