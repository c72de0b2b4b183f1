-- ===== src/Sql/Uuids.antt =====
-- The equality of UUID columns, as PostgreSQL compares them: by their digits, not by the text that a
-- request gives.
use Prim.Native.Nat.{ℕ, ◌+◌}
use Prim.Native.Char.{code}
use Prim.Native.String.{String, [], ◌∷◌}
use mathlib.Core.List as Core
use mathlib.Core.List.{List}
use mathlib.Core.Path.{◌≡◌, refl}
use mathlib.Core.Bool.{Bool, true, false, ◌||◌, ◌&&◌}
use native.Mathlib.Omega.{arith}
use constell.Prelude.Tests.{leb, eqb, if◌then◌else◌}

-- Hyphens and braces may be left out or put in.
abbrev is_separator : ℕ → Bool
is_separator n = eqb n b'-' || eqb n b'{' || eqb n b'}'

abbrev lower_digit : ℕ → ℕ
lower_digit n = if leb b'A' n && leb n b'Z' then n + 32 else n

uuid_digits : String → List ℕ
uuid_digits [] = Core.[]
uuid_digits (c ∷ s) =
    let rest = uuid_digits s in
    if is_separator (code c) then rest else Core.◌∷◌ (lower_digit (code c)) rest

same_digits : List ℕ → List ℕ → Bool
same_digits Core.[] Core.[] = true
same_digits Core.[] (Core.◌∷◌ d e) = false
same_digits (Core.◌∷◌ c d) Core.[] = false
same_digits (Core.◌∷◌ c d) (Core.◌∷◌ c' e) = let rest = same_digits d e in eqb c c' && rest

unfoldable pub same_uuid : String → String → Bool
unfolding uuid_digits same_digits
same_uuid a b = same_digits (uuid_digits a) (uuid_digits b)

same_digits_refl : (d : List ℕ) → same_digits d d ≡ true
unfolding same_digits
same_digits_refl Core.[] = refl
same_digits_refl (Core.◌∷◌ c d) = ground (arith, same_digits_refl d)

pub same_uuid_refl : (a : String) → same_uuid a a ≡ true
unfolding same_uuid
same_uuid_refl a = same_digits_refl (uuid_digits a)

same_uuid_example :
    same_uuid "A0EEBC99-9c0b-4ef8-bb6d-6bb9bd380a11" "a0eebc999c0b4ef8bb6d6bb9bd380a11" ≡ true
unfolding same_uuid
same_uuid_example = refl
