-- ===== src/Prelude/Text.antt =====
-- `strings.TrimSpace`, on the characters of a text.
use Prim.Native.Nat.{ℕ, zero, suc, ◌+◌, ◌/◌, ◌%◌}
use mathlib.Core.List as Core
use mathlib.Core.List.{List}
use Prim.Native.Char.{Char, code}
use Prim.Native.String.{String, [], ◌∷◌}
use mathlib.Core.Path.{◌≡◌, refl}
use mathlib.Core.Bool.{Bool, true, false, ◌||◌, ◌&&◌}
use native.Mathlib.Omega.{arith}
use mathlib.Core.Option.{Option, none, some}
use constell.Prelude.Tests.{ltb, leb, eqb, if◌then◌else◌}

-- unicode.IsSpace
unfoldable pub is_space : Char → Bool
is_space c =
    let n = code c in
    (leb 9 n && leb n 13)
    || eqb n 32
    || eqb n 0x85
    || eqb n 0xA0
    || eqb n 0x1680
    || (leb 0x2000 n && leb n 0x200A)
    || eqb n 0x2028
    || eqb n 0x2029
    || eqb n 0x202F
    || eqb n 0x205F
    || eqb n 0x3000

unfoldable pub trim_left : String → String
unfolding is_space
trim_left [] = []
trim_left (c ∷ s) = let rest = trim_left s in if is_space c then rest else c ∷ s

abbrev is_empty : String → Bool
is_empty [] = true
is_empty (c ∷ s) = false

unfoldable pub trim_right : String → String
unfolding is_space
trim_right [] = []
trim_right (c ∷ s) = let rest = trim_right s in if is_space c && is_empty rest then [] else c ∷ rest

unfoldable pub trim_space : String → String
unfolding trim_left trim_right
trim_space s = trim_right (trim_left s)

trim_example : trim_space "  a b\n" ≡ "a b"
unfolding trim_space
trim_example = refl

blank_example : trim_space " \t " ≡ ""
unfolding trim_space
blank_example = refl

-- Concatenation, on the characters of the first text, and the text behind its first characters.
unfoldable pub join : String → String → String
join [] t = t
join (c ∷ s) t = c ∷ join s t

unfoldable pub drop_chars : ℕ → String → String
drop_chars zero s = s
drop_chars (suc n) [] = []
drop_chars (suc n) (c ∷ s) = drop_chars n s

-- The parts of a text before and behind the first character of a code.
abbrev pub with_first : Char → Option (String × String) → Option (String × String)
with_first c none = none
with_first c (some (before, behind)) = some (c ∷ before, behind)

unfoldable pub split_at : ℕ → String → Option (String × String)
split_at n [] = none
split_at n (c ∷ s) =
    let rest = split_at n s in if eqb (code c) n then some ([], s) else with_first c rest

unfoldable pub has_char : ℕ → String → Bool
has_char n [] = false
has_char n (c ∷ s) = eqb (code c) n || has_char n s

pub split_at-join :
    (s t : String) (c : Char)
    → has_char (code c) s ≡ false
    → split_at (code c) (join s (c ∷ t)) ≡ some (s, t)
unfolding split_at has_char join
split_at-join [] t d h = ground arith
split_at-join (c ∷ s) t d h = ground (arith, split_at-join s t d)

-- strings.EqualFold on ASCII letters.
abbrev pub fold_code : ℕ → ℕ
fold_code n = if leb 65 n && leb n 90 then n + 32 else n

unfoldable pub equal_fold : String → String → Bool
equal_fold [] [] = true
equal_fold [] (d ∷ t) = false
equal_fold (c ∷ s) [] = false
equal_fold (c ∷ s) (d ∷ t) = eqb (fold_code (code c)) (fold_code (code d)) && equal_fold s t

-- The bytes of a text in UTF-8.
utf8_char : ℕ → List ℕ → List ℕ
utf8_char n rest =
    if ltb n 0x80
    then Core.◌∷◌ n rest
    else if ltb n 0x800
    then Core.◌∷◌ (0xC0 + n / 64) (Core.◌∷◌ (0x80 + n % 64) rest)
    else if ltb n 0x10000
    then Core.◌∷◌ (0xE0 + n / 4096) (Core.◌∷◌ (0x80 + n / 64 % 64) (Core.◌∷◌ (0x80 + n % 64) rest))
    else Core.◌∷◌ (0xF0 + n / 262144) (
        Core.◌∷◌ (0x80 + n / 4096 % 64)
          (Core.◌∷◌ (0x80 + n / 64 % 64) (Core.◌∷◌ (0x80 + n % 64) rest)))

unfoldable pub utf8 : String → List ℕ
unfolding utf8_char
utf8 [] = Core.[]
utf8 (c ∷ s) = utf8_char (code c) (utf8 s)

-- strings.HasPrefix
unfoldable pub has_prefix : String → String → Bool
has_prefix s [] = true
has_prefix [] (c ∷ p) = false
has_prefix (d ∷ s) (c ∷ p) = let rest = has_prefix s p in eqb (code d) (code c) && rest
