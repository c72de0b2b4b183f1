-- ===== src/Prelude/Decimal.antt =====
-- `strconv.FormatInt` and `strconv.ParseInt` in base ten.
use Prim.Native.Nat.{ℕ, zero, suc, ◌+◌, ◌-◌, ◌*◌, ◌/◌, ◌%◌, ◌^◌, ◌<◌, ◌≤◌}
use Prim.Native.Char.{Char, code}
use Prim.Native.String.{String, [], ◌∷◌}
use mathlib.Core.Path.{◌≡◌, refl, ap, ◌∙◌}
use mathlib.Core.Bool.{Bool, true, false, ◌&&◌}
use mathlib.Core.Logic.{inl, inr}
use mathlib.Core.Option.{Option, none, some}
use native.Mathlib.Omega.{arith}
use constell.Prelude.Tests.{leb, ltb, eqb, if◌then◌else◌, Bool-cases}
use constell.Prelude.Int.{ℤ, pos, negsuc}

abbrev pub int64_max : ℕ
int64_max = 2 ^ 63 - 1

digit : ℕ → Char
digit zero = "0"
digit (suc zero) = "1"
digit (suc (suc zero)) = "2"
digit (suc (suc (suc zero))) = "3"
digit (suc (suc (suc (suc zero)))) = "4"
digit (suc (suc (suc (suc (suc zero))))) = "5"
digit (suc (suc (suc (suc (suc (suc zero)))))) = "6"
digit (suc (suc (suc (suc (suc (suc (suc zero))))))) = "7"
digit (suc (suc (suc (suc (suc (suc (suc (suc zero)))))))) = "8"
digit _ = "9"

-- The digits of a number in front of a text; the fuel is at least the number of digits.
print_before : ℕ → ℕ → String → String
unfolding digit
print_before zero n s = s
print_before (suc fuel) n s =
    let rest = print_before fuel (n / 10) (digit (n % 10) ∷ s) in
    if ltb n 10 then digit n ∷ s else rest

-- FormatInt of a number that is not negative.
unfoldable pub format_int : ℕ → String
unfolding print_before
format_int n = print_before (suc n) n []

-- The digits of a text, after a number.
parse_digits : ℕ → String → Option ℕ
parse_digits n [] = some n
parse_digits n (c ∷ s) =
    let d = code c in if leb 48 d && leb d 57 then parse_digits (n * 10 + (d - 48)) s else none

in_range : Bool → Option ℕ → Option ℤ
in_range minus none = none
in_range false (some n) = if leb n int64_max then some (pos n) else none
in_range true (some zero) = some (pos zero)
in_range true (some (suc n)) = if leb n int64_max then some (negsuc n) else none

-- A sign alone, or no text, is an error.
parse_unsigned : Bool → String → Option ℤ
parse_unsigned minus [] = none
parse_unsigned minus (c ∷ s) = in_range minus (parse_digits 0 (c ∷ s))

unfoldable pub parse_int : String → Option ℤ
unfolding parse_digits in_range parse_unsigned
parse_int [] = none
parse_int (c ∷ s) =
    if eqb (code c) b'-'
    then parse_unsigned true s
    else if eqb (code c) b'+'
    then parse_unsigned false s
    else parse_unsigned false (c ∷ s)

parse_examples :
    (parse_int "120" ≡ some (pos 120)) × (parse_int "-3" ≡ some (negsuc 2)) × (parse_int "x" ≡ none)
unfolding parse_int
parse_examples = (refl, refl, refl)

code-digit : (d : ℕ) → d < 10 → code (digit d) ≡ 48 + d
unfolding digit
code-digit zero h = refl
code-digit (suc zero) h = refl
code-digit (suc (suc zero)) h = refl
code-digit (suc (suc (suc zero))) h = refl
code-digit (suc (suc (suc (suc zero)))) h = refl
code-digit (suc (suc (suc (suc (suc zero))))) h = refl
code-digit (suc (suc (suc (suc (suc (suc zero)))))) h = refl
code-digit (suc (suc (suc (suc (suc (suc (suc zero))))))) h = refl
code-digit (suc (suc (suc (suc (suc (suc (suc (suc zero)))))))) h = refl
code-digit (suc (suc (suc (suc (suc (suc (suc (suc (suc zero))))))))) h = refl
code-digit (suc (suc (suc (suc (suc (suc (suc (suc (suc (suc d)))))))))) h = absurd (omega arith)

parse_digits_step :
    (n d : ℕ) (s : String) → d < 10 → parse_digits n (digit d ∷ s) ≡ parse_digits (n * 10 + d) s
unfolding parse_digits
parse_digits_step n d s h =
    let low : leb 48 (48 + d) ≡ true = ground arith in
    let high : leb (48 + d) 57 ≡ true = ground arith in
    let value : 48 + d - 48 ≡ d = omega arith in rw (code-digit d h, low, high, value)

parse_digits-print_before :
    (fuel n : ℕ) (s : String) → n < fuel → parse_digits 0 (print_before fuel n s) ≡ parse_digits n s
unfolding print_before
parse_digits-print_before zero n s h = absurd (omega arith)
parse_digits-print_before (suc fuel) n s h = elim (Bool-cases (ltb n 10)) [
  | inl small ↦
      rw small
        (parse_digits_step 0 n s (ground arith) ∙ ap (λ (m : ℕ). parse_digits m s) (omega arith))
  | inr large ↦ rw large (
      parse_digits-print_before fuel (n / 10) (digit (n % 10) ∷ s) (ground arith)
      ∙ parse_digits_step (n / 10) (n % 10) s (omega arith)
      ∙ ap (λ (m : ℕ). parse_digits m s) (omega arith))
]

abbrev StartsWithDigit : String → Type 0
StartsWithDigit [] = ⊥
StartsWithDigit (c ∷ s) = 48 ≤ code c

print_before-StartsWithDigit :
    (fuel n : ℕ) (s : String) → n < fuel → StartsWithDigit (print_before fuel n s)
unfolding print_before
print_before-StartsWithDigit zero n s h = absurd (omega arith)
print_before-StartsWithDigit (suc fuel) n s h = elim (Bool-cases (ltb n 10)) [
  | inl small ↦ rw small (omega (arith, code-digit n (ground arith)))
  | inr large ↦
      rw large (print_before-StartsWithDigit fuel (n / 10) (digit (n % 10) ∷ s) (ground arith))
]

parse_int_digits :
    (s : String) (n : ℕ)
    → StartsWithDigit s
    → parse_digits 0 s ≡ some n
    → n ≤ int64_max
    → parse_int s ≡ some (pos n)
unfolding parse_int
parse_int_digits [] n d h small = absurd d
parse_int_digits (c ∷ s) n d h small =
    let fits : leb n int64_max ≡ true = ground arith in
    let plain : eqb (code c) b'-' ≡ false = ground arith in
    let unsigned : eqb (code c) b'+' ≡ false = ground arith in
    rw (plain, unsigned) (unfold parse_unsigned in rw (h, in_range, fits))

-- Reading a printed number gives it back, if it fits an int64.
pub parse_int-format_int : (n : ℕ) → n ≤ int64_max → parse_int (format_int n) ≡ some (pos n)
unfolding format_int
parse_int-format_int n h =
    let full = print_before (suc n) n [] in
    parse_int_digits full n (print_before-StartsWithDigit (suc n) n [] (omega arith))
      (parse_digits-print_before (suc n) n [] (omega arith) ∙ unfold parse_digits in refl) h
