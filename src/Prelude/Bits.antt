-- ===== src/Prelude/Bits.antt =====
-- Single bits of `|` and `&` on native numbers.
use Prim.Native.Nat.{
  ℕ, zero, suc, ◌+◌, ◌*◌, ◌/◌, ◌%◌, ◌^◌, ◌≤◌, min, max, bit_and, bit_or, digits, bit_and-bitwise,
  bit_or-bitwise,
}
use mathlib.Core.Path.{◌≡◌, refl, ap, sym, ◌∙◌}
use native.Mathlib.Nat.{pow-suc}
use native.Mathlib.Omega.{arith}

-- An operation on binary digits, lowest first: `rest` is what it makes of the digits left of the
-- shorter number, `join` combines two digits. Any number of rounds from the number on is enough.
module _ (rest : ℕ → ℕ) (join : ℕ → ℕ → ℕ) where
  at_zero : (b rounds : ℕ) → digits rest join rounds 0 b ≡ rest b
  at_zero b zero = refl
  at_zero b (suc n) = refl

  enough_rounds :
      (a b : ℕ) (n m : ℕ) → a ≤ n → a ≤ m → digits rest join n a b ≡ digits rest join m a b
  enough_rounds zero b n m p q = at_zero b n ∙ sym (at_zero b m)
  enough_rounds (suc a) b zero m p q = absurd (omega arith)
  enough_rounds (suc a) b (suc n) zero p q = absurd (omega arith)
  enough_rounds (suc a) b (suc n) (suc m) p q =
      ap (λ t. t * 2 + join (suc a % 2) (b % 2))
        (enough_rounds (suc a / 2) (b / 2) n m (omega arith) (omega arith))

  lowest_digit :
      (a b : ℕ)
      → digits rest join (suc a) (suc a) b
        ≡ digits rest join (suc a / 2) (suc a / 2) (b / 2) * 2 + join (suc a % 2) (b % 2)
  lowest_digit a b =
      ap (λ t. t * 2 + join (suc a % 2) (b % 2))
        (enough_rounds (suc a / 2) (b / 2) a (suc a / 2) (omega arith) (omega arith))

or_from_halves : (a b : ℕ) → bit_or a b ≡ max (a % 2) (b % 2) + 2 * bit_or (a / 2) (b / 2)
or_from_halves zero b = rw (bit_or-bitwise 0 b, bit_or-bitwise 0 (b / 2)) (omega arith)
or_from_halves (suc n) b =
    rw (bit_or-bitwise (suc n) b, bit_or-bitwise (suc n / 2) (b / 2))
      (omega (arith, lowest_digit (λ d. d) max n b))

and_from_halves : (a b : ℕ) → bit_and a b ≡ min (a % 2) (b % 2) + 2 * bit_and (a / 2) (b / 2)
and_from_halves zero b = rw (bit_and-bitwise 0 b, bit_and-bitwise 0 (b / 2)) (omega arith)
and_from_halves (suc n) b =
    rw (bit_and-bitwise (suc n) b, bit_and-bitwise (suc n / 2) (b / 2))
      (omega (arith, lowest_digit (λ d. zero) min n b))

-- No bit is set in zero; `n` bounds the number.
and_none : (n a : ℕ) → a ≤ n → bit_and a 0 ≡ 0
and_none zero a h = ground (arith, bit_and-bitwise 0 0)
and_none (suc n) a h = omega (arith, and_from_halves a 0, and_none n (a / 2) (omega arith))

-- The digit at a place, lowest first.
abbrev pub bit_at : ℕ → ℕ → ℕ
bit_at a zero = a % 2
bit_at a (suc k) = bit_at (a / 2) k

pub bit_at-bit_or : (k a b : ℕ) → bit_at (bit_or a b) k ≡ max (bit_at a k) (bit_at b k)
bit_at-bit_or zero a b = omega (arith, or_from_halves a b)
bit_at-bit_or (suc k) a b =
    let half : bit_or a b / 2 ≡ bit_or (a / 2) (b / 2) = omega (arith, or_from_halves a b) in
    rw half (bit_at-bit_or k (a / 2) (b / 2))

-- A mask with one bit picks that bit.
pub bit_and_power : (k a : ℕ) → bit_and a (2 ^ k) ≡ bit_at a k * 2 ^ k
bit_and_power zero a = omega (arith, and_from_halves a 1, and_none (a / 2) (a / 2) (omega arith))
bit_and_power (suc k) a =
    let half : 2 ^ suc k / 2 ≡ 2 ^ k = omega (arith, pow-suc 2 k) in
    omega (
      arith,
      and_from_halves a (2 ^ suc k),
      ap (bit_and (a / 2)) half,
      bit_and_power k (a / 2),
      pow-suc 2 k,
      ap (λ (t : ℕ). bit_at (a / 2) k * t) (pow-suc 2 k),
    )

pub bit_at-le : (k a : ℕ) → bit_at a k ≤ 1
bit_at-le zero a = omega arith
bit_at-le (suc k) a = bit_at-le k (a / 2)
