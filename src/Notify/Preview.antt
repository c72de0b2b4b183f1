-- ===== src/Notify/Preview.antt =====
-- `truncate` of backend/services/notify-service/subscriber.go, which makes the preview of a message.
-- A Go string is its bytes.
use constell.Prelude.{
  ℕ, zero, suc, ◌-◌, ◌≤◌, ◌<◌, min, ◌≡◌, refl, sym, ap, inl, inr, true, false, List, [], ◌∷◌, ◌++◌,
  arith, leb, if◌then◌else◌, Bool-cases, nat_eq, string_eq, length, take, drop, length-append,
  length-take, take-of_le,
}

-- "..."
abbrev pub ellipsis : List ℕ
ellipsis = 46 ∷ 46 ∷ 46 ∷ []

unfoldable pub truncate : List ℕ → ℕ → List ℕ
truncate s max_len =
    if leb (length s) max_len
    then s
    else if leb max_len 3
    then take max_len s
    else take (max_len - 3) s ++ ellipsis

take-taken : (n : ℕ) (s rest : List ℕ) → n ≤ length s → take n (take n s ++ rest) ≡ take n s
take-taken zero s rest h = refl
take-taken (suc n) [] rest h = absurd (omega arith)
take-taken (suc n) (b ∷ s) rest h = ap (◌∷◌ b) (take-taken n s rest (omega arith))

take_truncated :
    (s : List ℕ) (max_len : ℕ) → take (max_len - 3) (truncate s max_len) ≡ take (max_len - 3) s
unfolding truncate
take_truncated s max_len = elim (Bool-cases (leb (length s) max_len)) [
  | inl fits ↦ rw fits refl
  | inr long ↦ rw long (elim (Bool-cases (leb max_len 3)) [
    | inl tiny ↦ let none_kept : max_len - 3 ≡ 0 = ground arith in rw (tiny, none_kept) refl
    | inr wide ↦ rw wide (take-taken (max_len - 3) s ellipsis (ground arith))
  ])
]

drop-take-append : (n : ℕ) (s rest : List ℕ) → n ≤ length s → drop n (take n s ++ rest) ≡ rest
drop-take-append zero s rest h = refl
drop-take-append (suc n) [] rest h = absurd (omega arith)
drop-take-append (suc n) (b ∷ s) rest h = drop-take-append n s rest (omega arith)

-- The last three bytes of what was cut.
drop_truncated :
    (s : List ℕ) (max_len : ℕ)
    → max_len < length s
    → 3 < max_len
    → drop (max_len - 3) (truncate s max_len) ≡ 46 ∷ 46 ∷ 46 ∷ []
unfolding truncate
drop_truncated s max_len long wide =
    let over : leb (length s) max_len ≡ false = ground arith in
    let more : leb max_len 3 ≡ false = ground arith in
    rw (over, more) (drop-take-append (max_len - 3) s ellipsis (omega arith))

tiny_truncated : (s : List ℕ) (max_len : ℕ) → max_len ≤ 3 → truncate s max_len ≡ take max_len s
unfolding truncate
tiny_truncated s max_len tiny =
    let small : leb max_len 3 ≡ true = ground arith in
    elim (Bool-cases (leb (length s) max_len)) [
      | inl fits ↦ rw fits (sym (take-of_le max_len s (ground arith)))
      | inr long ↦ rw (long, small) refl
    ]

-- In bytes, the result of truncate is as long as the string or the bound, whichever is less; a
-- string within the bound is kept; and a longer one keeps its first bytes up to three less than
-- the bound and ends in "...", or is cut to its first bytes where the bound is at most three.
pub truncate_lem :
    (s : List ℕ) (max_len : ℕ)
    → (length (truncate s max_len) ≡ min (length s) max_len)
      × (length s ≤ max_len → truncate s max_len ≡ s)
      × (take (max_len - 3) (truncate s max_len) ≡ take (max_len - 3) s)
      × (max_len < length s
          → 3 < max_len
          → drop (max_len - 3) (truncate s max_len) ≡ 46 ∷ 46 ∷ 46 ∷ [])
      × (max_len ≤ 3 → truncate s max_len ≡ take max_len s)
unfolding truncate
truncate_lem s max_len = (
  ground (
    arith,
    length-append (take (max_len - 3) s) ellipsis,
    length-take (max_len - 3) s,
    length-take max_len s,
  ),
  λ fits. ground arith,
  take_truncated s max_len,
  drop_truncated s max_len,
  tiny_truncated s max_len,
)
