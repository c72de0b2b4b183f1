-- ===== src/Prelude/Sets.antt =====
-- Lists without repetition, as the keys of a map.
use constell.Prelude.{
  ◌≡◌, refl, ap, ◌∙◌, inl, inr, Bool, true, false, ◌&&◌, ◌||◌, List, [], ◌∷◌, ◌++◌, map, arith,
  Bool-cases, Comparable, ◌==◌, nat_eq, string_eq, eq_of_equal, keep, any, contains, Distinct,
  equal_sym,
}

module _ {ℓ} {A : Type ℓ} ⦃e : Comparable A⦄ where
  pub contains-append :
      (a : A) (xs ys : List A) → contains a (xs ++ ys) ≡ (contains a xs || contains a ys)
  contains-append a [] ys = refl
  contains-append a (x ∷ xs) ys = ground (arith, contains-append a xs ys)

  pub Distinct-snoc :
      (xs : List A) (a : A) → contains a xs ≡ false → Distinct xs → Distinct (xs ++ a ∷ [])
  Distinct-snoc [] a h d = (refl, tt)
  Distinct-snoc (x ∷ xs) a h d = (
    contains-append x xs (a ∷ []) ∙ ground (arith, h, d, equal_sym x a),
    Distinct-snoc xs a (ground (arith, h)) d.1,
  )

  pub contains_equal : (a b : A) (xs : List A) → (a == b) ≡ true → contains a xs ≡ contains b xs
  contains_equal a b xs h = ap (λ x. contains x xs) (eq_of_equal a b h)

module _ {ℓ ℓ'} {A : Type ℓ} {B : Type ℓ'} ⦃e : Comparable B⦄ where
  pub contains-map-keep :
      (b : B) (f : A → B) (p : A → Bool) (xs : List A)
      → contains b (map f (keep p xs)) ≡ any (λ x. p x && f x == b) xs
  contains-map-keep b f p [] = refl
  contains-map-keep b f p (x ∷ xs) = elim (Bool-cases (p x)) [
    | inl y ↦ rw (y, contains-map-keep b f p xs) refl
    | inr n ↦ rw (n, contains-map-keep b f p xs) refl
  ]
