-- ===== src/Search/Ranking.antt =====
-- What holds of the rows of a join and of the best of them by rank.
use constell.Prelude.{
  ℕ, zero, suc, ◌≤◌, ◌≡◌, refl, inl, inr, Bool, true, List, [], ◌∷◌, map, arith, leb, Bool-cases,
  nat_eq, string_eq, length, take, any, All, length-take, All-map, All-append,
}
use constell.Sql.{order_by, insert_by}
use constell.Search.{best, flat_map}

module _ {ℓ} {A : Type ℓ} where
  pub All-insert_by {κ} :
      (P : A → Type κ) (le : A → A → Bool) (x : A) (xs : List A)
      → P x
      → All P xs
      → All P (insert_by le x xs)
  unfolding insert_by
  All-insert_by P le x [] p h = (p, tt)
  All-insert_by P le x (y ∷ ys) p h = elim (Bool-cases (le x y)) [
    | inl first ↦ rw first (p, h)
    | inr later ↦ rw later (h.0, All-insert_by P le x ys p h.1)
  ]

  pub All-order_by {κ} :
      (P : A → Type κ) (le : A → A → Bool) (xs : List A) → All P xs → All P (order_by le xs)
  unfolding order_by
  All-order_by P le [] h = tt
  All-order_by P le (x ∷ xs) h =
      All-insert_by P le x (order_by le xs) h.0 (All-order_by P le xs h.1)

  pub All-take {κ} : (P : A → Type κ) (n : ℕ) (xs : List A) → All P xs → All P (take n xs)
  All-take P zero xs h = tt
  All-take P (suc n) [] h = tt
  All-take P (suc n) (x ∷ xs) h = (h.0, All-take P n xs h.1)

  pub All-best {κ} :
      (P : A → Type κ) (relevance : A → ℕ) (n : ℕ) (xs : List A)
      → All P xs
      → All P (best relevance n xs)
  unfolding best
  All-best P relevance n xs h = All-take P n _ (All-order_by P _ xs h)

  pub length-best : (relevance : A → ℕ) (n : ℕ) (xs : List A) → length (best relevance n xs) ≤ n
  unfolding best
  length-best relevance n xs =
      omega (arith, length-take n (order_by (λ a b. leb (relevance b) (relevance a)) xs))

  -- Each element of a list passes a test of its own that some element passes.
  pub All-any :
      (test : A → A → Bool)
      → ((x : A) → test x x ≡ true)
      → (xs : List A) → All (λ x. any (test x) xs ≡ true) xs
  All-any test itself [] = tt
  All-any test itself (x ∷ xs) = (
    rw (itself x) refl,
    All-map (λ a h. ground (arith, h, Bool-cases (test a x))) xs (All-any test itself xs),
  )

  pub any-weaken :
      (p q : A → Bool)
      → ((x : A) → p x ≡ true → q x ≡ true)
      → (xs : List A) → any p xs ≡ true
      → any q xs ≡ true
  any-weaken p q f [] h = h
  any-weaken p q f (x ∷ xs) h = elim (Bool-cases (p x)) [
    | inl y ↦ rw (f x y) refl
    | inr n ↦
        let rest : any p xs ≡ true = ground (arith, h, n) in
        rw (any-weaken p q f xs rest) (ground (arith, Bool-cases (q x)))
  ]

module _ {ℓ ℓ'} {A : Type ℓ} {B : Type ℓ'} where
  pub All-mapped {κ} :
      (P : B → Type κ) (f : A → B) (xs : List A) → All (λ x. P (f x)) xs → All P (map f xs)
  All-mapped P f [] h = tt
  All-mapped P f (x ∷ xs) h = (h.0, All-mapped P f xs h.1)

  pub All-flat_map {κ κ'} :
      (P : B → Type κ) (Q : A → Type κ') (f : A → List B)
      → ((a : A) → Q a → All P (f a))
      → (xs : List A) → All Q xs
      → All P (flat_map f xs)
  unfolding flat_map
  All-flat_map P Q f each [] h = tt
  All-flat_map P Q f each (x ∷ xs) h =
      All-append P (f x) (flat_map f xs) (each x h.0) (All-flat_map P Q f each xs h.1)

  pub All-flat_map_each {κ} :
      (P : B → Type κ) (f : A → List B)
      → ((a : A) → All P (f a))
      → (xs : List A) → All P (flat_map f xs)
  unfolding flat_map
  All-flat_map_each P f each [] = tt
  All-flat_map_each P f each (x ∷ xs) =
      All-append P (f x) (flat_map f xs) (each x) (All-flat_map_each P f each xs)
