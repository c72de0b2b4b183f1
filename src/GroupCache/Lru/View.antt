-- ===== src/GroupCache/Lru/View.antt =====
-- What a client of the LRU cache sees: the entries in order of use, as plain pairs; and the
-- specification of its operations on such a list.
use constell.Prelude.{
  ℕ, zero, suc, ◌≡◌, refl, ap, true, false, Option, none, some, List, [], ◌∷◌, arith, if◌then◌else◌,
  eqb_iff, Comparable, ◌==◌, nat_eq, string_eq, length, take, contains,
}
use constell.GroupCache.Lru.{LruEntry, LruCache, remove_element, set_cell}

-- The specification: pairs, the most recently used first, and no key twice.
module _ {ℓ} {K V : Type ℓ} ⦃e : Comparable K⦄ where
  abbrev pub lookup : K → List (K × V) → Option V
  lookup k [] = none
  lookup k ((j, v) ∷ l) = if j == k then some v else lookup k l

  abbrev pub erase : K → List (K × V) → List (K × V)
  erase k [] = []
  erase k ((j, v) ∷ l) = if j == k then l else (j, v) ∷ erase k l

  -- A read that hits makes its key the most recent.
  abbrev pub promote : K → Option V → List (K × V) → List (K × V)
  promote k none l = l
  promote k (some v) l = (k, v) ∷ erase k l

module _ {ℓ} {K V : Type ℓ} where
  abbrev pub view_cell : Option (LruEntry K V) → List (K × V) → List (K × V)
  view_cell none l = l
  view_cell (some entry) l = (entry.key, entry.value) ∷ l

  abbrev pub view_of : (ℕ → Option (LruEntry K V)) → List ℕ → List (K × V)
  view_of h [] = []
  view_of h (x ∷ xs) = view_cell (h x) (view_of h xs)

  abbrev pub view : LruCache K V → List (K × V)
  view c = view_of c.entries c.order

module _ {ℓ} {K V : Type ℓ} ⦃e : Comparable K⦄ where
  -- The heap cell at an address, and the map entry of its key, point at one another.
  abbrev pub Linked : (K → Option ℕ) → (ℕ → Option (LruEntry K V)) → ℕ → Type ℓ
  Linked items h x = (entry : LruEntry K V) × (h x ≡ some entry) × (items entry.key ≡ some x)

  abbrev pub AllLinked : (K → Option ℕ) → (ℕ → Option (LruEntry K V)) → List ℕ → Type ℓ
  AllLinked items h xs = (x : ℕ) → contains x xs ≡ true → Linked items h x

  pub AllLinked-tail :
      (items : K → Option ℕ) (h : ℕ → Option (LruEntry K V)) (x : ℕ) (xs : List ℕ)
      → AllLinked items h (x ∷ xs)
      → AllLinked items h xs
  AllLinked-tail items h x xs linked y p = linked y (ground arith)

module _ {ℓ} {K V : Type ℓ} ⦃e : Comparable K⦄ (items : K → Option ℕ)
    (h : ℕ → Option (LruEntry K V)) where
  pub length-view_of : (xs : List ℕ) → AllLinked items h xs → length (view_of h xs) ≡ length xs
  length-view_of [] linked = refl
  length-view_of (x ∷ xs) linked =
      let (entry, at, _) = linked x (ground (arith, eqb_iff x x)) in
      rw at (ap suc (length-view_of xs (AllLinked-tail items h x xs linked)))

  pub view_of-take :
      (n : ℕ) (xs : List ℕ) → AllLinked items h xs → view_of h (take n xs) ≡ take n (view_of h xs)
  view_of-take zero xs linked = refl
  view_of-take (suc n) [] linked = refl
  view_of-take (suc n) (x ∷ xs) linked =
      let (entry, at, _) = linked x (ground (arith, eqb_iff x x)) in
      rw at
        (ap (◌∷◌ (entry.key, entry.value)) (view_of-take n xs (AllLinked-tail items h x xs linked)))

  pub view_of-remove_element :
      (x : ℕ) (k : K) (xs : List ℕ)
      → AllLinked items h xs
      → items k ≡ some x
      → ((entry : LruEntry K V) → h x ≡ some entry → entry.key ≡ k)
      → view_of h (remove_element x xs) ≡ erase k (view_of h xs)
  unfolding remove_element
  view_of-remove_element x k [] linked at same = refl
  view_of-remove_element x k (y ∷ ys) linked at same =
      let (entry, here, back_here) = linked y (ground (arith, eqb_iff y y)) in
      let rest = view_of-remove_element x k ys (AllLinked-tail items h y ys linked) at same in
      ground (arith, e.equal_iff entry.key k, eqb_iff y x, rest, same entry)

  pub lookup-view_of :
      (x : ℕ) (k : K) (v : V) (xs : List ℕ)
      → AllLinked items h xs
      → items k ≡ some x
      → contains x xs ≡ true
      → h x ≡ some (record { key = k; value = v })
      → lookup k (view_of h xs) ≡ some v
  lookup-view_of x k v [] linked at on cell = cc
  lookup-view_of x k v (y ∷ ys) linked at on cell =
      let (entry, here, back_here) = linked y (ground (arith, eqb_iff y y)) in
      let rest = lookup-view_of x k v ys (AllLinked-tail items h y ys linked) at in
      ground (arith, e.equal_iff entry.key k, eqb_iff y x, rest)

  pub lookup-view_of-none :
      (k : K) (xs : List ℕ) → AllLinked items h xs → items k ≡ none → lookup k (view_of h xs) ≡ none
  lookup-view_of-none k [] linked at = refl
  lookup-view_of-none k (y ∷ ys) linked at =
      let (entry, here, back_here) = linked y (ground (arith, eqb_iff y y)) in
      let rest = lookup-view_of-none k ys (AllLinked-tail items h y ys linked) at in
      ground (arith, e.equal_iff entry.key k, rest)

-- A write to a cell that is not of the list changes nothing that the list shows.
pub view_of-set_cell {ℓ} :
    {K V : Type ℓ} (h : ℕ → Option (LruEntry K V)) (x : ℕ) (entry : LruEntry K V) (xs : List ℕ)
    → contains x xs ≡ false
    → view_of (set_cell x entry h) xs ≡ view_of h xs
view_of-set_cell h x entry [] off = refl
view_of-set_cell h x entry (y ∷ ys) off =
    ground (arith, view_of-set_cell h x entry ys, eqb_iff x y, eqb_iff y x)

pub erase_absent {ℓ} :
    {K V : Type ℓ} ⦃e : Comparable K⦄ (k : K) (l : List (K × V)) → lookup k l ≡ none → erase k l ≡ l
erase_absent k [] h = refl
erase_absent k ((j, v) ∷ l) h = ground (arith, erase_absent k l)
