-- ===== src/GroupCache/Lru/Elements.antt =====
-- The list operations of groupcache.go's LRU list, on addresses.
use constell.Prelude.{
  ◌<◌, ℕ, ◌+◌, ◌-◌, ◌≡◌, refl, true, false, some, List, [], ◌∷◌, arith, eqb, eqb_iff, length, take,
  nat_eq, contains, Distinct, if◌then◌else◌,
}
use constell.GroupCache.Lru.{remove_element, move_to_front, back}

pub contains-remove_element :
    (x y : ℕ) (xs : List ℕ)
    → Distinct xs
    → contains y (remove_element x xs) ≡ (if eqb x y then false else contains y xs)
unfolding remove_element
contains-remove_element x y [] d = ground arith
contains-remove_element x y (z ∷ zs) d =
    ground (arith, contains-remove_element x y zs d.1, eqb_iff x y, eqb_iff z y, eqb_iff z x)

pub remove_element-Distinct : (x : ℕ) (xs : List ℕ) → Distinct xs → Distinct (remove_element x xs)
unfolding remove_element
remove_element-Distinct x [] d = tt
remove_element-Distinct x (z ∷ zs) d =
    ground (arith, remove_element-Distinct x zs d.1, contains-remove_element x z zs d.1)

pub length-remove_element :
    (x : ℕ) (xs : List ℕ) → contains x xs ≡ true → length (remove_element x xs) + 1 ≡ length xs
unfolding remove_element
length-remove_element x [] h = cc
length-remove_element x (z ∷ zs) h = ground (arith, length-remove_element x zs)

-- The last element is on the list.
pub contains-back : (x : ℕ) (xs : List ℕ) → back xs ≡ some x → contains x xs ≡ true
unfolding back
contains-back x [] h = cc
contains-back x (y ∷ []) h = ground arith
contains-back x (y ∷ z ∷ zs) h = ground (arith, contains-back x (z ∷ zs) h)

-- Removing the last element keeps all the others, in order.
pub remove_element-back :
    (x : ℕ) (xs : List ℕ)
    → Distinct xs
    → back xs ≡ some x
    → remove_element x xs ≡ take (length xs - 1) xs
unfolding remove_element back
remove_element-back x [] d h = cc
remove_element-back x (y ∷ []) d h = ground arith
remove_element-back x (y ∷ z ∷ zs) d h =
    ground (arith, remove_element-back x (z ∷ zs) d.1 h, contains-back x (z ∷ zs) h, eqb_iff y x)

-- A list that is not empty has a last element.
pub back_total : (xs : List ℕ) → 0 < length xs → (x : ℕ) × (back xs ≡ some x)
unfolding back
back_total [] h = absurd (omega arith)
back_total (x ∷ []) h = (x, refl)
back_total (x ∷ y ∷ ys) h = back_total (y ∷ ys) (omega arith)

pub move_to_front_lem :
    (x : ℕ) (xs : List ℕ) → contains x xs ≡ true → move_to_front x xs ≡ x ∷ remove_element x xs
unfolding move_to_front
move_to_front_lem x xs h = rw h
