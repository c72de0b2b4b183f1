-- ===== src/GroupCache/Lru/Invariant.antt =====
-- The map, the list and the heap of the LRU cache agree, and every operation keeps them so.
use constell.Prelude.{
  ℕ, ◌≤◌, ◌<◌, ◌≡◌, sym, ap, ◌∙◌, inl, inr, true, none, some, ◌∷◌, arith, eqb, eqb_iff, Bool-cases,
  Option-cases, Comparable, nat_eq, string_eq, equal_refl, length, contains, Distinct,
}
use constell.GroupCache.Lru.{
  LruEntry, LruCache, remove_element, delete_item, new_lru_cache, push_front, write_value,
}
use constell.GroupCache.Lru.Elements.{contains-remove_element, remove_element-Distinct}
use constell.GroupCache.Lru.View.{AllLinked}

-- The state between two steps of an operation: all but the bound on the size.
pub record IsCoherent {ℓ} {K V : Type ℓ} ⦃e : Comparable K⦄ (c : LruCache K V) : Type ℓ where
  pub linked : AllLinked c.items c.entries c.order
  pub indexed : (k : K) (x : ℕ) → c.items k ≡ some x → contains x c.order ≡ true
  pub keyed :
      (k : K) (x : ℕ) (entry : LruEntry K V)
      → c.items k ≡ some x
      → c.entries x ≡ some entry
      → entry.key ≡ k
  pub distinct : Distinct c.order
  pub allocated : (x : ℕ) → contains x c.order ≡ true → x < c.next_element

pub record IsValid {ℓ} {K V : Type ℓ} ⦃e : Comparable K⦄ (c : LruCache K V) : Type ℓ where
  pub coherent : IsCoherent c
  pub bounded : length c.order ≤ c.max_size

module _ {ℓ} {K V : Type ℓ} ⦃e : Comparable K⦄ where
  pub new_lru_cache-IsValid : (n : ℕ) → IsValid (new_lru_cache {K = K} {V = V} n)
  unfolding new_lru_cache
  new_lru_cache-IsValid n = record {
    coherent = record {
      linked = λ x h. cc;
      indexed = λ k x h. cc;
      keyed = λ k x entry h. cc;
      distinct = tt;
      allocated = λ x h. cc;
    };
    bounded = omega arith;
  }

  -- Moving an element of the list to its front.
  pub move_to_front-IsCoherent :
      (c : LruCache K V) (x : ℕ)
      → contains x c.order ≡ true
      → IsCoherent c
      → IsCoherent (record c { order = x ∷ remove_element x c.order })
  move_to_front-IsCoherent c x on v = record {
    linked = λ y h.
        v.linked y (ground (arith, contains-remove_element x y c.order v.distinct, eqb_iff x y));
    indexed =
        λ k y h. ground (arith, contains-remove_element x y c.order v.distinct, v.indexed k y h);
    keyed = v.keyed;
    distinct = (
      ground (arith, contains-remove_element x x c.order v.distinct, eqb_iff x x),
      remove_element-Distinct x c.order v.distinct,
    );
    allocated = λ y h.
        v.allocated y (ground (arith, contains-remove_element x y c.order v.distinct, eqb_iff x y));
  }

  -- Two keys never share an element.
  items_injective :
      (c : LruCache K V) (j k : K) (x : ℕ)
      → IsCoherent c
      → c.items j ≡ some x
      → c.items k ≡ some x
      → j ≡ k
  items_injective c j k x v at_j at_k =
      let (entry, at, _) = v.linked x (v.indexed k x at_k) in
      sym (v.keyed j x entry at_j at) ∙ v.keyed k x entry at_k at

  -- Dropping an element together with its key.
  pub drop-IsCoherent :
      (c : LruCache K V) (x : ℕ) (k : K)
      → c.items k ≡ some x
      → IsCoherent c
      → IsCoherent (record c { order = remove_element x c.order; items = delete_item k c.items })
  drop-IsCoherent c x k at v = record {
    linked = λ y h.
        let on = contains-remove_element x y c.order v.distinct in
        let (entry, here, back_here) = v.linked y (ground (arith, on)) in
        (entry, here, ground (arith, on, e.equal_iff k entry.key, eqb_iff x y));
    indexed = λ j y h. ground (
      arith,
      contains-remove_element x y c.order v.distinct,
      e.equal_iff k j,
      eqb_iff x y,
      v.indexed j y,
      items_injective c k j x v at,
    );
    keyed = λ j y entry h. v.keyed j y entry (ground (arith, e.equal_iff k j));
    distinct = remove_element-Distinct x c.order v.distinct;
    allocated =
        λ y h. v.allocated y (ground (arith, contains-remove_element x y c.order v.distinct));
  }

  pub push_front-IsCoherent :
      (c : LruCache K V) (k : K) (v : V)
      → c.items k ≡ none
      → IsCoherent c
      → IsCoherent (push_front k v c)
  unfolding push_front
  push_front-IsCoherent c k v fresh i = record {
    linked = λ y h. elim (Bool-cases (eqb c.next_element y)) [
      | inl new ↦ (
        record { key = k; value = v },
        rw new,
        ground (arith, equal_refl k, eqb_iff c.next_element y),
      )
      | inr old ↦
          let (entry, here, back_here) = i.linked y (ground arith) in
          (entry, ground arith, ground (arith, e.equal_iff k entry.key))
    ];
    indexed = λ j y h. ground (arith, i.indexed j y, eqb_iff c.next_element y, e.equal_iff k j);
    keyed = λ j y entry h at. ground (
      arith,
      e.equal_iff k j,
      eqb_iff c.next_element y,
      i.keyed j y entry,
      i.indexed j y,
      i.allocated y,
    );
    distinct = (ground (arith, i.allocated c.next_element), i.distinct);
    allocated = λ y h. ground (arith, i.allocated y, eqb_iff c.next_element y);
  }

  pub write_value-IsCoherent :
      (c : LruCache K V) (x : ℕ) (v : V) → IsCoherent c → IsCoherent (write_value x v c)
  unfolding write_value
  write_value-IsCoherent c x v i = elim (Option-cases (c.entries x)) [
    | inl missing ↦ rw (missing, write_value) i
    | inr (entry, at) ↦
        rw (at, write_value)
          (record {
            linked = λ y h.
                let (old, here, back_here) = i.linked y h in
                elim (Bool-cases (eqb x y)) [
                  | inl hit ↦ (
                    record entry { value = v },
                    rw hit,
                    ground (arith, eqb_iff x y, ap c.entries, ap c.items),
                  )
                  | inr miss ↦ (old, rw miss here, back_here)
                ];
            indexed = i.indexed;
            keyed =
                λ j y old h here. ground (arith, eqb_iff x y, i.keyed j y old h, i.keyed j x entry);
            distinct = i.distinct;
            allocated = i.allocated;
          })
  ]
