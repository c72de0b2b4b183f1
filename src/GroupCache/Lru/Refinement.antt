-- ===== src/GroupCache/Lru/Refinement.antt =====
-- The LRU cache refines a bounded list of pairs in order of use.
use constell.Prelude.{
  ℕ, zero, suc, ◌+◌, ◌-◌, ◌≤◌, ◌<◌, ◌≡◌, refl, sym, ap, ◌∙◌, inl, inr, false, none, some, ◌∷◌,
  arith, ltb, ltb→lt, Bool-cases, Option-cases, Comparable, nat_eq, string_eq, equal_refl, length,
  take, take-of_le, contains, take-take,
}
use constell.GroupCache.Lru.{
  LruCache, remove_element, move_to_front, get, evict_oldest, evict, push_front, write_value, add,
  remove, entry_value, delete_key_of,
}
use constell.GroupCache.Lru.Elements.{
  length-remove_element, contains-back, remove_element-back, back_total, move_to_front_lem,
}
use constell.GroupCache.Lru.View.{
  lookup, erase, promote, view, AllLinked-tail, length-view_of, view_of-take,
  view_of-remove_element, lookup-view_of, lookup-view_of-none, view_of-set_cell, erase_absent,
}
use constell.GroupCache.Lru.Invariant.{
  IsCoherent, IsValid, move_to_front-IsCoherent, drop-IsCoherent, push_front-IsCoherent,
  write_value-IsCoherent,
}

module _ {ℓ} {K V : Type ℓ} ⦃e : Comparable K⦄ where
  -- One round of eviction drops the last pair.
  abbrev Evicts : ℕ → LruCache K V → LruCache K V → Type ℓ
  Evicts n c d =
      IsCoherent d × (view d ≡ take n (view c)) × (length d.order ≡ n) × (d.max_size ≡ c.max_size)

  evict_oldest-Evicts :
      (c : LruCache K V)
      → IsCoherent c
      → 0 < length c.order
      → Evicts (length c.order - 1) c (evict_oldest c)
  unfolding evict_oldest delete_key_of
  evict_oldest-Evicts c v h =
      let (x, last) = back_total c.order h in
      let on = contains-back x c.order last in
      let (entry, at, back_at) = v.linked x on in
      let shorter = remove_element-back x c.order v.distinct last in
      rw (last, evict_oldest, at, delete_key_of)
        (
          drop-IsCoherent c x entry.key back_at v,
          rw shorter (view_of-take c.items c.entries (length c.order - 1) c.order v.linked),
          ground (arith, length-remove_element x c.order on),
          refl,
        )

  -- The loop that evicts ends by its test: from a cache whose map, list and entries agree, within
  -- as many rounds as it has pairs above its capacity, it leaves a valid cache, no longer than
  -- its capacity, that holds the first pairs in their order.
  pub evict_lem :
      (n : ℕ) (c : LruCache K V)
      → IsCoherent c
      → length c.order ≤ c.max_size + n
      → IsValid (evict n c) × (view (evict n c) ≡ take c.max_size (view c))
  unfolding evict
  evict_lem zero c v h = (
    record { coherent = v; bounded = omega arith },
    sym (
        take-of_le c.max_size (view c)
          (rw (length-view_of c.items c.entries c.order v.linked) (omega arith))),
  )
  evict_lem (suc n) c v h = elim (Bool-cases (ltb c.max_size (length c.order))) [
    | inl over ↦
        let long = ltb→lt c.max_size (length c.order) over in
        let (w, seen, len, same) = evict_oldest-Evicts c v (omega arith) in
        let (valid, left) = evict_lem n (evict_oldest c) w (omega arith) in
        rw (over, evict)
          (
            valid,
            left
                ∙ rw (same, seen)
                    (take-take c.max_size (length c.order - 1) (view c) (omega arith)),
          )
    | inr fits ↦
        rw (fits, evict)
          (
            record { coherent = v; bounded = ground arith },
            sym (
                take-of_le c.max_size (view c)
                  (rw (length-view_of c.items c.entries c.order v.linked) (ground arith))),
          )
  ]

  -- On a valid LRU cache, Get returns what the list of pairs holds, makes a hit the most recent
  -- pair, and leaves the cache valid.
  pub get-refines :
      (c : LruCache K V) (k : K)
      → IsValid c
      → ((get k c).1 ≡ lookup k (view c))
        × (view (get k c).0 ≡ promote k (lookup k (view c)) (view c))
        × IsValid (get k c).0
  unfolding get move_to_front entry_value
  get-refines c k v = elim (Option-cases (c.items k)) [
    | inl missing ↦
        let absent = lookup-view_of-none c.items c.entries k c.order v.coherent.linked missing in
        rw (missing, get, absent) (refl, refl, v)
    | inr (x, at) ↦
        let i = v.coherent in
        let on = i.indexed k x at in
        let (entry, here, _) = i.linked x on in
        let same = i.keyed k x entry at here in
        let cell : c.entries x ≡ some (record { key = k; value = entry.value }) =
          ground (arith, same) in
        let present =
          lookup-view_of c.items c.entries x k entry.value c.order i.linked at on cell in
        let erased =
          view_of-remove_element c.items c.entries x k c.order i.linked at
            (λ n h. i.keyed k x n at h) in
        rw (at, get, on, present, cell, entry_value)
          (
            refl,
            ap (◌∷◌ (k, entry.value)) erased,
            record {
              coherent = move_to_front-IsCoherent c x on i;
              bounded = omega (arith, length-remove_element x c.order on, v.bounded);
            },
          )
  ]

  add_new :
      (c : LruCache K V) (k : K) (v : V)
      → IsValid c
      → c.items k ≡ none
      → (view (add k v c) ≡ take c.max_size ((k, v) ∷ erase k (view c))) × IsValid (add k v c)
  unfolding add push_front
  add_new c k v i missing =
      let d = push_front k v c in
      let w : IsCoherent d = push_front-IsCoherent c k v missing i.coherent in
      let (valid, seen) = evict_lem (suc (length c.order)) d w (omega (arith, i.bounded)) in
      let fresh : contains c.next_element c.order ≡ false =
        ground (arith, i.coherent.allocated c.next_element) in
      let kept =
        view_of-set_cell c.entries c.next_element (record { key = k; value = v }) c.order fresh in
      let absent = lookup-view_of-none c.items c.entries k c.order i.coherent.linked missing in
      rw (missing, add, erase_absent k (view c) absent)
        (seen ∙ ap (take c.max_size) (rw (equal_refl c.next_element) (ap (◌∷◌ (k, v)) kept)), valid)

  add_old :
      (c : LruCache K V) (k : K) (v : V) (x : ℕ)
      → IsValid c
      → c.items k ≡ some x
      → (view (add k v c) ≡ take c.max_size ((k, v) ∷ erase k (view c))) × IsValid (add k v c)
  unfolding add write_value
  add_old c k v x i at =
      let m = i.coherent in
      let on = m.indexed k x at in
      let (entry, here, _) = m.linked x on in
      let same = m.keyed k x entry at here in
      let moved : LruCache K V = record c { order = x ∷ remove_element x c.order } in
      let w : IsCoherent moved = move_to_front-IsCoherent c x on m in
      let len = length-remove_element x c.order on in
      let off : contains x (remove_element x c.order) ≡ false = w.distinct.0 in
      let erased =
        view_of-remove_element c.items c.entries x k c.order m.linked at
          (λ n h. m.keyed k x n at h) in
      let kept =
        view_of-set_cell c.entries x (record { key = entry.key; value = v })
          (remove_element x c.order) off in
      let rest = remove_element x c.order in
      let shrunk : length (erase k (view c)) ≡ length rest =
        ap length (sym erased)
        ∙ length-view_of c.items c.entries rest
            (AllLinked-tail c.items c.entries x rest w.linked) in
      let coherent = write_value-IsCoherent moved x v w in
      let front : move_to_front x c.order ≡ x ∷ rest = move_to_front_lem x c.order on in
      rw (at, add, here, write_value, front, equal_refl x)
        (
          rw (kept, erased, same)
              (sym (take-of_le c.max_size _ (omega (arith, shrunk, i.bounded, len)))),
          record {
            coherent = rw (here, write_value) at coherent;
            bounded = omega (arith, len, i.bounded);
          },
        )

  -- On a valid LRU cache, Add puts the pair in front of the others, drops the oldest beyond the
  -- capacity, and leaves the cache valid.
  pub add-refines :
      (c : LruCache K V) (k : K) (v : V)
      → IsValid c
      → (view (add k v c) ≡ take c.max_size ((k, v) ∷ erase k (view c))) × IsValid (add k v c)
  add-refines c k v i = elim (Option-cases (c.items k)) [
    | inl missing ↦ add_new c k v i missing
    | inr (x, at) ↦ add_old c k v x i at
  ]

  -- On a valid LRU cache, Remove drops the pair of the key and leaves the cache valid.
  pub remove-refines :
      (c : LruCache K V) (k : K)
      → IsValid c
      → (view (remove k c) ≡ erase k (view c)) × IsValid (remove k c)
  unfolding remove
  remove-refines c k v = elim (Option-cases (c.items k)) [
    | inl missing ↦
        let absent = lookup-view_of-none c.items c.entries k c.order v.coherent.linked missing in
        rw (missing, remove, erase_absent k (view c) absent) (refl, v)
    | inr (x, at) ↦
        let i = v.coherent in
        let on = i.indexed k x at in
        rw (at, remove)
          (
            view_of-remove_element c.items c.entries x k c.order i.linked at
                (λ n h. i.keyed k x n at h),
            record {
              coherent = drop-IsCoherent c x k at i;
              bounded = omega (arith, length-remove_element x c.order on, v.bounded);
            },
          )
  ]

-- No operation changes the capacity.
module _ {ℓ} {K V : Type ℓ} ⦃e : Comparable K⦄ where
  max_size-evict : (n : ℕ) (c : LruCache K V) → (evict n c).max_size ≡ c.max_size
  unfolding evict evict_oldest
  max_size-evict zero c = refl
  max_size-evict (suc n) c = ground (arith, max_size-evict n (evict_oldest c))

  pub max_size-get : (k : K) (c : LruCache K V) → (get k c).0.max_size ≡ c.max_size
  unfolding get
  max_size-get k c = ground arith

  pub max_size-add : (k : K) (v : V) (c : LruCache K V) → (add k v c).max_size ≡ c.max_size
  unfolding add push_front write_value
  max_size-add k v c = ground (arith, max_size-evict (suc (length c.order)) (push_front k v c))

  pub max_size-remove : (k : K) (c : LruCache K V) → (remove k c).max_size ≡ c.max_size
  unfolding remove
  max_size-remove k c = ground arith
