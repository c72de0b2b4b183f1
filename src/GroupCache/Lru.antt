-- ===== src/GroupCache/Lru.antt =====
-- `lruCache` of backend/pkg/groupcache/groupcache.go. A list element is an address: `order` holds
-- the addresses of the entries in list order, `entries` is the heap that they point into, and
-- `items` is the map from keys to elements. `container/list` is the language's library.
pub mod Elements
pub mod View
pub mod Invariant
pub mod Refinement
use constell.Prelude.{
  ℕ, zero, suc, Bool, true, false, Option, none, some, List, [], ◌∷◌, Comparable, ◌==◌, eqb, ltb,
  length, nat_eq, contains, if◌then◌else◌,
}

pub record LruEntry {ℓ} (K V : Type ℓ) : Type ℓ where
  pub key : K
  pub value : V

pub record LruCache {ℓ} (K V : Type ℓ) : Type ℓ where
  pub max_size : ℕ
  pub items : K → Option ℕ
  pub order : List ℕ
  pub entries : ℕ → Option (LruEntry K V)
  pub next_element : ℕ

-- list.Remove, on a list that holds the element at most once.
unfoldable pub remove_element : ℕ → List ℕ → List ℕ
remove_element x [] = []
remove_element x (y ∷ ys) = if eqb y x then ys else y ∷ remove_element x ys

-- list.MoveToFront: an element that is not of the list is left alone.
unfoldable pub move_to_front : ℕ → List ℕ → List ℕ
unfolding remove_element
move_to_front x ys = if contains x ys then x ∷ remove_element x ys else ys

-- list.Back
unfoldable pub back : List ℕ → Option ℕ
back [] = none
back (x ∷ []) = some x
back (x ∷ y ∷ ys) = back (y ∷ ys)

abbrev pub set_cell {ℓ} : {V : Type ℓ} → ℕ → V → (ℕ → Option V) → ℕ → Option V
set_cell x v h y = if eqb x y then some v else h y

module _ {ℓ} {K : Type ℓ} ⦃e : Comparable K⦄ where
  abbrev pub set_item : K → ℕ → (K → Option ℕ) → K → Option ℕ
  set_item k x m j = if k == j then some x else m j

  abbrev pub delete_item : K → (K → Option ℕ) → K → Option ℕ
  delete_item k m j = if k == j then none else m j

module _ {ℓ} {K V : Type ℓ} ⦃e : Comparable K⦄ where
  -- newLRUCache
  unfoldable pub new_lru_cache : ℕ → LruCache K V
  new_lru_cache max_size = record {
    max_size = max_size;
    items = λ _. none;
    order = [];
    entries = λ _. none;
    next_element = 0;
  }

  entry_value : Option (LruEntry K V) → Option V
  entry_value none = none
  entry_value (some entry) = some entry.value

  entry_key : Option (LruEntry K V) → Option K
  entry_key none = none
  entry_key (some entry) = some entry.key

  -- The value, if the key is there; a hit moves its element to the front.
  unfoldable pub get : K → LruCache K V → LruCache K V × Option V
  unfolding entry_value
  get key c = elim (c.items key) [
    | none ↦ (c, none)
    | some elem ↦ (record c { order = move_to_front elem c.order }, entry_value (c.entries elem))
  ]

  delete_key_of : Option (LruEntry K V) → (K → Option ℕ) → K → Option ℕ
  delete_key_of none m = m
  delete_key_of (some entry) m = delete_item entry.key m

  -- One round of the eviction loop: the oldest element goes, and its key with it.
  unfoldable pub evict_oldest : LruCache K V → LruCache K V
  unfolding delete_key_of
  evict_oldest c = elim (back c.order) [
    | none ↦ c
    | some oldest ↦ record c {
      order = remove_element oldest c.order;
      items = delete_key_of (c.entries oldest) c.items;
    }
  ]

  -- `for c.order.Len() > c.maxSize`; `rounds` is fuel.
  unfoldable pub evict : ℕ → LruCache K V → LruCache K V
  evict zero c = c
  evict (suc rounds) c = elim (ltb c.max_size (length c.order)) [
    | true ↦ evict rounds (evict_oldest c)
    | false ↦ c
  ]

  pub push_front : K → V → LruCache K V → LruCache K V
  push_front key value c = record c {
    entries = set_cell c.next_element (record { key = key; value = value }) c.entries;
    order = c.next_element ∷ c.order;
    items = set_item key c.next_element c.items;
    next_element = suc c.next_element;
  }

  pub write_value : ℕ → V → LruCache K V → LruCache K V
  write_value elem value c = elim (c.entries elem) [
    | none ↦ c
    | some entry ↦ record c { entries = set_cell elem (record entry { value = value }) c.entries }
  ]

  -- The loop runs at most as often as the list is long, which is the fuel.
  unfoldable pub add : K → V → LruCache K V → LruCache K V
  unfolding push_front write_value
  add key value c = elim (c.items key) [
    | some elem ↦ write_value elem value (record c { order = move_to_front elem c.order })
    | none ↦ evict (suc (length c.order)) (push_front key value c)
  ]

  unfoldable pub remove : K → LruCache K V → LruCache K V
  remove key c = elim (c.items key) [
    | none ↦ c
    | some elem ↦ record c { order = remove_element elem c.order; items = delete_item key c.items }
  ]
