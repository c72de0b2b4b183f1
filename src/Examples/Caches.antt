-- ===== src/Examples/Caches.antt =====
-- The LRU cache and the process cache on small states.
use constell.Prelude.{
  ℕ, suc, String, ◌≡◌, refl, List, [], ◌∷◌, if◌then◌else◌, ◌==◌, nat_eq, string_eq, take, pos,
  arith,
}
use constell.GroupCache.Lru
use constell.GroupCache.Lru.{LruCache, new_lru_cache}
use constell.GroupCache.Lru.View.{erase, view}
use constell.GroupCache.Lru.Invariant.{IsValid, new_lru_cache-IsValid}
use constell.GroupCache.Lru.Refinement.{evict_lem, add-refines}
use constell.GroupCache.Cache
use constell.GroupCache.Cache.{
  Cache, Fetched, found, failed, Filled, filled, refused, CacheOption, with_local_capacity,
  with_peers, with_filler, new_cache,
}
use constell.GroupCache.Cache.Reads.{read, Refines, get-Refines}
use constell.GroupCache.Cache.Settings.{IsConfigured, new_cache-IsConfigured}

abbrev pairs_2 : LruCache String ℕ
pairs_2 = Lru.add "b" 2 (Lru.add "a" 1 (new_lru_cache 2))

pairs_2-IsValid : IsValid pairs_2
pairs_2-IsValid =
    (add-refines (Lru.add "a" 1 (new_lru_cache 2)) "b" 2
      (add-refines (new_lru_cache 2) "a" 1 (new_lru_cache-IsValid 2)).1).1

-- The third key drops the oldest.
add_example : view (Lru.add "c" 3 pairs_2) ≡ ("c", 3) ∷ ("b", 2) ∷ []
unfolding Lru.add new_lru_cache Lru.evict Lru.evict_oldest Lru.back Lru.remove_element
add_example = refl

add-refines_example :
    (view (Lru.add "c" 3 pairs_2) ≡ take pairs_2.max_size (("c", 3) ∷ erase "c" (view pairs_2)))
    × IsValid (Lru.add "c" 3 pairs_2)
add-refines_example = add-refines pairs_2 "c" 3 pairs_2-IsValid

-- A cache that is longer than its capacity.
abbrev shrunk : LruCache String ℕ
shrunk = record pairs_2 { max_size = 1 }

evict_lem_example :
    IsValid (Lru.evict 2 shrunk) × (view (Lru.evict 2 shrunk) ≡ take 1 (view shrunk))
unfolding Lru.add new_lru_cache Lru.evict Lru.evict_oldest Lru.back Lru.remove_element
evict_lem_example =
    let i = pairs_2-IsValid.coherent in
    evict_lem 2 shrunk
      (record {
        linked = i.linked;
        indexed = i.indexed;
        keyed = i.keyed;
        distinct = i.distinct;
        allocated = i.allocated;
      })
      (omega arith)

-- A filler that counts how often it is asked, and knows no key but "a".
abbrev counting : String → ℕ → Filled String ℕ × ℕ
counting k asked = if k == "a" then (filled 7, suc asked) else (refused "no such key", suc asked)

abbrev counted_options : List (CacheOption ℕ String String ℕ)
counted_options =
    with_local_capacity (pos 1) ∷ with_peers ("p" ∷ "q" ∷ "p" ∷ []) ∷ with_filler counting ∷ []

abbrev counted : Cache ℕ String String ℕ
counted = new_cache counted_options

counted-IsConfigured : IsConfigured counted
counted-IsConfigured = new_cache-IsConfigured counted_options

abbrev no_bytes : String → List ℕ
no_bytes k = []

get-Refines_example :
    Refines counted
      (read counted.lru.max_size counted.filler "a" (view counted.lru) 0)
      (Cache.get no_bytes "a" counted 0)
get-Refines_example = get-Refines no_bytes "a" counted 0 counted-IsConfigured.valid

first_get : (Cache.get no_bytes "a" counted 0).0 ≡ found 7
unfolding new_cache Lru.new_lru_cache
first_get = (get-Refines no_bytes "a" counted 0 counted-IsConfigured.valid).result
