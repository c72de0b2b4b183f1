-- ===== src/GroupCache/Cache/Wired.antt =====
-- A cache between calls: its list is valid, and it keeps the filler that it was built with. What
-- the filler keeps of its state, a read keeps.
use constell.Prelude.{
  ℕ, ◌≡◌, sym, subst, ◌∙◌, Option, none, some, List, Comparable, nat_eq, string_eq,
}
use constell.GroupCache.Lru.View.{view, lookup}
use constell.GroupCache.Lru.Invariant.{IsValid}
use constell.GroupCache.Lru.Refinement.{add-refines, remove-refines}
use constell.GroupCache.Cache as Cache
use constell.GroupCache.Cache.{Cache, Fetched, Filled, filled, refused}
use constell.GroupCache.Cache.Reads.{after_fill, on_lookup, get-Refines}

-- A cache in use: its list is valid, and its filler is the one it was built with.
pub record IsWired {W E K V : Type 0} ⦃e : Comparable K⦄ (fn : K → W → Filled E V × W)
    (c : Cache W E K V) : Type 0 where
  pub valid : IsValid c.lru
  pub filler : c.filler ≡ some fn

module _ {W E K V : Type 0} ⦃e : Comparable K⦄ (P : W → Type 0) (fn : K → W → Filled E V × W) where
  after_fill_keeps :
      (size : ℕ) (k : K) (l : List (K × V)) (r : Filled E V × W)
      → P r.1
      → P (after_fill size k l r).2
  after_fill_keeps size k l (filled v, w) h = h
  after_fill_keeps size k l (refused e, w) h = h

  read_keeps :
      ((k : K) (w : W) → P w → P (fn k w).1)
      → (size : ℕ) (filler : Option (K → W → Filled E V × W)) → filler ≡ some fn
      → (k : K) (o : Option V) (l : List (K × V)) (w : W) → P w
      → P (on_lookup size filler k o l w).2
  read_keeps fills size filler at k none l w h =
      rw at (after_fill_keeps size k l (fn k w) (fills k w h))
  read_keeps fills size filler at k (some v) l w h = h

  pub get-IsWired :
      (key_bytes : K → List ℕ)
      → ((k : K) (w : W) → P w → P (fn k w).1)
      → (k : K) (c : Cache W E K V) (w : W) → IsWired fn c
      → P w
      → IsWired fn (Cache.get key_bytes k c w).1 × P (Cache.get key_bytes k c w).2
  get-IsWired key_bytes fills k c w i h =
      let r = get-Refines key_bytes k c w i.valid in
      (
        record { valid = r.valid; filler = r.same_filler ∙ i.filler },
        subst P (sym r.world) (
            read_keeps fills c.lru.max_size c.filler i.filler k (lookup k (view c.lru)) (view c.lru)
              w h),
      )

module _ {W E K V : Type 0} ⦃e : Comparable K⦄ (fn : K → W → Filled E V × W) where
  pub set-IsWired :
      (k : K) (v : V) (c : Cache W E K V) → IsWired fn c → IsWired fn (Cache.set k v c)
  unfolding Cache.set
  set-IsWired k v c i = record { valid = (add-refines c.lru k v i.valid).1; filler = i.filler }

  pub remove-IsWired : (k : K) (c : Cache W E K V) → IsWired fn c → IsWired fn (Cache.remove k c)
  unfolding Cache.remove
  remove-IsWired k c i = record { valid = (remove-refines c.lru k i.valid).1; filler = i.filler }
