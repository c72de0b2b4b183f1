-- ===== src/GroupCache/Cache/Agreement.antt =====
-- A cache whose pairs are what its filler would return answers a read as the filler would, and stays
-- so.
use constell.Prelude.{
  ℕ, zero, suc, ◌≡◌, refl, sym, ap, subst, ◌∙◌, inl, inr, Option, none, some, List, [], ◌∷◌, arith,
  Bool-cases, Comparable, ◌==◌, nat_eq, string_eq, eq_of_equal, take, All,
}
use constell.GroupCache.Lru.View.{view, lookup, erase}
use constell.GroupCache.Cache as Cache
use constell.GroupCache.Cache.{Cache, Fetched, found, Filled, filled, refused}
use constell.GroupCache.Cache.Reads.{after_fill, on_lookup, get-Refines}
use constell.GroupCache.Cache.Wired.{IsWired}

module _ {K V : Type 0} ⦃e : Comparable K⦄ (value : K → V) where
  -- Every pair of a list holds the value of its key.
  abbrev pub Agrees : List (K × V) → Type 0
  Agrees = All (λ p. p.1 ≡ value p.0)

  lookup-Agrees : (k : K) (v : V) (l : List (K × V)) → Agrees l → lookup k l ≡ some v → v ≡ value k
  lookup-Agrees k v [] a h = cc
  lookup-Agrees k v ((j, w) ∷ l) a h = elim (Bool-cases (j == k)) [
    | inl y ↦
        let same : w ≡ v = ground (arith, y, h) in sym same ∙ a.0 ∙ ap value (eq_of_equal j k y)
    | inr n ↦ lookup-Agrees k v l a.1 (ground (arith, n, h))
  ]

  erase-Agrees : (k : K) (l : List (K × V)) → Agrees l → Agrees (erase k l)
  erase-Agrees k [] a = tt
  erase-Agrees k ((j, w) ∷ l) a = elim (Bool-cases (j == k)) [
    | inl y ↦ rw y a.1
    | inr n ↦ rw n (a.0, erase-Agrees k l a.1)
  ]

  take-Agrees : (n : ℕ) (l : List (K × V)) → Agrees l → Agrees (take n l)
  take-Agrees zero l a = tt
  take-Agrees (suc n) [] a = tt
  take-Agrees (suc n) (p ∷ l) a = (a.0, take-Agrees n l a.1)

module _ {W E K V : Type 0} ⦃e : Comparable K⦄ (value : K → V) (fn : K → W → Filled E V × W) where
  after_fill-Agrees :
      (size : ℕ) (k : K) (l : List (K × V)) (r : Filled E V × W)
      → Agrees value l
      → r.0 ≡ filled (value k)
      → ((after_fill size k l r).0 ≡ found (value k)) × Agrees value (after_fill size k l r).1
  after_fill-Agrees size k l (filled v, w) a h =
      let same : v ≡ value k = ground arith in
      (ground (arith, same), take-Agrees value size ((k, v) ∷ l) (same, a))
  after_fill-Agrees size k l (refused err, w) a h = cc

  on_lookup-Agrees :
      (size : ℕ) (k : K) (o : Option V) (l : List (K × V)) (w : W)
      → Agrees value l
      → lookup k l ≡ o
      → (fn k w).0 ≡ filled (value k)
      → ((on_lookup size (some fn) k o l w).0 ≡ found (value k))
        × Agrees value (on_lookup size (some fn) k o l w).1
  on_lookup-Agrees size k none l w a h f = after_fill-Agrees size k l (fn k w) a f
  on_lookup-Agrees size k (some v) l w a h f =
      let same = lookup-Agrees value k v l a h in (ap found same, (same, erase-Agrees value k l a))

  pub get-Agrees :
      (key_bytes : K → List ℕ) (k : K) (c : Cache W E K V) (w : W)
      → IsWired fn c
      → Agrees value (view c.lru)
      → (fn k w).0 ≡ filled (value k)
      → ((Cache.get key_bytes k c w).0 ≡ found (value k))
        × Agrees value (view (Cache.get key_bytes k c w).1.lru)
  get-Agrees key_bytes k c w i a f =
      let r = get-Refines key_bytes k c w i.valid in
      let spec =
        on_lookup-Agrees c.lru.max_size k (lookup k (view c.lru)) (view c.lru) w a refl f in
      let at =
        ap (λ fn. on_lookup c.lru.max_size fn k (lookup k (view c.lru)) (view c.lru) w) i.filler in
      (
        r.result ∙ ap (λ r. r.0) at ∙ spec.0,
        subst (Agrees value) (sym (r.contents ∙ ap (λ r. r.1) at)) spec.1,
      )
