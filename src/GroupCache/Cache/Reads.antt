-- ===== src/GroupCache/Cache/Reads.antt =====
-- `Get` of the cache against reads of a bounded list of pairs, and the state that NewCache builds.
use constell.Prelude.{
  ℕ, ◌≡◌, refl, ap, ◌∙◌, inl, inr, not, ◌||◌, Option, none, some, List, ◌∷◌, Bool-cases,
  Option-cases, Comparable, ◌==◌, nat_eq, string_eq, take,
}
use mathlib.Core.Path.{ap₂}
use constell.GroupCache.Lru
use constell.GroupCache.Lru.{LruCache}
use constell.GroupCache.Lru.View.{lookup, erase, view, erase_absent}
use constell.GroupCache.Lru.Invariant.{IsValid}
use constell.GroupCache.Lru.Refinement.{get-refines, add-refines, max_size-get, max_size-add}
use constell.GroupCache.Peers.{resolve_owner, resolve_owner_total}
use constell.GroupCache.Cache.{
  Cache, no_filler, fill_failed, Fetched, found, failed, Filled, filled, refused, store_filled,
  call_filler, fill_by_owner, unless_found, fly_unless_found, fill, get,
}

module _ {W E K V : Type 0} ⦃e : Comparable K⦄ where
  -- The specification of a read: a hit leaves the state of the filler alone, a miss asks the
  -- filler once, a value becomes the most recent pair and an error is not stored.
  abbrev pub after_fill : ℕ → K → List (K × V) → Filled E V × W → Fetched E V × List (K × V) × W
  after_fill size k l (filled v, w) = (found v, take size ((k, v) ∷ l), w)
  after_fill size k l (refused err, w) = (failed (fill_failed err), l, w)

  abbrev pub on_miss :
      ℕ → Option (K → W → Filled E V × W) → K → List (K × V) → W → Fetched E V × List (K × V) × W
  on_miss size none k l w = (failed no_filler, l, w)
  on_miss size (some fn) k l w = after_fill size k l (fn k w)

  abbrev pub on_lookup :
      ℕ
      → Option (K → W → Filled E V × W)
      → K
      → Option V
      → List (K × V)
      → W
      → Fetched E V × List (K × V) × W
  on_lookup size fn k none l w = on_miss size fn k l w
  on_lookup size fn k (some v) l w = (found v, (k, v) ∷ erase k l, w)

  abbrev pub read :
      ℕ → Option (K → W → Filled E V × W) → K → List (K × V) → W → Fetched E V × List (K × V) × W
  read size fn k l w = on_lookup size fn k (lookup k l) l w

  -- A result agrees with the specification, keeps the cache valid and its settings as they were.
  pub record Refines (c : Cache W E K V) (spec : Fetched E V × List (K × V) × W)
      (out : Fetched E V × Cache W E K V × W) : Type 0 where
    pub result : out.0 ≡ spec.0
    pub contents : view out.1.lru ≡ spec.1
    pub world : out.2 ≡ spec.2
    pub valid : IsValid out.1.lru
    pub size : out.1.lru.max_size ≡ c.lru.max_size
    pub same_peers : out.1.peers ≡ c.peers
    pub same_peer_set : out.1.peer_set ≡ c.peer_set
    pub same_filler : out.1.filler ≡ c.filler

  store_filled-Refines :
      (k : K) (c : Cache W E K V) (r : Filled E V × W)
      → IsValid c.lru
      → lookup k (view c.lru) ≡ none
      → Refines c (after_fill c.lru.max_size k (view c.lru) r) (store_filled k c r)
  unfolding store_filled
  store_filled-Refines k c (filled v, w) i absent =
      let (seen, valid) = add-refines c.lru k v i in
      record {
        result = refl;
        contents =
            seen ∙ ap (λ l. take c.lru.max_size ((k, v) ∷ l)) (erase_absent k (view c.lru) absent);
        world = refl;
        valid = valid;
        size = max_size-add k v c.lru;
        same_peers = refl;
        same_peer_set = refl;
        same_filler = refl;
      }
  store_filled-Refines k c (refused err, w) i absent = record {
    result = refl;
    contents = refl;
    world = refl;
    valid = i;
    size = refl;
    same_peers = refl;
    same_peer_set = refl;
    same_filler = refl;
  }

  call_filler-Refines :
      (fn : Option (K → W → Filled E V × W)) (k : K) (c : Cache W E K V) (w : W)
      → IsValid c.lru
      → lookup k (view c.lru) ≡ none
      → Refines c (on_miss c.lru.max_size fn k (view c.lru) w) (call_filler fn k c w)
  unfolding call_filler
  call_filler-Refines none k c w i absent = record {
    result = refl;
    contents = refl;
    world = refl;
    valid = i;
    size = refl;
    same_peers = refl;
    same_peer_set = refl;
    same_filler = refl;
  }
  call_filler-Refines (some fn) k c w i absent = store_filled-Refines k c (fn k w) i absent

  fill_by_owner-Refines :
      (bytes : List ℕ) (k : K) (c : Cache W E K V) (w : W)
      → IsValid c.lru
      → lookup k (view c.lru) ≡ none
      → Refines c
          (on_miss c.lru.max_size c.filler k (view c.lru) w)
          (fill_by_owner (resolve_owner c.peers bytes) k c w)
  unfolding fill_by_owner
  fill_by_owner-Refines bytes k c w i absent =
      let (owner, at, _) = resolve_owner_total c.peers bytes in
      let called = call_filler-Refines c.filler k c w i absent in
      rw at (elim (Bool-cases (owner == "" || not (c.peer_set owner))) [
        | inl here ↦ rw here called
        | inr there ↦ rw there called
      ])

  -- A read that missed in the LRU cache goes on from a cache with the same pairs.
  Refines-after_miss :
      (k : K) (c : Cache W E K V) (w : W) (lru : LruCache K V)
      (out : Fetched E V × Cache W E K V × W)
      → view lru ≡ view c.lru
      → lru.max_size ≡ c.lru.max_size
      → Refines (record c { lru = lru }) (on_miss lru.max_size c.filler k (view lru) w) out
      → Refines c (on_miss c.lru.max_size c.filler k (view c.lru) w) out
  Refines-after_miss k c w lru out seen size r = record {
    result = r.result ∙ ap₂ (λ n l. (on_miss n c.filler k l w).0) size seen;
    contents = r.contents ∙ ap₂ (λ n l. (on_miss n c.filler k l w).1) size seen;
    world = r.world ∙ ap₂ (λ n l. (on_miss n c.filler k l w).2) size seen;
    valid = r.valid;
    size = r.size ∙ size;
    same_peers = r.same_peers;
    same_peer_set = r.same_peer_set;
    same_filler = r.same_filler;
  }

  hit-Refines :
      (k : K) (c : Cache W E K V) (w : W) (v : V)
      → IsValid c.lru
      → lookup k (view c.lru) ≡ some v
      → Refines c
          (found v, (k, v) ∷ erase k (view c.lru), w)
          (found v, record c { lru = (Lru.get k c.lru).0 }, w)
  hit-Refines k c w v i present =
      let (_, seen, valid) = get-refines c.lru k i in
      record {
        result = refl;
        contents = seen ∙ rw present;
        world = refl;
        valid = valid;
        size = max_size-get k c.lru;
        same_peers = refl;
        same_peer_set = refl;
        same_filler = refl;
      }

  fill-Refines :
      (key_bytes : K → List ℕ) (k : K) (c : Cache W E K V) (w : W)
      → IsValid c.lru
      → Refines c (read c.lru.max_size c.filler k (view c.lru) w) (fill key_bytes k c w)
  unfolding fill unless_found
  fill-Refines key_bytes k c w i =
      let (hit, seen, valid) = get-refines c.lru k i in
      elim (Option-cases (lookup k (view c.lru))) [
        | inl absent ↦
            let same : view (Lru.get k c.lru).0 ≡ view c.lru = seen ∙ rw absent in
            let missed : Cache W E K V = record c { lru = (Lru.get k c.lru).0 } in
            rw (absent, hit ∙ absent)
              (Refines-after_miss k c w missed.lru _ same (max_size-get k c.lru) (
                fill_by_owner-Refines (key_bytes k) k missed w valid (ap (lookup k) same ∙ absent)))
        | inr (v, present) ↦ rw (present, hit ∙ present) (hit-Refines k c w v i present)
      ]

  -- On a valid cache, Get on every branch is a read of a bounded list of pairs: a hit makes its
  -- pair the most recent, a miss asks the filler once and stores a value but no error; the cache
  -- stays valid and its settings stay.
  pub get-Refines :
      (key_bytes : K → List ℕ) (k : K) (c : Cache W E K V) (w : W)
      → IsValid c.lru
      → Refines c (read c.lru.max_size c.filler k (view c.lru) w) (get key_bytes k c w)
  unfolding get fly_unless_found
  get-Refines key_bytes k c w i =
      let (hit, seen, valid) = get-refines c.lru k i in
      elim (Option-cases (lookup k (view c.lru))) [
        | inl absent ↦
            let same : view (Lru.get k c.lru).0 ≡ view c.lru = seen ∙ rw absent in
            let missed : Cache W E K V = record c { lru = (Lru.get k c.lru).0 } in
            let again : lookup k (view missed.lru) ≡ none = ap (lookup k) same ∙ absent in
            rw (absent, hit ∙ absent)
              (Refines-after_miss k c w missed.lru _ same (max_size-get k c.lru)
                (rw again at (fill-Refines key_bytes k missed w valid)))
        | inr (v, present) ↦ rw (present, hit ∙ present) (hit-Refines k c w v i present)
      ]
