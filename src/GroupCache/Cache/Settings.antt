-- ===== src/GroupCache/Cache/Settings.antt =====
-- What NewCache sets up, what every call keeps, and a second `Get` of one key.
use constell.Prelude.{
  ℕ, zero, suc, ◌<◌, String, ◌≡◌, refl, sym, ap, ◌∙◌, Option, none, some, List, [], ◌∷◌, arith,
  if◌then◌else◌, Comparable, nat_eq, string_eq, equal_refl, contains, Distinct, ℤ, pos, negsuc,
  is_positive, to_ℕ,
}
use constell.GroupCache.Lru
use constell.GroupCache.Lru.{LruCache}
use constell.GroupCache.Lru.View.{lookup, view}
use constell.GroupCache.Lru.Invariant.{IsValid, new_lru_cache-IsValid}
use constell.GroupCache.Lru.Refinement.{add-refines, remove-refines, max_size-add, max_size-remove}
use constell.GroupCache.Peers.{dedupe_peers, dedupe_peers_lem}
use constell.GroupCache.Cache.{
  Cache, found, Filled, filled, refused, CacheOption, set_of, apply_options, blank, set_up,
  new_cache, get, set, remove, update_peers,
}
use constell.GroupCache.Cache.Reads.{get-Refines, on_lookup, on_miss, after_fill}

set_of-contains : (ps : List String) (q : String) → set_of ps q ≡ contains q ps
unfolding set_of
set_of-contains [] q = refl
set_of-contains (p ∷ ps) q = ground (arith, set_of-contains ps q)

positive_default : (n : ℤ) → 0 < to_ℕ (if is_positive n then n else pos 10000)
positive_default (pos zero) = omega arith
positive_default (pos (suc n)) = omega arith
positive_default (negsuc n) = omega arith

module _ {W E K V : Type 0} ⦃e : Comparable K⦄ where
  -- The peers are listed once each, the set of peers holds exactly them, and the LRU cache is valid
  -- and can hold something.
  pub record IsConfigured (c : Cache W E K V) : Type 0 where
    pub distinct : Distinct c.peers
    pub agree : (q : String) → c.peer_set q ≡ contains q c.peers
    pub valid : IsValid c.lru
    pub roomy : 0 < c.lru.max_size

  set_up-IsConfigured : (c : Cache W E K V) → IsConfigured (set_up c)
  unfolding set_up
  set_up-IsConfigured c = record {
    distinct = (dedupe_peers_lem c.peers).0;
    agree = set_of-contains (dedupe_peers c.peers);
    valid = new_lru_cache-IsValid _;
    roomy = unfold Lru.new_lru_cache in positive_default c.capacity;
  }

  pub new_cache-IsConfigured : (opts : List (CacheOption W E K V)) → IsConfigured (new_cache opts)
  unfolding new_cache
  new_cache-IsConfigured opts = set_up-IsConfigured (apply_options opts blank)

  pub update_peers-IsConfigured :
      (addrs : List String) (c : Cache W E K V)
      → IsConfigured c
      → IsConfigured (update_peers addrs c)
  unfolding update_peers
  update_peers-IsConfigured addrs c i = record {
    distinct = (dedupe_peers_lem addrs).0;
    agree = set_of-contains (dedupe_peers addrs);
    valid = i.valid;
    roomy = i.roomy;
  }

-- The public calls on a cache, and a history of them.
pub data Call (K V : Type 0) : Type 0 where
  gets removes : K → Call K V
  sets : K → V → Call K V
  updates : List String → Call K V

module _ {W E K V : Type 0} ⦃e : Comparable K⦄ (key_bytes : K → List ℕ) where
  pub perform : Call K V → Cache W E K V × W → Cache W E K V × W
  perform (gets k) (c, w) = let (_, c', w') = get key_bytes k c w in (c', w')
  perform (removes k) (c, w) = (remove k c, w)
  perform (sets k v) (c, w) = (set k v c, w)
  perform (updates addrs) (c, w) = (update_peers addrs c, w)

  pub history : List (Call K V) → Cache W E K V × W → Cache W E K V × W
  history [] s = s
  history (call ∷ calls) s = history calls (perform call s)

  get-IsConfigured :
      (k : K) (c : Cache W E K V) (w : W) → IsConfigured c → IsConfigured (get key_bytes k c w).1
  get-IsConfigured k c w i =
      let r = get-Refines key_bytes k c w i.valid in
      record {
        distinct = rw r.same_peers i.distinct;
        agree = λ q. rw (r.same_peer_set, r.same_peers) (i.agree q);
        valid = r.valid;
        roomy = rw r.size i.roomy;
      }

  perform-IsConfigured :
      (call : Call K V) (c : Cache W E K V) (w : W)
      → IsConfigured c
      → IsConfigured (perform call (c, w)).0
  unfolding perform set remove
  perform-IsConfigured (gets k) c w i = get-IsConfigured k c w i
  perform-IsConfigured (removes k) c w i = record {
    distinct = i.distinct;
    agree = i.agree;
    valid = (remove-refines c.lru k i.valid).1;
    roomy = rw (max_size-remove k c.lru) i.roomy;
  }
  perform-IsConfigured (sets k v) c w i = record {
    distinct = i.distinct;
    agree = i.agree;
    valid = (add-refines c.lru k v i.valid).1;
    roomy = rw (max_size-add k v c.lru) i.roomy;
  }
  perform-IsConfigured (updates addrs) c w i = update_peers-IsConfigured addrs c i

  history-IsConfigured :
      (calls : List (Call K V)) (c : Cache W E K V) (w : W)
      → IsConfigured c
      → IsConfigured (history calls (c, w)).0
  unfolding history
  history-IsConfigured [] c w i = i
  history-IsConfigured (call ∷ calls) c w i =
      let (c', w') = perform call (c, w) in
      history-IsConfigured calls c' w' (perform-IsConfigured call c w i)

  -- Whatever the options of NewCache and the calls since, the list and the map of the LRU cache
  -- agree and stay within a capacity that is not zero, and the set of peers holds exactly the
  -- peers, each listed once.
  pub history-new_cache-IsConfigured :
      (opts : List (CacheOption W E K V)) (calls : List (Call K V)) (w : W)
      → IsConfigured (history calls (new_cache opts, w)).0
  history-new_cache-IsConfigured opts calls w =
      history-IsConfigured calls (new_cache opts) w (new_cache-IsConfigured opts)

module _ {W E K V : Type 0} ⦃e : Comparable K⦄ where
  lookup-after_fill :
      (size : ℕ) (k : K) (l : List (K × V)) (r : Filled E V × W) (v : V)
      → 0 < size
      → (after_fill size k l r).0 ≡ found v
      → lookup k (after_fill size k l r).1 ≡ some v
  lookup-after_fill zero k l r v roomy h = absurd (omega arith)
  lookup-after_fill (suc n) k l (filled u, w) v roomy h = ground (arith, equal_refl k)
  lookup-after_fill (suc n) k l (refused err, w) v roomy h = cc

  lookup-on_miss :
      (size : ℕ) (fn : Option (K → W → Filled E V × W)) (k : K) (l : List (K × V)) (w : W) (v : V)
      → 0 < size
      → (on_miss size fn k l w).0 ≡ found v
      → lookup k (on_miss size fn k l w).1 ≡ some v
  lookup-on_miss size none k l w v roomy h = cc
  lookup-on_miss size (some fn) k l w v roomy h = lookup-after_fill size k l (fn k w) v roomy h

  lookup-on_lookup :
      (size : ℕ) (fn : Option (K → W → Filled E V × W)) (k : K) (o : Option V) (l : List (K × V))
      (w : W) (v : V)
      → 0 < size
      → (on_lookup size fn k o l w).0 ≡ found v
      → lookup k (on_lookup size fn k o l w).1 ≡ some v
  lookup-on_lookup size fn k none l w v roomy h = lookup-on_miss size fn k l w v roomy h
  lookup-on_lookup size fn k (some u) l w v roomy h = ground (arith, equal_refl k)

  -- On a configured cache, as NewCache and its calls leave it, after a Get that returned a value,
  -- a second Get of the key returns the same value and leaves the state of the filler untouched.
  pub get-get :
      (key_bytes : K → List ℕ) (k : K) (c : Cache W E K V) (w w' : W) (v : V)
      → IsConfigured c
      → (get key_bytes k c w).0 ≡ found v
      → let again = get key_bytes k (get key_bytes k c w).1 w' in
        (again.0 ≡ found v) × (again.2 ≡ w')
  get-get key_bytes k c w w' v i h =
      let r = get-Refines key_bytes k c w i.valid in
      let c' = (get key_bytes k c w).1 in
      let held : lookup k (view c'.lru) ≡ some v =
        ap (lookup k) r.contents
        ∙ lookup-on_lookup c.lru.max_size c.filler k (lookup k (view c.lru)) (view c.lru) w v
            i.roomy (sym r.result ∙ h) in
      let r' = get-Refines key_bytes k c' w' r.valid in (r'.result ∙ rw held, r'.world ∙ rw held)
