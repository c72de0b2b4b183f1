-- ===== src/GroupCache/Cache.antt =====
-- `Cache` of backend/pkg/groupcache/groupcache.go: the options, NewCache, Get, Set, Remove and the
-- update of the peers. One goroutine at a time: a call of `Get` runs to its end, so singleflight,
-- which shares the result of calls that overlap, runs its function once. The filler acts on a
-- state `W` of its own, such as a database.
pub mod Reads
pub mod Settings
pub mod Wired
pub mod Agreement
use constell.Prelude.{
  ℕ, zero, suc, ◌+◌, ◌-◌, ◌*◌, ◌/◌, ◌%◌, ◌^◌, ◌≤◌, ◌<◌, min, max, String, ◌≡◌, refl, sym, ap, subst,
  ◌∙◌, ◌≢◌, ◌↔◌, ◌⊎◌, inl, inr, Bool, true, false, not, ◌&&◌, ◌||◌, Option, none, some, List, [],
  ◌∷◌, ◌++◌, map, arith, eq_iff, ltb, leb, eqb, if◌then◌else◌, ltb→lt, lt→ltb, le→ltb, eqb_iff,
  Bool-cases, Option-cases, Comparable, ◌==◌, nat_eq, string_eq, equal_refl, eq_of_equal, length,
  take, drop, get_elem?, keep, find, any, All, length-append, length-take, take-append-drop,
  take-of_le, take-length-append, drop-length-append, length-keep-le, All-map, All-keep, contains,
  Distinct, take-take, ℤ, pos, negsuc, is_positive, to_ℕ, bit_xor,
}
use constell.GroupCache.Lru
use constell.GroupCache.Lru.{LruCache}
use constell.GroupCache.Peers.{dedupe_peers, resolve_owner}

pub data CacheError (E : Type 0) : Type 0 where
  no_filler : CacheError E
  fill_failed : E → CacheError E
  -- an index out of range would panic
  panicked : CacheError E

pub data Fetched (E V : Type 0) : Type 0 where
  found : V → Fetched E V
  failed : CacheError E → Fetched E V

pub data Filled (E V : Type 0) : Type 0 where
  filled : V → Filled E V
  refused : E → Filled E V

pub record Cache (W E K V : Type 0) : Type 0 where
  pub capacity : ℤ
  pub peers : List String
  pub peer_set : String → Bool
  pub filler : Option (K → W → Filled E V × W)
  pub lru : LruCache K V

-- The set of peers as the code builds it, entry by entry.
unfoldable pub set_of : List String → String → Bool
set_of [] q = false
set_of (p ∷ ps) q = if p == q then true else set_of ps q

-- Option; `WithRegistry` sets fields that only the goroutine of the registry reads.
pub data CacheOption (W E K V : Type 0) : Type 0 where
  with_local_capacity : ℤ → CacheOption W E K V
  with_peers : List String → CacheOption W E K V
  with_filler : (K → W → Filled E V × W) → CacheOption W E K V

module _ {W E K V : Type 0} ⦃e : Comparable K⦄ where
  pub apply_option : CacheOption W E K V → Cache W E K V → Cache W E K V
  apply_option (with_local_capacity n) c = record c { capacity = n }
  apply_option (with_peers peers) c = record c { peers = peers }
  apply_option (with_filler fn) c = record c { filler = some fn }

  pub apply_options : List (CacheOption W E K V) → Cache W E K V → Cache W E K V
  apply_options [] c = c
  apply_options (opt ∷ opts) c = apply_options opts (apply_option opt c)

  pub blank : Cache W E K V
  blank = record {
    capacity = pos 10000;
    peers = [];
    peer_set = λ _. false;
    filler = none;
    lru = Lru.new_lru_cache 0;
  }

  -- What NewCache does after the options.
  unfoldable pub set_up : Cache W E K V → Cache W E K V
  unfolding set_of
  set_up c =
      let peers : List String = dedupe_peers c.peers in
      let capacity : ℤ = if is_positive c.capacity then c.capacity else pos 10000 in
      record c {
        peers = peers;
        peer_set = set_of peers;
        capacity = capacity;
        lru = Lru.new_lru_cache (to_ℕ capacity);
      }

  -- NewCache, without the goroutine that watches a registry.
  unfoldable pub new_cache : List (CacheOption W E K V) → Cache W E K V
  unfolding apply_options apply_option set_up blank
  new_cache opts = set_up (apply_options opts blank)

  -- Store what the filler returned; errors are passed on and not stored.
  store_filled : K → Cache W E K V → Filled E V × W → Fetched E V × Cache W E K V × W
  store_filled key c (filled v, w) = (found v, record c { lru = Lru.add key v c.lru }, w)
  store_filled key c (refused err, w) = (failed (fill_failed err), c, w)

  call_filler :
      Option (K → W → Filled E V × W) → K → Cache W E K V → W → Fetched E V × Cache W E K V × W
  unfolding store_filled
  call_filler none key c w = (failed no_filler, c, w)
  call_filler (some fn) key c w = store_filled key c (fn key w)

  -- Both branches call the filler: a peer is not yet asked.
  fill_by_owner : Option String → K → Cache W E K V → W → Fetched E V × Cache W E K V × W
  unfolding call_filler
  fill_by_owner none key c w = (failed panicked, c, w)
  fill_by_owner (some owner) key c w =
      if owner == "" || not (c.peer_set owner)
      then call_filler c.filler key c w
      else call_filler c.filler key c w

  -- The function under singleflight: look again, then fill.
  unless_found : (K → List ℕ) → K → Option V → Cache W E K V → W → Fetched E V × Cache W E K V × W
  unfolding fill_by_owner
  unless_found key_bytes key (some v) c w = (found v, c, w)
  unless_found key_bytes key none c w =
      fill_by_owner (resolve_owner c.peers (key_bytes key)) key c w

  unfoldable pub fill : (K → List ℕ) → K → Cache W E K V → W → Fetched E V × Cache W E K V × W
  unfolding unless_found
  fill key_bytes key c w =
      let (lru, hit) = Lru.get key c.lru in
      unless_found key_bytes key hit (record c { lru = lru }) w

  -- Get: the function runs under singleflight if the first look fails.
  fly_unless_found :
      (K → List ℕ) → K → Option V → Cache W E K V → W → Fetched E V × Cache W E K V × W
  unfolding fill
  fly_unless_found key_bytes key (some v) c w = (found v, c, w)
  fly_unless_found key_bytes key none c w = fill key_bytes key c w

  unfoldable pub get : (K → List ℕ) → K → Cache W E K V → W → Fetched E V × Cache W E K V × W
  unfolding fly_unless_found
  get key_bytes key c w =
      let (lru, hit) = Lru.get key c.lru in
      fly_unless_found key_bytes key hit (record c { lru = lru }) w

  -- Set
  unfoldable pub set : K → V → Cache W E K V → Cache W E K V
  set key value c = record c { lru = Lru.add key value c.lru }

  -- Remove
  unfoldable pub remove : K → Cache W E K V → Cache W E K V
  remove key c = record c { lru = Lru.remove key c.lru }

  -- One update from the registry, in `watchPeers`.
  unfoldable pub update_peers : List String → Cache W E K V → Cache W E K V
  unfolding set_of
  update_peers addrs c =
      let peers : List String = dedupe_peers addrs in
      record c { peers = peers; peer_set = set_of peers }
