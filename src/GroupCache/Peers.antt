-- ===== src/GroupCache/Peers.antt =====
-- `dedupePeers`, `hashKey` and `resolveOwner` of backend/pkg/groupcache/groupcache.go.
use constell.Prelude.{
  ◌⊎◌, inl, inr, ℕ, zero, suc, ◌*◌, ◌%◌, ◌^◌, ◌<◌, String, ◌≡◌, refl, sym, ◌∙◌, ◌⊎◌, inl, inr, Bool,
  true, false, ◌||◌, Option, some, List, [], ◌∷◌, ◌++◌, arith, eq_iff, if◌then◌else◌, Bool-cases,
  ◌==◌, nat_eq, string_eq, length, get_elem?, contains, Distinct, bit_xor,
}

abbrev pub u32_mod : ℕ
u32_mod = 2 ^ 32

-- One byte of 32-bit FNV-1a, the language's `hash/fnv`.
fnv1a_byte : ℕ → ℕ → ℕ
fnv1a_byte h b = (bit_xor h b * 16777619) % u32_mod

fnv1a : ℕ → List ℕ → ℕ
fnv1a h [] = h
fnv1a h (b ∷ bs) = fnv1a (fnv1a_byte h b) bs

-- The bytes are those of the key printed with `%v`.
unfoldable pub hash_key : List ℕ → ℕ
unfolding fnv1a_byte fnv1a
hash_key bytes = fnv1a 2166136261 bytes

-- The owner of a key, or "" where no peers are configured; an index out of range would panic,
-- which is `none`.
unfoldable pub resolve_owner : List String → List ℕ → Option String
resolve_owner [] bytes = some ""
resolve_owner (p ∷ ps) bytes = get_elem? (p ∷ ps) (hash_key bytes % length (p ∷ ps))

-- The loop, with its `seen` map and its result so far.
dedupe_loop : (String → Bool) → List String → List String → List String
dedupe_loop seen result [] = result
dedupe_loop seen result (p ∷ ps) =
    dedupe_loop (λ q. if p == q then true else seen q) (if seen p then result else result ++ p ∷ [])
      ps

unfoldable pub dedupe_peers : List String → List String
unfolding dedupe_loop
dedupe_peers peers = dedupe_loop (λ _. false) [] peers

get_elem?_total {ℓ} :
    {A : Type ℓ} (i : ℕ) (xs : List A) → i < length xs → (a : A) × (get_elem? xs i ≡ some a)
get_elem?_total i [] h = absurd (omega arith)
get_elem?_total zero (x ∷ xs) h = (x, refl)
get_elem?_total (suc i) (x ∷ xs) h = get_elem?_total i xs (omega arith)

contains-get_elem? :
    (i : ℕ) (xs : List String) (p : String) → get_elem? xs i ≡ some p → contains p xs ≡ true
contains-get_elem? i [] p h = cc
contains-get_elem? zero (x ∷ xs) p h = ground (arith, eq_iff x p)
contains-get_elem? (suc i) (x ∷ xs) p h = ground (arith, contains-get_elem? i xs p h)

-- resolveOwner never indexes out of range: it returns the empty string where there are no peers
-- and one of the peers otherwise.
pub resolve_owner_total :
    (peers : List String) (bytes : List ℕ)
    → (owner : String) × (resolve_owner peers bytes ≡ some owner)
      × (((peers ≡ []) × (owner ≡ "")) ⊎ (contains owner peers ≡ true))
unfolding resolve_owner
resolve_owner_total [] bytes = ("", refl, inl (refl, refl))
resolve_owner_total (p ∷ ps) bytes =
    let (owner, at) = get_elem?_total (hash_key bytes % length (p ∷ ps)) (p ∷ ps) (omega arith) in
    (owner, at, inr (contains-get_elem? (hash_key bytes % length (p ∷ ps)) (p ∷ ps) owner at))

contains-append :
    (q : String) (xs ys : List String) → contains q (xs ++ ys) ≡ (contains q xs || contains q ys)
contains-append q [] ys = refl
contains-append q (x ∷ xs) ys = ground (arith, contains-append q xs ys)

Distinct-snoc :
    (p : String) (xs : List String) → contains p xs ≡ false → Distinct xs → Distinct (xs ++ p ∷ [])
Distinct-snoc p [] h d = (refl, tt)
Distinct-snoc p (x ∷ xs) h d = (
  ground (arith, contains-append x xs (p ∷ []), eq_iff p x, eq_iff x p),
  Distinct-snoc p xs (ground arith) d.1,
)

-- The loop's invariant: the map holds the entries of the result.
dedupe_loop_lem :
    (seen : String → Bool) (result peers : List String)
    → ((q : String) → seen q ≡ contains q result)
    → Distinct result
    → Distinct (dedupe_loop seen result peers)
      × ((q : String)
          → contains q (dedupe_loop seen result peers) ≡ (contains q result || contains q peers))
unfolding dedupe_loop
dedupe_loop_lem seen result [] same d = (d, λ q. ground arith)
dedupe_loop_lem seen result (p ∷ ps) same d = elim (Bool-cases (seen p)) [
  | inl old ↦
      let (distinct, members) =
        dedupe_loop_lem (λ q. if p == q then true else seen q) result ps
          (λ q. ground (arith, same q, same p, eq_iff p q)) d in
      rw old (distinct, λ q. ground (arith, members q, same p, eq_iff p q))
  | inr new ↦
      let (distinct, members) =
        dedupe_loop_lem (λ q. if p == q then true else seen q) (result ++ p ∷ []) ps
          (λ q. ground (arith, same q, contains-append q result (p ∷ [])))
          (Distinct-snoc p result (sym (same p) ∙ new) d) in
      rw new (distinct, λ q. ground (arith, members q, contains-append q result (p ∷ [])))
]

-- dedupePeers lists each peer once and loses and adds none.
pub dedupe_peers_lem :
    (peers : List String)
    → Distinct (dedupe_peers peers)
      × ((q : String) → contains q (dedupe_peers peers) ≡ contains q peers)
unfolding dedupe_peers
dedupe_peers_lem peers = dedupe_loop_lem (λ _. false) [] peers (λ q. refl) tt

owner_example : resolve_owner ("a:1" ∷ "b:2" ∷ []) (99 ∷ 100 ∷ []) ≡ some "a:1"
unfolding resolve_owner hash_key
owner_example = refl

dedupe_example : dedupe_peers ("a" ∷ "b" ∷ "a" ∷ []) ≡ "a" ∷ "b" ∷ []
unfolding dedupe_peers
dedupe_example = refl
