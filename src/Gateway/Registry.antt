-- ===== src/Gateway/Registry.antt =====
-- Registry of backend/services/ws-gateway/registry.go: which gateway holds a user's connection, in
-- Redis.
use constell.Prelude.{
  ℕ, String, ◌≡◌, refl, sym, ap, ◌∙◌, inl, inr, ◌||◌, Option, none, some, List, [], ◌∷◌, map, arith,
  if◌then◌else◌, Bool-cases, Option-cases, ◌==◌, nat_eq, string_eq, eq_of_equal, contains,
}
use constell.Prelude.Exec.{Result, ok, err, Exec, replace_error}
use constell.Prelude.Text.{join}
use constell.Redis.{
  Redis, RedisError, no_value, unreachable, redis_get, redis_mget, redis_set, redis_del, value_at,
}

-- The time to live of its keys.
pub record Registry : Type 0 where
  pub ttl : ℕ

pub data RegistryError : Type 0 where
  not_connected : RegistryError
  redis_failed : RegistryError

unfoldable pub registry_key : String → String
unfolding join
registry_key user_id = join "ws:uid:" user_id

-- RegisterConnection
unfoldable pub register_connection :
    Registry → String → String → Exec Redis RegistryError (Unit {0})
unfolding redis_set registry_key
register_connection reg user_id gw_id r =
    replace_error redis_failed (redis_set (registry_key user_id) gw_id reg.ttl r)

-- UnregisterConnection
unfoldable pub unregister_connection : String → Exec Redis RegistryError (Unit {0})
unfolding redis_del registry_key
unregister_connection user_id r = replace_error redis_failed (redis_del (registry_key user_id) r)

abbrev pub registry_error : RedisError → RegistryError
registry_error no_value = not_connected
registry_error unreachable = redis_failed

abbrev pub gateway_or_error : Result RedisError String × Redis → Result RegistryError String × Redis
gateway_or_error (ok gw_id, r) = (ok gw_id, r)
gateway_or_error (err e, r) = (err (registry_error e), r)

-- GetGatewayID
unfoldable pub get_gateway_id : String → Exec Redis RegistryError String
unfolding redis_get registry_key
get_gateway_id user_id r = gateway_or_error (redis_get (registry_key user_id) r)

-- The map of the answer: the first pair of a key counts, which was written last.
abbrev pub add_gateways :
    List String → List (Option String) → List (String × String) → List (String × String)
add_gateways (u ∷ us) (some gw_id ∷ vals) result = add_gateways us vals ((u, gw_id) ∷ result)
add_gateways (u ∷ us) (none ∷ vals) result = add_gateways us vals result
add_gateways [] vals result = result
add_gateways (u ∷ us) [] result = result

abbrev pub gateways_or_error :
    List String
    → Result RedisError (List (Option String)) × Redis
    → Result RegistryError (List (String × String)) × Redis
gateways_or_error user_ids (ok vals, r) = (ok (add_gateways user_ids vals []), r)
gateways_or_error user_ids (err e, r) = (err redis_failed, r)

-- GetGatewayIDs
unfoldable pub get_gateway_ids : List String → Exec Redis RegistryError (List (String × String))
unfolding redis_mget registry_key
get_gateway_ids [] r = (ok [], r)
get_gateway_ids (u ∷ us) r = gateways_or_error (u ∷ us) (redis_mget (map registry_key (u ∷ us)) r)

abbrev pub gateway_in : String → List (String × String) → Option String
gateway_in user_id [] = none
gateway_in user_id ((u, gw_id) ∷ rest) =
    if u == user_id then some gw_id else gateway_in user_id rest

abbrev pub the_gateway : Result RegistryError String × Redis → Option String
the_gateway (ok gw_id, r) = some gw_id
the_gateway (err e, r) = none

abbrev pub the_gateway_in :
    String → Result RegistryError (List (String × String)) × Redis → Option String
the_gateway_in user_id (ok result, r) = gateway_in user_id result
the_gateway_in user_id (err e, r) = none

abbrev or_else : Option String → Option String → Option String
or_else (some g) other = some g
or_else none other = other

gateway_in-add_gateways :
    (f : String → Option String) (u : String) (us : List String) (result : List (String × String))
    → gateway_in u (add_gateways us (map f us) result)
      ≡ or_else (if contains u us then f u else none) (gateway_in u result)
gateway_in-add_gateways f u [] result = refl
gateway_in-add_gateways f u (v ∷ us) result = elim (Bool-cases (v == u)) [
  | inl same ↦
      let moved : f u ≡ f v = ap f (sym (eq_of_equal v u same)) in
      elim (Option-cases (f v)) [
        | inl gone ↦
            rw (gone, same, gateway_in-add_gateways f u us result, moved, gone)
              (ground (arith, Bool-cases (contains u us)))
        | inr (g, here) ↦
            rw (here, same, gateway_in-add_gateways f u us ((v, g) ∷ result), moved, here, same)
              (ground (arith, Bool-cases (contains u us)))
      ]
  | inr other ↦ elim (Option-cases (f v)) [
    | inl gone ↦ rw (gone, other) (gateway_in-add_gateways f u us result)
    | inr (g, here) ↦
        rw (here, other, gateway_in-add_gateways f u us ((v, g) ∷ result)) (rw other refl)
  ]
]

map-registry_key :
    (f : String → Option String) (us : List String)
    → map f (map registry_key us) ≡ map (λ u. f (registry_key u)) us
map-registry_key f [] = refl
map-registry_key f (u ∷ us) = ap (λ vals. f (registry_key u) ∷ vals) (map-registry_key f us)

or_else-none : (x : Option String) → or_else x none ≡ x
or_else-none none = refl
or_else-none (some g) = refl

get_gateway_id_lem :
    (u : String) (r : Redis)
    → the_gateway (get_gateway_id u r) ≡ (
        if r.fails r.commands then none else value_at (r.now r.commands) (registry_key u) r.entries)
unfolding get_gateway_id redis_get
get_gateway_id_lem u r = elim (Bool-cases (r.fails r.commands)) [
  | inl down ↦ rw down refl
  | inr up ↦ elim (Option-cases (value_at (r.now r.commands) (registry_key u) r.entries)) [
    | inl gone ↦ rw (up, gone) refl
    | inr (g, here) ↦ rw (up, here) refl
  ]
]

-- In the map of GetGatewayIDs each user who was asked for has the gateway that GetGatewayID finds
-- for him in the same state of Redis, or none, and no other user has one. Where the command
-- fails, neither finds a gateway.
pub get_gateway_ids-get_gateway_id :
    (ids : List String) (u : String) (r : Redis)
    → the_gateway_in u (get_gateway_ids ids r)
      ≡ (if contains u ids then the_gateway (get_gateway_id u r) else none)
unfolding get_gateway_ids redis_mget
get_gateway_ids-get_gateway_id [] u r = refl
get_gateway_ids-get_gateway_id (v ∷ vs) u r = elim (Bool-cases (r.fails r.commands)) [
  | inl down ↦
      rw (get_gateway_id_lem u r, down) (ground (arith, Bool-cases (v == u || contains u vs)))
  | inr up ↦
      rw (get_gateway_id_lem u r, up)
        (let f : String → Option String = λ key. value_at (r.now r.commands) key r.entries in
          ap (λ vals. gateway_in u (add_gateways (v ∷ vs) vals [])) (map-registry_key f (v ∷ vs))
          ∙ gateway_in-add_gateways (λ w. f (registry_key w)) u (v ∷ vs) []
          ∙ or_else-none _)
]
