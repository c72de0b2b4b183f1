-- ===== src/User/Service/Caches.antt =====
-- The fillers and keys of backend/services/user-service/cache.go. A cached value is kept as the row
-- itself, where the code keeps its JSON; the JSON null is none.
use constell.Prelude.{String, Option, none, some, [], ◌∷◌, nat_eq, string_eq, ℤ}
use constell.Prelude.Exec.{Result, ok, err}
use constell.Prelude.Text.{join, drop_chars, split_at}
use constell.GroupCache.Cache as Cache
use constell.GroupCache.Cache.{
  Cache, Filled, filled, refused, CacheOption, with_local_capacity, with_filler,
}
use constell.Sql.{DbError}
use constell.User.Rows.{UserRow, RelationRow, Store}
use constell.User.Repository.Profiles.{get_user_by_id, get_relation}

-- Why a filler fails.
pub data FillError : Type 0 where
  invalid_relation_key : FillError
  query_failed : DbError → FillError

abbrev pub fill_with : {A : Type 0} → Result DbError A × Store → Filled FillError A × Store
fill_with (ok a, s) = (filled a, s)
fill_with (err e, s) = (refused (query_failed e), s)

abbrev pub user_key : String → String
user_key user_id = join "user:" user_id

abbrev pub relation_key : String → String → String
relation_key user_id target_user_id = join "relation:" (join user_id (join ":" target_user_id))

-- splitRelationKey
unfoldable pub split_relation_key : String → Option (String × String)
unfolding split_at drop_chars
split_relation_key key = split_at 58 (drop_chars 9 key)

unfoldable pub fill_user : String → Store → Filled FillError UserRow × Store
unfolding get_user_by_id drop_chars
fill_user key s = fill_with (get_user_by_id (drop_chars 5 key) s)

unfoldable pub fill_parts :
    Option (String × String) → Store → Filled FillError (Option RelationRow) × Store
unfolding get_relation
fill_parts none s = (refused invalid_relation_key, s)
fill_parts (some (user_id, target_user_id)) s = fill_with (get_relation user_id target_user_id s)

unfoldable pub fill_relation : String → Store → Filled FillError (Option RelationRow) × Store
unfolding split_relation_key fill_parts
fill_relation key s = fill_parts (split_relation_key key) s

-- NewUserCache and NewRelationCache, without peers.
unfoldable pub new_user_cache : ℤ → Cache Store FillError String UserRow
unfolding fill_user Cache.new_cache
new_user_cache capacity =
    Cache.new_cache (with_local_capacity capacity ∷ with_filler fill_user ∷ [])

unfoldable pub new_relation_cache : ℤ → Cache Store FillError String (Option RelationRow)
unfolding fill_relation Cache.new_cache
new_relation_cache capacity =
    Cache.new_cache (with_local_capacity capacity ∷ with_filler fill_relation ∷ [])
