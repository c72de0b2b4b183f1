-- ===== src/Community/Service/State.antt =====
-- The state of the community service: the store behind the repository, the caches of
-- backend/services/community-service/cache.go, and the events published to NATS. A cached value is
-- kept as the row itself, where the code keeps its JSON.
use constell.Prelude.{
  ℕ, suc, String, Bool, not, Option, none, some, List, [], ◌∷◌, ◌++◌, if◌then◌else◌, ◌==◌, nat_eq,
  string_eq, any, pos,
}
use constell.Prelude.Exec.{Result, ok, err, Exec, pure, ◌>>=◌, or_fail, reject_if}
use constell.Prelude.Text.{join, drop_chars, utf8}
use constell.GroupCache.Cache
use constell.GroupCache.Cache.{
  Cache, CacheError, Fetched, found, failed, Filled, filled, refused, CacheOption,
  with_local_capacity, with_filler,
}
use constell.Rpc.{Code, not_found, internal, permission_denied}
use constell.Community.Rows.{CommunityRow, MemberRow, RoleRow}
use constell.Community.Permissions.{compute_permissions, has_permission}
use constell.Sql.{DbError}
use constell.Community.Database.{Store}
use constell.Community.Repository.Communities.{get_community}
use constell.Community.Repository.Members.{list_members_by_community}
use constell.Community.Repository.Roles.{list_roles_by_community, list_member_roles}

-- What the service publishes: the constell.* subjects with their payloads.
pub data Event : Type 0 where
  message_created : String → String → String → String → String → ℕ → ℕ → List String → Event
  member_joined : String → String → String → List String → Event
  member_left : String → String → List String → Event

pub record Service : Type 0 where
  pub store : Store
  pub communities : Cache Store DbError String CommunityRow
  pub members : Cache Store DbError String (List MemberRow)
  pub roles : Cache Store DbError String (List RoleRow)
  -- natsConn: nil, or whether it takes the n-th message
  pub nats : Option (ℕ → Bool)
  pub publishes : ℕ
  pub events : List Event

abbrev pub on_store : {E A : Type 0} → Exec Store E A → Exec Service E A
on_store m s = let (r, store) = m s.store in (r, record s { store = store })

abbrev pub fill_with : {A : Type 0} → Result DbError A × Store → Filled DbError A × Store
fill_with (ok a, s) = (filled a, s)
fill_with (err e, s) = (refused e, s)

abbrev fetched : {A : Type 0} → Fetched DbError A → Result (CacheError DbError) A
fetched (found a) = ok a
fetched (failed e) = err e

abbrev pub community_key : String → String
community_key id = join "community:" id

abbrev pub members_key : String → String
members_key id = join "members:" id

abbrev pub roles_key : String → String
roles_key id = join "roles:" id

unfoldable pub fill_community : String → Store → Filled DbError CommunityRow × Store
unfolding get_community drop_chars
fill_community key s = fill_with (get_community (drop_chars 10 key) s)

abbrev pub first_page :
    Result DbError (List MemberRow × String) × Store → Result DbError (List MemberRow) × Store
first_page (ok (members, next), s) = (ok members, s)
first_page (err e, s) = (err e, s)

-- The first thousand members; the cursor for more is dropped.
unfoldable pub fill_members : String → Store → Filled DbError (List MemberRow) × Store
unfolding list_members_by_community drop_chars
fill_members key s = fill_with (first_page (list_members_by_community (drop_chars 8 key) 1000 "" s))

unfoldable pub fill_roles : String → Store → Filled DbError (List RoleRow) × Store
unfolding list_roles_by_community drop_chars
fill_roles key s = fill_with (list_roles_by_community (drop_chars 6 key) s)

-- NewCommunityCache, NewMembersCache, NewRolesCache, without peers.
unfoldable pub new_community_cache : Cache Store DbError String CommunityRow
unfolding fill_community Cache.new_cache
new_community_cache =
    Cache.new_cache (with_local_capacity (pos 10000) ∷ with_filler fill_community ∷ [])

unfoldable pub new_members_cache : Cache Store DbError String (List MemberRow)
unfolding fill_members Cache.new_cache
new_members_cache =
    Cache.new_cache (with_local_capacity (pos 10000) ∷ with_filler fill_members ∷ [])

unfoldable pub new_roles_cache : Cache Store DbError String (List RoleRow)
unfolding fill_roles Cache.new_cache
new_roles_cache = Cache.new_cache (with_local_capacity (pos 10000) ∷ with_filler fill_roles ∷ [])

unfoldable pub new_community_service : Store → Option (ℕ → Bool) → Service
unfolding new_community_cache new_members_cache new_roles_cache
new_community_service store nats = record {
  store = store;
  communities = new_community_cache;
  members = new_members_cache;
  roles = new_roles_cache;
  nats = nats;
  publishes = 0;
  events = [];
}

-- CommunityCache.Get, Set, Invalidate
unfoldable pub cached_community : String → Exec Service (CacheError DbError) CommunityRow
unfolding Cache.get join utf8
cached_community id s =
    let (r, cache, store) = Cache.get utf8 (community_key id) s.communities s.store in
    (fetched r, record s { communities = cache; store = store })

unfoldable pub set_community : {E : Type 0} → CommunityRow → Exec Service E (Unit {0})
unfolding Cache.set join
set_community community s = (
  ok tt,
  record s { communities = Cache.set (community_key community.id) community s.communities },
)

unfoldable pub invalidate_community : {E : Type 0} → String → Exec Service E (Unit {0})
unfolding Cache.remove join
invalidate_community id s =
    (ok tt, record s { communities = Cache.remove (community_key id) s.communities })

-- MembersCache.Get, Invalidate
unfoldable pub cached_members : String → Exec Service (CacheError DbError) (List MemberRow)
unfolding Cache.get join utf8
cached_members id s =
    let (r, cache, store) = Cache.get utf8 (members_key id) s.members s.store in
    (fetched r, record s { members = cache; store = store })

unfoldable pub invalidate_members : {E : Type 0} → String → Exec Service E (Unit {0})
unfolding Cache.remove join
invalidate_members id s = (ok tt, record s { members = Cache.remove (members_key id) s.members })

-- RolesCache.Invalidate
unfoldable pub invalidate_roles : {E : Type 0} → String → Exec Service E (Unit {0})
unfolding Cache.remove join
invalidate_roles id s = (ok tt, record s { roles = Cache.remove (roles_key id) s.roles })

-- RolesCache.Get
unfoldable pub cached_roles : String → Exec Service (CacheError DbError) (List RoleRow)
unfolding Cache.get join utf8
cached_roles id s =
    let (r, cache, store) = Cache.get utf8 (roles_key id) s.roles s.store in
    (fetched r, record s { roles = cache; store = store })

-- cachedMembersSet, read at one user
unfoldable pub cached_members_set : List MemberRow → String → Bool
cached_members_set members user_id = any (λ m. m.user_id == user_id) members

-- natsConn.Publish, whose error is only logged
unfoldable pub send : Event → Option (ℕ → Bool) → Service → Service
send event none s = s
send event (some takes) s =
    if takes s.publishes
    then record s { publishes = suc s.publishes; events = s.events ++ event ∷ [] }
    else record s { publishes = suc s.publishes }

unfoldable pub publish : {E : Type 0} → Event → Exec Service E (Unit {0})
unfolding send
publish event s = (ok tt, send event s.nats s)

-- checkPermission
unfoldable pub check_permission : String → String → ℕ → Exec Service Code (Unit {0})
unfolding cached_community list_member_roles compute_permissions has_permission
check_permission community_id user_id required = do
  community ← or_fail not_found (cached_community community_id)
  if community.owner_id == user_id then pure tt else (do
    roles ← or_fail internal (on_store (list_member_roles community_id user_id))
    let member : MemberRow = record {
      community_id = community_id;
      user_id = user_id;
      nickname = "";
      joined_at = 0;
    }
    let perms : ℕ = compute_permissions member roles community.owner_id
    reject_if (not (has_permission perms required)) permission_denied)
