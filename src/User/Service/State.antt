-- ===== src/User/Service/State.antt =====
-- The state of the user service: the store behind the repository, the two caches and the events
-- published to NATS.
use constell.Prelude.{
  ℕ, suc, String, Bool, Option, none, some, List, [], ◌∷◌, ◌++◌, if◌then◌else◌, nat_eq, string_eq,
  ℤ,
}
use constell.Prelude.Exec.{Result, ok, err, Exec}
use constell.Prelude.Text.{join, utf8}
use constell.GroupCache.Cache as Cache
use constell.GroupCache.Cache.{Cache, CacheError, Fetched, found, failed}
use constell.User.Rows.{UserRow, RelationRow, Store}
use constell.User.Service.Caches.{
  FillError, user_key, relation_key, new_user_cache, new_relation_cache,
}

-- constell.dm.created with its payload
pub record DmCreated : Type 0 where
  pub message_id : String
  pub sender_id : String
  pub receiver_id : String
  pub conversation_id : String
  pub content : String
  pub created_at : ℕ
  pub seq : ℕ

pub record UserService : Type 0 where
  pub store : Store
  pub users : Cache Store FillError String UserRow
  pub relations : Cache Store FillError String (Option RelationRow)
  -- natsConn: nil, or whether it takes the n-th message
  pub nats : Option (ℕ → Bool)
  pub publishes : ℕ
  pub events : List DmCreated

-- NewUserService over caches of a capacity
unfoldable pub new_user_service : Store → ℤ → Option (ℕ → Bool) → UserService
unfolding new_user_cache new_relation_cache
new_user_service store capacity nats = record {
  store = store;
  users = new_user_cache capacity;
  relations = new_relation_cache capacity;
  nats = nats;
  publishes = 0;
  events = [];
}

abbrev pub on_store : {E A : Type 0} → Exec Store E A → Exec UserService E A
on_store m s = let (r, store) = m s.store in (r, record s { store = store })

abbrev pub fetched : {A : Type 0} → Fetched FillError A → Result (CacheError FillError) A
fetched (found a) = ok a
fetched (failed e) = err e

-- UserCache.Get, Set, Invalidate
unfoldable pub cached_user : String → Exec UserService (CacheError FillError) UserRow
unfolding Cache.get join utf8
cached_user user_id s =
    let (r, cache, store) = Cache.get utf8 (user_key user_id) s.users s.store in
    (fetched r, record s { users = cache; store = store })

unfoldable pub set_user : {E : Type 0} → UserRow → Exec UserService E (Unit {0})
unfolding Cache.set join
set_user user s = (ok tt, record s { users = Cache.set (user_key user.id) user s.users })

unfoldable pub invalidate_user : {E : Type 0} → String → Exec UserService E (Unit {0})
unfolding Cache.remove join
invalidate_user user_id s = (ok tt, record s { users = Cache.remove (user_key user_id) s.users })

-- RelationCache.Get, Invalidate
unfoldable pub cached_relation :
    String → String → Exec UserService (CacheError FillError) (Option RelationRow)
unfolding Cache.get join utf8
cached_relation user_id target_user_id s =
    let (r, cache, store) =
      Cache.get utf8 (relation_key user_id target_user_id) s.relations s.store in
    (fetched r, record s { relations = cache; store = store })

unfoldable pub invalidate_relation : {E : Type 0} → String → String → Exec UserService E (Unit {0})
unfolding Cache.remove join
invalidate_relation user_id target_user_id s =
    (ok tt, record s { relations = Cache.remove (relation_key user_id target_user_id) s.relations })

unfoldable pub send_dm_created : DmCreated → Option (ℕ → Bool) → UserService → UserService
send_dm_created event none s = s
send_dm_created event (some takes) s =
    if takes s.publishes
    then record s { publishes = suc s.publishes; events = s.events ++ event ∷ [] }
    else record s { publishes = suc s.publishes }

-- publishDMCreated, whose errors are only logged
unfoldable pub publish_dm_created : {E : Type 0} → DmCreated → Exec UserService E (Unit {0})
unfolding send_dm_created
publish_dm_created event s = (ok tt, send_dm_created event s.nats s)
