-- ===== src/Community/Service/Untouched.antt =====
-- What a check of a kick and an announcement leave alone: `checkPermission`, `publishMemberLeft` of
-- service.go.
use constell.Prelude.{
  ℕ, String, ◌≡◌, refl, subst, inl, inr, List, arith, Bool-cases, nat_eq, string_eq,
}
use constell.Prelude.Exec.{Result, ok, err, Exec}
use constell.Prelude.Exec.Keeps.{Keeps, keeps_rules}
use constell.Community.Rows.{ChannelRow}
use constell.Sql.{DbError, query}
use constell.Community.Database.{Database, Store}
use constell.Community.Repository.Communities.{get_community}
use constell.Community.Repository.Channels.{list_channels_by_community}
use constell.Community.Repository.Roles.{list_member_roles}
use constell.Rpc.{Code}
use constell.Community.Service.State.{
  Service, Event, member_left, on_store, publish, send, check_permission, fill_community,
  community_key, cached_community,
}
use constell.Prelude.Text.{utf8}
use constell.GroupCache.Cache.Wired.{IsWired, get-IsWired}
use constell.Community.Service.Wiring.{fill_with_keeps}
use constell.Community.Service.Members.{with_channels, has_nats, publish_member_left, may_kick}

-- The tables are `db`.
abbrev pub Holds : Database → Store → Type 0
Holds db s = s.db ≡ db

-- The tables are `db`, and the cache of communities is in use.
pub record Same (db : Database) (s : Service) : Type 0 where
  pub wired : IsWired fill_community s.communities
  pub tables : s.store.db ≡ db

query-Holds :
    {A : Type 0} (db : Database) (body : Database → Result DbError A)
    → Keeps (Holds db) (query body)
unfolding query
query-Holds db body = record { at = λ s h. ground arith }

fill_community-Holds :
    (db : Database) (k : String) (w : Store) → Holds db w → Holds db (fill_community k w).1
unfolding fill_community get_community
fill_community-Holds db k w h = fill_with_keeps (Holds db) _ ((query-Holds db _).at w h)

on_store-Same :
    {E A : Type 0} (db : Database) (m : Exec Store E A)
    → Keeps (Holds db) m
    → Keeps (Same db) (on_store m)
on_store-Same db m k = record {
  at = λ s h. record { wired = h.wired; tables = k.at s.store h.tables };
}

-- What the caches are asked and what is published leaves the tables alone.
pub cached_community-Same : (db : Database) (id : String) → Keeps (Same db) (cached_community id)
unfolding cached_community
cached_community-Same db id = record {
  at = λ s h.
      let (wired, tables) =
        get-IsWired (Holds db) fill_community utf8 (fill_community-Holds db) (community_key id)
          s.communities s.store h.wired h.tables in
      record { wired = wired; tables = tables };
}

list_member_roles-Holds :
    (db : Database) (community_id user_id : String)
    → Keeps (Holds db) (list_member_roles community_id user_id)
unfolding list_member_roles
list_member_roles-Holds db community_id user_id = query-Holds db _

list_channels_by_community-Holds :
    (db : Database) (community_id : String)
    → Keeps (Holds db) (list_channels_by_community community_id)
unfolding list_channels_by_community
list_channels_by_community-Holds db community_id = query-Holds db _

pub check_permission-Same :
    (db : Database) (community_id user_id : String) (required : ℕ)
    → Keeps (Same db) (check_permission community_id user_id required)
unfolding check_permission
check_permission-Same db community_id user_id required =
    search (keeps_rules, cached_community-Same, on_store-Same, list_member_roles-Holds) depth 9

pub may_kick-Same :
    (db : Database) (caller_id community_id target_id owner_id : String)
    → Keeps (Same db) (may_kick caller_id community_id target_id owner_id)
unfolding may_kick
may_kick-Same db caller_id community_id target_id owner_id =
    search (keeps_rules, check_permission-Same) depth 9

-- An announcement never fails and leaves the tables alone.
unfoldable pub Announced : Database → Result Code (Unit {0}) × Service → Type 0
Announced db (ok u, s) = s.store.db ≡ db
Announced db (err e, s) = ⊥

publish-Announced : (event : Event) (s : Service) → Announced s.store.db (publish event s)
unfolding publish send Announced
publish-Announced event s = ground arith

with_channels-Announced :
    (event : List String → Event) (r : Result DbError (List ChannelRow)) (s : Service)
    → Announced s.store.db (with_channels (λ ids. publish (event ids)) r s)
unfolding with_channels Announced
with_channels-Announced event (err e) s = refl
with_channels-Announced event (ok channels) s = publish-Announced _ s

pub publish_member_left-Announced :
    (community_id user_id : String) (s : Service)
    → Announced s.store.db (publish_member_left community_id user_id s)
unfolding publish_member_left Announced
publish_member_left-Announced community_id user_id s = elim (Bool-cases (has_nats s.nats)) [
  | inl y ↦ rw y (
      let m = list_channels_by_community community_id in
      let (r, store) = m s.store in
      subst
        (λ db. Announced db (
          with_channels (λ ids. publish (member_left community_id user_id ids)) r
            (record s { store = store })))
        ((list_channels_by_community-Holds s.store.db community_id).at s.store refl)
        (with_channels-Announced (member_left community_id user_id) r (record s { store = store })))
  | inr n ↦ rw n refl
]
