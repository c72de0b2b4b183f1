-- ===== src/Community/Service/Wiring.antt =====
-- What the service keeps between requests: sound tables, valid caches and the fillers they were
-- built with.
use constell.Prelude.{
  ℕ, String, refl, inl, inr, Bool, Option, none, some, List, Bool-cases, nat_eq, string_eq,
}
use constell.Prelude.Exec.{Result, ok, err, Exec}
use constell.Prelude.Exec.Keeps.{Keeps, keeps_rules}
use constell.Prelude.Text.{utf8}
use constell.GroupCache.Lru.Invariant.{new_lru_cache-IsValid}
use constell.GroupCache.Cache.Wired.{IsWired, get-IsWired, set-IsWired, remove-IsWired}
use constell.Community.Rows.{CommunityRow, MemberRow}
use constell.Sql.{DbError}
use constell.Community.Database.{Store}
use constell.Community.Repository.Invariant.{HasSound}
use constell.Community.Repository.Queries.{
  get_community-Keeps, list_members_by_community-Keeps, list_roles_by_community-Keeps,
  list_member_roles-Keeps,
}
use constell.Community.Service.State.{
  Service, Event, fill_with, first_page, fill_community, fill_members, fill_roles, on_store,
  community_key, members_key, roles_key, cached_community, set_community, invalidate_community,
  cached_members, invalidate_members, invalidate_roles, cached_roles, send, publish,
  check_permission, new_community_service, new_community_cache, new_members_cache, new_roles_cache,
}

pub fill_with_keeps :
    {A : Type 0} (P : Store → Type 0) (r : Result DbError A × Store) → P r.1 → P (fill_with r).1
fill_with_keeps P (ok a, s) h = h
fill_with_keeps P (err e, s) h = h

first_page_keeps :
    (r : Result DbError (List MemberRow × String) × Store)
    → HasSound r.1
    → HasSound (first_page r).1
first_page_keeps (ok (members, next), s) h = h
first_page_keeps (err e, s) h = h

fill_community-HasSound : (k : String) (w : Store) → HasSound w → HasSound (fill_community k w).1
unfolding fill_community
fill_community-HasSound k w h = fill_with_keeps HasSound _ ((get_community-Keeps _).at w h)

fill_members-HasSound : (k : String) (w : Store) → HasSound w → HasSound (fill_members k w).1
unfolding fill_members
fill_members-HasSound k w h =
    fill_with_keeps HasSound _
      (first_page_keeps _ ((list_members_by_community-Keeps _ 1000 "").at w h))

fill_roles-HasSound : (k : String) (w : Store) → HasSound w → HasSound (fill_roles k w).1
unfolding fill_roles
fill_roles-HasSound k w h = fill_with_keeps HasSound _ ((list_roles_by_community-Keeps _).at w h)

pub record IsRunning (s : Service) : Type 0 where
  pub store : HasSound s.store
  pub communities : IsWired fill_community s.communities
  pub members : IsWired fill_members s.members
  pub roles : IsWired fill_roles s.roles

pub on_store-Keeps :
    {E A : Type 0} (m : Exec Store E A) → Keeps HasSound m → Keeps IsRunning (on_store m)
on_store-Keeps m k = record {
  at = λ s h. record {
    store = k.at s.store h.store;
    communities = h.communities;
    members = h.members;
    roles = h.roles;
  };
}

pub cached_community-Keeps : (id : String) → Keeps IsRunning (cached_community id)
unfolding cached_community
cached_community-Keeps id = record {
  at = λ s h.
      let (wired, sound) =
        get-IsWired HasSound fill_community utf8 fill_community-HasSound (community_key id)
          s.communities s.store h.communities h.store in
      record { store = sound; communities = wired; members = h.members; roles = h.roles };
}

pub cached_members-Keeps : (id : String) → Keeps IsRunning (cached_members id)
unfolding cached_members
cached_members-Keeps id = record {
  at = λ s h.
      let (wired, sound) =
        get-IsWired HasSound fill_members utf8 fill_members-HasSound (members_key id) s.members
          s.store h.members h.store in
      record { store = sound; communities = h.communities; members = wired; roles = h.roles };
}

pub cached_roles-Keeps : (id : String) → Keeps IsRunning (cached_roles id)
unfolding cached_roles
cached_roles-Keeps id = record {
  at = λ s h.
      let (wired, sound) =
        get-IsWired HasSound fill_roles utf8 fill_roles-HasSound (roles_key id) s.roles s.store
          h.roles h.store in
      record { store = sound; communities = h.communities; members = h.members; roles = wired };
}

pub set_community-Keeps :
    {E : Type 0} (c : CommunityRow) → Keeps {E = E} IsRunning (set_community c)
unfolding set_community
set_community-Keeps c = record {
  at = λ s h. record {
    store = h.store;
    communities = set-IsWired fill_community (community_key c.id) c s.communities h.communities;
    members = h.members;
    roles = h.roles;
  };
}

pub invalidate_community-Keeps :
    {E : Type 0} (id : String) → Keeps {E = E} IsRunning (invalidate_community id)
unfolding invalidate_community
invalidate_community-Keeps id = record {
  at = λ s h. record {
    store = h.store;
    communities = remove-IsWired fill_community (community_key id) s.communities h.communities;
    members = h.members;
    roles = h.roles;
  };
}

pub invalidate_members-Keeps :
    {E : Type 0} (id : String) → Keeps {E = E} IsRunning (invalidate_members id)
unfolding invalidate_members
invalidate_members-Keeps id = record {
  at = λ s h. record {
    store = h.store;
    communities = h.communities;
    members = remove-IsWired fill_members (members_key id) s.members h.members;
    roles = h.roles;
  };
}

pub invalidate_roles-Keeps :
    {E : Type 0} (id : String) → Keeps {E = E} IsRunning (invalidate_roles id)
unfolding invalidate_roles
invalidate_roles-Keeps id = record {
  at = λ s h. record {
    store = h.store;
    communities = h.communities;
    members = h.members;
    roles = remove-IsWired fill_roles (roles_key id) s.roles h.roles;
  };
}

send-IsRunning :
    (event : Event) (nats : Option (ℕ → Bool)) (s : Service)
    → IsRunning s
    → IsRunning (send event nats s)
unfolding send
send-IsRunning event none s h = h
send-IsRunning event (some takes) s h = elim (Bool-cases (takes s.publishes)) [
  | inl y ↦ rw y (record {
    store = h.store;
    communities = h.communities;
    members = h.members;
    roles = h.roles;
  })
  | inr n ↦ rw n (record {
    store = h.store;
    communities = h.communities;
    members = h.members;
    roles = h.roles;
  })
]

pub publish-Keeps : {E : Type 0} (event : Event) → Keeps {E = E} IsRunning (publish event)
unfolding publish
publish-Keeps event = record { at = λ s h. send-IsRunning event s.nats s h }

pub check_permission-Keeps :
    (community_id user_id : String) (required : ℕ)
    → Keeps IsRunning (check_permission community_id user_id required)
unfolding check_permission
check_permission-Keeps community_id user_id required =
    search (keeps_rules, cached_community-Keeps, on_store-Keeps, list_member_roles-Keeps) depth 9

pub new_community_service-IsRunning :
    (store : Store) (nats : Option (ℕ → Bool))
    → HasSound store
    → IsRunning (new_community_service store nats)
unfolding new_community_service new_community_cache new_members_cache new_roles_cache
new_community_service-IsRunning store nats h = record {
  store = h;
  communities = record { valid = new_lru_cache-IsValid 10000; filler = refl };
  members = record { valid = new_lru_cache-IsValid 10000; filler = refl };
  roles = record { valid = new_lru_cache-IsValid 10000; filler = refl };
}
