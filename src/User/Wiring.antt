-- ===== src/User/Wiring.antt =====
-- What the user service keeps between requests: consistent tables, and caches that are valid with
-- the fillers they were built with.
use constell.Prelude.{
  ℕ, String, refl, inl, inr, Bool, Option, none, some, Bool-cases, nat_eq, string_eq, ℤ,
}
use constell.Prelude.Exec.{Result, ok, err, Exec}
use constell.Prelude.Exec.Keeps.{Keeps}
use constell.Prelude.Text.{utf8}
use constell.GroupCache.Lru.Invariant.{new_lru_cache-IsValid}
use constell.GroupCache.Cache.Wired.{IsWired, get-IsWired, remove-IsWired}
use constell.Sql.{DbError}
use constell.Sql.Keeps.{Has, Keeps-query}
use constell.User.Rows.{Database, Store}
use constell.User.Invariant.{IsConsistent}
use constell.User.Repository.Profiles.{get_user_by_id, get_relation}
use constell.User.Service.Caches.{
  fill_with, fill_user, fill_parts, fill_relation, user_key, relation_key, split_relation_key,
  new_user_cache, new_relation_cache,
}
use constell.User.Service.State.{
  DmCreated, UserService, new_user_service, on_store, cached_user, invalidate_user, cached_relation,
  send_dm_created, publish_dm_created,
}

module _ (Q : Database → Type 0) where
  fill_with_keeps : {A : Type 0} (r : Result DbError A × Store) → Has Q r.1 → Has Q (fill_with r).1
  fill_with_keeps (ok a, s) h = h
  fill_with_keeps (err e, s) h = h

  pub fill_user_keeps : (k : String) (w : Store) → Has Q w → Has Q (fill_user k w).1
  unfolding fill_user get_user_by_id
  fill_user_keeps k w h = fill_with_keeps _ ((Keeps-query Q _).at w h)

  fill_parts_keeps : (o : Option (String × String)) (w : Store) → Has Q w → Has Q (fill_parts o w).1
  unfolding fill_parts get_relation
  fill_parts_keeps none w h = h
  fill_parts_keeps (some (user_id, target_user_id)) w h =
      fill_with_keeps _ ((Keeps-query Q _).at w h)

  pub fill_relation_keeps : (k : String) (w : Store) → Has Q w → Has Q (fill_relation k w).1
  unfolding fill_relation
  fill_relation_keeps k w h = fill_parts_keeps (split_relation_key k) w h

-- The state of a service whose store has a property.
pub record Runs (Q : Database → Type 0) (s : UserService) : Type 0 where
  pub store : Q s.store.db
  pub users : IsWired fill_user s.users
  pub relations : IsWired fill_relation s.relations

abbrev pub IsRunning : UserService → Type 0
IsRunning = Runs IsConsistent

module _ {Q : Database → Type 0} where
  pub on_store-Keeps :
      {E A : Type 0} (m : Exec Store E A) → Keeps (Has Q) m → Keeps (Runs Q) (on_store m)
  on_store-Keeps m k = record {
    at = λ s h. record { store = k.at s.store h.store; users = h.users; relations = h.relations };
  }

  pub invalidate_user-Keeps :
      {E : Type 0} (user_id : String) → Keeps {E = E} (Runs Q) (invalidate_user user_id)
  unfolding invalidate_user
  invalidate_user-Keeps user_id = record {
    at = λ s h. record {
      store = h.store;
      users = remove-IsWired fill_user (user_key user_id) s.users h.users;
      relations = h.relations;
    };
  }

  send_dm_created-Runs :
      (event : DmCreated) (nats : Option (ℕ → Bool)) (s : UserService)
      → Runs Q s
      → Runs Q (send_dm_created event nats s)
  unfolding send_dm_created
  send_dm_created-Runs event none s h = h
  send_dm_created-Runs event (some takes) s h = elim (Bool-cases (takes s.publishes)) [
    | inl y ↦ rw y (record { store = h.store; users = h.users; relations = h.relations })
    | inr n ↦ rw n (record { store = h.store; users = h.users; relations = h.relations })
  ]

  pub publish_dm_created-Keeps :
      {E : Type 0} (event : DmCreated) → Keeps {E = E} (Runs Q) (publish_dm_created event)
  unfolding publish_dm_created
  publish_dm_created-Keeps event = record { at = λ s h. send_dm_created-Runs event s.nats s h }

module _ (Q : Database → Type 0) where
  pub cached_user-Runs : (user_id : String) → Keeps (Runs Q) (cached_user user_id)
  unfolding cached_user
  cached_user-Runs user_id = record {
    at = λ s h.
        let (wired, store) =
          get-IsWired (Has Q) fill_user utf8 (fill_user_keeps Q) (user_key user_id) s.users s.store
            h.users h.store in
        record { store = store; users = wired; relations = h.relations };
  }

  pub cached_relation-Runs :
      (user_id target_user_id : String) → Keeps (Runs Q) (cached_relation user_id target_user_id)
  unfolding cached_relation
  cached_relation-Runs user_id target_user_id = record {
    at = λ s h.
        let (wired, store) =
          get-IsWired (Has Q) fill_relation utf8 (fill_relation_keeps Q)
            (relation_key user_id target_user_id) s.relations s.store h.relations h.store in
        record { store = store; users = h.users; relations = wired };
  }

pub cached_user-Keeps : (user_id : String) → Keeps IsRunning (cached_user user_id)
cached_user-Keeps = cached_user-Runs IsConsistent

pub cached_relation-Keeps :
    (user_id target_user_id : String) → Keeps IsRunning (cached_relation user_id target_user_id)
cached_relation-Keeps = cached_relation-Runs IsConsistent

pub new_user_service-Runs :
    (Q : Database → Type 0) (store : Store) (capacity : ℤ) (nats : Option (ℕ → Bool))
    → Q store.db
    → Runs Q (new_user_service store capacity nats)
unfolding new_user_service new_user_cache new_relation_cache
new_user_service-Runs Q store capacity nats h = record {
  store = h;
  users = record { valid = new_lru_cache-IsValid _; filler = refl };
  relations = record { valid = new_lru_cache-IsValid _; filler = refl };
}
