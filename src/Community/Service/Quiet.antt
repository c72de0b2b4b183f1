-- ===== src/Community/Service/Quiet.antt =====
-- Which calls of backend/services/community-service/service.go publish nothing: the caches and
-- `checkPermission`.
use constell.Prelude.{
  ℕ, String, ◌≡◌, refl, sym, inl, inr, Bool, Option, none, some, ◌++◌, Bool-cases, nat_eq,
  string_eq,
}
use mathlib.Core.List.{append-nil}
use constell.Prelude.Exec.{Exec, announced}
use constell.Prelude.Exec.Keeps.{Keeps, keeps_rules}
use constell.Community.Database.{Store}
use constell.Community.Service.State.{
  Service, Event, on_store, send, check_permission, cached_community, cached_members,
}

-- Nothing has been published since `s`.
pub record Quiet (s t : Service) : Type 0 where
  pub events : t.events ≡ s.events
  pub publishes : t.publishes ≡ s.publishes
  pub nats : t.nats ≡ s.nats

on_store-Quiet : {E A : Type 0} (s : Service) (m : Exec Store E A) → Keeps (Quiet s) (on_store m)
on_store-Quiet s m = record {
  at = λ t h. record { events = h.events; publishes = h.publishes; nats = h.nats };
}

cached_community-Quiet : (s : Service) (id : String) → Keeps (Quiet s) (cached_community id)
unfolding cached_community
cached_community-Quiet s id = record {
  at = λ t h. record { events = h.events; publishes = h.publishes; nats = h.nats };
}

pub cached_members-Quiet : (s : Service) (id : String) → Keeps (Quiet s) (cached_members id)
unfolding cached_members
cached_members-Quiet s id = record {
  at = λ t h. record { events = h.events; publishes = h.publishes; nats = h.nats };
}

pub check_permission-Quiet :
    (s : Service) (community_id user_id : String) (required : ℕ)
    → Keeps (Quiet s) (check_permission community_id user_id required)
unfolding check_permission
check_permission-Quiet s community_id user_id required =
    search (keeps_rules, cached_community-Quiet, on_store-Quiet) depth 9

pub send-announced :
    (event : Event) (nats : Option (ℕ → Bool)) (s : Service)
    → (send event nats s).events ≡ s.events ++ announced event nats s.publishes
unfolding send
send-announced event none s = sym (append-nil s.events)
send-announced event (some takes) s = elim (Bool-cases (takes s.publishes)) [
  | inl y ↦ rw y refl
  | inr n ↦ rw n (sym (append-nil s.events))
]
