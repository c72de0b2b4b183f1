-- ===== src/Gateway/Server/Leaving.antt =====
-- What the clean-up of a connection does, and that a turn of the loop publishes nothing.
use constell.Prelude.{
  String, ◌≡◌, refl, sym, inl, inr, ◌&&◌, none, List, [], ◌∷◌, ◌++◌, if◌then◌else◌, Bool-cases,
  nat_eq, string_eq, equal_refl,
}
use mathlib.Core.List.{append-nil}
use constell.Gateway.Connections.{get, unregister}
use constell.Gateway.Connections.Lookup.{get-unregister}
use constell.Gateway.Server.{
  PresenceEvent, Server, Settings, broadcast_user_offline, broadcast_user_online,
  cleanup_disconnect, publish, user_offline, user_online, unregister_in,
}

module _ {W : Type 0} where
  -- Nothing is published, and the outcomes of writes and publications to come are the same.
  pub record Quiet (s t : Server W) : Type 0 where
    pub published : t.published ≡ s.published
    pub publishes : t.publishes ≡ s.publishes
    pub takes : t.takes ≡ s.takes
    pub writable : t.writable ≡ s.writable

  pub quiet : (s : Server W) → Quiet s s
  quiet s = record { published = refl; publishes = refl; takes = refl; writable = refl }

  -- Only what is published differs.
  pub record Announced (s t : Server W) : Type 0 where
    pub router : t.router ≡ s.router
    pub redis : t.redis ≡ s.redis
    pub written : t.written ≡ s.written
    pub writable : t.writable ≡ s.writable

  announced : (s : Server W) → Announced s s
  announced s = record { router = refl; redis = refl; written = refl; writable = refl }

  module _ (cfg : Settings) where
    publish-Announced : (e : PresenceEvent) (s : Server W) → Announced s (publish cfg e s)
    unfolding publish
    publish-Announced e s = elim (Bool-cases (s.takes s.publishes)) [
      | inl y ↦ rw y (record { router = refl; redis = refl; written = refl; writable = refl })
      | inr n ↦ rw n (record { router = refl; redis = refl; written = refl; writable = refl })
    ]

    pub online-Announced : (u : String) (s : Server W) → Announced s (broadcast_user_online cfg u s)
    unfolding broadcast_user_online
    online-Announced u s = elim (Bool-cases cfg.has_nats) [
      | inl y ↦ rw y (publish-Announced (user_online u cfg.gw_id) s)
      | inr n ↦ rw n (announced s)
    ]

    pub offline-Announced :
        (u : String) (s : Server W) → Announced s (broadcast_user_offline cfg u s)
    unfolding broadcast_user_offline
    offline-Announced u s = elim (Bool-cases cfg.has_nats) [
      | inl y ↦ rw y (publish-Announced (user_offline u) s)
      | inr n ↦ rw n (announced s)
    ]

    -- The event that a clean-up publishes, if NATS takes it.
    abbrev pub farewell : String → Server W → List PresenceEvent
    farewell user_id s =
        if cfg.has_nats && s.takes s.publishes then user_offline user_id ∷ [] else []

    pub cleanup-published :
        (u : String) (s t : Server W)
        → Quiet s t
        → (cleanup_disconnect cfg u t).published ≡ s.published ++ farewell u s
    unfolding cleanup_disconnect broadcast_user_offline publish
    cleanup-published u s t q = elim (Bool-cases cfg.has_nats) [
      | inl y ↦ elim (Bool-cases (s.takes s.publishes)) [
        | inl taken ↦ rw (y, taken, q.takes, q.publishes, taken, q.published) refl
        | inr lost ↦
            rw (y, lost, q.takes, q.publishes, lost, q.published) (sym (append-nil s.published))
      ]
      | inr n ↦ rw (n, q.published) (sym (append-nil s.published))
    ]

    -- The server once a user is unregistered, before it is announced.
    abbrev unregistered : String → Server W → Server W
    unregistered u s = record s {
      router = record s.router { conn_mgr = unregister u s.router.conn_mgr };
      redis = unregister_in cfg.registry u s.redis;
    }

    pub cleanup-conn_mgr :
        (u : String) (s : Server W)
        → (cleanup_disconnect cfg u s).router.conn_mgr ≡ unregister u s.router.conn_mgr
    unfolding cleanup_disconnect
    cleanup-conn_mgr u s = rw (offline-Announced u (unregistered u s)).router refl

    pub cleanup-written :
        (u : String) (s : Server W) → (cleanup_disconnect cfg u s).written ≡ s.written
    unfolding cleanup_disconnect
    cleanup-written u s = (offline-Announced u (unregistered u s)).written

    pub cleanup-get :
        (u : String) (s : Server W) → get u (cleanup_disconnect cfg u s).router.conn_mgr ≡ none
    cleanup-get u s =
        rw (cleanup-conn_mgr u s, get-unregister u u s.router.conn_mgr, equal_refl u) refl
