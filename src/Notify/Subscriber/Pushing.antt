-- ===== src/Notify/Subscriber/Pushing.antt =====
-- What the subscriber makes of a message in a channel.
use mathlib.Core.List.{append-nil, append_assoc}
use constell.Prelude.{
  ℕ, suc, max, String, ◌≡◌, refl, sym, ap, ◌∙◌, true, false, ◌&&◌, Option, none, some, List, [],
  ◌∷◌, ◌++◌, if◌then◌else◌, ◌==◌, nat_eq, string_eq, contains,
}
use constell.Redis.{RedisEntry, redis_get, value_at, or_no_value}
use constell.Notify.Store.{Store, last_read}
use constell.Notify.Subscriber.{
  NotificationPush, MessageCreatedEvent, Subscriber, connection_key, push_topic, publish_to,
  push_if_online, push_to_user, push_each, message_targets, message_push,
}
use constell.Notify.Subscriber.Gateways.{StandsAt, gateway_of, redis_get_lem}

-- A push for a user, to the gateway where the user is, if any.
abbrev pub pushes_to : Option String → NotificationPush → List (String × NotificationPush)
pushes_to none push = []
pushes_to (some gw_id) push = (push_topic gw_id, push) ∷ []

abbrev pub pushes :
    ℕ → List RedisEntry → NotificationPush → List String → List (String × NotificationPush)
pushes time es push [] = []
pushes time es push (u ∷ us) = pushes_to (gateway_of time es u) push ++ pushes time es push us

-- What a push leaves to the next.
pub record After (time : ℕ) (es : List RedisEntry) (s t : Subscriber) : Type 0 where
  pub redis : StandsAt time t.redis
  pub entries : t.redis.entries ≡ es
  pub takes : (n : ℕ) → t.takes n ≡ true
  pub store : t.store ≡ s.store
  pub acked : t.acked ≡ s.acked

push_if_online-Pushed :
    (time : ℕ) (es : List RedisEntry) (push : NotificationPush) (o : Option String)
    (s s' : Subscriber)
    → After time es s s'
    → After time es s (push_if_online (or_no_value o) push s')
      × ((push_if_online (or_no_value o) push s').published ≡ s'.published ++ pushes_to o push)
unfolding push_if_online publish_to
push_if_online-Pushed time es push none s s' a = (a, sym (append-nil s'.published))
push_if_online-Pushed time es push (some gw_id) s s' a = rw (a.takes s'.publishes) (
  record {
    redis = a.redis;
    entries = a.entries;
    takes = a.takes;
    store = a.store;
    acked = a.acked;
  },
  refl,
)

pub push_each-Pushed :
    (time : ℕ) (es : List RedisEntry) (push : NotificationPush) (us : List String)
    (s s' : Subscriber)
    → After time es s s'
    → After time es s (push_each us push s')
      × ((push_each us push s').published ≡ s'.published ++ pushes time es push us)
unfolding push_each push_to_user gateway_of
push_each-Pushed time es push [] s s' a = (a, sym (append-nil s'.published))
push_each-Pushed time es push (u ∷ us) s s' a =
    let asked : Subscriber = record s' {
      redis = record s'.redis { commands = suc s'.redis.commands };
    } in
    let (one, sent) = push_if_online-Pushed time es push (gateway_of time es u) s asked (record {
      redis = record { up = a.redis.up; clock = a.redis.clock };
      entries = a.entries;
      takes = a.takes;
      store = a.store;
      acked = a.acked;
    }) in
    let (rest, more) =
      push_each-Pushed time es push us s
        (push_if_online (or_no_value (gateway_of time es u)) push asked) one in
    let found : redis_get (connection_key u) s'.redis
        ≡ (or_no_value (gateway_of time es u), asked.redis) =
      redis_get_lem time (connection_key u) s'.redis a.redis
      ∙ ap (λ entries. (or_no_value (value_at time (connection_key u) entries), asked.redis))
          a.entries in
    rw (push_each, found)
      (
        rest,
        more
            ∙ ap (λ ps. ps ++ pushes time es push us) sent
            ∙ append_assoc s'.published (pushes_to (gateway_of time es u) push)
                (pushes time es push us),
      )

-- What handling a message does.
pub record Announces (time : ℕ) (evt : MessageCreatedEvent) (s t : Subscriber) : Type 0 where
  pub acked : t.acked ≡ suc s.acked
  pub published :
      t.published
      ≡ s.published ++ pushes time s.redis.entries (message_push evt) (message_targets evt)
  pub not_sender : contains evt.sender_id (message_targets evt) ≡ false
  pub positions :
      (v w : String)
      → last_read v w t.store.tables.channel_read_state ≡ (
          if v == evt.sender_id && w == evt.channel_id
          then max
              (last_read evt.sender_id evt.channel_id s.store.tables.channel_read_state)
              evt.seq
          else last_read v w s.store.tables.channel_read_state)
