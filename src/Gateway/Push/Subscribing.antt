-- ===== src/Gateway/Push/Subscribing.antt =====
-- Subscribe and Unsubscribe of backend/services/ws-gateway/push.go: the topic that a gateway hears.
use constell.Prelude.{
  String, ◌≡◌, refl, inl, inr, Bool, false, Option, none, some, if◌then◌else◌, Bool-cases,
  Option-cases, ◌==◌, nat_eq, string_eq,
}
use constell.Prelude.Exec.{Result, ok, err, Exec}
use constell.Prelude.Text.{join}

pub data SubscribeError : Type 0 where
  nats_is_nil subscribe_failed unsubscribe_failed : SubscribeError

-- Whether NATS takes a subscription to a topic, and whether it drops one.
pub record NatsConn : Type 0 where
  pub subscribes : String → Bool
  pub unsubscribes : String → Bool

-- The connection may be nil; a subscription is its topic.
pub record PushSubscriber : Type 0 where
  pub nats : Option NatsConn
  pub sub : Option String

-- pushTopic
abbrev pub push_topic_of : String → String
push_topic_of gw_id = join "gw.push." gw_id

abbrev subscribe_to : String → Option NatsConn → Exec PushSubscriber SubscribeError (Unit {0})
subscribe_to topic none s = (err nats_is_nil, s)
subscribe_to topic (some nats) s =
    if nats.subscribes topic
    then (ok tt, record s { sub = some topic })
    else (err subscribe_failed, s)

-- Subscribe
unfoldable pub subscribe : String → Exec PushSubscriber SubscribeError (Unit {0})
unfolding join
subscribe gw_id s = subscribe_to (push_topic_of gw_id) s.nats s

-- The subscription is one of the connection, so the connection is there.
abbrev drops : Option NatsConn → String → Bool
drops none topic = false
drops (some nats) topic = nats.unsubscribes topic

abbrev unsubscribe_from : Option String → Exec PushSubscriber SubscribeError (Unit {0})
unsubscribe_from none s = (ok tt, s)
unsubscribe_from (some topic) s =
    if drops s.nats topic then (ok tt, record s { sub = none }) else (err unsubscribe_failed, s)

-- Unsubscribe
unfoldable pub unsubscribe : Exec PushSubscriber SubscribeError (Unit {0})
unsubscribe s = unsubscribe_from s.sub s

-- Whether a message on a topic comes to the gateway.
abbrev pub is_topic : Option String → String → Bool
is_topic none topic = false
is_topic (some subscribed) topic = topic == subscribed

-- How Subscribe and Unsubscribe end: where they answer, the gateway hears exactly its own topic, and
-- no topic; where they fail, what it heard before.
abbrev pub Hears :
    (String → Bool) → PushSubscriber → Result SubscribeError (Unit {0}) × PushSubscriber → Type 0
Hears topics s (ok u, t) = (topic : String) → is_topic t.sub topic ≡ topics topic
Hears topics s (err e, t) = t ≡ s

pub subscribe-Hears :
    (gw_id : String) (s : PushSubscriber)
    → Hears (λ topic. topic == push_topic_of gw_id) s (subscribe gw_id s)
unfolding subscribe
subscribe-Hears gw_id s = elim (Option-cases s.nats) [
  | inl gone ↦ rw gone refl
  | inr (nats, here) ↦ rw here (elim (Bool-cases (nats.subscribes (push_topic_of gw_id))) [
    | inl y ↦ rw y (λ topic. refl)
    | inr n ↦ rw n refl
  ])
]

pub unsubscribe-Hears : (s : PushSubscriber) → Hears (λ topic. false) s (unsubscribe s)
unfolding unsubscribe
unsubscribe-Hears s = elim (Option-cases s.sub) [
  | inl gone ↦ rw gone (λ t. refl)
  | inr (topic, here) ↦
      rw here
        (elim (Bool-cases (drops s.nats topic)) [ inl y ↦ rw y (λ t. refl) | inr n ↦ rw n refl ])
]
