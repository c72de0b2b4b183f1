-- ===== src/Examples/Presence.antt =====
-- Two contacts of a user at two gateways.
use constell.Prelude.{refl, true, false, [], ◌∷◌, nat_eq, string_eq}
use constell.Redis.{Redis}
use constell.Notify.Store.{Store}
use constell.Notify.Subscriber.{MessageCreatedEvent, Subscriber, push_presence_to_contacts}
use constell.Notify.Subscriber.Presence.{Tells, push_presence_to_contacts-Tells}
use constell.Notify.Subscriber.Gateways.{StandsAt}

abbrev pub store : Store
store = record {
  fails = λ n. false;
  statements = 0;
  tables = record {
    users = "u" ∷ "v" ∷ "w" ∷ [];
    channels = (record { id = "x"; community_id = "c" }) ∷ [];
    community_members =
        (record { community_id = "c"; user_id = "u" })
        ∷ (record { community_id = "c"; user_id = "v" })
        ∷ [];
    channel_messages = [];
    channel_read_state = [];
    dm_conversations = [];
    dm_messages = [];
    dm_read_state = [];
    user_relations = (record { user_id = "w"; target_user_id = "u"; type = "friend" }) ∷ [];
  };
}

abbrev pub redis : Redis
redis = record {
  fails = λ n. false;
  now = λ n. 10;
  commands = 0;
  entries =
      (record { key = "ws:uid:v"; value = "g1"; expires_at = 20 })
      ∷ (record { key = "ws:uid:w"; value = "g2"; expires_at = 20 })
      ∷ [];
}

abbrev pub subscriber : Subscriber
subscriber = record {
  store = store;
  redis = redis;
  takes = λ n. true;
  publishes = 0;
  published = [];
  acked = 0;
}

pub redis-StandsAt : StandsAt 10 redis
redis-StandsAt = record { up = λ n. refl; clock = λ n. refl }

push_presence_to_contacts-Tells_example :
    Tells 10 "u" "USER_ONLINE" subscriber (push_presence_to_contacts "u" "USER_ONLINE" subscriber)
push_presence_to_contacts-Tells_example =
    push_presence_to_contacts-Tells 10 "u" "USER_ONLINE" subscriber (λ n. refl) redis-StandsAt
      (λ n. refl)

abbrev pub event : MessageCreatedEvent
event = record {
  message_id = "m";
  channel_id = "x";
  community_id = "c";
  sender_id = "u";
  content = 104 ∷ 105 ∷ [];
  member_ids = "u" ∷ "v" ∷ [];
  created_at = 9;
  seq = 4;
}
