-- ===== src/Notify/Subscriber.antt =====
-- The subscriber of backend/services/notify-service/subscriber.go: events of NATS advance read
-- positions and become pushes to the gateways.
pub mod Gateways
pub mod Presence
pub mod Pushing
use constell.Prelude.{
  ℕ, zero, suc, ◌+◌, ◌-◌, ◌*◌, ◌/◌, ◌%◌, ◌^◌, ◌≤◌, ◌<◌, min, max, String, ◌≡◌, refl, sym, ap, subst,
  ◌∙◌, ◌≢◌, ◌↔◌, ◌⊎◌, inl, inr, Bool, true, false, not, ◌&&◌, ◌||◌, Option, none, some, List, [],
  ◌∷◌, ◌++◌, map, arith, eq_iff, ltb, leb, eqb, if◌then◌else◌, ltb→lt, lt→ltb, le→ltb, eqb_iff,
  Bool-cases, Option-cases, Comparable, ◌==◌, nat_eq, string_eq, equal_refl, eq_of_equal, length,
  take, drop, get_elem?, keep, find, any, All, length-append, length-take, take-append-drop,
  take-of_le, take-length-append, drop-length-append, length-keep-le, All-map, All-keep, contains,
  Distinct, All-append, All-keep_with, any-append_left, any-keep, bit_and, bit_or, bit_xor,
  is_positive, ne_of_unequal, negsuc, pos, take-take, to_ℕ, ℤ, equal_sym,
}
use constell.Prelude.Exec.{Result, ok, err}
use constell.Prelude.Text.{join}
use constell.Redis.{Redis, RedisError, redis_get}
use constell.Notify.Preview.{truncate}
use constell.Notify.Store.{
  Store, StoreError, Relation, Membership, Tables, query, advance_dm_read, advance_channel_read,
}

-- DMCreatedEvent and MessageCreatedEvent. A content is its bytes.
pub record DmCreatedEvent : Type 0 where
  pub message_id : String
  pub sender_id : String
  pub receiver_id : String
  pub conversation_id : String
  pub content : List ℕ
  pub created_at : ℕ
  pub seq : ℕ

pub record MessageCreatedEvent : Type 0 where
  pub message_id : String
  pub channel_id : String
  pub community_id : String
  pub sender_id : String
  pub content : List ℕ
  pub member_ids : List String
  pub created_at : ℕ
  pub seq : ℕ

-- The payloads of a push.
pub data Payload : Type 0 where
  dm_payload : String → String → List ℕ → ℕ → ℕ → Payload
  channel_payload : String → String → String → List ℕ → ℕ → ℕ → Payload
  presence_payload : String → Payload

-- NotificationPush
pub record NotificationPush : Type 0 where
  pub targets : List String
  pub event_type : String
  pub payload : Payload

-- Subscriber: the store, Redis, whether NATS takes the n-th message, and what it took, by its topic.
pub record Subscriber : Type 0 where
  pub store : Store
  pub redis : Redis
  pub takes : ℕ → Bool
  pub publishes : ℕ
  pub published : List (String × NotificationPush)
  pub acked : ℕ

abbrev pub connection_key : String → String
connection_key user_id = join "ws:uid:" user_id

abbrev pub push_topic : String → String
push_topic gw_id = join "gw.push." gw_id

abbrev pub ack : Subscriber → Subscriber
ack s = record s { acked = suc s.acked }

unfoldable pub publish_to : String → NotificationPush → Subscriber → Subscriber
publish_to topic push s =
    if s.takes s.publishes
    then record s { publishes = suc s.publishes; published = s.published ++ (topic, push) ∷ [] }
    else record s { publishes = suc s.publishes }

-- What follows the look-up of a user's gateway: no gateway, no push.
unfoldable pub push_if_online :
    Result RedisError String → NotificationPush → Subscriber → Subscriber
unfolding publish_to join
push_if_online (err e) push s = s
push_if_online (ok gw_id) push s = publish_to (push_topic gw_id) push s

-- pushToUser
unfoldable pub push_to_user : String → NotificationPush → Subscriber → Subscriber
unfolding push_if_online redis_get join
push_to_user user_id push s =
    let (found, redis) = redis_get (connection_key user_id) s.redis in
    push_if_online found push (record s { redis = redis })

abbrev pub dm_push : DmCreatedEvent → NotificationPush
dm_push evt = record {
  targets = evt.receiver_id ∷ [];
  event_type = "DM_RECEIVED";
  payload =
      dm_payload evt.message_id evt.sender_id (truncate evt.content 200) evt.created_at evt.seq;
}

-- handleDMCreated; none is data that is no JSON of the event.
unfoldable pub handle_dm_created : Option DmCreatedEvent → Subscriber → Subscriber
unfolding push_to_user advance_dm_read truncate
handle_dm_created none s = ack s
handle_dm_created (some evt) s =
    let store = (advance_dm_read evt.sender_id evt.conversation_id evt.seq s.store).1 in
    ack (push_to_user evt.receiver_id (dm_push evt) (record s { store = store }))

-- The members but the sender
abbrev pub message_targets : MessageCreatedEvent → List String
message_targets evt = keep (λ m. not (m == evt.sender_id)) evt.member_ids

abbrev pub message_push : MessageCreatedEvent → NotificationPush
message_push evt = record {
  targets = message_targets evt;
  event_type = "CHANNEL_MESSAGE_RECEIVED";
  payload =
      channel_payload evt.message_id evt.channel_id evt.sender_id (truncate evt.content 200)
        evt.created_at evt.seq;
}

unfoldable pub push_each : List String → NotificationPush → Subscriber → Subscriber
unfolding push_to_user
push_each [] push s = s
push_each (u ∷ us) push s = push_each us push (push_to_user u push s)

-- An event without a sender advances nothing.
unfoldable pub advance_sender : MessageCreatedEvent → Store → Store
unfolding advance_channel_read
advance_sender evt store =
    if evt.sender_id == ""
    then store
    else (advance_channel_read evt.sender_id evt.channel_id evt.seq store).1

-- handleMessageCreated
unfoldable pub handle_message_created : Option MessageCreatedEvent → Subscriber → Subscriber
unfolding push_each advance_sender truncate
handle_message_created none s = ack s
handle_message_created (some evt) s = ack (
    push_each (message_targets evt) (message_push evt)
      (record s { store = advance_sender evt s.store }))

-- A set of users, as the keys of a map.
unfoldable pub add_user : String → List String → List String
add_user u us = if contains u us then us else us ++ u ∷ []

unfoldable pub add_users : List String → List String → List String
unfolding add_user
add_users [] us = us
add_users (v ∷ vs) us = add_users vs (add_user v us)

-- The rows of the two statements; a statement that fails adds nobody.
unfoldable pub friends_of : String → Tables → List String
friends_of user_id t =
    map (λ (r : Relation). if r.user_id == user_id then r.target_user_id else r.user_id)
      (keep (λ r. (r.user_id == user_id || r.target_user_id == user_id) && r.type == "friend")
        t.user_relations)

unfoldable pub co_members_of : String → Tables → List String
co_members_of user_id t =
    map (λ (m : Membership). m.user_id)
      (keep
        (λ m2.
          any (λ (m1 : Membership). m1.community_id == m2.community_id && m1.user_id == user_id)
            t.community_members
          && not (m2.user_id == user_id))
        t.community_members)

abbrev pub rows_or_none : Result StoreError (List String) → List String
rows_or_none (ok rows) = rows
rows_or_none (err e) = []

unfoldable pub contacts_of : String → Store → List String × Store
unfolding friends_of co_members_of query add_users
contacts_of user_id s =
    let (friends, s1) = query (friends_of user_id) s in
    let (members, s2) = query (co_members_of user_id) s1 in
    (add_users (rows_or_none members) (add_users (rows_or_none friends) []), s2)

-- gatewayTargets[gwID] = append(gatewayTargets[gwID], uid)
unfoldable pub add_target :
    String → String → List (String × List String) → List (String × List String)
add_target gw_id user_id [] = (gw_id, user_id ∷ []) ∷ []
add_target gw_id user_id ((g, us) ∷ rest) =
    if g == gw_id then (g, us ++ user_id ∷ []) ∷ rest else (g, us) ∷ add_target gw_id user_id rest

abbrev pub add_if_online :
    Result RedisError String → String → List (String × List String) → List (String × List String)
add_if_online (err e) user_id groups = groups
add_if_online (ok gw_id) user_id groups = add_target gw_id user_id groups

-- The pipeline of GETs, and the users by their gateways.
unfoldable pub group_by_gateway :
    List String → List (String × List String) → Redis → List (String × List String) × Redis
unfolding add_target redis_get join
group_by_gateway [] groups r = (groups, r)
group_by_gateway (u ∷ us) groups r =
    let (found, r') = redis_get (connection_key u) r in
    group_by_gateway us (add_if_online found u groups) r'

-- One push to each gateway, for its users only.
unfoldable pub push_groups :
    NotificationPush → List (String × List String) → Subscriber → Subscriber
unfolding publish_to join
push_groups push [] s = s
push_groups push ((gw_id, us) ∷ rest) s =
    push_groups push rest (publish_to (push_topic gw_id) (record push { targets = us }) s)

-- pushToUsers
unfoldable pub push_to_users : List String → NotificationPush → Subscriber → Subscriber
unfolding group_by_gateway push_groups
push_to_users user_ids push s =
    let (groups, redis) = group_by_gateway user_ids [] s.redis in
    push_groups push groups (record s { redis = redis })

-- pushPresenceToContacts. The order of the targets is that of a map's keys in the code, any order.
unfoldable pub push_presence_to_contacts : String → String → Subscriber → Subscriber
unfolding contacts_of push_to_users
push_presence_to_contacts user_id event_type s =
    let (contacts, store) = contacts_of user_id s.store in
    push_to_users contacts
      (record { targets = contacts; event_type = event_type; payload = presence_payload user_id })
      (record s { store = store })

-- handleUserOnline, handleUserOffline
unfoldable pub handle_user_online : Option String → Subscriber → Subscriber
unfolding push_presence_to_contacts
handle_user_online none s = ack s
handle_user_online (some user_id) s = ack (push_presence_to_contacts user_id "USER_ONLINE" s)

unfoldable pub handle_user_offline : Option String → Subscriber → Subscriber
unfolding push_presence_to_contacts
handle_user_offline none s = ack s
handle_user_offline (some user_id) s = ack (push_presence_to_contacts user_id "USER_OFFLINE" s)
