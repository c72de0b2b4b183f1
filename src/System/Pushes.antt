-- ===== src/System/Pushes.antt =====
-- The pushes of backend/services/notify-service/subscriber.go as the gateways read them: the JSON
-- between NotificationPush and PushPayload, and the topics that the gateways subscribe to in
-- backend/services/ws-gateway/push.go.
use constell.Prelude.{
  ℕ, zero, suc, ◌+◌, ◌*◌, ◌/◌, ◌%◌, ◌^◌, ◌<◌, String, ◌≡◌, refl, sym, ap, ◌∙◌, inl, inr, Bool, ◌&&◌,
  ◌||◌, Option, none, some, List, [], ◌∷◌, ◌++◌, arith, ltb, eqb, if◌then◌else◌, lt→ltb, Bool-cases,
  ◌==◌, nat_eq, string_eq, equal_refl, eq_of_equal, length, keep, pos,
}
use constell.Prelude.Text.{join, drop_chars}
use constell.Notify.Subscriber.{
  Payload, dm_payload, channel_payload, presence_payload, NotificationPush, push_topic,
}
use constell.Gateway.Connections.{ConnManager}
use constell.Gateway.Push.Subscribing.{push_topic_of}
use constell.Gateway.Push.{
  Json, json_string, json_number, PushPayload, ServerEvent, handle_nats_message, build_server_event,
  write_each, sockets, handle_nats_message-writes,
}
use constell.Redis.{RedisEntry}
use constell.Notify.Subscriber.Gateways.{gateway_of, is_at}
use constell.Notify.Subscriber.Pushing.{pushes, pushes_to}

-- A number as the float64 that encoding/json reads it to: 53 bits, ties to even. `exponent` counts
-- the bits above them; a number of Go has at most 11.
exponent : ℕ → ℕ → ℕ
exponent zero n = 0
exponent (suc bits) n = let more = exponent bits (n / 2) in if ltb n (2 ^ 53) then 0 else suc more

nearest : ℕ → ℕ → ℕ
nearest unit n =
    let q = n / unit in
    let r = n % unit in
    (if ltb unit (2 * r) || (eqb (2 * r) unit && eqb (q % 2) 1) then q + 1 else q) * unit

pub float64 : ℕ → ℕ
unfolding nearest
float64 n = nearest (2 ^ exponent 11 n) n

float64_rounds : float64 9007199254740993 ≡ 9007199254740992
unfolding float64 exponent
float64_rounds = refl

exponent_zero : (bits n : ℕ) → n < 2 ^ 53 → exponent bits n ≡ 0
unfolding exponent
exponent_zero zero n h = refl
exponent_zero (suc bits) n h = rw (lt→ltb n (2 ^ 53) h) refl

nearest_one : (n : ℕ) → nearest 1 n ≡ n
unfolding nearest
nearest_one n = ground arith

pub float64-of_lt : (n : ℕ) → n < 2 ^ 53 → float64 n ≡ n
unfolding float64
float64-of_lt n h = rw (exponent_zero 11 n h) (nearest_one n)

-- The text that encoding/json makes of a string's bytes, once written and read.
module _ (text_of : List ℕ → String) where
  number : ℕ → Option Json
  number n = some (json_number (pos (float64 n)))

  -- The payload of a push by its keys.
  message_fields : String → String → List ℕ → ℕ → ℕ → String → Option Json
  unfolding number
  message_fields message_id sender_id content created_at seq key =
      if key == "message_id"
      then some (json_string message_id)
      else if key == "sender_id"
      then some (json_string sender_id)
      else if key == "content"
      then some (json_string (text_of content))
      else if key == "created_at"
      then number created_at
      else if key == "seq"
      then number seq
      else none

  fields : Payload → String → Option Json
  unfolding message_fields
  fields (dm_payload message_id sender_id content created_at seq) key =
      message_fields message_id sender_id content created_at seq key
  fields (channel_payload message_id channel_id sender_id content created_at seq) key =
      if key == "channel_id"
      then some (json_string channel_id)
      else message_fields message_id sender_id content created_at seq key
  fields (presence_payload user_id) key =
      if key == "user_id" then some (json_string user_id) else none

  -- What a gateway reads of a push.
  unfoldable pub push_json : NotificationPush → PushPayload
  unfolding fields
  push_json push = record {
    targets = push.targets;
    event_type = push.event_type;
    payload = fields push.payload;
  }

  -- What a gateway writes for the pushes that NATS took: it hears its own topic.
  unfoldable pub hear :
      {W : Type 0}
      → (ℕ → ServerEvent → W → Bool × W)
      → String
      → ConnManager
      → List (String × NotificationPush)
      → W
      → W
  unfolding push_json handle_nats_message
  hear write gw_id m [] w = w
  hear write gw_id m ((topic, push) ∷ rest) w = hear write gw_id m rest (
      if topic == push_topic_of gw_id
      then handle_nats_message write (some (push_json push)) m w
      else w)

push_topic-equal : (a b : String) → (push_topic a == push_topic b) ≡ (a == b)
unfolding join drop_chars
push_topic-equal a b = elim (Bool-cases (a == b)) [
  | inl y ↦ rw (eq_of_equal a b y) (equal_refl (push_topic b) ∙ sym (equal_refl b))
  | inr n ↦ elim (Bool-cases (push_topic a == push_topic b)) [
    | inl h ↦
        let same : a ≡ b = ap (drop_chars 8) (eq_of_equal (push_topic a) (push_topic b) h) in
        let equal = ap (λ x. x == b) same ∙ equal_refl b in cc
    | inr h ↦ h ∙ sym n
  ]
]

abbrev pub times : {W : Type 0} → ℕ → (W → W) → W → W
times zero f w = w
times (suc n) f w = times n f (f w)

-- How many of the users are at a gateway by Redis.
abbrev pub count_at : ℕ → List RedisEntry → String → List String → ℕ
count_at time es gw_id us = length (keep (λ u. is_at gw_id (gateway_of time es u)) us)

module _ {W : Type 0} (text_of : List ℕ → String) (write : ℕ → ServerEvent → W → Bool × W)
    (time : ℕ) (es : List RedisEntry) (gw_id : String) (m : ConnManager)
    (push : NotificationPush) where
  abbrev pub handled : W → W
  handled w = handle_nats_message write (some (push_json text_of push)) m w

  hear-pushes_to :
      (o : Option String) (rest : List (String × NotificationPush)) (w : W)
      → hear text_of write gw_id m (pushes_to o push ++ rest) w
        ≡ hear text_of write gw_id m rest (if is_at gw_id o then handled w else w)
  unfolding hear
  hear-pushes_to none rest w = refl
  hear-pushes_to (some g) rest w = rw (push_topic-equal g gw_id) refl

  -- A gateway handles a push once for each user of the list who is there.
  pub hear-pushes :
      (us : List String) (w : W)
      → hear text_of write gw_id m (pushes time es push us) w
        ≡ times (count_at time es gw_id us) handled w
  unfolding hear
  hear-pushes [] w = refl
  hear-pushes (u ∷ us) w =
      hear-pushes_to (gateway_of time es u) (pushes time es push us) w
      ∙ elim (Bool-cases (is_at gw_id (gateway_of time es u))) [
        | inl y ↦ rw y (hear-pushes us (handled w))
        | inr n ↦ rw n (hear-pushes us w)
      ]

  pub handled_lem :
      (event : ServerEvent) (w : W)
      → build_server_event (push_json text_of push) ≡ some event
      → handled w ≡ (write_each write event (sockets write push.targets m) w).1
  unfolding push_json
  handled_lem event w known =
      handle_nats_message-writes write (push_json text_of push) event m w known
