-- ===== src/Gateway/Push.antt =====
-- PushSubscriber of backend/services/ws-gateway/push.go: the event that a push payload stands for,
-- and its delivery to the connections of this gateway.
pub mod Subscribing
use constell.Prelude.{
  ℕ, zero, suc, ◌+◌, ◌-◌, ◌*◌, ◌/◌, ◌%◌, ◌^◌, ◌≤◌, ◌<◌, min, max, String, ◌≡◌, refl, sym, ap, subst,
  ◌∙◌, ◌≢◌, ◌↔◌, ◌⊎◌, inl, inr, Bool, true, false, not, ◌&&◌, ◌||◌, Option, none, some, List, [],
  ◌∷◌, ◌++◌, map, arith, eq_iff, ltb, leb, eqb, if◌then◌else◌, ltb→lt, lt→ltb, le→ltb, eqb_iff,
  Bool-cases, Option-cases, Comparable, ◌==◌, nat_eq, string_eq, equal_refl, eq_of_equal, length,
  take, drop, get_elem?, keep, find, any, All, length-append, length-take, take-append-drop,
  take-of_le, take-length-append, drop-length-append, length-keep-le, All-map, All-keep, contains,
  Distinct, All-append, All-keep_with, any-append_left, any-keep, bit_and, bit_or, bit_xor,
  is_positive, ne_of_unequal, negsuc, pos, take-take, to_ℕ, ℤ, equal_sym,
}
use constell.Gateway.Connections.{ConnEntry, ConnManager, get}

-- A value of the decoded JSON payload; a number is given by its integral part, all that is read.
pub data Json : Type 0 where
  json_string : String → Json
  json_number : ℤ → Json
  json_other : Json

pub record PushPayload : Type 0 where
  pub targets : List String
  pub event_type : String
  pub payload : String → Option Json

-- ServerEvent, by its type
pub data ServerEvent : Type 0 where
  dm_received :
      (message_id sender_id sender_nickname content : String) (created_at seq : ℤ) → ServerEvent
  channel_message_received :
      (message_id channel_id sender_id sender_nickname content : String) (created_at seq : ℤ)
      → ServerEvent
  user_online user_offline : (user_id : String) → ServerEvent
  notification :
      (notification_type source_id community_id sender_id sender_nickname preview : String)
      (created_at : ℤ)
      → ServerEvent

abbrev string_value : Option Json → String
string_value (some (json_string s)) = s
string_value (some (json_number n)) = ""
string_value (some json_other) = ""
string_value none = ""

abbrev number_value : Option Json → ℤ
number_value (some (json_string s)) = pos 0
number_value (some (json_number n)) = n
number_value (some json_other) = pos 0
number_value none = pos 0

-- getStringField, getInt64Field
abbrev pub get_string_field : (String → Option Json) → String → String
get_string_field p key = string_value (p key)

abbrev pub get_int64_field : (String → Option Json) → String → ℤ
get_int64_field p key = number_value (p key)

-- buildServerEvent with the functions that it calls; none for an unknown type.
unfoldable pub build_server_event : PushPayload → Option ServerEvent
build_server_event push =
    let str : String → String = get_string_field push.payload in
    let int : String → ℤ = get_int64_field push.payload in
    let type : String = push.event_type in
    if type == "DM_RECEIVED"
    then some (
        dm_received (str "message_id") (str "sender_id") (str "sender_nickname") (str "content")
          (int "created_at") (int "seq"))
    else if type == "CHANNEL_MESSAGE_RECEIVED"
    then some (
        channel_message_received (str "message_id") (str "channel_id") (str "sender_id")
          (str "sender_nickname") (str "content") (int "created_at") (int "seq"))
    else if type == "USER_ONLINE"
    then some (user_online (str "user_id"))
    else if type == "USER_OFFLINE"
    then some (user_offline (str "user_id"))
    else if type == "NOTIFICATION"
    then some (
        notification (str "notification_type") (str "source_id") (str "community_id")
          (str "sender_id") (str "sender_nickname") (str "preview") (int "created_at"))
    else none

-- WriteMessage on a socket, on the state of the network: whether the write succeeded.
module _ {W : Type 0} (write_message : ℕ → ServerEvent → W → Bool × W) where
  abbrev pub counted : Bool × W → (W → ℕ × W) → ℕ × W
  counted (true, w) rest = let (n, w') = rest w in (suc n, w')
  counted (false, w) rest = rest w

  deliver_to : ServerEvent → Option ConnEntry → (W → ℕ × W) → W → ℕ × W
  deliver_to event none rest w = rest w
  deliver_to event (some entry) rest w = counted (write_message entry.conn event w) rest

  deliver_all : ServerEvent → List String → ConnManager → W → ℕ × W
  unfolding deliver_to
  deliver_all event [] m w = (0, w)
  deliver_all event (u ∷ us) m w = deliver_to event (get u m) (deliver_all event us m) w

  deliver_event : Option ServerEvent → List String → ConnManager → W → ℕ × W
  unfolding deliver_all
  deliver_event none targets m w = (0, w)
  deliver_event (some event) targets m w = deliver_all event targets m w

  -- DeliverToLocal
  unfoldable pub deliver_to_local : PushPayload → ConnManager → W → ℕ × W
  unfolding deliver_event build_server_event
  deliver_to_local push m w = deliver_event (build_server_event push) push.targets m w

  -- handleNATSMessage; none is data that is no JSON of a push.
  unfoldable pub handle_nats_message : Option PushPayload → ConnManager → W → W
  unfolding deliver_to_local
  handle_nats_message none m w = w
  handle_nats_message (some push) m w = (deliver_to_local push m w).1

  -- The sockets of the targets that are connected here, in their order.
  abbrev pub conn_of : Option ConnEntry → List ℕ
  conn_of none = []
  conn_of (some e) = e.conn ∷ []

  abbrev pub sockets : List String → ConnManager → List ℕ
  sockets [] m = []
  sockets (u ∷ us) m = conn_of (get u m) ++ sockets us m

  -- Writing an event to sockets: each write is tried, in order, and has its own outcome.
  abbrev pub write_each : ServerEvent → List ℕ → W → List Bool × W
  write_each event [] w = ([], w)
  write_each event (c ∷ cs) w =
      let (written, w1) = write_message c event w in
      let (more, w2) = write_each event cs w1 in (written ∷ more, w2)

  abbrev pub successes : List Bool → ℕ
  successes [] = 0
  successes (true ∷ bs) = suc (successes bs)
  successes (false ∷ bs) = successes bs

  length-write_each :
      (event : ServerEvent) (cs : List ℕ) (w : W) → length (write_each event cs w).0 ≡ length cs
  length-write_each event [] w = refl
  length-write_each event (c ∷ cs) w =
      ap suc (length-write_each event cs (write_message c event w).1)

  -- What is counted of the writes, and where they lead.
  abbrev totalled : List Bool × W → ℕ × W
  totalled (bs, w) = (successes bs, w)

  counted-write_each :
      (event : ServerEvent) (r : Bool × W) (f : W → ℕ × W) (cs : List ℕ)
      → ((w : W) → f w ≡ totalled (write_each event cs w))
      → counted r f ≡ (successes (r.0 ∷ (write_each event cs r.1).0), (write_each event cs r.1).1)
  counted-write_each event (true, w) f cs same = rw (same w) refl
  counted-write_each event (false, w) f cs same = same w

  deliver_all-sockets :
      (event : ServerEvent) (us : List String) (m : ConnManager) (w : W)
      → deliver_all event us m w ≡ totalled (write_each event (sockets us m) w)
  unfolding deliver_all deliver_to
  deliver_all-sockets event [] m w = refl
  deliver_all-sockets event (u ∷ us) m w = elim (Option-cases (get u m)) [
    | inl gone ↦ rw gone (deliver_all-sockets event us m w)
    | inr (e, here) ↦ rw here (
        counted-write_each event (write_message e.conn event w) (deliver_all event us m)
          (sockets us m) (deliver_all-sockets event us m))
  ]

  -- The outcomes of a push. An unknown type writes nothing. Otherwise one write of the event is tried
  -- on the socket of each target that is connected here, in their order, and the answer is how many
  -- of them succeeded.
  abbrev pub Delivers : PushPayload → ConnManager → W → Option ServerEvent → ℕ × W → Type 0
  Delivers push m w none out = out ≡ (0, w)
  Delivers push m w (some event) out =
      let (written, w') = write_each event (sockets push.targets m) w in
      (out ≡ (successes written, w')) × (length written ≡ length (sockets push.targets m))

  delivered_event :
      (push : PushPayload) (m : ConnManager) (w : W) (event : Option ServerEvent)
      → Delivers push m w event (deliver_event event push.targets m w)
  unfolding deliver_event
  delivered_event push m w none = refl
  delivered_event push m w (some event) =
      let same = deliver_all-sockets event push.targets m w in
      (same, length-write_each event (sockets push.targets m) w)

  -- DeliverToLocal tries one write of the event of the payload on the socket of each target that
  -- is connected to this gateway, in the order of the targets and whatever writes fail, and
  -- answers how many of them succeeded; a payload of an unknown type writes nothing.
  pub deliver_to_local-Delivers :
      (push : PushPayload) (m : ConnManager) (w : W)
      → Delivers push m w (build_server_event push) (deliver_to_local push m w)
  unfolding deliver_to_local
  deliver_to_local-Delivers push m w = delivered_event push m w (build_server_event push)

  -- A message of NATS with a push of a known type.
  pub handle_nats_message-writes :
      (push : PushPayload) (event : ServerEvent) (m : ConnManager) (w : W)
      → build_server_event push ≡ some event
      → handle_nats_message (some push) m w ≡ (write_each event (sockets push.targets m) w).1
  unfolding handle_nats_message deliver_to_local deliver_event
  handle_nats_message-writes push event m w known =
      ap (λ e. (deliver_event e push.targets m w).1) known
      ∙ ap (λ r. r.1) (deliver_all-sockets event push.targets m w)
