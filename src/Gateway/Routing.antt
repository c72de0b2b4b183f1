-- ===== src/Gateway/Routing.antt =====
-- Router of backend/services/ws-gateway/router.go: what a client's message does. The user service
-- and the community service are called over RPC: two operations on a state `W` of theirs.
pub mod Ends
use constell.Prelude.{
  ℕ, String, ◌≡◌, refl, ◌≢◌, inl, inr, ◌||◌, Option, none, some, if◌then◌else◌, Bool-cases, ◌==◌,
  nat_eq, string_eq,
}
use constell.Prelude.Exec.{Result, ok, err, Exec}
use constell.Gateway.Connections.{
  ConnManager, get, socket_of, add_subscribed_channel, remove_subscribed_channel,
}
use constell.Gateway.Connections.Lookup.{
  get-add_subscribed_channel_other, get-remove_subscribed_channel_other,
  closed-add_subscribed_channel, closed-remove_subscribed_channel, socket-add_subscribed_channel,
  socket-remove_subscribed_channel,
}

pub data ClientMessageType : Type 0 where
  send_dm send_channel_message subscribe_channel unsubscribe_channel : ClientMessageType
  heartbeat unspecified : ClientMessageType

pub record SendDmRequest : Type 0 where
  pub receiver_id : String
  pub content : String

pub record SendChannelMessageRequest : Type 0 where
  pub channel_id : String
  pub content : String

pub record ChannelRequest : Type 0 where
  pub channel_id : String

pub record ClientMessage : Type 0 where
  pub type : ClientMessageType
  pub request_id : String
  pub send_dm_request : Option SendDmRequest
  pub send_channel_message_request : Option SendChannelMessageRequest
  pub subscribe_channel_request : Option ChannelRequest
  pub unsubscribe_channel_request : Option ChannelRequest

-- The ServerEvent of type ACK, the only type that the router answers with.
pub record Ack : Type 0 where
  pub request_id : String
  pub ack_message_id : String
  pub ack_seq : ℕ

pub data RouteError : Type 0 where
  unknown_type : RouteError
  request_is_nil : RouteError
  field_required : RouteError
  service_failed : RouteError

-- UserSvcClient.SendDM and CommunitySvcClient.SendMessage: the new message's id and seq, or none
-- for an error.
pub record Clients (W : Type 0) : Type 0 where
  pub send_dm_rpc : String → String → String → W → Option (String × ℕ) × W
  pub send_message_rpc : String → String → String → W → Option (String × ℕ) × W

pub record RouterState (W : Type 0) : Type 0 where
  pub services : W
  pub conn_mgr : ConnManager

module _ {W : Type 0} (clients : Clients W) where
  acknowledge :
      String → ConnManager → Option (String × ℕ) × W → Result RouteError Ack × RouterState W
  acknowledge request_id m (none, w) = (err service_failed, record { services = w; conn_mgr = m })
  acknowledge request_id m (some (message_id, seq), w) = (
    ok (record { request_id = request_id; ack_message_id = message_id; ack_seq = seq }),
    record { services = w; conn_mgr = m },
  )

  handle_send_dm :
      String → ClientMessage → Option SendDmRequest → Exec (RouterState W) RouteError Ack
  unfolding acknowledge
  handle_send_dm user_id msg none s = (err request_is_nil, s)
  handle_send_dm user_id msg (some req) s =
      if req.receiver_id == "" || req.content == ""
      then (err field_required, s)
      else acknowledge msg.request_id s.conn_mgr
          (clients.send_dm_rpc user_id req.receiver_id req.content s.services)

  handle_send_channel_message :
      String
      → ClientMessage
      → Option SendChannelMessageRequest
      → Exec (RouterState W) RouteError Ack
  unfolding acknowledge
  handle_send_channel_message user_id msg none s = (err request_is_nil, s)
  handle_send_channel_message user_id msg (some req) s =
      if req.channel_id == "" || req.content == ""
      then (err field_required, s)
      else acknowledge msg.request_id s.conn_mgr
          (clients.send_message_rpc user_id req.channel_id req.content s.services)

  plain_ack : String → Ack
  plain_ack request_id = record { request_id = request_id; ack_message_id = ""; ack_seq = 0 }

  -- handleSubscribeChannel and handleUnsubscribeChannel, with the change that they make.
  handle_channel :
      (String → ConnManager → ConnManager)
      → ClientMessage
      → Option ChannelRequest
      → Exec (RouterState W) RouteError Ack
  unfolding plain_ack
  handle_channel change msg none s = (err request_is_nil, s)
  handle_channel change msg (some req) s =
      if req.channel_id == ""
      then (err field_required, s)
      else (ok (plain_ack msg.request_id), record s { conn_mgr = change req.channel_id s.conn_mgr })

  route_type : ClientMessageType → String → ClientMessage → Exec (RouterState W) RouteError Ack
  unfolding handle_send_dm handle_send_channel_message handle_channel
  route_type send_dm user_id msg s = handle_send_dm user_id msg msg.send_dm_request s
  route_type send_channel_message user_id msg s =
      handle_send_channel_message user_id msg msg.send_channel_message_request s
  route_type subscribe_channel user_id msg s =
      handle_channel (add_subscribed_channel user_id) msg msg.subscribe_channel_request s
  route_type unsubscribe_channel user_id msg s =
      handle_channel (remove_subscribed_channel user_id) msg msg.unsubscribe_channel_request s
  route_type heartbeat user_id msg s = (err unknown_type, s)
  route_type unspecified user_id msg s = (err unknown_type, s)

  -- Route
  unfoldable pub route : String → ClientMessage → Exec (RouterState W) RouteError Ack
  unfolding route_type
  route user_id msg = route_type msg.type user_id msg

  -- How a message ends: an answer bears the request's id, the entry of no other user has changed, and
  -- nobody has another socket; an error leaves the connections as they were.
  abbrev pub Answers :
      String → ClientMessage → RouterState W → Result RouteError Ack × RouterState W → Type 0
  Answers user_id msg s (ok ack, t) =
      (ack.request_id ≡ msg.request_id)
      × ((v : String) → user_id ≢ v → get v t.conn_mgr ≡ get v s.conn_mgr)
      × (t.conn_mgr.closed ≡ s.conn_mgr.closed)
      × ((v : String) → socket_of (get v t.conn_mgr) ≡ socket_of (get v s.conn_mgr))
  Answers user_id msg s (err e, t) = t.conn_mgr ≡ s.conn_mgr

  acknowledge-Answers :
      (user_id : String) (msg : ClientMessage) (s : RouterState W) (r : Option (String × ℕ) × W)
      → Answers user_id msg s (acknowledge msg.request_id s.conn_mgr r)
  unfolding acknowledge
  acknowledge-Answers user_id msg s (none, w) = refl
  acknowledge-Answers user_id msg s (some (id, seq), w) = (refl, λ v other. refl, refl, λ v. refl)

  send_dm-Answers :
      (user_id : String) (msg : ClientMessage) (req : Option SendDmRequest) (s : RouterState W)
      → Answers user_id msg s (handle_send_dm user_id msg req s)
  unfolding handle_send_dm
  send_dm-Answers user_id msg none s = refl
  send_dm-Answers user_id msg (some req) s =
      elim (Bool-cases (req.receiver_id == "" || req.content == "")) [
        | inl y ↦ rw y refl
        | inr n ↦ rw n (
            acknowledge-Answers user_id msg s
              (clients.send_dm_rpc user_id req.receiver_id req.content s.services))
      ]

  send_channel_message-Answers :
      (user_id : String) (msg : ClientMessage) (req : Option SendChannelMessageRequest)
      (s : RouterState W)
      → Answers user_id msg s (handle_send_channel_message user_id msg req s)
  unfolding handle_send_channel_message
  send_channel_message-Answers user_id msg none s = refl
  send_channel_message-Answers user_id msg (some req) s =
      elim (Bool-cases (req.channel_id == "" || req.content == "")) [
        | inl y ↦ rw y refl
        | inr n ↦ rw n (
            acknowledge-Answers user_id msg s
              (clients.send_message_rpc user_id req.channel_id req.content s.services))
      ]

  channel-Answers :
      (change : String → ConnManager → ConnManager) (user_id : String) (msg : ClientMessage)
      (req : Option ChannelRequest) (s : RouterState W)
      → ((c v : String) → user_id ≢ v → get v (change c s.conn_mgr) ≡ get v s.conn_mgr)
      → ((c : String) → (change c s.conn_mgr).closed ≡ s.conn_mgr.closed)
      → ((c v : String) → socket_of (get v (change c s.conn_mgr)) ≡ socket_of (get v s.conn_mgr))
      → Answers user_id msg s (handle_channel change msg req s)
  unfolding handle_channel plain_ack
  channel-Answers change user_id msg none s others closed sockets = refl
  channel-Answers change user_id msg (some req) s others closed sockets =
      elim (Bool-cases (req.channel_id == "")) [
        | inl y ↦ rw y refl
        | inr n ↦ rw n (refl, others req.channel_id, closed req.channel_id, sockets req.channel_id)
      ]

  routed-Answers :
      (t : ClientMessageType) (user_id : String) (msg : ClientMessage) (s : RouterState W)
      → Answers user_id msg s (route_type t user_id msg s)
  unfolding route_type
  routed-Answers send_dm user_id msg s = send_dm-Answers user_id msg msg.send_dm_request s
  routed-Answers send_channel_message user_id msg s =
      send_channel_message-Answers user_id msg msg.send_channel_message_request s
  routed-Answers subscribe_channel user_id msg s =
      channel-Answers (add_subscribed_channel user_id) user_id msg msg.subscribe_channel_request s
        (λ c v. get-add_subscribed_channel_other user_id c v s.conn_mgr)
        (λ c. closed-add_subscribed_channel user_id c s.conn_mgr)
        (λ c v. socket-add_subscribed_channel user_id c v s.conn_mgr)
  routed-Answers unsubscribe_channel user_id msg s =
      channel-Answers (remove_subscribed_channel user_id) user_id msg
        msg.unsubscribe_channel_request s
        (λ c v. get-remove_subscribed_channel_other user_id c v s.conn_mgr)
        (λ c. closed-remove_subscribed_channel user_id c s.conn_mgr)
        (λ c v. socket-remove_subscribed_channel user_id c v s.conn_mgr)
  routed-Answers heartbeat user_id msg s = refl
  routed-Answers unspecified user_id msg s = refl

  -- Every answer of Route bears the id of the request, closes no socket and leaves the entries of
  -- all other users as they were, whatever the two services do; where it fails all connections
  -- are as they were.
  pub route-Answers :
      (user_id : String) (msg : ClientMessage) (s : RouterState W)
      → Answers user_id msg s (route user_id msg s)
  unfolding route
  route-Answers user_id msg s = routed-Answers msg.type user_id msg s
