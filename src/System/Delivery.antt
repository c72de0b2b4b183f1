-- ===== src/System/Delivery.antt =====
-- The way of a direct message from SendDM of backend/services/user-service/service.go through
-- handleDMCreated of backend/services/notify-service/subscriber.go to the sockets of the gateways.
use constell.Prelude.{
  ℕ, String, ◌≡◌, refl, ◌∙◌, Bool, true, false, some, List, [], ◌∷◌, ◌++◌, nat_eq, string_eq, pos,
}
use constell.Prelude.Exec.{Result, ok, err}
use constell.Prelude.Text.{trim_space, utf8}
use constell.Rpc.{Code}
use constell.User.Wiring.{IsRunning}
use constell.User.Sending.{Sends, send_dm_handler-Sends}
use constell.User.Service.State.{DmCreated, UserService}
use constell.User.Service.Conversations.{DmMessage, to_dm_message, dm_created, send_dm_handler}
use constell.Notify.Preview.{truncate}
use constell.Notify.Subscriber.{
  DmCreatedEvent, Subscriber, NotificationPush, dm_push, push_each, handle_dm_created,
}
use constell.Notify.Subscriber.Gateways.{StandsAt, gateway_of, is_at}
use constell.Notify.Subscriber.Pushing.{pushes, push_each-Pushed}
use constell.Notify.Store.{advance_dm_read}
use constell.Gateway.Connections.{ConnManager}
use constell.Gateway.Push.{ServerEvent, dm_received, build_server_event, write_each, sockets}
use constell.System.Pushes.{
  float64, push_json, hear, hear-pushes, handled, handled_lem, times, count_at,
}

-- The event as the notify service reads it.
abbrev pub dm_event : DmCreated → DmCreatedEvent
dm_event e = record {
  message_id = e.message_id;
  sender_id = e.sender_id;
  receiver_id = e.receiver_id;
  conversation_id = e.conversation_id;
  content = utf8 e.content;
  created_at = e.created_at;
  seq = e.seq;
}

-- What the receiver of a direct message is shown.
abbrev pub shown_to_receiver : (List ℕ → String) → String → String → DmMessage → ServerEvent
shown_to_receiver text_of caller_id content reply =
    dm_received reply.id caller_id "" (text_of (truncate (utf8 content) 200))
      (pos (float64 reply.created_at)) (pos (float64 reply.seq))

-- What a gateway writes: the event to the socket of the receiver, if it is registered there.
abbrev pub written :
    {W : Type 0} → (ℕ → ServerEvent → W → Bool × W) → ServerEvent → Bool → List ℕ → W → W
written write event true cs w = (write_each write event cs w).1
written write event false cs w = w

module _ {W : Type 0} (text_of : List ℕ → String) (write : ℕ → ServerEvent → W → Bool × W)
    (time : ℕ) (n : Subscriber) (gw_id : String) (m : ConnManager) (w : W) where
  -- An event of a direct message on its way from the notify service to one gateway.
  pub record Reaches (receiver : String) (event : ServerEvent) (s t : Subscriber) : Type 0 where
    pub pushed : List (String × NotificationPush)
    pub published : t.published ≡ s.published ++ pushed
    pub heard :
        hear text_of write gw_id m pushed w
        ≡ written write event
            (is_at gw_id (gateway_of time s.redis.entries receiver))
            (sockets write (receiver ∷ []) m)
            w

  -- handleDMCreated as one push for the receiver.
  handle_dm_created-Reaches :
      (evt : DmCreatedEvent) (event : ServerEvent)
      → StandsAt time n.redis
      → ((k : ℕ) → n.takes k ≡ true)
      → build_server_event (push_json text_of (dm_push evt)) ≡ some event
      → Reaches evt.receiver_id event n (handle_dm_created (some evt) n)
  unfolding handle_dm_created
  handle_dm_created-Reaches evt event stands takes known =
      let push = dm_push evt in
      let es = n.redis.entries in
      let store = (advance_dm_read evt.sender_id evt.conversation_id evt.seq n.store).1 in
      let n' : Subscriber = record n { store = store } in
      let (after, sent) = push_each-Pushed time es push (evt.receiver_id ∷ []) n' n' (record {
        redis = record { up = stands.up; clock = stands.clock };
        entries = refl;
        takes = takes;
        store = refl;
        acked = refl;
      }) in
      record {
        pushed = pushes time es push (evt.receiver_id ∷ []);
        published = unfold push_each in sent;
        heard =
            hear-pushes text_of write time es gw_id m push (evt.receiver_id ∷ []) w
            ∙ once (is_at gw_id (gateway_of time es evt.receiver_id)) refl;
      }
    where
      once :
          (b : Bool)
          → is_at gw_id (gateway_of time n.redis.entries evt.receiver_id) ≡ b
          → times
              (count_at time n.redis.entries gw_id (evt.receiver_id ∷ []))
              (handled text_of write time n.redis.entries gw_id m (dm_push evt))
              w
            ≡ written write event b (sockets write (evt.receiver_id ∷ []) m) w
      once true here =
          rw here
            (handled_lem text_of write time n.redis.entries gw_id m (dm_push evt) event w known)
      once false away = rw away refl

-- The event of the push that a message becomes.
known_event :
    (text_of : List ℕ → String) (e : DmCreated)
    → build_server_event (push_json text_of (dm_push (dm_event e)))
      ≡ some (
          dm_received e.message_id e.sender_id ""
            (text_of (truncate (utf8 e.content) 200))
            (pos (float64 e.created_at))
            (pos (float64 e.seq)))
unfolding build_server_event push_json
known_event text_of e = refl

-- A direct message that SendDM answered for.
abbrev pub Delivered :
    {W : Type 0}
    → (List ℕ → String)
    → (ℕ → ServerEvent → W → Bool × W)
    → ℕ
    → Subscriber
    → String
    → ConnManager
    → W
    → String
    → String
    → String
    → UserService
    → Result Code DmMessage × UserService
    → Type 0
Delivered text_of write time n gw_id m w caller_id target content s (ok reply, t) =
    (e : DmCreated) × (t.events ≡ s.events ++ e ∷ [])
    × Reaches text_of write time n gw_id m w target
        (shown_to_receiver text_of caller_id content reply) n
        (handle_dm_created (some (dm_event e)) n)
Delivered text_of write time n gw_id m w caller_id target content s (err e, t) = t.events ≡ s.events

module _ {W : Type 0} (text_of : List ℕ → String) (write : ℕ → ServerEvent → W → Bool × W)
    (time : ℕ) (n : Subscriber) (gw_id : String) (m : ConnManager) (w : W) where
  Sends-Delivered :
      (caller_id target content : String) (s : UserService)
      (r : Result Code DmMessage × UserService) (takes : ℕ → Bool)
      → Sends caller_id target content s r
      → s.nats ≡ some takes
      → takes s.publishes ≡ true
      → StandsAt time n.redis
      → ((k : ℕ) → n.takes k ≡ true)
      → Delivered text_of write time n gw_id m w caller_id target content s r
  unfolding to_dm_message
  Sends-Delivered caller_id target content s (err e, t) takes sends connected taken stands kept =
      sends.1
  Sends-Delivered caller_id target content s (ok reply, t) takes sends connected taken stands kept =
      let c = sends.2 in
      let row = sends.3 in
      let e = dm_created row caller_id target c.id content in
      let told = sends.12 in
      (
        e,
        rw (connected, taken) at told,
        rw sends.11 (
            handle_dm_created-Reaches text_of write time n gw_id m w (dm_event e) _ stands kept
              (known_event text_of e)),
      )

  -- On a running user service, where NATS takes the event, Redis and NATS do not fail the notify
  -- service and the clock of Redis stands: a SendDM that answers publishes one event. From it the
  -- notify service publishes pushes, of which a gateway makes this: if the receiver is at that
  -- gateway by Redis, it writes once to the socket that the receiver has there, if any, the
  -- message of the reply, its content cut to 200 bytes; if not, it writes nothing. A SendDM that
  -- fails publishes no event.
  pub send_dm_handler-Delivered :
      (caller_id target_user_id content : String) (file_ids : List String) (s : UserService)
      (takes : ℕ → Bool)
      → IsRunning s
      → s.nats ≡ some takes
      → takes s.publishes ≡ true
      → StandsAt time n.redis
      → ((k : ℕ) → n.takes k ≡ true)
      → Delivered text_of write time n gw_id m w caller_id
          (trim_space target_user_id)
          (trim_space content)
          s
          (send_dm_handler caller_id target_user_id content file_ids s)
  send_dm_handler-Delivered caller_id target_user_id content file_ids s takes running =
      Sends-Delivered caller_id (trim_space target_user_id) (trim_space content) s _ takes
        (send_dm_handler-Sends caller_id target_user_id content file_ids s running)
