-- ===== src/System/Broadcast.antt =====
-- The way of a message in a channel from SendMessage of
-- backend/services/community-service/service.go through handleMessageCreated of
-- backend/services/notify-service/subscriber.go to the sockets of the gateways.
use constell.Prelude.{
  ℕ, String, ◌≡◌, refl, ap, ◌∙◌, Bool, true, not, Option, none, some, List, [], ◌∷◌, ◌++◌, map,
  ◌==◌, nat_eq, string_eq, keep, pos,
}
use mathlib.Core.Path.{fun_ext}
use constell.Prelude.Exec.{Result, ok, err}
use constell.Prelude.Text.{trim_space, utf8}
use constell.Rpc.{Code}
use constell.Community.Rows.{ChannelRow, MemberRow, ChannelMessageRow, unix}
use constell.Community.Service.State.{
  Service, Event, message_created, member_joined, member_left, cached_members,
}
use constell.Community.Service.Replies.{ChannelMessage}
use constell.Community.Service.Messages.{send_message_handler}
use constell.Community.Service.Outcomes.{ticked}
use constell.Community.Service.Wiring.{IsRunning}
use constell.Community.Service.Posting.{Posts, posted, send_message_handler-Posts}
use constell.Notify.Preview.{truncate}
use constell.Notify.Subscriber.{
  MessageCreatedEvent, Subscriber, NotificationPush, message_push, message_targets, advance_sender,
  handle_message_created,
}
use constell.Notify.Subscriber.Gateways.{StandsAt}
use constell.Notify.Subscriber.Pushing.{pushes, push_each-Pushed}
use constell.Gateway.Connections.{ConnManager}
use constell.Gateway.Push.{
  ServerEvent, channel_message_received, build_server_event, write_each, sockets,
}
use constell.System.Pushes.{float64, push_json, hear, hear-pushes, handled_lem, times, count_at}

-- The event on constell.message.created as the notify service reads it.
abbrev pub message_event : Event → Option MessageCreatedEvent
message_event
      (message_created id channel_id community_id sender_id content created_at seq members) =
    some (record {
      message_id = id;
      channel_id = channel_id;
      community_id = community_id;
      sender_id = sender_id;
      content = utf8 content;
      member_ids = members;
      created_at = created_at;
      seq = seq;
    })
message_event (member_joined a b c d) = none
message_event (member_left a b c) = none

-- What the members of a channel are shown of a message.
abbrev pub shown_to_members : (List ℕ → String) → ChannelMessageRow → ServerEvent
shown_to_members text_of row =
    channel_message_received row.id row.channel_id row.author_id ""
      (text_of (truncate (utf8 row.content) 200)) (pos (float64 (unix row.created_at)))
      (pos (float64 row.seq))

-- The members but the author.
abbrev pub others : List MemberRow → ChannelMessageRow → List String
others members row =
    keep (λ u. not (u == row.author_id)) (map (λ (m : MemberRow). m.user_id) members)

module _ {W : Type 0} (text_of : List ℕ → String) (write : ℕ → ServerEvent → W → Bool × W)
    (time : ℕ) (n : Subscriber) (gw_id : String) (m : ConnManager) (w : W) where
  -- An event on its way from the notify service to one gateway: written to the sockets of all
  -- targets, as many times as there are targets at the gateway by Redis.
  pub record Repeats (targets : List String) (event : ServerEvent) (s t : Subscriber) : Type 0 where
    pub pushed : List (String × NotificationPush)
    pub published : t.published ≡ s.published ++ pushed
    pub heard :
        hear text_of write gw_id m pushed w
        ≡ times
            (count_at time s.redis.entries gw_id targets)
            (λ v. (write_each write event (sockets write targets m) v).1)
            w

  handle_message_created-Repeats :
      (evt : MessageCreatedEvent) (event : ServerEvent)
      → StandsAt time n.redis
      → ((k : ℕ) → n.takes k ≡ true)
      → build_server_event (push_json text_of (message_push evt)) ≡ some event
      → Repeats (message_targets evt) event n (handle_message_created (some evt) n)
  unfolding handle_message_created
  handle_message_created-Repeats evt event stands takes known =
      let push = message_push evt in
      let es = n.redis.entries in
      let targets = message_targets evt in
      let n' : Subscriber = record n { store = advance_sender evt n.store } in
      let (after, sent) = push_each-Pushed time es push targets n' n' (record {
        redis = record { up = stands.up; clock = stands.clock };
        entries = refl;
        takes = takes;
        store = refl;
        acked = refl;
      }) in
      record {
        pushed = pushes time es push targets;
        published = sent;
        heard =
            hear-pushes text_of write time es gw_id m push targets w
            ∙ ap (λ f. times (count_at time es gw_id targets) f w)
                (fun_ext (λ v. handled_lem text_of write time es gw_id m push event v known));
      }

-- The event of a message as it is read, and what is shown of it.
abbrev read_event : ChannelRow → List MemberRow → ChannelMessageRow → MessageCreatedEvent
read_event channel members row = record {
  message_id = row.id;
  channel_id = row.channel_id;
  community_id = channel.community_id;
  sender_id = row.author_id;
  content = utf8 row.content;
  member_ids = map (λ (m : MemberRow). m.user_id) members;
  created_at = unix row.created_at;
  seq = row.seq;
}

known_message :
    (text_of : List ℕ → String) (channel : ChannelRow) (members : List MemberRow)
    (row : ChannelMessageRow)
    → build_server_event (push_json text_of (message_push (read_event channel members row)))
      ≡ some (shown_to_members text_of row)
unfolding build_server_event push_json
known_message text_of channel members row = refl

module _ {W : Type 0} (text_of : List ℕ → String) (write : ℕ → ServerEvent → W → Bool × W)
    (time : ℕ) (n : Subscriber) (gw_id : String) (m : ConnManager) (w : W) where
  -- A message that SendMessage answered for, and that a gateway writes.
  abbrev pub Broadcasts : String → String → Service → Result Code ChannelMessage × Service → Type 0
  Broadcasts caller_id content s (ok reply, t) =
      (channel : ChannelRow) × (members : List MemberRow) × (row : ChannelMessageRow)
      × ((cached_members channel.community_id (ticked s)).0 ≡ ok members)
      × (row.author_id ≡ caller_id)
      × (row.content ≡ content)
      × (reply.id ≡ row.id)
      × (t.events ≡ s.events ++ posted channel members row ∷ [])
      × Repeats text_of write time n gw_id m w (others members row) (shown_to_members text_of row) n
          (handle_message_created (message_event (posted channel members row)) n)
  Broadcasts caller_id content s (err e, t) = t.events ≡ s.events

  Posts-Broadcasts :
      (caller_id channel_id content : String) (s : Service)
      (r : Result Code ChannelMessage × Service) (takes : ℕ → Bool)
      → Posts caller_id channel_id content s r
      → s.nats ≡ some takes
      → takes s.publishes ≡ true
      → StandsAt time n.redis
      → ((k : ℕ) → n.takes k ≡ true)
      → Broadcasts caller_id content s r
  Posts-Broadcasts caller_id channel_id content s (err e, t) takes posts connected taken stands
        kept =
      posts.1
  Posts-Broadcasts caller_id channel_id content s (ok reply, t) takes posts connected taken stands
        kept =
      let channel = posts.0 in
      let members = posts.1 in
      let row = posts.2 in
      let told = posts.14 in
      (
        channel,
        members,
        row,
        posts.4,
        posts.8,
        posts.9,
        posts.12,
        rw (connected, taken) at told,
        handle_message_created-Repeats text_of write time n gw_id m w
            (read_event channel members row) _ stands kept
            (known_message text_of channel members row),
      )

  -- On a running community service, where NATS takes the event, Redis and NATS do not fail the
  -- notify service and the clock of Redis stands: a SendMessage that answers publishes one event,
  -- for the members that the cache returned. From it the notify service publishes pushes, of
  -- which a gateway makes this: as many times as there are members but the author at that gateway
  -- by Redis, it writes the message to the sockets that it has for all members but the author. So
  -- where k of them are there, each of their sockets gets the message k times. A SendMessage that
  -- fails publishes no event.
  pub send_message_handler-Broadcasts :
      (caller_id channel_id content : String) (file_ids : List String) (s : Service)
      (takes : ℕ → Bool)
      → IsRunning s
      → s.nats ≡ some takes
      → takes s.publishes ≡ true
      → StandsAt time n.redis
      → ((k : ℕ) → n.takes k ≡ true)
      → Broadcasts caller_id
          (trim_space content)
          s
          (send_message_handler caller_id channel_id content file_ids s)
  send_message_handler-Broadcasts caller_id channel_id content file_ids s takes running =
      Posts-Broadcasts caller_id (trim_space channel_id) (trim_space content) s _ takes
        (send_message_handler-Posts caller_id channel_id content file_ids s running)
