-- ===== src/System/Posting.antt =====
-- A message in a channel on a WebSocket, from Route of backend/services/ws-gateway/router.go through
-- the client of backend/services/ws-gateway/main.go to SendMessage of
-- backend/services/community-service/service.go.
use constell.Prelude.{
  ℕ, String, ◌≡◌, refl, ap, ◌⊎◌, inl, inr, true, Option, some, List, [], ◌∷◌, ◌++◌, nat_eq,
  string_eq,
}
use constell.Prelude.Exec.{Result, ok, err, announced}
use constell.Prelude.Text.{trim_space}
use constell.Rpc.{Code}
use constell.Auth.Tokens.{JwtLibrary, parse_token}
use constell.Community.Rows.{ChannelRow, MemberRow, ChannelMessageRow}
use constell.Community.Repository.Channels.{find_channel}
use constell.Community.Service.State.{Service, cached_members, cached_members_set}
use constell.Community.Service.Outcomes.{ticked}
use constell.Community.Service.Wiring.{IsRunning}
use constell.Community.Service.Replies.{ChannelMessage}
use constell.Community.Service.Messages.{send_message_handler}
use constell.Community.Service.Listing.{Lists}
use constell.Community.Service.Posting.{Posts, posted, send_message_handler-Posts}
use constell.Gateway.Routing.{
  ClientMessage, send_channel_message, SendChannelMessageRequest, Ack, RouteError, service_failed,
  RouterState, route,
}
use constell.System.Outcomes.{Ends, Called, Fails, call-Called, carry-none, carry-some}
use constell.Gateway.Routing.Ends.{after_message_call}
use constell.System.Calls.{
  Backend, answered, reply_lost, call, message_key, caller_of, caller_of_lem, send_message_rpc_of,
  service_clients,
}

-- The message that an acknowledgement is about.
pub record AcknowledgesPost (msg : ClientMessage) (row : ChannelMessageRow) (ack : Ack)
    : Type 0 where
  pub request : ack.request_id ≡ msg.request_id
  pub message : ack.ack_message_id ≡ row.id
  pub seq : ack.ack_seq ≡ row.seq

-- What a member's message leaves in the community service: the message at the end, and its event.
pub record IsPublished (caller_id channel_id content : String) (channel : ChannelRow)
    (members : List MemberRow) (row : ChannelMessageRow) (s t : Service) : Type 0 where
  pub there : find_channel channel_id s.store.db ≡ some channel
  pub seen : (cached_members channel.community_id (ticked s)).0 ≡ ok members
  pub member : cached_members_set members caller_id ≡ true
  pub place : row.channel_id ≡ channel_id
  pub author : row.author_id ≡ caller_id
  pub text : row.content ≡ content
  pub next : row.seq ≡ s.store.db.next_seq
  pub listed : Lists (s.store.db.channel_messages ++ row ∷ []) t.store
  pub told : t.events ≡ s.events ++ announced (posted channel members row) s.nats s.publishes

-- No message was added and no event published.
abbrev pub Unsent : RouterState Backend → RouterState Backend → Type 0
Unsent s t =
    Lists s.services.communities.store.db.channel_messages t.services.communities.store
    × (t.services.communities.events ≡ s.services.communities.events)

-- The message was posted, and the reply to the gateway was lost.
abbrev pub Unanswered :
    Option String → SendChannelMessageRequest → RouterState Backend → RouterState Backend → Type 0
Unanswered parsed req s t =
    (s.services.transits s.services.calls ≡ reply_lost)
    × (caller_id : String) × (channel : ChannelRow) × (members : List MemberRow)
    × (row : ChannelMessageRow) × (parsed ≡ some caller_id)
    × IsPublished caller_id (trim_space req.channel_id) (trim_space req.content) channel members row
        s.services.communities t.services.communities

-- How the routing of a message ends, where `parsed` is the user of the token.
abbrev pub RoutesPost :
    Option String
    → ClientMessage
    → SendChannelMessageRequest
    → RouterState Backend
    → Result RouteError Ack × RouterState Backend
    → Type 0
RoutesPost parsed msg req s (ok ack, t) =
    (caller_id : String) × (channel : ChannelRow) × (members : List MemberRow)
    × (row : ChannelMessageRow) × (parsed ≡ some caller_id)
    × (s.services.transits s.services.calls ≡ answered)
    × AcknowledgesPost msg row ack
    × IsPublished caller_id (trim_space req.channel_id) (trim_space req.content) channel members row
        s.services.communities t.services.communities
RoutesPost parsed msg req s (err e, t) = Unsent s t ⊎ Unanswered parsed req s t

-- The message of a reply.
abbrev Replied : String → String → Service → String → String → ℕ → Service → Type 0
Replied channel_id content s caller_id id seq t =
    (channel : ChannelRow) × (members : List MemberRow) × (row : ChannelMessageRow) × (id ≡ row.id)
    × (seq ≡ row.seq)
    × IsPublished caller_id (trim_space channel_id) (trim_space content) channel members row s t

abbrev Silent : Service → Service → Type 0
Silent s t = Lists s.store.db.channel_messages t.store × (t.events ≡ s.events)

Posts-Ends :
    (caller_id channel_id content : String) (s : Service) (r : Result Code ChannelMessage × Service)
    → Posts caller_id (trim_space channel_id) (trim_space content) s r
    → Ends message_key (Replied channel_id content s) (Silent s) caller_id r
Posts-Ends caller_id channel_id content s (ok reply, t) h = (
  h.0,
  h.1,
  h.2,
  h.12,
  h.13,
  record {
    there = h.3;
    seen = h.4;
    member = h.5;
    place = h.7;
    author = h.8;
    text = h.9;
    next = h.10;
    listed = h.11;
    told = h.14;
  },
)
Posts-Ends caller_id channel_id content s (err e, t) h = h

failed :
    (msg : ClientMessage) (req : SendChannelMessageRequest) (s : RouterState Backend) (w : Backend)
    (parsed : Option String)
    → Fails message_key
        (Replied req.channel_id req.content s.services.communities)
        (Silent s.services.communities)
        parsed
        (s.services.transits s.services.calls)
        w.communities
    → RoutesPost parsed msg req s
        (err service_failed, record { services = w; conn_mgr = s.conn_mgr })
failed msg req s w parsed (inl silent) = inl silent
failed msg req s w parsed (inr lost) =
    inr (lost.0, lost.1, lost.5.0, lost.5.1, lost.5.2, lost.4, lost.5.5)

-- On a running community service, where Route acknowledges a message in a channel, the token of
-- the connection named a user at that time, and exactly one message was added, at the end, by
-- that user, in the channel, with the trimmed content and the next seq; the user is among the
-- members that the cache returned, the acknowledgement bears the request's id and the id and the
-- seq of that message, and its event is published if NATS takes it. Where Route fails, no message
-- was added and no event published, or the reply of the service was lost on the way and the
-- message was added in the same way.
pub route-RoutesPost :
    (lib : JwtLibrary) (secret : String) (now : ℕ) (token user_id : String) (msg : ClientMessage)
    (req : SendChannelMessageRequest) (s : RouterState Backend)
    → msg.type ≡ send_channel_message
    → msg.send_channel_message_request ≡ some req
    → IsRunning s.services.communities
    → RoutesPost
        (parse_token lib secret token now)
        msg
        req
        s
        (route (service_clients lib secret now token) user_id msg s)
unfolding service_clients send_message_rpc_of
route-RoutesPost lib secret now token user_id msg req s typed given running =
    let parsed = parse_token lib secret token now in
    let clients = service_clients lib secret now token in
    let before = s.services.communities in
    let handler =
      λ (caller_id : String). send_message_handler caller_id req.channel_id req.content [] in
    let P = Replied req.channel_id req.content before in
    let transit = s.services.transits s.services.calls in
    let handle =
      call (caller_of lib secret now "/community.v1.CommunityService/SendMessage" token) handler in
    let ends : Called message_key P (Silent before) parsed (handle before) =
      rw (caller_of_lem lib secret now "/community.v1.CommunityService/SendMessage" token) (
        call-Called message_key P (Silent before) parsed handler before (refl, refl)
          λ caller_id.
            Posts-Ends caller_id req.channel_id req.content before _ (
              send_message_handler-Posts caller_id req.channel_id req.content [] before running)) in
    after_message_call clients (RoutesPost parsed msg req s) user_id msg req s typed given
      (inl (refl, refl))
      (λ w h. failed msg req s w parsed (
        carry-none message_key P (Silent before) parsed handle before (refl, refl) ends transit
          w.communities (ap (λ p. p.0) h) (ap (λ p. p.1.communities) h)))
      λ id seq w h.
        let (caller_id, by, reply, came) =
          carry-some message_key P (Silent before) parsed handle before (refl, refl) ends transit id
            seq w.communities (ap (λ p. p.0) h) (ap (λ p. p.1.communities) h) in
        (
          caller_id,
          reply.0,
          reply.1,
          reply.2,
          by,
          came,
          record { request = refl; message = reply.3; seq = reply.4 },
          reply.5,
        )
