-- ===== src/System/Sending.antt =====
-- A direct message on a WebSocket, from Route of backend/services/ws-gateway/router.go through the
-- client of backend/services/ws-gateway/main.go to SendDM of backend/services/user-service/service.go.
use constell.Prelude.{
  ℕ, String, ◌≡◌, refl, ap, ◌⊎◌, inl, inr, true, Option, some, [], ◌∷◌, ◌++◌, nat_eq, string_eq,
}
use constell.Prelude.Exec.{Result, ok, err, announced}
use constell.Prelude.Text.{trim_space}
use constell.Rpc.{Code}
use constell.Auth.Tokens.{JwtLibrary, parse_token}
use constell.User.Rows.{DmConversationRow, DmMessageRow}
use constell.User.Pairs.{lower, upper}
use constell.User.Repository.Conversations.{is_pair}
use constell.User.Delivery.{IsSent, Lists}
use constell.User.Sending.{Sends, send_dm_handler-Sends}
use constell.User.Service.State.{UserService}
use constell.User.Wiring.{IsRunning}
use constell.User.Service.Conversations.{DmMessage, to_dm_message, dm_created, send_dm_handler}
use constell.Gateway.Routing.{
  ClientMessage, send_dm, SendDmRequest, Ack, RouteError, service_failed, RouterState, route,
}
use constell.System.Outcomes.{Ends, Called, Fails, call-Called, carry-none, carry-some}
use constell.Gateway.Routing.Ends.{after_dm_call}
use constell.System.Calls.{
  Backend, answered, reply_lost, call, dm_key, caller_of, caller_of_lem, send_dm_rpc_of,
  service_clients,
}

-- The message that an acknowledgement is about.
pub record Acknowledges (msg : ClientMessage) (row : DmMessageRow) (ack : Ack) : Type 0 where
  pub request : ack.request_id ≡ msg.request_id
  pub message : ack.ack_message_id ≡ row.id
  pub seq : ack.ack_seq ≡ row.seq

-- What a user's direct message leaves in the user service: the message at the end, and its event.
pub record IsPosted (caller_id target content : String) (c : DmConversationRow) (row : DmMessageRow)
    (s t : UserService) : Type 0 where
  pub pair : is_pair (lower caller_id target) (upper caller_id target) c ≡ true
  pub sent : IsSent c caller_id content s.store.db.next_seq row
  pub listed : Lists (s.store.db.dm_messages ++ row ∷ []) t.store
  pub told :
      t.events
      ≡ s.events ++ announced (dm_created row caller_id target c.id content) s.nats s.publishes

-- No message was added and no event published.
abbrev pub Unsent : RouterState Backend → RouterState Backend → Type 0
Unsent s t =
    Lists s.services.users.store.db.dm_messages t.services.users.store
    × (t.services.users.events ≡ s.services.users.events)

-- The message was sent, and the reply to the gateway was lost.
abbrev pub Unanswered :
    Option String → SendDmRequest → RouterState Backend → RouterState Backend → Type 0
Unanswered parsed req s t =
    (s.services.transits s.services.calls ≡ reply_lost)
    × (caller_id : String) × (c : DmConversationRow) × (row : DmMessageRow) × (parsed
        ≡ some caller_id)
    × IsPosted caller_id (trim_space req.receiver_id) (trim_space req.content) c row
        s.services.users t.services.users

-- How the routing of a direct message ends, where `parsed` is the user of the token.
abbrev pub Routes :
    Option String
    → ClientMessage
    → SendDmRequest
    → RouterState Backend
    → Result RouteError Ack × RouterState Backend
    → Type 0
Routes parsed msg req s (ok ack, t) =
    (caller_id : String) × (c : DmConversationRow) × (row : DmMessageRow) × (parsed
      ≡ some caller_id)
    × (s.services.transits s.services.calls ≡ answered)
    × Acknowledges msg row ack
    × IsPosted caller_id (trim_space req.receiver_id) (trim_space req.content) c row
        s.services.users t.services.users
Routes parsed msg req s (err e, t) = Unsent s t ⊎ Unanswered parsed req s t

-- The message of a reply.
abbrev Replied : String → String → UserService → String → String → ℕ → UserService → Type 0
Replied target content s caller_id id seq t =
    (c : DmConversationRow) × (row : DmMessageRow) × (id ≡ row.id)
    × (seq ≡ row.seq)
    × IsPosted caller_id (trim_space target) (trim_space content) c row s t

abbrev Silent : UserService → UserService → Type 0
Silent s t = Lists s.store.db.dm_messages t.store × (t.events ≡ s.events)

Sends-Ends :
    (caller_id target content : String) (s : UserService) (r : Result Code DmMessage × UserService)
    → Sends caller_id (trim_space target) (trim_space content) s r
    → Ends dm_key (Replied target content s) (Silent s) caller_id r
unfolding to_dm_message
Sends-Ends caller_id target content s (ok reply, t) h = (
  h.2,
  h.3,
  ap (λ m. m.id) h.11,
  ap (λ m. m.seq) h.11,
  record { pair = h.8; sent = h.9; listed = h.10; told = h.12 },
)
Sends-Ends caller_id target content s (err e, t) h = h

failed :
    (msg : ClientMessage) (req : SendDmRequest) (s : RouterState Backend) (w : Backend)
    (parsed : Option String)
    → Fails dm_key
        (Replied req.receiver_id req.content s.services.users)
        (Silent s.services.users)
        parsed
        (s.services.transits s.services.calls)
        w.users
    → Routes parsed msg req s (err service_failed, record { services = w; conn_mgr = s.conn_mgr })
failed msg req s w parsed (inl silent) = inl silent
failed msg req s w parsed (inr lost) = inr (lost.0, lost.1, lost.5.0, lost.5.1, lost.4, lost.5.4)

-- On a running user service, where Route acknowledges a direct message, the token of the
-- connection named a user at that time, and exactly one message was added, at the end, by that
-- user, in the conversation of the two users, with the trimmed content and the next seq; the
-- acknowledgement bears the request's id and the id and the seq of that message, and its event is
-- published if NATS takes it. Where Route fails, no message was added and no event published, or
-- the reply of the service was lost on the way and the message was added in the same way.
pub route-Routes :
    (lib : JwtLibrary) (secret : String) (now : ℕ) (token user_id : String) (msg : ClientMessage)
    (req : SendDmRequest) (s : RouterState Backend)
    → msg.type ≡ send_dm
    → msg.send_dm_request ≡ some req
    → IsRunning s.services.users
    → Routes
        (parse_token lib secret token now)
        msg
        req
        s
        (route (service_clients lib secret now token) user_id msg s)
unfolding service_clients send_dm_rpc_of
route-Routes lib secret now token user_id msg req s typed given running =
    let parsed = parse_token lib secret token now in
    let clients = service_clients lib secret now token in
    let users = s.services.users in
    let handler =
      λ (caller_id : String). send_dm_handler caller_id req.receiver_id req.content [] in
    let P = Replied req.receiver_id req.content users in
    let transit = s.services.transits s.services.calls in
    let handle = call (caller_of lib secret now "/user.v1.UserService/SendDM" token) handler in
    let ends : Called dm_key P (Silent users) parsed (handle users) =
      rw (caller_of_lem lib secret now "/user.v1.UserService/SendDM" token) (
        call-Called dm_key P (Silent users) parsed handler users (refl, refl)
          λ caller_id.
            Sends-Ends caller_id req.receiver_id req.content users _
              (send_dm_handler-Sends caller_id req.receiver_id req.content [] users running)) in
    after_dm_call clients (Routes parsed msg req s) user_id msg req s typed given (inl (refl, refl))
      (λ w h. failed msg req s w parsed (
        carry-none dm_key P (Silent users) parsed handle users (refl, refl) ends transit w.users
          (ap (λ p. p.0) h) (ap (λ p. p.1.users) h)))
      λ id seq w h.
        let (caller_id, by, reply, came) =
          carry-some dm_key P (Silent users) parsed handle users (refl, refl) ends transit id seq
            w.users (ap (λ p. p.0) h) (ap (λ p. p.1.users) h) in
        (
          caller_id,
          reply.0,
          reply.1,
          by,
          came,
          record { request = refl; message = reply.2; seq = reply.3 },
          reply.4,
        )
