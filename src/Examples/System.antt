-- ===== src/Examples/System.antt =====
-- Messages from "u" on their way through the services, to "v", who is at the gateway "g1".
use constell.Prelude.{
  ℕ, ◌+◌, ◌≡◌, refl, Bool, true, none, some, List, [], ◌∷◌, ◌++◌, map, if◌then◌else◌, ◌==◌, nat_eq,
  string_eq,
}
use constell.Prelude.Text.{trim_space}
use constell.Auth.Tokens.{JwtLibrary, parse_token}
use constell.User.Service.State.{new_user_service}
use constell.User.Service.Conversations.{send_dm_handler}
use constell.Community.Service.State.{Service, new_community_service}
use constell.Community.Service.Wiring.{IsRunning, new_community_service-IsRunning}
use constell.Community.Service.Messages.{send_message_handler}
use constell.Gateway.Connections.{ConnManager, new_conn_manager, get, register}
use constell.Gateway.Push.{ServerEvent}
use constell.Gateway.Routing.{
  ClientMessage, send_dm, send_channel_message, SendDmRequest, RouterState, route,
}
use constell.Notify.Subscriber.{Subscriber, handle_message_created}
use constell.System.Pushes.{hear}
use constell.System.Calls.{Backend, answered, service_clients}
use constell.System.Sending.{Routes, route-Routes}
use constell.System.Posting.{RoutesPost, route-RoutesPost}
use constell.System.Delivery.{Delivered, send_dm_handler-Delivered}
use constell.System.Broadcast.{Broadcasts, send_message_handler-Broadcasts}
use constell.Examples.User as Dms
use constell.Examples.Handlers.{club, club-HasSound}
use constell.Examples.Presence.{event, subscriber, redis-StandsAt}

-- A token is the name of its user.
abbrev named : JwtLibrary
named = record {
  sign = λ secret c. if c.subject == "" then none else some c.subject;
  verify = λ now secret t. some (record { subject = t; issued_at = 0; expires_at = now + 1 });
}

abbrev communities : Service
communities = new_community_service club (some (λ n. true))

communities-IsRunning : IsRunning communities
communities-IsRunning = new_community_service-IsRunning club (some (λ n. true)) club-HasSound

abbrev routing : RouterState Backend
routing = record {
  services = record {
    users = Dms.service;
    communities = communities;
    transits = λ n. answered;
    calls = 0;
  };
  conn_mgr = new_conn_manager;
}

abbrev request : SendDmRequest
request = record { receiver_id = "v"; content = " hello" }

abbrev sending : ClientMessage
sending = record {
  type = send_dm;
  request_id = "r1";
  send_dm_request = some request;
  send_channel_message_request = none;
  subscribe_channel_request = none;
  unsubscribe_channel_request = none;
}

route-Routes_example :
    Routes
      (parse_token named "" "u" 5)
      sending
      request
      routing
      (route (service_clients named "" 5 "u") "u" sending routing)
route-Routes_example =
    route-Routes named "" 5 "u" "u" sending request routing refl refl Dms.service-IsRunning

abbrev posting : ClientMessage
posting = record sending {
  type = send_channel_message;
  send_dm_request = none;
  send_channel_message_request = some (record { channel_id = "x"; content = "hi " });
}

route-RoutesPost_example :
    RoutesPost
      (parse_token named "" "u" 5)
      posting
      (record { channel_id = "x"; content = "hi " })
      routing
      (route (service_clients named "" 5 "u") "u" posting routing)
route-RoutesPost_example =
    route-RoutesPost named "" 5 "u" "u" posting (record { channel_id = "x"; content = "hi " })
      routing refl refl communities-IsRunning

-- A network that keeps what is written, and a text that stands for all bytes.
abbrev write : ℕ → ServerEvent → List (ℕ × ServerEvent) → Bool × List (ℕ × ServerEvent)
write conn event w = (true, w ++ (conn, event) ∷ [])

abbrev connected : ConnManager
connected = register "v" 7 0 new_conn_manager

send_dm_handler-Delivered_example :
    Delivered
      (λ bytes. "text")
      write
      10
      subscriber
      "g1"
      connected
      []
      "u"
      (trim_space "v")
      (trim_space "hello")
      Dms.service
      (send_dm_handler "u" "v" "hello" [] Dms.service)
unfolding new_user_service
send_dm_handler-Delivered_example =
    send_dm_handler-Delivered (λ bytes. "text") write 10 subscriber "g1" connected [] "u" "v"
      "hello" [] Dms.service (λ n. true) Dms.service-IsRunning refl refl redis-StandsAt (λ n. refl)

send_message_handler-Broadcasts_example :
    Broadcasts
      (λ bytes. "text")
      write
      10
      subscriber
      "g1"
      connected
      []
      "u"
      (trim_space "hello")
      communities
      (send_message_handler "u" "x" "hello" [] communities)
unfolding new_community_service
send_message_handler-Broadcasts_example =
    send_message_handler-Broadcasts (λ bytes. "text") write 10 subscriber "g1" connected [] "u" "x"
      "hello" [] communities (λ n. true) communities-IsRunning refl refl redis-StandsAt (λ n. refl)

-- Two members at one gateway: each of their sockets gets the message twice.
abbrev together : Subscriber
together = record subscriber {
  redis = record subscriber.redis {
    entries =
        (record { key = "ws:uid:v"; value = "g1"; expires_at = 20 })
        ∷ (record { key = "ws:uid:w"; value = "g1"; expires_at = 20 })
        ∷ [];
  };
}

abbrev for_three : Subscriber
for_three =
    handle_message_created (some (record event { member_ids = "u" ∷ "v" ∷ "w" ∷ [] })) together

written_twice :
    map
      (λ (p : ℕ × ServerEvent). p.0)
      (hear (λ bytes. "text") write "g1" (register "w" 8 0 connected) for_three.published [])
    ≡ 7 ∷ 8 ∷ 7 ∷ 8 ∷ []
unfolding hear handle_message_created get register
written_twice = refl
