-- ===== src/Examples/Server.antt =====
-- One user at a gateway: two messages and a read error, and a second connection of his.
use constell.Prelude.{
  ℕ, suc, String, ◌≡◌, refl, true, false, Option, none, some, List, [], ◌∷◌, arith, nat_eq,
  string_eq,
}
use constell.Redis.{Redis}
use constell.Auth.Tokens.{JwtLibrary}
use constell.Gateway.Connections.{new_conn_manager, register, get}
use constell.Gateway.Routing.{ClientMessage, Clients, subscribe_channel, heartbeat}
use constell.Gateway.Server.{
  Pump, Server, Settings, after_heartbeat, answer_routed, is_heartbeat_message, next_turn,
  read_pump, user_offline,
}
use constell.Gateway.Server.Answering.{Answered, answers, read_pump-Answered}
use constell.Gateway.Server.Alive.{GoesOn, IsRegular, last_beat, read_pump-GoesOn}
use constell.Gateway.Server.Loops.{
  Gateway, Incoming, IsServed, reads_socket, requests_upgrade, run_gateway,
}
use constell.Gateway.Server.Loops.Serving.{run_gateway-IsServed}

abbrev redis : Redis
redis = record {
  fails = λ n. false;
  now = λ n. 10;
  commands = 0;
  entries =
      (record { key = "ws:uid:v"; value = "g1"; expires_at = 20 })
      ∷ (record { key = "ws:uid:w"; value = "g2"; expires_at = 5 })
      ∷ [];
}

abbrev settings : Settings
settings = record {
  gw_id = "g1";
  secret = "secret";
  interval = 30;
  registry = some (record { ttl = 300 });
  has_nats = true;
}

abbrev clients : String → Clients ℕ
clients token = record {
  send_dm_rpc = λ sender receiver content n. (some ("m", n), suc n);
  send_message_rpc = λ sender channel content n. (some ("m", n), suc n);
}

abbrev server : Server ℕ
server = record {
  router = record { services = 0; conn_mgr = register "u" 1 10 new_conn_manager };
  redis = redis;
  takes = λ n. true;
  publishes = 0;
  published = [];
  writable = λ n. true;
  writes = 0;
  written = [];
}

abbrev pump : Pump
pump = record { user_id = "u"; token = "token"; conn = 1; deadline = 70 }

abbrev beat : ClientMessage
beat = record {
  type = heartbeat;
  request_id = "r1";
  send_dm_request = none;
  send_channel_message_request = none;
  subscribe_channel_request = none;
  unsubscribe_channel_request = none;
}

abbrev subscribe : ClientMessage
subscribe = record {
  type = subscribe_channel;
  request_id = "r2";
  send_dm_request = none;
  send_channel_message_request = none;
  subscribe_channel_request = some (record { channel_id = "x" });
  unsubscribe_channel_request = none;
}

abbrev two_messages : List (ℕ × Option ClientMessage)
two_messages = (60, some beat) ∷ (90, some subscribe) ∷ []

abbrev and_error : List (ℕ × Option ClientMessage)
and_error = (60, some beat) ∷ (90, some subscribe) ∷ (95, none) ∷ (96, some beat) ∷ []

read_pump-Answered_example :
    Answered settings clients and_error pump server
      (read_pump settings clients and_error pump server)
read_pump-Answered_example = read_pump-Answered settings clients and_error pump server

answered_twice :
    let s = (read_pump settings clients and_error pump server).1 in
    (answers s.written ≡ (1, "r1") ∷ (1, "r2") ∷ []) × (s.published ≡ user_offline "u" ∷ [])
unfolding read_pump next_turn answer_routed after_heartbeat
answered_twice = (refl, refl)

-- After the heartbeat at 60 the deadline is 120.
two_messages-IsRegular : IsRegular 30 10 two_messages
unfolding is_heartbeat_message
two_messages-IsRegular = (omega arith, (omega arith, tt))

read_pump-GoesOn_example :
    let out = read_pump settings clients two_messages pump server in
    GoesOn settings (last_beat two_messages 10) server out
    × Answered settings clients two_messages pump server out
read_pump-GoesOn_example =
    read_pump-GoesOn settings clients two_messages 10 pump server (λ n. refl) refl
      two_messages-IsRegular

-- A library for which every token is that of "u".
abbrev trusting : JwtLibrary
trusting = record {
  sign = λ secret c. some "token";
  verify = λ now secret t. some (record { subject = "u"; issued_at = 0; expires_at = 1000 });
}

abbrev idle : Gateway ℕ
idle = record {
  server = record server { router = record { services = 0; conn_mgr = new_conn_manager } };
  pumps = [];
  sockets = 0;
}

idle-IsServed : IsServed idle
unfolding get new_conn_manager
idle-IsServed = record {
  served = λ u conn h. absurd (ground (arith, h));
  distinct = tt;
  fresh = tt;
}

-- The user connects twice; then his first socket fails.
abbrev twice : List Incoming
twice =
    requests_upgrade "token" true 10
    ∷ requests_upgrade "token" true 20
    ∷ reads_socket 0 30 none
    ∷ []

run_gateway-IsServed_example : IsServed (run_gateway settings trusting clients twice idle)
run_gateway-IsServed_example =
    run_gateway-IsServed settings trusting clients twice idle idle-IsServed

-- The failure of the first socket has closed the second one, whose loop still runs.
second_closed :
    (run_gateway settings trusting clients twice idle).server.router.conn_mgr.closed ≡ 1 ∷ []
unfolding run_gateway new_conn_manager
second_closed = refl
