-- ===== src/Gateway/Server.antt =====
-- Server of backend/services/ws-gateway/server.go with auth.go and heartbeat.go: the upgrade of a
-- request to a WebSocket, the loop that reads one socket, and the clean-up when it ends. Times are
-- seconds.
pub mod Leaving
pub mod Answering
pub mod Alive
pub mod Loops
use constell.Prelude.{
  ℕ, zero, suc, ◌+◌, ◌-◌, ◌*◌, ◌/◌, ◌%◌, ◌^◌, ◌≤◌, ◌<◌, min, max, String, ◌≡◌, refl, sym, ap, subst,
  ◌∙◌, ◌≢◌, ◌↔◌, ◌⊎◌, inl, inr, Bool, true, false, not, ◌&&◌, ◌||◌, Option, none, some, List, [],
  ◌∷◌, ◌++◌, map, arith, eq_iff, ltb, leb, eqb, if◌then◌else◌, ltb→lt, lt→ltb, le→ltb, eqb_iff,
  Bool-cases, Option-cases, Comparable, ◌==◌, nat_eq, string_eq, equal_refl, eq_of_equal, length,
  take, drop, get_elem?, keep, find, any, All, length-append, length-take, take-append-drop,
  take-of_le, take-length-append, drop-length-append, length-keep-le, All-map, All-keep, contains,
  Distinct, All-append, All-keep_with, any-append_left, any-keep, bit_and, bit_or, bit_xor,
  is_positive, ne_of_unequal, negsuc, pos, take-take, to_ℕ, ℤ, equal_sym,
}
use constell.Prelude.Exec.{Result, ok, err}
use constell.Redis.{Redis}
use constell.Auth.Tokens.{JwtLibrary, parse_token}
use constell.Gateway.Connections.{ConnManager, count, register, unregister}
use constell.Gateway.Routing.{
  Ack, ClientMessage, ClientMessageType, Clients, RouteError, RouterState, heartbeat, route,
  send_dm, send_channel_message, subscribe_channel, unsubscribe_channel, unspecified,
}
use constell.Gateway.Registry.{Registry, register_connection, unregister_connection}

-- What a server does not change: its id, the JWT secret, the heartbeat interval, the registry if it
-- is set, and whether there is a connection to NATS.
pub record Settings : Type 0 where
  pub gw_id : String
  pub secret : String
  pub interval : ℕ
  pub registry : Option Registry
  pub has_nats : Bool

-- The ServerEvents that the loop writes.
pub data Answer : Type 0 where
  acknowledged : Ack → Answer
  heartbeat_ack : String → Answer
  error_event : RouteError → String → Answer

-- The events on constell.user.online and constell.user.offline.
pub data PresenceEvent : Type 0 where
  user_online : String → String → PresenceEvent
  user_offline : String → PresenceEvent

-- The router with the connections, Redis, the n-th publication (whether NATS takes it) and the n-th
-- write on a socket (whether it succeeds), with what was published and written.
pub record Server (W : Type 0) : Type 0 where
  pub router : RouterState W
  pub redis : Redis
  pub takes : ℕ → Bool
  pub publishes : ℕ
  pub published : List PresenceEvent
  pub writable : ℕ → Bool
  pub writes : ℕ
  pub written : List (ℕ × Answer)

-- The variables of one readPump, and the read deadline of its socket.
pub record Pump : Type 0 where
  pub user_id : String
  pub token : String
  pub conn : ℕ
  pub deadline : ℕ

-- BuildHeartbeatAck, HandleHeartbeat
abbrev pub build_heartbeat_ack : String → Answer
build_heartbeat_ack request_id = heartbeat_ack request_id

unfoldable pub handle_heartbeat : ClientMessage → Answer
handle_heartbeat msg = build_heartbeat_ack msg.request_id

abbrev is_heartbeat : ClientMessageType → Bool
is_heartbeat heartbeat = true
is_heartbeat send_dm = false
is_heartbeat send_channel_message = false
is_heartbeat subscribe_channel = false
is_heartbeat unsubscribe_channel = false
is_heartbeat unspecified = false

-- IsHeartbeatMessage
unfoldable pub is_heartbeat_message : ClientMessage → Bool
is_heartbeat_message msg = is_heartbeat msg.type

-- ResetDeadline, at a time
unfoldable pub reset_deadline : Settings → ℕ → Pump → Pump
reset_deadline cfg now p = record p { deadline = now + cfg.interval * 2 }

-- AuthenticateUpgrade of a query parameter "token", at a time
unfoldable pub authenticate_upgrade : JwtLibrary → Settings → String → ℕ → Option (String × String)
unfolding parse_token
authenticate_upgrade lib cfg token now =
    if token == "" then none else elim (parse_token lib cfg.secret token now) [
      | none ↦ none
      | some user_id ↦ some (user_id, token)
    ]

-- `if s.registry != nil`, for the two calls of the registry; an error is logged.
unfoldable pub register_in : Option Registry → String → String → Redis → Redis
unfolding register_connection
register_in none user_id gw_id r = r
register_in (some reg) user_id gw_id r = (register_connection reg user_id gw_id r).1

unfoldable pub unregister_in : Option Registry → String → Redis → Redis
unfolding unregister_connection
unregister_in none user_id r = r
unregister_in (some reg) user_id r = (unregister_connection user_id r).1

-- ReadMessage at a time; none is a read error, as is a read past the deadline.
abbrev pub read_by_deadline : ℕ → Pump → Option ClientMessage → Option ClientMessage
read_by_deadline now p read = if ltb now p.deadline then read else none

module _ {W : Type 0} (cfg : Settings) where
  unfoldable pub publish : PresenceEvent → Server W → Server W
  publish e s =
      if s.takes s.publishes
      then record s { publishes = suc s.publishes; published = s.published ++ e ∷ [] }
      else record s { publishes = suc s.publishes }

  -- broadcastUserOnline, broadcastUserOffline
  unfoldable pub broadcast_user_online : String → Server W → Server W
  unfolding publish
  broadcast_user_online user_id s =
      if cfg.has_nats then publish (user_online user_id cfg.gw_id) s else s

  unfoldable pub broadcast_user_offline : String → Server W → Server W
  unfolding publish
  broadcast_user_offline user_id s = if cfg.has_nats then publish (user_offline user_id) s else s

  -- ConnectionCount
  unfoldable pub connection_count : Server W → ℕ
  unfolding count
  connection_count s = count s.router.conn_mgr

  -- cleanupDisconnect
  unfoldable pub cleanup_disconnect : String → Server W → Server W
  unfolding unregister unregister_in broadcast_user_offline
  cleanup_disconnect user_id s = broadcast_user_offline user_id (record s {
    router = record s.router { conn_mgr = unregister user_id s.router.conn_mgr };
    redis = unregister_in cfg.registry user_id s.redis;
  })

  -- WriteMessage
  unfoldable pub write_message : ℕ → Answer → Server W → Bool × Server W
  write_message conn a s =
      if s.writable s.writes
      then (true, record s { writes = suc s.writes; written = s.written ++ (conn, a) ∷ [] })
      else (false, record s { writes = suc s.writes })

  -- The rest of a turn after a write: a failed write ends the loop, none.
  unfoldable pub after_heartbeat : ℕ → Pump → Bool × Server W → Option Pump × Server W
  unfolding reset_deadline register_in
  after_heartbeat now p (false, s) = (none, s)
  after_heartbeat now p (true, s) = (
    some (reset_deadline cfg now p),
    record s { redis = register_in cfg.registry p.user_id cfg.gw_id s.redis },
  )

  abbrev pub after_answer : Pump → Bool × Server W → Option Pump × Server W
  after_answer p (false, s) = (none, s)
  after_answer p (true, s) = (some p, s)

  unfoldable pub answer_routed :
      Pump → String → Server W → Result RouteError Ack × RouterState W → Option Pump × Server W
  unfolding write_message
  answer_routed p request_id s (ok ack, r) =
      after_answer p (write_message p.conn (acknowledged ack) (record s { router = r }))
  answer_routed p request_id s (err e, r) =
      after_answer p (write_message p.conn (error_event e request_id) (record s { router = r }))

  -- What HandleUpgrade starts: the loop of a new socket.
  abbrev pub start_pump : String → String → ℕ → ℕ → Server W → Option Pump × Server W
  unfolding register register_in broadcast_user_online reset_deadline
  start_pump user_id token conn now s =
      let p : Pump = record { user_id = user_id; token = token; conn = conn; deadline = 0 } in
      (
        some (reset_deadline cfg now p),
        broadcast_user_online user_id (record s {
          router = record s.router { conn_mgr = register user_id conn now s.router.conn_mgr };
          redis = register_in cfg.registry user_id cfg.gw_id s.redis;
        }),
      )

  -- HandleUpgrade with the query parameter "token" and the new socket, none where the upgrade fails.
  abbrev pub upgrade_for :
      Option (String × String) → Option ℕ → ℕ → Server W → Option Pump × Server W
  unfolding start_pump
  upgrade_for none socket now s = (none, s)
  upgrade_for (some (user_id, token)) none now s = (none, s)
  upgrade_for (some (user_id, token)) (some conn) now s = start_pump user_id token conn now s

  unfoldable pub handle_upgrade :
      JwtLibrary → String → Option ℕ → ℕ → Server W → Option Pump × Server W
  unfolding authenticate_upgrade upgrade_for
  handle_upgrade lib token socket now s =
      upgrade_for (authenticate_upgrade lib cfg token now) socket now s

  -- What follows a turn: the loop goes on, or its clean-up is done.
  unfoldable pub next_turn :
      (Pump → Server W → Option Pump × Server W)
      → String
      → Option Pump × Server W
      → Option Pump × Server W
  unfolding cleanup_disconnect
  next_turn rest user_id (none, s) = (none, cleanup_disconnect user_id s)
  next_turn rest user_id (some p, s) = rest p s

  module _ (clients : String → Clients W) where
    unfoldable pub answer_message : ℕ → Pump → ClientMessage → Server W → Option Pump × Server W
    unfolding handle_heartbeat is_heartbeat_message write_message route
    answer_message now p msg s =
        if is_heartbeat_message msg
        then after_heartbeat now p (write_message p.conn (handle_heartbeat msg) s)
        else answer_routed p msg.request_id s (route (clients p.token) p.user_id msg s.router)

    -- One turn of the loop: none where it returns.
    unfoldable pub turn : ℕ → Pump → Option ClientMessage → Server W → Option Pump × Server W
    unfolding answer_message
    turn now p none s = (none, s)
    turn now p (some msg) s = answer_message now p msg s

    -- readPump on the reads of its socket with their times: none where it returned, the deferred
    -- clean-up done; a loop that waits for its next read is given by its variables.
    unfoldable pub read_pump :
        List (ℕ × Option ClientMessage) → Pump → Server W → Option Pump × Server W
    unfolding turn
    read_pump [] p s = (some p, s)
    read_pump ((now, read) ∷ reads) p s =
        next_turn (read_pump reads) p.user_id (turn now p (read_by_deadline now p read) s)
