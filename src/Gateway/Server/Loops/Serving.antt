-- ===== src/Gateway/Server/Loops/Serving.antt =====
-- Every event at a gateway keeps its loops: who is connected is served.
use constell.Prelude.{
  ℕ, ◌<◌, String, ◌≡◌, refl, sym, ap, subst, ◌∙◌, inl, inr, Bool, true, false, Option, none, some,
  List, [], ◌∷◌, arith, if◌then◌else◌, eqb_iff, Bool-cases, ◌==◌, nat_eq, string_eq, equal_refl,
  find, any, All-map, All-keep, Distinct, ne_of_unequal,
}
use constell.Prelude.Exec.{Result, ok, err}
use constell.Auth.Tokens.{JwtLibrary}
use constell.Gateway.Connections.{ConnManager, get, socket_of, register}
use constell.Gateway.Connections.Lookup.{get-register, get-unregister}
use constell.Gateway.Routing.{
  Ack, Answers, ClientMessage, Clients, RouteError, RouterState, route, route-Answers,
}
use constell.Gateway.Server.{
  Answer, Pump, Server, Settings, acknowledged, after_answer, after_heartbeat, answer_message,
  answer_routed, authenticate_upgrade, cleanup_disconnect, error_event, handle_heartbeat,
  handle_upgrade, upgrade_for, is_heartbeat_message, read_by_deadline, reset_deadline, turn,
  write_message, start_pump, register_in,
}
use constell.Gateway.Server.Leaving.{cleanup-conn_mgr, online-Announced}
use constell.Gateway.Server.Answering.{Turned, answer_message-Turned}
use constell.Gateway.Server.Loops.{
  Gateway, Incoming, IsServed, has_conn, without_pump, serves, conns_of, with_started, with_turn,
  read_for, gateway_step, run_gateway, requests_upgrade, reads_socket, any-without_pump,
  contains-without_pump, contains-fresh, All-find, find-has_conn, Distinct-without_pump, same_user,
}

abbrev socket_at : {W : Type 0} → String → Server W → Option ℕ
socket_at u s = socket_of (get u s.router.conn_mgr)

module _ {W : Type 0} (cfg : Settings) where
  write_message-router :
      (conn : ℕ) (a : Answer) (s : Server W) → (write_message cfg conn a s).1.router ≡ s.router
  unfolding write_message
  write_message-router conn a s = elim (Bool-cases (s.writable s.writes)) [
    | inl y ↦ rw y refl
    | inr n ↦ rw n refl
  ]

  after_answer-router :
      (p : Pump) (out : Bool × Server W) → (after_answer cfg p out).1.router ≡ out.1.router
  after_answer-router p (true, s) = refl
  after_answer-router p (false, s) = refl

  after_heartbeat-router :
      (now : ℕ) (p : Pump) (out : Bool × Server W)
      → (after_heartbeat cfg now p out).1.router ≡ out.1.router
  unfolding after_heartbeat
  after_heartbeat-router now p (true, s) = refl
  after_heartbeat-router now p (false, s) = refl

  routed-sockets :
      (clients : Clients W) (p : Pump) (msg : ClientMessage) (s : Server W)
      (out : Result RouteError Ack × RouterState W) (u : String)
      → Answers clients p.user_id msg s.router out
      → socket_at u (answer_routed cfg p msg.request_id s out).1 ≡ socket_at u s
  unfolding answer_routed
  routed-sockets clients p msg s (ok a, r) u h =
      ap (λ (x : RouterState W). socket_of (get u x.conn_mgr))
        (after_answer-router p (write_message cfg p.conn (acknowledged a) (record s { router = r }))
          ∙ write_message-router p.conn (acknowledged a) (record s { router = r }))
      ∙ h.3 u
  routed-sockets clients p msg s (err e, r) u h =
      let answer = error_event e msg.request_id in
      ap (λ (x : RouterState W). socket_of (get u x.conn_mgr))
        (after_answer-router p (write_message cfg p.conn answer (record s { router = r }))
          ∙ write_message-router p.conn answer (record s { router = r }))
      ∙ ap (λ (m : ConnManager). socket_of (get u m)) h

  module _ (lib : JwtLibrary) (clients : String → Clients W) where
    answer_message-sockets :
        (now : ℕ) (p : Pump) (msg : ClientMessage) (s : Server W) (u : String)
        → socket_at u (answer_message cfg clients now p msg s).1 ≡ socket_at u s
    unfolding answer_message
    answer_message-sockets now p msg s u = elim (Bool-cases (is_heartbeat_message msg)) [
      | inl y ↦
          rw
            (
              y,
              after_heartbeat-router now p _,
              write_message-router p.conn (handle_heartbeat msg) s,
            )
            refl
      | inr n ↦ rw n (
          routed-sockets (clients p.token) p msg s (route (clients p.token) p.user_id msg s.router)
            u (route-Answers (clients p.token) p.user_id msg s.router))
    ]

    -- The loop of a socket stays the loop of its user and socket, and no user has another socket.
    abbrev Stays : Pump → Server W → Option Pump × Server W → Type 0
    Stays p s (some q, t) =
        (q.conn ≡ p.conn) × (q.user_id ≡ p.user_id) × ((u : String) → socket_at u t ≡ socket_at u s)
    Stays p s (none, t) = (u : String) → socket_at u t ≡ socket_at u s

    Turned-Stays :
        (msg : ClientMessage) (p : Pump) (s : Server W) (out : Option Pump × Server W)
        → Turned msg p s out
        → ((u : String) → socket_at u out.1 ≡ socket_at u s)
        → Stays p s out
    Turned-Stays msg p s (some q, t) h same = (h.1, h.2, same)
    Turned-Stays msg p s (none, t) h same = same

    turn-Stays :
        (now : ℕ) (p : Pump) (read : Option ClientMessage) (s : Server W)
        → Stays p s (turn cfg clients now p read s)
    unfolding turn
    turn-Stays now p none s = λ u. refl
    turn-Stays now p (some msg) s =
        Turned-Stays msg p s (answer_message cfg clients now p msg s)
          (answer_message-Turned cfg clients now p msg s) (answer_message-sockets now p msg s)

    -- A loop after its turn, in place of what it was.
    served_on :
        (g : Gateway W) (p q : Pump) (u : String) (k : ℕ)
        → find (has_conn p.conn) g.pumps ≡ some p
        → q.conn ≡ p.conn
        → q.user_id ≡ p.user_id
        → Distinct (conns_of g.pumps)
        → any (serves u k) g.pumps ≡ true
        → any (serves u k) (q ∷ without_pump p.conn g.pumps) ≡ true
    served_on g p q u k found conn user d a = elim (Bool-cases (k == p.conn)) [
      | inl y ↦
          let here : k ≡ p.conn = (eqb_iff k p.conn).0 y in
          let (same, _) = same_user u k p g.pumps d (rw here found) a in
          rw (user, same, conn, here, equal_refl u, equal_refl p.conn) refl
      | inr n ↦ rw (any-without_pump u k p.conn g.pumps n, a) (ground arith)
    ]

    served_off :
        (g : Gateway W) (p : Pump) (u : String) (k : ℕ)
        → find (has_conn p.conn) g.pumps ≡ some p
        → (p.user_id == u) ≡ false
        → Distinct (conns_of g.pumps)
        → any (serves u k) g.pumps ≡ true
        → any (serves u k) (without_pump p.conn g.pumps) ≡ true
    served_off g p u k found other d a = elim (Bool-cases (k == p.conn)) [
      | inl y ↦
          let here : k ≡ p.conn = (eqb_iff k p.conn).0 y in
          let (same, _) = same_user u k p g.pumps d (rw here found) a in
          absurd (ne_of_unequal p.user_id u other same)
      | inr n ↦ any-without_pump u k p.conn g.pumps n ∙ a
    ]

    socket_at-cleanup :
        (u v : String) (s : Server W)
        → socket_at u (cleanup_disconnect cfg v s) ≡ (if v == u then none else socket_at u s)
    socket_at-cleanup u v s =
        rw (cleanup-conn_mgr cfg v s, get-unregister u v s.router.conn_mgr)
          (elim (Bool-cases (v == u)) [ inl y ↦ rw y refl | inr n ↦ rw n refl ])

    with_turn-IsServed :
        (g : Gateway W) (p : Pump) (out : Option Pump × Server W)
        → find (has_conn p.conn) g.pumps ≡ some p
        → Stays p g.server out
        → IsServed g
        → IsServed (with_turn cfg g p out)
    unfolding with_turn
    with_turn-IsServed g p (some q, t) found (conn, user, same) i = record {
      served =
          λ u k h. served_on g p q u k found conn user i.distinct (i.served u k (sym (same u) ∙ h));
      distinct = (
        contains-without_pump q.conn p.conn g.pumps ∙ rw (conn, equal_refl p.conn) refl,
        Distinct-without_pump p.conn g.pumps i.distinct,
      );
      fresh = (
        rw conn (All-find (λ r. r.conn < g.sockets) p.conn p g.pumps i.fresh found),
        All-keep (λ r. r.conn < g.sockets) _ g.pumps i.fresh,
      );
    }
    with_turn-IsServed g p (none, t) found same i = record {
      served = λ u k h. elim (Bool-cases (p.user_id == u)) [
        | inl y ↦ absurd (let now = sym (socket_at-cleanup u p.user_id t) ∙ h in ground (arith, y))
        | inr n ↦ served_off g p u k found n i.distinct (
            let now = sym (socket_at-cleanup u p.user_id t) ∙ h in
            i.served u k (sym (same u) ∙ ground (arith, n)))
      ];
      distinct = Distinct-without_pump p.conn g.pumps i.distinct;
      fresh = All-keep (λ r. r.conn < g.sockets) _ g.pumps i.fresh;
    }

    -- The server once a user is registered, before he is announced.
    abbrev registered : String → ℕ → ℕ → Server W → Server W
    registered u conn now s = record s {
      router = record s.router { conn_mgr = register u conn now s.router.conn_mgr };
      redis = register_in cfg.registry u cfg.gw_id s.redis;
    }

    socket_at-start :
        (u v token : String) (now : ℕ) (g : Gateway W)
        → socket_at v (start_pump cfg u token g.sockets now g.server).1
          ≡ (if u == v then some g.sockets else socket_at v g.server)
    unfolding start_pump
    socket_at-start u v token now g =
        rw
          (
            (online-Announced cfg u (registered u g.sockets now g.server)).router,
            get-register v u g.sockets now g.server.router.conn_mgr,
          )
          (elim (Bool-cases (u == v)) [ inl y ↦ rw y refl | inr n ↦ rw n refl ])

    start_pump-IsServed :
        (u token : String) (now : ℕ) (g : Gateway W)
        → IsServed g
        → IsServed (with_started cfg g (start_pump cfg u token g.sockets now g.server))
    unfolding start_pump reset_deadline
    start_pump-IsServed u token now g i = record {
      served = λ v k h. elim (Bool-cases (u == v)) [
        | inl y ↦
            let now_at = sym (socket_at-start u v token now g) ∙ h in
            ground (arith, y, eqb_iff g.sockets k)
        | inr n ↦
            let now_at = sym (socket_at-start u v token now g) ∙ h in
            rw n (i.served v k (ground (arith, n)))
      ];
      distinct = (contains-fresh g.sockets g.pumps i.fresh, i.distinct);
      fresh = (omega arith, All-map (λ p lt. omega (arith, lt)) g.pumps i.fresh);
    }

    upgrade_for-IsServed :
        (o : Option (String × String)) (b : Bool) (now : ℕ) (g : Gateway W)
        → IsServed g
        → IsServed (
            with_started cfg g
              (upgrade_for cfg o (if b then some g.sockets else none) now g.server))
    unfolding upgrade_for
    upgrade_for-IsServed none b now g i = i
    upgrade_for-IsServed (some (u, token)) true now g i = start_pump-IsServed u token now g i
    upgrade_for-IsServed (some (u, token)) false now g i = i

    read_for-IsServed :
        (now conn : ℕ) (read : Option ClientMessage) (g : Gateway W) (o : Option Pump)
        → find (has_conn conn) g.pumps ≡ o
        → IsServed g
        → IsServed (read_for cfg lib clients now read g o)
    unfolding read_for
    read_for-IsServed now conn read g none h i = i
    read_for-IsServed now conn read g (some p) h i =
        with_turn-IsServed g p _
          (subst (λ k. find (has_conn k) g.pumps ≡ some p) (sym (find-has_conn conn p g.pumps h)) h)
          (turn-Stays now p (read_by_deadline now p read) g.server) i

    gateway_step-IsServed :
        (e : Incoming) (g : Gateway W) → IsServed g → IsServed (gateway_step cfg lib clients e g)
    unfolding gateway_step handle_upgrade
    gateway_step-IsServed (requests_upgrade token upgrades now) g i =
        upgrade_for-IsServed (authenticate_upgrade lib cfg token now) upgrades now g i
    gateway_step-IsServed (reads_socket conn now read) g i =
        read_for-IsServed now conn read g (find (has_conn conn) g.pumps) refl i

    -- Whatever upgrades, messages and read errors come to a gateway in whatever order, each user
    -- with a connection has a loop that serves him on that connection's socket, and no two loops
    -- read the same socket.
    pub run_gateway-IsServed :
        (es : List Incoming) (g : Gateway W)
        → IsServed g
        → IsServed (run_gateway cfg lib clients es g)
    unfolding run_gateway
    run_gateway-IsServed [] g i = i
    run_gateway-IsServed (e ∷ es) g i =
        run_gateway-IsServed es (gateway_step cfg lib clients e g) (gateway_step-IsServed e g i)
