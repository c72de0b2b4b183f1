-- ===== src/Gateway/Server/Loops.antt =====
-- A gateway with the loops of its sockets, in any order of upgrades and reads: each user who is
-- connected has a loop that reads his socket.
pub mod Serving
use constell.Prelude.{
  ℕ, zero, suc, ◌+◌, ◌-◌, ◌*◌, ◌/◌, ◌%◌, ◌^◌, ◌≤◌, ◌<◌, min, max, String, ◌≡◌, refl, sym, ap, subst,
  ◌∙◌, ◌≢◌, ◌↔◌, ◌⊎◌, inl, inr, Bool, true, false, not, ◌&&◌, ◌||◌, Option, none, some, List, [],
  ◌∷◌, ◌++◌, map, arith, eq_iff, ltb, leb, eqb, if◌then◌else◌, ltb→lt, lt→ltb, le→ltb, eqb_iff,
  Bool-cases, Option-cases, Comparable, ◌==◌, nat_eq, string_eq, equal_refl, eq_of_equal, length,
  take, drop, get_elem?, keep, find, any, All, length-append, length-take, take-append-drop,
  take-of_le, take-length-append, drop-length-append, length-keep-le, All-map, All-keep, contains,
  Distinct, All-append, All-keep_with, any-append_left, any-keep, bit_and, bit_or, bit_xor,
  is_positive, ne_of_unequal, negsuc, pos, take-take, to_ℕ, ℤ, equal_sym,
}
use constell.Prelude.Exec.{Result, ok, err}
use constell.Auth.Tokens.{JwtLibrary}
use constell.Gateway.Connections.{ConnManager, get, socket_of, register, unregister, new_entry}
use constell.Gateway.Connections.Lookup.{get-register, get-unregister}
use constell.Gateway.Routing.{
  Ack, Answers, ClientMessage, Clients, RouteError, RouterState, route, route-Answers,
}
use constell.Gateway.Server.{
  Answer, Pump, Server, Settings, acknowledged, after_answer, after_heartbeat, answer_message,
  answer_routed, authenticate_upgrade, cleanup_disconnect, error_event, handle_heartbeat,
  handle_upgrade, is_heartbeat_message, read_by_deadline, reset_deadline, turn, write_message,
  start_pump, register_in, broadcast_user_online,
}
use constell.Gateway.Server.Leaving.{cleanup-conn_mgr, online-Announced}
use constell.Gateway.Server.Answering.{Turned, answer_message-Turned}

-- The server, the variables of its loops, and the number of sockets so far, which is the next one.
pub record Gateway (W : Type 0) : Type 0 where
  pub server : Server W
  pub pumps : List Pump
  pub sockets : ℕ

-- A request to upgrade with its token, whether the upgrade succeeds, and its time; and a read on a
-- socket at a time.
pub data Incoming : Type 0 where
  requests_upgrade : String → Bool → ℕ → Incoming
  reads_socket : ℕ → ℕ → Option ClientMessage → Incoming

abbrev pub has_conn : ℕ → Pump → Bool
has_conn conn p = p.conn == conn

abbrev pub without_pump : ℕ → List Pump → List Pump
without_pump conn ps = keep (λ p. not (has_conn conn p)) ps

abbrev pub serves : String → ℕ → Pump → Bool
serves user_id conn p = p.user_id == user_id && p.conn == conn

abbrev pub conns_of : List Pump → List ℕ
conns_of = map (λ (p : Pump). p.conn)

module _ {W : Type 0} (cfg : Settings) where
  abbrev pub with_started : Gateway W → Option Pump × Server W → Gateway W
  with_started g (none, s) = record g { server = s }
  with_started g (some p, s) = record { server = s; pumps = p ∷ g.pumps; sockets = suc g.sockets }

  abbrev pub with_turn : Gateway W → Pump → Option Pump × Server W → Gateway W
  unfolding cleanup_disconnect
  with_turn g p (none, s) = record g {
    server = cleanup_disconnect cfg p.user_id s;
    pumps = without_pump p.conn g.pumps;
  }
  with_turn g p (some q, s) = record g { server = s; pumps = q ∷ without_pump p.conn g.pumps }

  module _ (lib : JwtLibrary) (clients : String → Clients W) where
    abbrev pub read_for : ℕ → Option ClientMessage → Gateway W → Option Pump → Gateway W
    unfolding turn with_turn
    read_for now read g none = g
    read_for now read g (some p) =
        with_turn g p (turn cfg clients now p (read_by_deadline now p read) g.server)

    -- An upgrade starts a loop; a read is a turn of the loop of its socket.
    unfoldable pub gateway_step : Incoming → Gateway W → Gateway W
    unfolding handle_upgrade read_for
    gateway_step (requests_upgrade token upgrades now) g =
        with_started g
          (handle_upgrade cfg lib token (if upgrades then some g.sockets else none) now g.server)
    gateway_step (reads_socket conn now read) g = read_for now read g (find (has_conn conn) g.pumps)

    unfoldable pub run_gateway : List Incoming → Gateway W → Gateway W
    unfolding gateway_step
    run_gateway [] g = g
    run_gateway (e ∷ es) g = run_gateway es (gateway_step e g)

-- What holds of a gateway: a user with a socket has a loop that serves him on it, no two loops read
-- one socket, and sockets to come are new.
pub record IsServed {W : Type 0} (g : Gateway W) : Type 0 where
  pub served :
      (u : String) (conn : ℕ)
      → socket_of (get u g.server.router.conn_mgr) ≡ some conn
      → any (serves u conn) g.pumps ≡ true
  pub distinct : Distinct (conns_of g.pumps)
  pub fresh : All (λ p. p.conn < g.sockets) g.pumps

-- The loops of a list of loops without those of one socket.
any-without_pump :
    (u : String) (k conn : ℕ) (ps : List Pump)
    → (k == conn) ≡ false
    → any (serves u k) (without_pump conn ps) ≡ any (serves u k) ps
any-without_pump u k conn [] h = refl
any-without_pump u k conn (p ∷ ps) h =
    ground
      (arith, any-without_pump u k conn ps h, eqb_iff p.conn conn, eqb_iff p.conn k, eqb_iff k conn)

contains-without_pump :
    (k conn : ℕ) (ps : List Pump)
    → contains k (conns_of (without_pump conn ps)) ≡ (not (conn == k) && contains k (conns_of ps))
contains-without_pump k conn [] = ground arith
contains-without_pump k conn (p ∷ ps) =
    ground (
      arith,
      contains-without_pump k conn ps,
      eqb_iff p.conn conn,
      eqb_iff p.conn k,
      eqb_iff conn k,
    )

Distinct-without_pump :
    (conn : ℕ) (ps : List Pump)
    → Distinct (conns_of ps)
    → Distinct (conns_of (without_pump conn ps))
Distinct-without_pump conn [] d = tt
Distinct-without_pump conn (p ∷ ps) d = elim (Bool-cases (has_conn conn p)) [
  | inl y ↦ rw y (Distinct-without_pump conn ps d.1)
  | inr n ↦ rw n (
    contains-without_pump p.conn conn ps ∙ rw d.0 (ground arith),
    Distinct-without_pump conn ps d.1,
  )
]

any-serves-contains :
    (u : String) (conn : ℕ) (ps : List Pump)
    → contains conn (conns_of ps) ≡ false
    → any (serves u conn) ps ≡ false
any-serves-contains u conn [] h = refl
any-serves-contains u conn (p ∷ ps) h =
    ground (arith, any-serves-contains u conn ps, h, eqb_iff p.conn conn)

contains-fresh :
    (n : ℕ) (ps : List Pump) → All (λ p. p.conn < n) ps → contains n (conns_of ps) ≡ false
contains-fresh n [] h = refl
contains-fresh n (p ∷ ps) h = ground (arith, contains-fresh n ps h.1, h.0, eqb_iff p.conn n)

find-has_conn :
    (conn : ℕ) (p : Pump) (ps : List Pump) → find (has_conn conn) ps ≡ some p → p.conn ≡ conn
find-has_conn conn p [] f = cc
find-has_conn conn p (q ∷ qs) f = ground (arith, find-has_conn conn p qs, f, eqb_iff q.conn conn)

All-find :
    (P : Pump → Type 0) (conn : ℕ) (p : Pump) (ps : List Pump)
    → All P ps
    → find (has_conn conn) ps ≡ some p
    → P p
All-find P conn p [] h f = absurd (ground (arith, f))
All-find P conn p (q ∷ qs) h f = elim (Bool-cases (has_conn conn q)) [
  | inl y ↦ subst P (ground (arith, f, y)) h.0
  | inr n ↦ All-find P conn p qs h.1 (ground (arith, f, n))
]

-- The only loop of a socket serves the only user whom it can serve.
same_user :
    (u : String) (conn : ℕ) (p : Pump) (ps : List Pump)
    → Distinct (conns_of ps)
    → find (has_conn conn) ps ≡ some p
    → any (serves u conn) ps ≡ true
    → (p.user_id ≡ u) × (p.conn ≡ conn)
same_user u conn p [] d f a = cc
same_user u conn p (q ∷ qs) d f a = elim (Bool-cases (has_conn conn q)) [
  | inl y ↦
      let here : q.conn ≡ conn = (eqb_iff q.conn conn).0 y in
      let no_other =
        any-serves-contains u conn qs (subst (λ k. contains k (conns_of qs) ≡ false) here d.0) in
      ground (arith, no_other, eq_iff q.user_id u)
  | inr n ↦ same_user u conn p qs d.1 (ground (arith, n)) (ground (arith, n))
]
