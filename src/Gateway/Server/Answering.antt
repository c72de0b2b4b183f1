-- ===== src/Gateway/Server/Answering.antt =====
-- The answers of one readPump: in the order of the messages, one for each.
use constell.Prelude.{
  ℕ, suc, String, ◌≡◌, refl, sym, ap, subst, ◌∙◌, inl, inr, Bool, true, false, Option, none, some,
  List, [], ◌∷◌, ◌++◌, map, ltb, Bool-cases, nat_eq, string_eq, take,
}
use mathlib.Core.List.{append-nil, append_assoc}
use constell.Prelude.Exec.{Result, ok, err}
use constell.Gateway.Server.Leaving.{
  Quiet, quiet, farewell, cleanup-published, cleanup-get, cleanup-written,
}
use constell.Gateway.Connections.{get}
use constell.Gateway.Routing.{
  Ack, Answers, ClientMessage, Clients, RouteError, RouterState, route, route-Answers,
}
use constell.Gateway.Server.{
  Answer, Pump, Server, Settings, acknowledged, after_answer, after_heartbeat, answer_message,
  answer_routed, cleanup_disconnect, error_event, handle_heartbeat, heartbeat_ack,
  is_heartbeat_message, next_turn, read_by_deadline, read_pump, reset_deadline, turn, write_message,
}

abbrev pub request_of : Answer → String
request_of (acknowledged a) = a.request_id
request_of (heartbeat_ack request_id) = request_id
request_of (error_event e request_id) = request_id

-- The answers written so far by their sockets and their request ids.
abbrev pub answers : List (ℕ × Answer) → List (ℕ × String)
answers = map (λ (w : ℕ × Answer). (w.0, request_of w.1))

-- The messages before the first read error.
abbrev pub messages : List (ℕ × Option ClientMessage) → List ClientMessage
messages [] = []
messages ((now, none) ∷ reads) = []
messages ((now, some msg) ∷ reads) = msg ∷ messages reads

abbrev pub requests : ℕ → List (ℕ × Option ClientMessage) → List (ℕ × String)
requests conn reads = map (λ (m : ClientMessage). (conn, m.request_id)) (messages reads)

answers-snoc :
    (conn : ℕ) (a : Answer) (ws : List (ℕ × Answer))
    → answers (ws ++ (conn, a) ∷ []) ≡ answers ws ++ (conn, request_of a) ∷ []
answers-snoc conn a [] = refl
answers-snoc conn a (w ∷ ws) = ap (λ rest. (w.0, request_of w.1) ∷ rest) (answers-snoc conn a ws)

no_read : (now : ℕ) (p : Pump) → read_by_deadline now p none ≡ none
no_read now p = elim (Bool-cases (ltb now p.deadline)) [ inl y ↦ rw y refl | inr n ↦ rw n refl ]

module _ {W : Type 0} where
  abbrev pub Turned : ClientMessage → Pump → Server W → Option Pump × Server W → Type 0
  Turned msg p s (some q, t) =
      (answers t.written ≡ answers s.written ++ (p.conn, msg.request_id) ∷ [])
      × (q.conn ≡ p.conn)
      × (q.user_id ≡ p.user_id)
      × Quiet s t
  Turned msg p s (none, t) = (answers t.written ≡ answers s.written) × Quiet s t

  abbrev pub Wrote : ℕ → String → Server W → Bool × Server W → Type 0
  Wrote conn request_id s (true, t) =
      (answers t.written ≡ answers s.written ++ (conn, request_id) ∷ []) × Quiet s t
  Wrote conn request_id s (false, t) = (answers t.written ≡ answers s.written) × Quiet s t

  module _ (cfg : Settings) where
    write_message-Wrote :
        (conn : ℕ) (a : Answer) (s : Server W) (r : RouterState W)
        → Wrote conn (request_of a) s (write_message cfg conn a (record s { router = r }))
    unfolding write_message
    write_message-Wrote conn a s r = elim (Bool-cases (s.writable s.writes)) [
      | inl y ↦ rw y (
        answers-snoc conn a s.written,
        record { published = refl; publishes = refl; takes = refl; writable = refl },
      )
      | inr n ↦
          rw n (refl, record { published = refl; publishes = refl; takes = refl; writable = refl })
    ]

    after_answer-Turned :
        (msg : ClientMessage) (p : Pump) (s : Server W) (out : Bool × Server W)
        → Wrote p.conn msg.request_id s out
        → Turned msg p s (after_answer cfg p out)
    after_answer-Turned msg p s (true, t) h = (h.0, refl, refl, h.1)
    after_answer-Turned msg p s (false, t) h = h

    after_heartbeat-Turned :
        (now : ℕ) (msg : ClientMessage) (p : Pump) (s : Server W) (out : Bool × Server W)
        → Wrote p.conn msg.request_id s out
        → Turned msg p s (after_heartbeat cfg now p out)
    unfolding reset_deadline after_heartbeat
    after_heartbeat-Turned now msg p s (true, t) h = (
      h.0,
      refl,
      refl,
      record {
        published = h.1.published;
        publishes = h.1.publishes;
        takes = h.1.takes;
        writable = h.1.writable;
      },
    )
    after_heartbeat-Turned now msg p s (false, t) h = h

    routed-Turned :
        (msg : ClientMessage) (p : Pump) (s : Server W)
        (out : Result RouteError Ack × RouterState W)
        → (clients : Clients W) → Answers clients p.user_id msg s.router out
        → Turned msg p s (answer_routed cfg p msg.request_id s out)
    unfolding answer_routed write_message
    routed-Turned msg p s (ok a, r) clients h =
        after_answer-Turned msg p s
          (write_message cfg p.conn (acknowledged a) (record s { router = r }))
          (subst
            (λ id.
              Wrote p.conn id s
                (write_message cfg p.conn (acknowledged a) (record s { router = r })))
            h.0 (write_message-Wrote p.conn (acknowledged a) s r))
    routed-Turned msg p s (err e, r) clients h =
        after_answer-Turned msg p s
          (write_message cfg p.conn (error_event e msg.request_id) (record s { router = r }))
          (write_message-Wrote p.conn (error_event e msg.request_id) s r)

    module _ (clients : String → Clients W) where
      pub answer_message-Turned :
          (now : ℕ) (p : Pump) (msg : ClientMessage) (s : Server W)
          → Turned msg p s (answer_message cfg clients now p msg s)
      unfolding answer_message handle_heartbeat
      answer_message-Turned now p msg s = elim (Bool-cases (is_heartbeat_message msg)) [
        | inl y ↦ rw y (
            after_heartbeat-Turned now msg p s (write_message cfg p.conn (handle_heartbeat msg) s)
              (write_message-Wrote p.conn (handle_heartbeat msg) s s.router))
        | inr n ↦ rw n (
            routed-Turned msg p s (route (clients p.token) p.user_id msg s.router) (clients p.token)
              (route-Answers (clients p.token) p.user_id msg s.router))
      ]

      -- How a loop goes. While it runs it has answered every message; where it has returned it has
      -- answered the first of them, its user has no connection and is announced as offline. Nothing
      -- else is written or published.
      abbrev pub Answered :
          List (ℕ × Option ClientMessage) → Pump → Server W → Option Pump × Server W → Type 0
      Answered reads p s (some q, t) =
          (answers t.written ≡ answers s.written ++ requests p.conn reads)
          × (t.published ≡ s.published)
      Answered reads p s (none, t) =
          (n : ℕ) × (answers t.written ≡ answers s.written ++ take n (requests p.conn reads))
          × (get p.user_id t.router.conn_mgr ≡ none)
          × (t.published ≡ s.published ++ farewell cfg p.user_id s)

      stopped-Answered :
          (reads : List (ℕ × Option ClientMessage)) (p : Pump) (s t : Server W)
          → answers t.written ≡ answers s.written
          → Quiet s t
          → Answered reads p s (none, cleanup_disconnect cfg p.user_id t)
      stopped-Answered reads p s t same q = (
        0,
        ap answers (cleanup-written cfg p.user_id t) ∙ same ∙ sym (append-nil _),
        cleanup-get cfg p.user_id t,
        cleanup-published cfg p.user_id s t q,
      )

      first-Answered :
          (now : ℕ) (msg : ClientMessage) (reads : List (ℕ × Option ClientMessage)) (p q : Pump)
          (s t : Server W) (out : Option Pump × Server W)
          → Turned msg p s (some q, t)
          → Answered reads q t out
          → Answered ((now, some msg) ∷ reads) p s out
      first-Answered now msg reads p q s t (some r, u) (written, conn, user, quiet) h =
          (h.0 ∙ rw (written, conn) (append_assoc (answers s.written) _ _), h.1 ∙ quiet.published)
      first-Answered now msg reads p q s t (none, u) (written, conn, user, quiet)
            (n, h, gone, said) =
          (
            suc n,
            h ∙ rw (written, conn) (append_assoc (answers s.written) _ _),
            rw (sym user) gone,
            said ∙ rw (quiet.published, quiet.takes, quiet.publishes, user) refl,
          )

      next-Answered :
          (now : ℕ) (msg : ClientMessage) (reads : List (ℕ × Option ClientMessage)) (p : Pump)
          (s : Server W) (out : Option Pump × Server W)
          → ((q : Pump) (t : Server W) → Answered reads q t (read_pump cfg clients reads q t))
          → Turned msg p s out
          → Answered
              ((now, some msg) ∷ reads)
              p
              s
              (next_turn cfg (read_pump cfg clients reads) p.user_id out)
      unfolding next_turn
      next-Answered now msg reads p s (some q, t) rest h =
          first-Answered now msg reads p q s t (read_pump cfg clients reads q t) h (rest q t)
      next-Answered now msg reads p s (none, t) rest h =
          stopped-Answered ((now, some msg) ∷ reads) p s t h.0 h.1

      -- While the loop of a socket runs, it has written one answer for each message read, to that
      -- socket, in the order of the messages and under their request ids, and it has published
      -- nothing. Where it has returned, it has answered the first of the messages so, its user
      -- has no connection, and all that it has published is that he is offline, if NATS takes it.
      pub read_pump-Answered :
          (reads : List (ℕ × Option ClientMessage)) (p : Pump) (s : Server W)
          → Answered reads p s (read_pump cfg clients reads p s)
      unfolding read_pump turn next_turn
      read_pump-Answered [] p s = (sym (append-nil _), refl)
      read_pump-Answered ((now, none) ∷ reads) p s =
          rw (no_read now p) (stopped-Answered ((now, none) ∷ reads) p s s refl (quiet s))
      read_pump-Answered ((now, some msg) ∷ reads) p s = elim (Bool-cases (ltb now p.deadline)) [
        | inl y ↦ rw y (
            next-Answered now msg reads p s (answer_message cfg clients now p msg s)
              (read_pump-Answered reads) (answer_message-Turned now p msg s))
        | inr n ↦ rw n (stopped-Answered ((now, some msg) ∷ reads) p s s refl (quiet s))
      ]
