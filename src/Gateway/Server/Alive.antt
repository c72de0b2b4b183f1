-- ===== src/Gateway/Server/Alive.antt =====
-- A client that sends its heartbeats in time stays connected.
use constell.Prelude.{
  ℕ, ◌+◌, ◌*◌, ◌<◌, String, ◌≡◌, refl, ap, ◌∙◌, inl, inr, true, Option, none, some, List, [], ◌∷◌,
  arith, if◌then◌else◌, lt→ltb, Bool-cases, nat_eq, string_eq,
}
use constell.Prelude.Exec.{Result, ok, err}
use constell.Gateway.Connections.{ConnManager}
use constell.Gateway.Routing.{
  Ack, Answers, ClientMessage, Clients, RouteError, RouterState, route, route-Answers,
}
use constell.Gateway.Server.{
  Pump, Server, Settings, after_heartbeat, answer_message, answer_routed, is_heartbeat_message,
  next_turn, read_pump, reset_deadline, turn, write_message,
}
use constell.Gateway.Server.Answering.{Answered, read_pump-Answered}

-- The time of the last heartbeat after a message.
abbrev pub next_beat : ClientMessage → ℕ → ℕ → ℕ
next_beat msg now beat = if is_heartbeat_message msg then now else beat

abbrev pub last_beat : List (ℕ × Option ClientMessage) → ℕ → ℕ
last_beat [] beat = beat
last_beat ((now, none) ∷ reads) beat = beat
last_beat ((now, some msg) ∷ reads) beat = last_beat reads (next_beat msg now beat)

-- Each read gives a message, less than two intervals after the last heartbeat.
abbrev pub IsRegular : ℕ → ℕ → List (ℕ × Option ClientMessage) → Type 0
IsRegular interval beat [] = Unit {0}
IsRegular interval beat ((now, none) ∷ reads) = ⊥
IsRegular interval beat ((now, some msg) ∷ reads) =
    (now < beat + interval * 2) × IsRegular interval (next_beat msg now beat) reads

module _ {W : Type 0} (cfg : Settings) where
  -- The loop goes on, with a deadline two intervals after a time, and no socket was closed.
  abbrev pub GoesOn : ℕ → Server W → Option Pump × Server W → Type 0
  GoesOn beat s (some q, t) =
      (q.deadline ≡ beat + cfg.interval * 2)
      × (t.router.conn_mgr.closed ≡ s.router.conn_mgr.closed)
      × (t.writable ≡ s.writable)
  GoesOn beat s (none, t) = ⊥

  -- A turn before a loop.
  after-GoesOn :
      (last : ℕ) (s t : Server W) (out : Option Pump × Server W)
      → t.router.conn_mgr.closed ≡ s.router.conn_mgr.closed
      → t.writable ≡ s.writable
      → GoesOn last t out
      → GoesOn last s out
  after-GoesOn last s t (some q, u) closed same h = (h.0, h.1 ∙ closed, h.2 ∙ same)
  after-GoesOn last s t (none, u) closed same h = h

  module _ (clients : String → Clients W) where
    routed-GoesOn :
        (beat : ℕ) (p : Pump) (msg : ClientMessage) (s : Server W)
        (out : Result RouteError Ack × RouterState W)
        → s.writable s.writes ≡ true
        → p.deadline ≡ beat + cfg.interval * 2
        → Answers (clients p.token) p.user_id msg s.router out
        → GoesOn beat s (answer_routed cfg p msg.request_id s out)
    unfolding answer_routed write_message
    routed-GoesOn beat p msg s (ok a, r) up due h = rw up (due, h.2, refl)
    routed-GoesOn beat p msg s (err e, r) up due h =
        rw up (due, ap (λ (m : ConnManager). m.closed) h, refl)

    answer_message-GoesOn :
        (now beat : ℕ) (p : Pump) (msg : ClientMessage) (s : Server W)
        → s.writable s.writes ≡ true
        → p.deadline ≡ beat + cfg.interval * 2
        → GoesOn (next_beat msg now beat) s (answer_message cfg clients now p msg s)
    unfolding answer_message write_message after_heartbeat reset_deadline
    answer_message-GoesOn now beat p msg s up due = elim (Bool-cases (is_heartbeat_message msg)) [
      | inl y ↦ rw (y, up) (refl, refl, refl)
      | inr n ↦ rw n (
          routed-GoesOn beat p msg s (route (clients p.token) p.user_id msg s.router) up due
            (route-Answers (clients p.token) p.user_id msg s.router))
    ]

    next-GoesOn :
        (beat last : ℕ) (u : String) (reads : List (ℕ × Option ClientMessage)) (s : Server W)
        (out : Option Pump × Server W)
        → GoesOn beat s out
        → ((q : Pump) (t : Server W)
            → q.deadline ≡ beat + cfg.interval * 2
            → t.writable ≡ s.writable
            → GoesOn last t (read_pump cfg clients reads q t))
        → GoesOn last s (next_turn cfg (read_pump cfg clients reads) u out)
    unfolding next_turn
    next-GoesOn beat last u reads s (some q, t) h rest =
        after-GoesOn last s t (read_pump cfg clients reads q t) h.1 h.2 (rest q t h.0 h.2)
    next-GoesOn beat last u reads s (none, t) h rest = elim h [ ]

    loop-GoesOn :
        (reads : List (ℕ × Option ClientMessage)) (beat : ℕ) (p : Pump) (s : Server W)
        → ((n : ℕ) → s.writable n ≡ true)
        → p.deadline ≡ beat + cfg.interval * 2
        → IsRegular cfg.interval beat reads
        → GoesOn (last_beat reads beat) s (read_pump cfg clients reads p s)
    unfolding read_pump turn
    loop-GoesOn [] beat p s up due h = (due, refl, refl)
    loop-GoesOn ((now, none) ∷ reads) beat p s up due h = elim h [ ]
    loop-GoesOn ((now, some msg) ∷ reads) beat p s up due h =
        rw (lt→ltb now p.deadline (omega (arith, due, h.0))) (
          next-GoesOn (next_beat msg now beat) _ p.user_id reads s _
            (answer_message-GoesOn now beat p msg s (up s.writes) due)
            (λ q t due' same.
              loop-GoesOn reads (next_beat msg now beat) q t (λ n. rw same (up n)) due' h.1))

    -- A loop that was started, or read a heartbeat, at a time goes on as long as its client sends
    -- each message, heartbeats among them, less than two heartbeat intervals after the last
    -- heartbeat, and writes succeed: it closes no socket, its deadline is two intervals after the
    -- last heartbeat, and it has answered every message in order and published nothing.
    pub read_pump-GoesOn :
        (reads : List (ℕ × Option ClientMessage)) (beat : ℕ) (p : Pump) (s : Server W)
        → ((n : ℕ) → s.writable n ≡ true)
        → p.deadline ≡ beat + cfg.interval * 2
        → IsRegular cfg.interval beat reads
        → let out = read_pump cfg clients reads p s in
          GoesOn (last_beat reads beat) s out × Answered cfg clients reads p s out
    read_pump-GoesOn reads beat p s up due h =
        (loop-GoesOn reads beat p s up due h, read_pump-Answered cfg clients reads p s)
