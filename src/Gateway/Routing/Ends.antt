-- ===== src/Gateway/Routing/Ends.antt =====
-- How the routing of a message ends, by the call of backend/services/ws-gateway/router.go that it
-- makes.
use constell.Prelude.{
  ℕ, String, ◌≡◌, refl, inl, inr, ◌||◌, Option, none, some, Bool-cases, ◌==◌, nat_eq, string_eq,
}
use constell.Prelude.Exec.{Result, ok, err}
use constell.Gateway.Routing.{
  ClientMessage, send_dm, send_channel_message, SendDmRequest, SendChannelMessageRequest, Ack,
  RouteError, field_required, service_failed, Clients, RouterState, acknowledge, handle_send_dm,
  handle_send_channel_message, route_type, route,
}

module _ {W : Type 0} (clients : Clients W) where
  -- How the routing of a direct message ends: a field is missing, or the user service answers.
  pub after_dm_call :
      (P : Result RouteError Ack × RouterState W → Type 0) (user_id : String) (msg : ClientMessage)
      (req : SendDmRequest) (s : RouterState W)
      → msg.type ≡ send_dm
      → msg.send_dm_request ≡ some req
      → P (err field_required, s)
      → ((w : W)
          → clients.send_dm_rpc user_id req.receiver_id req.content s.services ≡ (none, w)
          → P (err service_failed, record { services = w; conn_mgr = s.conn_mgr }))
      → ((id : String) (seq : ℕ) (w : W)
          → clients.send_dm_rpc user_id req.receiver_id req.content s.services ≡ (some (id, seq), w)
          → P (
            ok (record { request_id = msg.request_id; ack_message_id = id; ack_seq = seq }),
            record { services = w; conn_mgr = s.conn_mgr },
          ))
      → P (route clients user_id msg s)
  unfolding route route_type handle_send_dm acknowledge
  after_dm_call P user_id msg req s typed given missing failed sent =
      rw (typed, given)
        (elim (Bool-cases (req.receiver_id == "" || req.content == "")) [
          | inl y ↦ rw y missing
          | inr n ↦ rw n (called _ refl)
        ])
    where
      called :
          (r : Option (String × ℕ) × W)
          → clients.send_dm_rpc user_id req.receiver_id req.content s.services ≡ r
          → P (acknowledge clients msg.request_id s.conn_mgr r)
      called (none, w) h = failed w h
      called (some (id, seq), w) h = sent id seq w h

  -- How the routing of a message in a channel ends: a field is missing, or the community service answers.
  pub after_message_call :
      (P : Result RouteError Ack × RouterState W → Type 0) (user_id : String) (msg : ClientMessage)
      (req : SendChannelMessageRequest) (s : RouterState W)
      → msg.type ≡ send_channel_message
      → msg.send_channel_message_request ≡ some req
      → P (err field_required, s)
      → ((w : W)
          → clients.send_message_rpc user_id req.channel_id req.content s.services ≡ (none, w)
          → P (err service_failed, record { services = w; conn_mgr = s.conn_mgr }))
      → ((id : String) (seq : ℕ) (w : W)
          → clients.send_message_rpc user_id req.channel_id req.content s.services
            ≡ (some (id, seq), w)
          → P (
            ok (record { request_id = msg.request_id; ack_message_id = id; ack_seq = seq }),
            record { services = w; conn_mgr = s.conn_mgr },
          ))
      → P (route clients user_id msg s)
  unfolding route route_type handle_send_channel_message acknowledge
  after_message_call P user_id msg req s typed given missing failed sent =
      rw (typed, given)
        (elim (Bool-cases (req.channel_id == "" || req.content == "")) [
          | inl y ↦ rw y missing
          | inr n ↦ rw n (called _ refl)
        ])
    where
      called :
          (r : Option (String × ℕ) × W)
          → clients.send_message_rpc user_id req.channel_id req.content s.services ≡ r
          → P (acknowledge clients msg.request_id s.conn_mgr r)
      called (none, w) h = failed w h
      called (some (id, seq), w) h = sent id seq w h
