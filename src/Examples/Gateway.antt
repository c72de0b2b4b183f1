-- ===== src/Examples/Gateway.antt =====
-- Frames of a codec that leaves bytes as they are, and a gateway with two users.
use constell.Prelude.{
  ℕ, suc, ◌≡◌, refl, sym, Bool, not, none, some, List, [], ◌∷◌, ◌++◌, arith, if◌then◌else◌, ◌==◌,
  nat_eq, string_eq,
}
use constell.Prelude.Exec.{ok}
use constell.Gateway.Frames.{
  Codec, encode_frame, decode_frame, put_uint32, decode_frame-encode_frame,
}
use constell.Gateway.Connections.{
  new_conn_manager, get, register, registers, unregisters, subscribes, perform_all, user_steps,
}
use constell.Gateway.Connections.Lookup.{get-perform_all}
use constell.Gateway.Routing.{
  Clients, ClientMessage, subscribe_channel, RouterState, route, Answers, route-Answers,
}
use constell.Gateway.Push.{
  PushPayload, json_string, ServerEvent, build_server_event, deliver_to_local, Delivers,
  deliver_to_local-Delivers,
}

abbrev bytes : Codec (List ℕ)
bytes = record {
  marshal = λ m. some m;
  unmarshal = λ p. some p;
  unmarshal-marshal = λ m p h. sym h;
}

decode_frame-encode_frame_example :
    (frame : List ℕ) × (encode_frame bytes (8 ∷ 1 ∷ []) ≡ ok frame)
    × (decode_frame bytes (frame ++ 99 ∷ []) ≡ ok (8 ∷ 1 ∷ []))
decode_frame-encode_frame_example =
    decode_frame-encode_frame bytes (8 ∷ 1 ∷ []) (8 ∷ 1 ∷ []) (99 ∷ []) refl (omega arith)

short_frame : encode_frame bytes (8 ∷ 1 ∷ []) ≡ ok (0 ∷ 0 ∷ 0 ∷ 2 ∷ 8 ∷ 1 ∷ [])
unfolding encode_frame put_uint32
short_frame = refl

get-perform_all_example :
    get "u" (
      perform_all
        (registers "u" 1 10 ∷ subscribes "u" "x" ∷ registers "v" 2 11 ∷ unregisters "v" ∷ [])
        new_conn_manager)
    ≡ user_steps "u"
        (registers "u" 1 10 ∷ subscribes "u" "x" ∷ registers "v" 2 11 ∷ unregisters "v" ∷ [])
        none
get-perform_all_example =
    get-perform_all "u"
      (registers "u" 1 10 ∷ subscribes "u" "x" ∷ registers "v" 2 11 ∷ unregisters "v" ∷ [])

-- Services that take every message, and count them.
abbrev counting : Clients ℕ
counting = record {
  send_dm_rpc = λ sender receiver content n. (some ("m", n), suc n);
  send_message_rpc = λ sender channel content n. (some ("m", n), suc n);
}

abbrev subscribe : ClientMessage
subscribe = record {
  type = subscribe_channel;
  request_id = "r1";
  send_dm_request = none;
  send_channel_message_request = none;
  subscribe_channel_request = some (record { channel_id = "x" });
  unsubscribe_channel_request = none;
}

abbrev router : RouterState ℕ
router = record { services = 0; conn_mgr = register "u" 1 10 new_conn_manager }

route-Answers_example : Answers counting "u" subscribe router (route counting "u" subscribe router)
route-Answers_example = route-Answers counting "u" subscribe router

-- A network in which socket 2 is broken, with the writes so far.
abbrev write_log : ℕ → ServerEvent → List ℕ → Bool × List ℕ
write_log conn event log = (not (conn == 2), log ++ conn ∷ [])

abbrev online : PushPayload
online = record {
  targets = "u" ∷ "w" ∷ "v" ∷ [];
  event_type = "USER_ONLINE";
  payload = λ key. if key == "user_id" then some (json_string "z") else none;
}

deliver_to_local-Delivers_example :
    Delivers write_log online
      (register "v" 2 11 (register "u" 1 10 new_conn_manager))
      []
      (build_server_event online)
      (deliver_to_local write_log online
        (register "v" 2 11 (register "u" 1 10 new_conn_manager))
        [])
deliver_to_local-Delivers_example =
    deliver_to_local-Delivers write_log online
      (register "v" 2 11 (register "u" 1 10 new_conn_manager)) []

delivered_count :
    (deliver_to_local write_log online
      (register "v" 2 11 (register "u" 1 10 new_conn_manager))
      []).0
    ≡ 1
unfolding deliver_to_local build_server_event register get new_conn_manager
delivered_count = refl
