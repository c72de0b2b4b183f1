-- ===== src/System/Calls.antt =====
-- The clients of backend/services/ws-gateway/main.go, which call the user service and the community
-- service with the token of the caller, and the interceptor in front of the handlers there.
use constell.Prelude.{
  ℕ, suc, String, ◌≡◌, refl, inl, inr, false, Option, none, some, [], if◌then◌else◌, Bool-cases,
  ◌==◌, nat_eq, string_eq, eq_of_equal,
}
use constell.Prelude.Exec.{Result, ok, err, Exec}
use constell.Prelude.Text.{join, split_at, equal_fold}
use constell.Rpc.{Code}
use constell.Auth.Tokens.{JwtLibrary, parse_token}
use constell.Auth.Interceptor.{authenticate, or_unauthenticated}
use constell.Community.Service.State.{Service}
use constell.Community.Service.Replies.{ChannelMessage}
use constell.Community.Service.Messages.{send_message_handler}
use constell.User.Service.State.{UserService}
use constell.User.Service.Conversations.{DmMessage, send_dm_handler}
use constell.Gateway.Routing.{Clients}

-- How a call of Connect goes over the network: it is answered; it does not reach the service; or
-- the service handles it and the reply does not come, in the five seconds that the gateway waits.
-- Where the deadline also stops the handler, a statement of the handler fails.
pub data Transit : Type 0 where
  answered : Transit
  request_lost : Transit
  reply_lost : Transit

-- The two services behind the gateway, and the network before them, by the number of the call.
pub record Backend : Type 0 where
  pub users : UserService
  pub communities : Service
  pub transits : ℕ → Transit
  pub calls : ℕ

-- The header of a call; no token, no header.
unfoldable pub bearer_header : String → String
unfolding join
bearer_header token = if token == "" then "" else join "Bearer " token

-- A handler behind the interceptor.
abbrev pub call : {S A : Type 0} → Result Code String → (String → Exec S Code A) → Exec S Code A
call (ok user_id) handler s = handler user_id s
call (err e) handler s = (err e, s)

-- What the gateway keeps of a reply: the id and the seq of the new message. The handlers set the
-- message of every reply, so that the clients' check for nil never fires.
abbrev pub sent : {S A : Type 0} → (A → String × ℕ) → Result Code A × S → Option (String × ℕ) × S
sent key (ok m, s) = (some (key m), s)
sent key (err e, s) = (none, s)

-- A call over the network; an error of the network is an error for the client.
abbrev pub carry :
    {S A : Type 0}
    → (A → String × ℕ)
    → Transit
    → (S → Result Code A × S)
    → S
    → Option (String × ℕ) × S
carry key answered handle s = sent key (handle s)
carry key request_lost handle s = (none, s)
carry key reply_lost handle s = (none, (handle s).1)

abbrev pub dm_key : DmMessage → String × ℕ
dm_key m = (m.id, m.seq)

abbrev pub message_key : ChannelMessage → String × ℕ
message_key m = (m.id, m.seq)

join-ne-empty : (token : String) → (join "Bearer " token == "") ≡ false
unfolding join
join-ne-empty token = elim (Bool-cases (join "Bearer " token == "")) [
  | inl h ↦ let e = eq_of_equal (join "Bearer " token) "" h in cc
  | inr h ↦ h
]

module _ (lib : JwtLibrary) (secret : String) (now : ℕ) where
  abbrev pub caller_of : String → String → Result Code String
  unfolding authenticate bearer_header
  caller_of procedure token = authenticate lib secret [] procedure (bearer_header token) now

  -- connectUserSvcClient.SendDM; the sender id is not sent.
  unfoldable pub send_dm_rpc_of :
      Transit → String → String → String → String → UserService → Option (String × ℕ) × UserService
  unfolding caller_of send_dm_handler
  send_dm_rpc_of transit token sender_id receiver_id content = carry dm_key transit (
      call (caller_of "/user.v1.UserService/SendDM" token)
        (λ caller_id. send_dm_handler caller_id receiver_id content []))

  -- connectCommunitySvcClient.SendMessage
  unfoldable pub send_message_rpc_of :
      Transit → String → String → String → String → Service → Option (String × ℕ) × Service
  unfolding caller_of send_message_handler
  send_message_rpc_of transit token sender_id channel_id content = carry message_key transit (
      call (caller_of "/community.v1.CommunityService/SendMessage" token)
        (λ caller_id. send_message_handler caller_id channel_id content []))

  -- The clients of a router for a token, at a time.
  unfoldable pub service_clients : String → Clients Backend
  unfolding send_dm_rpc_of send_message_rpc_of
  service_clients token = record {
    send_dm_rpc = λ sender_id receiver_id content b.
        let (r, users) =
          send_dm_rpc_of (b.transits b.calls) token sender_id receiver_id content b.users in
        (r, record b { users = users; calls = suc b.calls });
    send_message_rpc = λ sender_id channel_id content b.
        let (r, communities) =
          send_message_rpc_of (b.transits b.calls) token sender_id channel_id content
            b.communities in
        (r, record b { communities = communities; calls = suc b.calls });
  }

  -- Behind the interceptor the caller is the user whom the token names at that time, if any.
  pub caller_of_lem :
      (procedure token : String)
      → caller_of procedure token ≡ or_unauthenticated (parse_token lib secret token now)
  unfolding caller_of authenticate bearer_header parse_token join split_at equal_fold
  caller_of_lem procedure token = elim (Bool-cases (token == "")) [
    | inl empty ↦ rw empty refl
    | inr given ↦ rw (given, join-ne-empty token, parse_token, given) refl
  ]
