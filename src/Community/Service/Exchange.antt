-- ===== src/Community/Service/Exchange.antt =====
-- The handlers on members and messages keep a running service.
use constell.Prelude.{
  String, inl, inr, Option, none, some, List, [], ◌∷◌, Bool-cases, nat_eq, string_eq, ℤ,
}
use constell.Prelude.Exec.{Result, ok, err, Exec, ◌>>=◌, attempt}
use constell.Prelude.Exec.Keeps.{Keeps, Keeps-pure, Keeps-bind, Keeps-attempt}
use constell.Community.Rows.{ChannelRow, MemberRow, RoleRow, ChannelMessageRow}
use constell.Sql.{DbError}
use constell.Community.Repository.Soundness.{assign_role-Keeps}
use constell.Community.Repository.Queries.{list_channels_by_community-Keeps}
use constell.Community.Service.State.{Service, Event, member_joined, member_left, on_store, publish}
use constell.Community.Service.Wiring.{IsRunning, on_store-Keeps, publish-Keeps}
use constell.Rpc.{PaginationRequest}
use constell.Community.Repository.Channels.{list_channels_by_community}
use constell.Community.Service.Members.{
  panicked, with_channels, has_nats, publish_member_joined, publish_member_left, assign_default,
  finish_join, join_community_handler, leave_community_handler, may_kick, kick_member_handler,
  list_members_handler,
}
use constell.Community.Service.Messages.{
  channel_message_with_attachments, all_with_attachments, send_message_handler,
  delete_message_handler, edit_message_handler, read_messages, get_messages_handler,
}
use constell.Community.Service.Handling.{service_rules, repository_rules}

with_channels-Keeps :
    {E : Type 0} (then_publish : List String → Exec Service E (Unit {0}))
    → ((ids : List String) → Keeps IsRunning (then_publish ids))
    → (r : Result DbError (List ChannelRow)) → Keeps IsRunning (with_channels then_publish r)
unfolding with_channels
with_channels-Keeps then_publish k (err e) = record { at = λ s h. h }
with_channels-Keeps then_publish k (ok channels) = record { at = λ s h. (k _).at s h }

-- An announcement is made where NATS is there, after the channels were read.
announce-Keeps :
    {E : Type 0} (community_id : String) (event : List String → Event)
    → Keeps {E = E} IsRunning (do
      channels ← attempt (on_store (list_channels_by_community community_id))
      with_channels (λ ids. publish (event ids)) channels)
announce-Keeps community_id event =
    Keeps-bind _ _
      (Keeps-attempt _ (on_store-Keeps _ (list_channels_by_community-Keeps community_id)))
      (with_channels-Keeps _ (λ ids. publish-Keeps (event ids)))

publish_member_joined-Keeps :
    {E : Type 0} (community_id user_id nickname : String)
    → Keeps {E = E} IsRunning (publish_member_joined community_id user_id nickname)
unfolding publish_member_joined
publish_member_joined-Keeps {E = E} community_id user_id nickname = record {
  at = λ s h. elim (Bool-cases (has_nats s.nats)) [
    | inl y ↦
        rw y (
          (announce-Keeps {E = E} community_id (member_joined community_id user_id nickname)).at s
            h)
    | inr n ↦ rw n h
  ];
}

publish_member_left-Keeps :
    {E : Type 0} (community_id user_id : String)
    → Keeps {E = E} IsRunning (publish_member_left community_id user_id)
unfolding publish_member_left
publish_member_left-Keeps {E = E} community_id user_id = record {
  at = λ s h. elim (Bool-cases (has_nats s.nats)) [
    | inl y ↦ rw y ((announce-Keeps {E = E} community_id (member_left community_id user_id)).at s h)
    | inr n ↦ rw n h
  ];
}

assign_default-Keeps :
    {E : Type 0} (community_id user_id : String) (r : Result DbError RoleRow)
    → Keeps {E = E} IsRunning (assign_default community_id user_id r)
unfolding assign_default
assign_default-Keeps community_id user_id (err e) = Keeps-pure tt
assign_default-Keeps community_id user_id (ok role) =
    search (service_rules, assign_role-Keeps) depth 8

finish_join-Keeps :
    (community_id caller_id : String) (member : Option MemberRow)
    → Keeps IsRunning (finish_join community_id caller_id member)
unfolding finish_join
finish_join-Keeps community_id caller_id none = Keeps-pure panicked
finish_join-Keeps community_id caller_id (some member) =
    search (service_rules, publish_member_joined-Keeps) depth 8

pub join_community_handler-Keeps :
    (caller_id community_id : String)
    → Keeps IsRunning (join_community_handler caller_id community_id)
unfolding join_community_handler
join_community_handler-Keeps caller_id community_id =
    search (service_rules, repository_rules, assign_default-Keeps, finish_join-Keeps) depth 24 fits
      4000

pub leave_community_handler-Keeps :
    (caller_id community_id : String)
    → Keeps IsRunning (leave_community_handler caller_id community_id)
unfolding leave_community_handler
leave_community_handler-Keeps caller_id community_id =
    search (service_rules, repository_rules, publish_member_left-Keeps) depth 24

may_kick-Keeps :
    (caller_id community_id target_id owner_id : String)
    → Keeps IsRunning (may_kick caller_id community_id target_id owner_id)
unfolding may_kick
may_kick-Keeps caller_id community_id target_id owner_id = search service_rules depth 12

pub kick_member_handler-Keeps :
    (caller_id community_id user_id : String)
    → Keeps IsRunning (kick_member_handler caller_id community_id user_id)
unfolding kick_member_handler
kick_member_handler-Keeps caller_id community_id user_id =
    search (service_rules, repository_rules, may_kick-Keeps, publish_member_left-Keeps) depth 24

pub list_members_handler-Keeps :
    (community_id : String) (pagination : Option PaginationRequest)
    → Keeps IsRunning (list_members_handler community_id pagination)
unfolding list_members_handler
list_members_handler-Keeps community_id pagination =
    search (service_rules, repository_rules) depth 24

channel_message_with_attachments-Keeps :
    (m : ChannelMessageRow) → Keeps IsRunning (channel_message_with_attachments m)
unfolding channel_message_with_attachments
channel_message_with_attachments-Keeps m = search (service_rules, repository_rules) depth 12

all_with_attachments-Keeps :
    (ms : List ChannelMessageRow) → Keeps IsRunning (all_with_attachments ms)
unfolding all_with_attachments
all_with_attachments-Keeps [] = Keeps-pure []
all_with_attachments-Keeps (m ∷ ms) =
    Keeps-bind _ _ (channel_message_with_attachments-Keeps m)
      λ first. Keeps-bind _ _ (all_with_attachments-Keeps ms) λ rest. Keeps-pure (first ∷ rest)

pub send_message_handler-Keeps :
    (caller_id channel_id content : String) (file_ids : List String)
    → Keeps IsRunning (send_message_handler caller_id channel_id content file_ids)
unfolding send_message_handler
send_message_handler-Keeps caller_id channel_id content file_ids =
    search (service_rules, repository_rules, channel_message_with_attachments-Keeps) depth 30 fits
      4000

pub delete_message_handler-Keeps :
    (caller_id message_id : String) → Keeps IsRunning (delete_message_handler caller_id message_id)
unfolding delete_message_handler
delete_message_handler-Keeps caller_id message_id =
    search (service_rules, repository_rules) depth 24

pub edit_message_handler-Keeps :
    (caller_id message_id content : String)
    → Keeps IsRunning (edit_message_handler caller_id message_id content)
unfolding edit_message_handler
edit_message_handler-Keeps caller_id message_id content =
    search (service_rules, repository_rules) depth 24

read_messages-Keeps :
    (channel_id : String) (since_seq : ℤ) (pagination : Option PaginationRequest)
    → Keeps IsRunning (read_messages channel_id since_seq pagination)
unfolding read_messages
read_messages-Keeps channel_id since_seq pagination =
    search (service_rules, repository_rules) depth 12

pub get_messages_handler-Keeps :
    (caller_id channel_id : String) (since_seq : ℤ) (pagination : Option PaginationRequest)
    → Keeps IsRunning (get_messages_handler caller_id channel_id since_seq pagination)
unfolding get_messages_handler
get_messages_handler-Keeps caller_id channel_id since_seq pagination =
    search (service_rules, repository_rules, read_messages-Keeps, all_with_attachments-Keeps) depth
      24
