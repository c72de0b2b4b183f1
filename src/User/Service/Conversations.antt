-- ===== src/User/Service/Conversations.antt =====
-- The handlers on direct messages of backend/services/user-service/service.go.
use constell.Prelude.{
  ℕ, String, Bool, false, Option, none, some, List, map, if◌then◌else◌, ◌==◌, nat_eq, string_eq,
  is_positive, to_ℕ, ℤ,
}
use constell.Prelude.Exec.{Exec, pure, ◌>>=◌, ◌>>◌, or_fail, attempt, reject_if}
use constell.Prelude.Text.{trim_space}
use constell.Rpc.{
  Code, unauthenticated, invalid_argument, internal, permission_denied, PaginationRequest,
  PaginationResponse, page_limit, page_cursor, pagination_response,
}
use constell.Community.Rows.{unix}
use constell.User.Rows.{RelationRow, DmConversationRow, DmMessageRow, AttachmentRow}
use constell.User.Repository.Conversations.{
  TimeCursor, no_cursor, get_or_create_conversation, get_dm_conversations,
}
use constell.User.Repository.Messages.{
  insert_dm_message, get_dm_history, get_dm_messages_since, insert_dm_attachments,
}
use constell.User.Service.State.{
  DmCreated, UserService, on_store, cached_relation, publish_dm_created,
}

pub record DmMessage : Type 0 where
  pub id : String
  pub conversation_id : String
  pub sender_id : String
  pub content : String
  pub created_at : ℕ
  pub seq : ℕ

pub record DmConversation : Type 0 where
  pub id : String
  pub peer_id : String
  pub created_at : ℕ

unfoldable pub to_dm_message : DmMessageRow → DmMessage
to_dm_message m = record {
  id = m.id;
  conversation_id = m.conversation_id;
  sender_id = m.sender_id;
  content = m.content;
  created_at = unix m.created_at;
  seq = m.seq;
}

-- rel != nil && rel.Type == "blocked"
unfoldable pub is_blocked : Option RelationRow → Bool
is_blocked none = false
is_blocked (some r) = r.type == "blocked"

abbrev pub dm_attachment : String → String → AttachmentRow
dm_attachment message_id file_id = record {
  id = "";
  message_type = "dm";
  message_id = message_id;
  file_id = file_id;
  filename = "";
  content_type = "";
  size = 0;
}

abbrev pub dm_created : DmMessageRow → String → String → String → String → DmCreated
dm_created m sender_id receiver_id conversation_id content = record {
  message_id = m.id;
  sender_id = sender_id;
  receiver_id = receiver_id;
  conversation_id = conversation_id;
  content = content;
  created_at = unix m.created_at;
  seq = m.seq;
}

-- SendDM
unfoldable pub send_dm_handler :
    String → String → String → List String → Exec UserService Code DmMessage
unfolding is_blocked to_dm_message
send_dm_handler caller_id target_user_id content file_ids = do
  reject_if (caller_id == "") unauthenticated
  reject_if (trim_space target_user_id == "") invalid_argument
  reject_if (trim_space content == "") invalid_argument
  theirs ← or_fail internal (cached_relation (trim_space target_user_id) caller_id)
  reject_if (is_blocked theirs) permission_denied
  ours ← or_fail internal (cached_relation caller_id (trim_space target_user_id))
  reject_if (is_blocked ours) permission_denied
  conversation ←
      or_fail internal (on_store (get_or_create_conversation caller_id (trim_space target_user_id)))
  message ←
      or_fail internal (on_store (insert_dm_message conversation.id caller_id (trim_space content)))
  _ ← attempt (on_store (insert_dm_attachments (map (dm_attachment message.id) file_ids)))
  publish_dm_created (
      dm_created message caller_id (trim_space target_user_id) conversation.id (trim_space content))
  pure (to_dm_message message)

-- The two ways of GetDMHistory: newer than a seq, or a page of the history.
unfoldable pub read_dms :
    String → ℤ → Option PaginationRequest → Exec UserService Code (List DmMessageRow × String)
read_dms conversation_id since_seq pagination =
    if is_positive since_seq
    then (do
      messages ← or_fail internal (
          on_store (get_dm_messages_since conversation_id (to_ℕ since_seq) (page_limit pagination)))
      pure (messages, ""))
    else or_fail internal
        (on_store (get_dm_history conversation_id (page_limit pagination) (page_cursor pagination)))

-- GetDMHistory, which creates a conversation that is not there
unfoldable pub get_dm_history_handler :
    String
    → String
    → ℤ
    → Option PaginationRequest
    → Exec UserService Code (List DmMessage × PaginationResponse)
unfolding read_dms to_dm_message
get_dm_history_handler caller_id target_user_id since_seq pagination = do
  reject_if (caller_id == "") unauthenticated
  reject_if (trim_space target_user_id == "") invalid_argument
  conversation ←
      or_fail internal (on_store (get_or_create_conversation caller_id (trim_space target_user_id)))
  page ← read_dms conversation.id since_seq pagination
  pure (map to_dm_message page.0, pagination_response page.1)

-- The pagination of GetDMConversations, whose cursors are times
pub record TimePage : Type 0 where
  pub limit : ℤ
  pub cursor : TimeCursor

unfoldable pub time_limit : Option TimePage → ℕ
time_limit none = 50
time_limit (some p) = if is_positive p.limit then to_ℕ p.limit else 50

abbrev pub time_cursor : Option TimePage → TimeCursor
time_cursor none = no_cursor
time_cursor (some p) = p.cursor

unfoldable pub peer_of : String → DmConversationRow → String
peer_of caller_id c = if c.user_a_id == caller_id then c.user_b_id else c.user_a_id

unfoldable pub to_dm_conversation : String → DmConversationRow → DmConversation
unfolding peer_of
to_dm_conversation caller_id c = record {
  id = c.id;
  peer_id = peer_of caller_id c;
  created_at = unix c.created_at;
}

-- GetDMConversations; more follow where the next cursor is not empty.
unfoldable pub get_dm_conversations_handler :
    String → Option TimePage → Exec UserService Code (List DmConversation × TimeCursor)
unfolding time_limit to_dm_conversation
get_dm_conversations_handler caller_id pagination = do
  reject_if (caller_id == "") unauthenticated
  page ←
      or_fail internal
        (on_store (get_dm_conversations caller_id (time_limit pagination) (time_cursor pagination)))
  pure (map (to_dm_conversation caller_id) page.0, page.1)
