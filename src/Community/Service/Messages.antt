-- ===== src/Community/Service/Messages.antt =====
-- The handlers on messages of backend/services/community-service/service.go.
use constell.Prelude.{
  String, not, ◌||◌, Option, List, [], ◌∷◌, map, if◌then◌else◌, ◌==◌, nat_eq, string_eq, ℤ,
  is_positive, to_ℕ,
}
use constell.Prelude.Exec.{Result, ok, err, Exec, pure, ◌>>=◌, ◌>>◌, or_fail, attempt, reject_if}
use constell.Prelude.Text.{trim_space}
use constell.Community.Rows.{unix, ChannelMessageRow, MemberRow, AttachmentRow}
use constell.Community.Permissions.{permission_send_messages, permission_read_messages}
use constell.Sql.{DbError}
use constell.Community.Repository.Channels.{get_channel}
use constell.Community.Repository.Messages.{
  insert_channel_message, get_channel_message_author, delete_channel_message,
  update_channel_message, get_channel_messages, get_channel_messages_since,
  get_attachments_by_message, insert_attachments,
}
use constell.Rpc.{
  Code, unauthenticated, invalid_argument, not_found, internal, permission_denied,
  PaginationRequest, PaginationResponse, page_limit, page_cursor, pagination_response,
}
use constell.Community.Service.State.{
  Service, message_created, on_store, cached_members, cached_members_set, publish, check_permission,
}
use constell.Community.Service.Replies.{Attachment, ChannelMessage, to_pb_attachment, to_pb_message}

pub new_attachment : String → String → AttachmentRow
new_attachment message_id file_id = record {
  id = "";
  message_type = "channel";
  message_id = message_id;
  file_id = file_id;
  filename = "";
  content_type = "";
  size = 0;
}

-- What a read of attachments adds to a message; a read that fails adds none.
unfoldable pub found_attachments : Result DbError (List AttachmentRow) → List Attachment
found_attachments (ok rows) = map to_pb_attachment rows
found_attachments (err e) = []

-- channelMessageWithAttachments
unfoldable pub channel_message_with_attachments :
    ChannelMessageRow → Exec Service Code ChannelMessage
unfolding found_attachments
channel_message_with_attachments m = do
  attachments ← attempt (on_store (get_attachments_by_message "channel" m.id))
  pure (to_pb_message m (found_attachments attachments))

unfoldable pub all_with_attachments :
    List ChannelMessageRow → Exec Service Code (List ChannelMessage)
unfolding channel_message_with_attachments
all_with_attachments [] = pure []
all_with_attachments (m ∷ ms) = do
  first ← channel_message_with_attachments m
  rest ← all_with_attachments ms
  pure (first ∷ rest)

-- SendMessage
unfoldable pub send_message_handler :
    String → String → String → List String → Exec Service Code ChannelMessage
unfolding channel_message_with_attachments new_attachment
send_message_handler caller_id channel_id content file_ids = do
  reject_if (caller_id == "") unauthenticated
  reject_if (trim_space channel_id == "" || trim_space content == "") invalid_argument
  channel ← or_fail not_found (on_store (get_channel (trim_space channel_id)))
  members ← or_fail internal (cached_members channel.community_id)
  reject_if (not (cached_members_set members caller_id)) permission_denied
  check_permission channel.community_id caller_id permission_send_messages
  message ←
      or_fail internal
        (on_store (insert_channel_message (trim_space channel_id) caller_id (trim_space content)))
  _ ← attempt (on_store (insert_attachments (map (new_attachment message.id) file_ids)))
  publish (
      message_created message.id (trim_space channel_id) channel.community_id caller_id
        (trim_space content) (unix message.created_at) message.seq
        (map (λ (m : MemberRow). m.user_id) members))
  channel_message_with_attachments message

-- DeleteMessage: for the author only.
unfoldable pub delete_message_handler : String → String → Exec Service Code (Unit {0})
delete_message_handler caller_id message_id = do
  reject_if (caller_id == "") unauthenticated
  reject_if (trim_space message_id == "") invalid_argument
  author ← or_fail not_found (on_store (get_channel_message_author (trim_space message_id)))
  reject_if (not (author == caller_id)) permission_denied
  or_fail internal (on_store (delete_channel_message (trim_space message_id)))

-- EditMessage: for the author only.
unfoldable pub edit_message_handler : String → String → String → Exec Service Code ChannelMessage
edit_message_handler caller_id message_id content = do
  reject_if (caller_id == "") unauthenticated
  reject_if (trim_space message_id == "" || trim_space content == "") invalid_argument
  author ← or_fail not_found (on_store (get_channel_message_author (trim_space message_id)))
  reject_if (not (author == caller_id)) permission_denied
  updated ←
      or_fail internal
        (on_store (update_channel_message (trim_space message_id) (trim_space content)))
  pure (to_pb_message updated [])

-- The two ways of GetMessages: newer than a seq, or a page of the history.
unfoldable pub read_messages :
    String → ℤ → Option PaginationRequest → Exec Service Code (List ChannelMessageRow × String)
read_messages channel_id since_seq pagination =
    if is_positive since_seq
    then (do
      messages ← or_fail internal (
          on_store (get_channel_messages_since channel_id (to_ℕ since_seq) (page_limit pagination)))
      pure (messages, ""))
    else or_fail internal (
        on_store (get_channel_messages channel_id (page_limit pagination) (page_cursor pagination)))

-- GetMessages
unfoldable pub get_messages_handler :
    String
    → String
    → ℤ
    → Option PaginationRequest
    → Exec Service Code (List ChannelMessage × PaginationResponse)
unfolding read_messages all_with_attachments
get_messages_handler caller_id channel_id since_seq pagination = do
  reject_if (caller_id == "") unauthenticated
  reject_if (trim_space channel_id == "") invalid_argument
  channel ← or_fail not_found (on_store (get_channel (trim_space channel_id)))
  members ← or_fail internal (cached_members channel.community_id)
  reject_if (not (cached_members_set members caller_id)) permission_denied
  check_permission channel.community_id caller_id permission_read_messages
  page ← read_messages (trim_space channel_id) since_seq pagination
  messages ← all_with_attachments page.0
  pure (messages, pagination_response page.1)
