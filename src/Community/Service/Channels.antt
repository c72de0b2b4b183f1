-- ===== src/Community/Service/Channels.antt =====
-- The handlers on channels of backend/services/community-service/service.go.
use constell.Prelude.{String, ◌||◌, List, map, ◌==◌, nat_eq, string_eq, ℤ}
use constell.Prelude.Exec.{Exec, pure, ◌>>=◌, ◌>>◌, or_fail, reject_if}
use constell.Prelude.Text.{trim_space}
use constell.Community.Permissions.{permission_manage_channels}
use constell.Community.Repository.Channels.{
  create_channel, get_channel, update_channel, delete_channel, list_channels_by_community,
}
use constell.Rpc.{Code, unauthenticated, invalid_argument, not_found, internal}
use constell.Community.Service.State.{Service, on_store, check_permission}
use constell.Community.Service.Replies.{Channel, ChannelType, text, announcement, to_pb_channel}

abbrev pub channel_type : ChannelType → String
channel_type text = "text"
channel_type announcement = "announcement"

-- CreateChannel
unfoldable pub create_channel_handler :
    String → String → String → String → ChannelType → ℤ → Exec Service Code Channel
create_channel_handler caller_id community_id name topic type position = do
  reject_if (caller_id == "") unauthenticated
  reject_if (trim_space community_id == "" || trim_space name == "") invalid_argument
  check_permission (trim_space community_id) caller_id permission_manage_channels
  channel ← or_fail internal (
      on_store (
        create_channel (trim_space community_id) (trim_space name) (trim_space topic)
          (channel_type type) position))
  pure (to_pb_channel channel)

-- GetChannel
unfoldable pub get_channel_handler : String → Exec Service Code Channel
get_channel_handler channel_id = do
  reject_if (trim_space channel_id == "") invalid_argument
  channel ← or_fail not_found (on_store (get_channel (trim_space channel_id)))
  pure (to_pb_channel channel)

-- UpdateChannel
unfoldable pub update_channel_handler :
    String → String → String → String → ChannelType → ℤ → Exec Service Code Channel
update_channel_handler caller_id channel_id name topic type position = do
  reject_if (caller_id == "") unauthenticated
  reject_if (trim_space channel_id == "") invalid_argument
  channel ← or_fail not_found (on_store (get_channel (trim_space channel_id)))
  check_permission channel.community_id caller_id permission_manage_channels
  updated ← or_fail internal (
      on_store (
        update_channel (trim_space channel_id) (trim_space name) (trim_space topic)
          (channel_type type) position))
  pure (to_pb_channel updated)

-- DeleteChannel
unfoldable pub delete_channel_handler : String → String → Exec Service Code (Unit {0})
delete_channel_handler caller_id channel_id = do
  reject_if (caller_id == "") unauthenticated
  reject_if (trim_space channel_id == "") invalid_argument
  channel ← or_fail not_found (on_store (get_channel (trim_space channel_id)))
  check_permission channel.community_id caller_id permission_manage_channels
  or_fail internal (on_store (delete_channel (trim_space channel_id)))

-- ListChannels
unfoldable pub list_channels_handler : String → Exec Service Code (List Channel)
list_channels_handler community_id = do
  reject_if (trim_space community_id == "") invalid_argument
  channels ← or_fail internal (on_store (list_channels_by_community (trim_space community_id)))
  pure (map to_pb_channel channels)
