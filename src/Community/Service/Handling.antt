-- ===== src/Community/Service/Handling.antt =====
-- Every handler of the community service on a service that runs: the tables stay sound and the
-- caches valid, whether the handler answers or fails.
use constell.Prelude.{String, Option, nat_eq, string_eq, ℤ}
use constell.Prelude.Exec.Keeps.{Keeps, keeps_rules, Keeps-pure, Keeps-bind, Keeps-attempt}
use constell.Community.Repository.Invariant.{
  create_community-Keeps, update_community-Keeps, create_channel-Keeps, update_channel-Keeps,
  delete_channel-Keeps, insert_channel_message-Keeps, delete_channel_message-Keeps,
}
use constell.Community.Repository.Soundness.{
  add_member-Keeps, remove_member-Keeps, create_role-Keeps, assign_role-Keeps,
  update_channel_message-Keeps, delete_community-Keeps, insert_attachments-Keeps,
}
use constell.Community.Repository.Queries.{
  is_community_public-Keeps, list_communities_by_user-Keeps, get_channel-Keeps,
  list_channels_by_community-Keeps, list_members_by_community-Keeps, get_default_role-Keeps,
  get_channel_message_author-Keeps, get_channel_messages-Keeps, get_channel_messages_since-Keeps,
  get_attachments_by_message-Keeps,
}
use constell.Community.Service.Wiring.{
  IsRunning, on_store-Keeps, cached_community-Keeps, cached_members-Keeps, set_community-Keeps,
  invalidate_community-Keeps, invalidate_members-Keeps, invalidate_roles-Keeps, publish-Keeps,
  check_permission-Keeps,
}
use constell.Rpc.{PaginationRequest}
use constell.Community.Service.Replies.{ChannelType}
use constell.Community.Service.Communities.{
  create_community_handler, get_community_handler, update_community_handler,
  delete_community_handler, list_communities_handler,
}
use constell.Community.Service.Channels.{
  create_channel_handler, get_channel_handler, update_channel_handler, delete_channel_handler,
  list_channels_handler,
}

pub ruleset service_rules = (
  keeps_rules, on_store-Keeps, cached_community-Keeps, cached_members-Keeps, set_community-Keeps,
  invalidate_community-Keeps, invalidate_members-Keeps, invalidate_roles-Keeps, publish-Keeps,
  check_permission-Keeps,
)

pub ruleset repository_rules = (
  create_community-Keeps, update_community-Keeps, create_channel-Keeps, update_channel-Keeps,
  delete_channel-Keeps, insert_channel_message-Keeps, delete_channel_message-Keeps,
  add_member-Keeps, remove_member-Keeps, create_role-Keeps, assign_role-Keeps,
  update_channel_message-Keeps, delete_community-Keeps, insert_attachments-Keeps,
  is_community_public-Keeps, list_communities_by_user-Keeps, get_channel-Keeps,
  list_channels_by_community-Keeps, list_members_by_community-Keeps, get_default_role-Keeps,
  get_channel_message_author-Keeps, get_channel_messages-Keeps, get_channel_messages_since-Keeps,
  get_attachments_by_message-Keeps,
)

pub create_community_handler-Keeps :
    (caller_id name description icon_url : String)
    → Keeps IsRunning (create_community_handler caller_id name description icon_url)
unfolding create_community_handler
create_community_handler-Keeps caller_id name description icon_url =
    search (service_rules, repository_rules) depth 24 fits 4000

pub get_community_handler-Keeps :
    (community_id : String) → Keeps IsRunning (get_community_handler community_id)
unfolding get_community_handler
get_community_handler-Keeps community_id = search (service_rules, repository_rules) depth 24

pub update_community_handler-Keeps :
    (caller_id community_id name description icon_url : String)
    → Keeps IsRunning (update_community_handler caller_id community_id name description icon_url)
unfolding update_community_handler
update_community_handler-Keeps caller_id community_id name description icon_url =
    search (service_rules, repository_rules) depth 24

pub delete_community_handler-Keeps :
    (caller_id community_id : String)
    → Keeps IsRunning (delete_community_handler caller_id community_id)
unfolding delete_community_handler
delete_community_handler-Keeps caller_id community_id =
    search (service_rules, repository_rules) depth 24

pub list_communities_handler-Keeps :
    (caller_id : String) (pagination : Option PaginationRequest)
    → Keeps IsRunning (list_communities_handler caller_id pagination)
unfolding list_communities_handler
list_communities_handler-Keeps caller_id pagination =
    search (service_rules, repository_rules) depth 24

pub create_channel_handler-Keeps :
    (caller_id community_id name topic : String) (type : ChannelType) (position : ℤ)
    → Keeps IsRunning (create_channel_handler caller_id community_id name topic type position)
unfolding create_channel_handler
create_channel_handler-Keeps caller_id community_id name topic type position =
    search (service_rules, repository_rules) depth 24

pub get_channel_handler-Keeps :
    (channel_id : String) → Keeps IsRunning (get_channel_handler channel_id)
unfolding get_channel_handler
get_channel_handler-Keeps channel_id = search (service_rules, repository_rules) depth 24

pub update_channel_handler-Keeps :
    (caller_id channel_id name topic : String) (type : ChannelType) (position : ℤ)
    → Keeps IsRunning (update_channel_handler caller_id channel_id name topic type position)
unfolding update_channel_handler
update_channel_handler-Keeps caller_id channel_id name topic type position =
    search (service_rules, repository_rules) depth 24

pub delete_channel_handler-Keeps :
    (caller_id channel_id : String) → Keeps IsRunning (delete_channel_handler caller_id channel_id)
unfolding delete_channel_handler
delete_channel_handler-Keeps caller_id channel_id =
    search (service_rules, repository_rules) depth 24

pub list_channels_handler-Keeps :
    (community_id : String) → Keeps IsRunning (list_channels_handler community_id)
unfolding list_channels_handler
list_channels_handler-Keeps community_id = search (service_rules, repository_rules) depth 24
