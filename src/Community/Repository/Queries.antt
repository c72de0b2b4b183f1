-- ===== src/Community/Repository/Queries.antt =====
-- The reads of the repository keep its tables sound.
use constell.Prelude.{ℕ, String, Option, none, some, ◌==◌, nat_eq, string_eq, ℤ}
use constell.Prelude.Exec.Keeps.{Keeps, Keeps-if}
use constell.Community.Repository.Communities.{
  is_community_public, get_community, list_communities_by_user,
}
use constell.Community.Repository.Channels.{get_channel, list_channels_by_community}
use constell.Community.Repository.Members.{list_members_by_community}
use constell.Community.Repository.Roles.{
  get_default_role, list_roles_by_community, list_member_roles,
}
use constell.Community.Repository.Messages.{
  get_channel_message_author, page_before, get_channel_messages, get_channel_messages_since,
  get_attachments_by_message,
}
use constell.Community.Repository.Invariant.{HasSound, query-Keeps}

-- The reads.
pub is_community_public-Keeps :
    (community_id : String) → Keeps HasSound (is_community_public community_id)
unfolding is_community_public
is_community_public-Keeps community_id = query-Keeps _

pub get_community-Keeps : (community_id : String) → Keeps HasSound (get_community community_id)
unfolding get_community
get_community-Keeps community_id = query-Keeps _

pub list_communities_by_user-Keeps :
    (user_id : String) (limit : ℕ) (cursor : String)
    → Keeps HasSound (list_communities_by_user user_id limit cursor)
unfolding list_communities_by_user
list_communities_by_user-Keeps user_id limit cursor = query-Keeps _

pub get_channel-Keeps : (channel_id : String) → Keeps HasSound (get_channel channel_id)
unfolding get_channel
get_channel-Keeps channel_id = query-Keeps _

pub list_channels_by_community-Keeps :
    (community_id : String) → Keeps HasSound (list_channels_by_community community_id)
unfolding list_channels_by_community
list_channels_by_community-Keeps community_id = query-Keeps _

pub list_members_by_community-Keeps :
    (community_id : String) (limit : ℕ) (cursor : String)
    → Keeps HasSound (list_members_by_community community_id limit cursor)
unfolding list_members_by_community
list_members_by_community-Keeps community_id limit cursor = query-Keeps _

pub get_default_role-Keeps :
    (community_id : String) → Keeps HasSound (get_default_role community_id)
unfolding get_default_role
get_default_role-Keeps community_id = query-Keeps _

pub list_roles_by_community-Keeps :
    (community_id : String) → Keeps HasSound (list_roles_by_community community_id)
unfolding list_roles_by_community
list_roles_by_community-Keeps community_id = query-Keeps _

pub list_member_roles-Keeps :
    (community_id user_id : String) → Keeps HasSound (list_member_roles community_id user_id)
unfolding list_member_roles
list_member_roles-Keeps community_id user_id = query-Keeps _

pub get_channel_message_author-Keeps :
    (message_id : String) → Keeps HasSound (get_channel_message_author message_id)
unfolding get_channel_message_author
get_channel_message_author-Keeps message_id = query-Keeps _

page_before-Keeps :
    (channel_id : String) (limit : ℕ) (seq : Option ℤ)
    → Keeps HasSound (page_before channel_id limit seq)
unfolding page_before
page_before-Keeps channel_id limit none = record { at = λ s h. h }
page_before-Keeps channel_id limit (some seq) = record { at = λ s h. (query-Keeps _).at s h }

pub get_channel_messages-Keeps :
    (channel_id : String) (limit : ℕ) (cursor : String)
    → Keeps HasSound (get_channel_messages channel_id limit cursor)
unfolding get_channel_messages
get_channel_messages-Keeps channel_id limit cursor =
    Keeps-if (cursor == "") _ _ (query-Keeps _) (page_before-Keeps channel_id limit _)

pub get_channel_messages_since-Keeps :
    (channel_id : String) (since_seq limit : ℕ)
    → Keeps HasSound (get_channel_messages_since channel_id since_seq limit)
unfolding get_channel_messages_since
get_channel_messages_since-Keeps channel_id since_seq limit = query-Keeps _

pub get_attachments_by_message-Keeps :
    (message_type message_id : String)
    → Keeps HasSound (get_attachments_by_message message_type message_id)
unfolding get_attachments_by_message
get_attachments_by_message-Keeps message_type message_id = query-Keeps _
