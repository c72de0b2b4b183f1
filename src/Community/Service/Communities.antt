-- ===== src/Community/Service/Communities.antt =====
-- The handlers on communities of backend/services/community-service/service.go.
use constell.Prelude.{String, not, Option, List, map, ◌==◌, nat_eq, string_eq, pos, bit_or}
use constell.Prelude.Exec.{Exec, pure, ◌>>=◌, ◌>>◌, or_fail, attempt, reject_if}
use constell.Prelude.Text.{trim_space}
use constell.Community.Permissions.{
  permission_manage_community, permission_read_messages, permission_send_messages,
}
use constell.Community.Repository.Communities.{
  create_community, update_community, delete_community, list_communities_by_user,
}
use constell.Community.Repository.Channels.{create_channel}
use constell.Community.Repository.Members.{add_member}
use constell.Community.Repository.Roles.{create_role, assign_role}
use constell.Rpc.{
  Code, unauthenticated, invalid_argument, not_found, internal, permission_denied,
  PaginationRequest, PaginationResponse, page_limit, page_cursor, pagination_response,
}
use constell.Community.Service.State.{
  Service, on_store, cached_community, set_community, invalidate_community, invalidate_members,
  invalidate_roles, check_permission,
}
use constell.Community.Service.Replies.{Community, to_pb_community}

-- CreateCommunity: the caller becomes the owner and a member, with the @everyone role, whose
-- assignment may fail, and a first channel.
unfoldable pub create_community_handler :
    String → String → String → String → Exec Service Code Community
create_community_handler caller_id name description icon_url = do
  reject_if (caller_id == "") unauthenticated
  reject_if (trim_space name == "") invalid_argument
  community ← or_fail internal (
      on_store (
        create_community (trim_space name) (trim_space description) (trim_space icon_url)
          caller_id))
  _ ← or_fail internal (on_store (add_member community.id caller_id))
  role ← or_fail internal (
      on_store (
        create_role community.id "@everyone" (pos 0)
          (bit_or permission_read_messages permission_send_messages) (pos 0)))
  _ ← attempt (on_store (assign_role community.id caller_id role.id))
  _ ← or_fail internal (on_store (create_channel community.id "general" "" "text" (pos 0)))
  set_community community
  pure (to_pb_community community)

-- GetCommunity
unfoldable pub get_community_handler : String → Exec Service Code Community
get_community_handler community_id = do
  reject_if (trim_space community_id == "") invalid_argument
  community ← or_fail not_found (cached_community (trim_space community_id))
  pure (to_pb_community community)

-- UpdateCommunity
unfoldable pub update_community_handler :
    String → String → String → String → String → Exec Service Code Community
update_community_handler caller_id community_id name description icon_url = do
  reject_if (caller_id == "") unauthenticated
  reject_if (trim_space community_id == "") invalid_argument
  check_permission (trim_space community_id) caller_id permission_manage_community
  community ← or_fail internal (
      on_store (
        update_community (trim_space community_id) (trim_space name) (trim_space description)
          (trim_space icon_url)))
  invalidate_community (trim_space community_id)
  pure (to_pb_community community)

-- DeleteCommunity: for the owner only.
unfoldable pub delete_community_handler : String → String → Exec Service Code (Unit {0})
delete_community_handler caller_id community_id = do
  reject_if (caller_id == "") unauthenticated
  reject_if (trim_space community_id == "") invalid_argument
  community ← or_fail not_found (cached_community (trim_space community_id))
  reject_if (not (community.owner_id == caller_id)) permission_denied
  or_fail internal (on_store (delete_community (trim_space community_id)))
  invalidate_community (trim_space community_id)
  invalidate_members (trim_space community_id)
  invalidate_roles (trim_space community_id)

-- ListCommunities
unfoldable pub list_communities_handler :
    String → Option PaginationRequest → Exec Service Code (List Community × PaginationResponse)
list_communities_handler caller_id pagination = do
  reject_if (caller_id == "") unauthenticated
  page ← or_fail internal (
      on_store
        (list_communities_by_user caller_id (page_limit pagination) (page_cursor pagination)))
  pure (map to_pb_community page.0, pagination_response page.1)
