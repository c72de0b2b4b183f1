-- ===== src/Community/Service/Members.antt =====
-- The handlers on members of backend/services/community-service/service.go.
use constell.Prelude.{
  ℕ, String, Bool, true, false, not, ◌||◌, Option, none, some, List, map, if◌then◌else◌, ◌==◌,
  nat_eq, string_eq,
}
use constell.Prelude.Exec.{Result, ok, err, Exec, pure, ◌>>=◌, ◌>>◌, or_fail, attempt, reject_if}
use constell.Prelude.Text.{trim_space}
use constell.Community.Rows.{ChannelRow, MemberRow, RoleRow}
use constell.Community.Permissions.{permission_kick_members}
use constell.Sql.{DbError}
use constell.Community.Repository.Communities.{is_community_public}
use constell.Community.Repository.Channels.{list_channels_by_community}
use constell.Community.Repository.Members.{add_member, remove_member, list_members_by_community}
use constell.Community.Repository.Roles.{assign_role, get_default_role}
use constell.Rpc.{
  Code, unauthenticated, invalid_argument, not_found, internal, failed_precondition,
  PaginationRequest, PaginationResponse, page_limit, page_cursor, pagination_response,
}
use constell.Community.Service.State.{
  Service, member_joined, member_left, on_store, cached_community, invalidate_members, publish,
  check_permission,
}
use constell.Community.Service.Replies.{CommunityMember, to_pb_member}

-- What JoinCommunity does with the pointer to the member: a nil pointer would panic, which is
-- `none`.
pub data Joined : Type 0 where
  joined : CommunityMember → Joined
  panicked : Joined

unfoldable pub with_channels :
    {E : Type 0}
    → (List String → Exec Service E (Unit {0}))
    → Result DbError (List ChannelRow)
    → Exec Service E (Unit {0})
with_channels then_publish (err e) s = (ok tt, s)
with_channels then_publish (ok channels) s =
    then_publish (map (λ (c : ChannelRow). c.id) channels) s

unfoldable pub has_nats : Option (ℕ → Bool) → Bool
has_nats none = false
has_nats (some takes) = true

-- publishMemberJoined; without NATS the channels are not read either.
unfoldable pub publish_member_joined :
    {E : Type 0} → String → String → String → Exec Service E (Unit {0})
unfolding with_channels has_nats
publish_member_joined community_id user_id nickname s =
    if has_nats s.nats
    then (do
      channels ← attempt (on_store (list_channels_by_community community_id))
      with_channels (λ ids. publish (member_joined community_id user_id nickname ids)) channels)
        s
    else (ok tt, s)

-- publishMemberLeft
unfoldable pub publish_member_left : {E : Type 0} → String → String → Exec Service E (Unit {0})
unfolding with_channels has_nats
publish_member_left community_id user_id s =
    if has_nats s.nats
    then (do
      channels ← attempt (on_store (list_channels_by_community community_id))
      with_channels (λ ids. publish (member_left community_id user_id ids)) channels)
        s
    else (ok tt, s)

unfoldable pub assign_default :
    {E : Type 0} → String → String → Result DbError RoleRow → Exec Service E (Unit {0})
assign_default community_id user_id (err e) = pure tt
assign_default community_id user_id (ok role) = do
  _ ← attempt (on_store (assign_role community_id user_id role.id))
  pure tt

-- JoinCommunity, after the member was added or found.
unfoldable pub finish_join : String → String → Option MemberRow → Exec Service Code Joined
unfolding publish_member_joined
finish_join community_id caller_id none = pure panicked
finish_join community_id caller_id (some member) = do
  publish_member_joined community_id caller_id member.nickname
  pure (joined (to_pb_member member))

-- JoinCommunity: a private community and one that is not there are answered alike.
unfoldable pub join_community_handler : String → String → Exec Service Code Joined
unfolding assign_default finish_join
join_community_handler caller_id community_id = do
  reject_if (caller_id == "") unauthenticated
  reject_if (trim_space community_id == "") invalid_argument
  _ ← or_fail not_found (cached_community (trim_space community_id))
  public ← or_fail not_found (on_store (is_community_public (trim_space community_id)))
  reject_if (not public) not_found
  member ← or_fail internal (on_store (add_member (trim_space community_id) caller_id))
  invalidate_members (trim_space community_id)
  role ← attempt (on_store (get_default_role (trim_space community_id)))
  assign_default (trim_space community_id) caller_id role
  finish_join (trim_space community_id) caller_id member

-- LeaveCommunity: the owner cannot leave.
unfoldable pub leave_community_handler : String → String → Exec Service Code (Unit {0})
leave_community_handler caller_id community_id = do
  reject_if (caller_id == "") unauthenticated
  reject_if (trim_space community_id == "") invalid_argument
  community ← or_fail not_found (cached_community (trim_space community_id))
  reject_if (community.owner_id == caller_id) failed_precondition
  or_fail internal (on_store (remove_member (trim_space community_id) caller_id))
  invalidate_members (trim_space community_id)
  publish_member_left (trim_space community_id) caller_id

-- The checks of KickMember on its two ways: to leave, and to remove another.
unfoldable pub may_kick : String → String → String → String → Exec Service Code (Unit {0})
may_kick caller_id community_id target_id owner_id =
    if target_id == caller_id then reject_if (owner_id == caller_id) failed_precondition else (do
      (if owner_id == caller_id
          then pure tt
          else check_permission community_id caller_id permission_kick_members)
      reject_if (target_id == owner_id) failed_precondition)

-- KickMember
unfoldable pub kick_member_handler : String → String → String → Exec Service Code (Unit {0})
unfolding may_kick
kick_member_handler caller_id community_id user_id = do
  reject_if (caller_id == "") unauthenticated
  reject_if (trim_space community_id == "" || trim_space user_id == "") invalid_argument
  community ← or_fail not_found (cached_community (trim_space community_id))
  may_kick caller_id (trim_space community_id) (trim_space user_id) community.owner_id
  or_fail internal (on_store (remove_member (trim_space community_id) (trim_space user_id)))
  invalidate_members (trim_space community_id)
  publish_member_left (trim_space community_id) (trim_space user_id)

-- ListMembers
unfoldable pub list_members_handler :
    String
    → Option PaginationRequest
    → Exec Service Code (List CommunityMember × PaginationResponse)
list_members_handler community_id pagination = do
  reject_if (trim_space community_id == "") invalid_argument
  page ← or_fail internal (
      on_store (
        list_members_by_community (trim_space community_id) (page_limit pagination)
          (page_cursor pagination)))
  pure (map to_pb_member page.0, pagination_response page.1)
