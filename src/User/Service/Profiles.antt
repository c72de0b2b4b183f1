-- ===== src/User/Service/Profiles.antt =====
-- The handlers on profiles and friends of backend/services/user-service/service.go.
use constell.Prelude.{ℕ, String, Option, List, map, ◌==◌, nat_eq, string_eq}
use constell.Prelude.Exec.{Exec, pure, ◌>>=◌, ◌>>◌, or_fail, reject_if}
use constell.Prelude.Text.{trim_space}
use constell.Rpc.{
  Code, unauthenticated, invalid_argument, not_found, internal, PaginationRequest,
  PaginationResponse, page_limit, page_cursor, pagination_response,
}
use constell.Community.Rows.{unix}
use constell.User.Rows.{UserRow}
use constell.User.Repository.Profiles.{get_user_by_id, update_user_profile, list_friends}
use constell.User.Service.State.{UserService, on_store, cached_user, invalidate_user}

-- GetUserResponse, and the same fields as GetUserProfile
pub record UserProfile : Type 0 where
  pub id : String
  pub email : String
  pub nickname : String
  pub avatar_url : String
  pub status_message : String
  pub created_at : ℕ
  pub updated_at : ℕ

pub record UserBrief : Type 0 where
  pub id : String
  pub nickname : String

unfoldable pub to_profile : UserRow → UserProfile
to_profile u = record {
  id = u.id;
  email = u.email;
  nickname = u.nickname;
  avatar_url = u.avatar_url;
  status_message = u.status_message;
  created_at = unix u.created_at;
  updated_at = unix u.updated_at;
}

abbrev pub to_brief : UserRow → UserBrief
to_brief u = record { id = u.id; nickname = u.nickname }

-- GetUser
unfoldable pub get_user_handler : String → Exec UserService Code UserProfile
unfolding to_profile
get_user_handler user_id = do
  reject_if (trim_space user_id == "") invalid_argument
  user ← or_fail not_found (cached_user (trim_space user_id))
  pure (to_profile user)

-- UpdateProfile
unfoldable pub update_profile_handler :
    String → String → String → String → Exec UserService Code UserProfile
unfolding to_profile
update_profile_handler caller_id nickname avatar_url status_message = do
  reject_if (caller_id == "") unauthenticated
  or_fail internal (
      on_store (
        update_user_profile caller_id (trim_space nickname) (trim_space avatar_url)
          (trim_space status_message)))
  invalidate_user caller_id
  user ← or_fail internal (on_store (get_user_by_id caller_id))
  pure (to_profile user)

-- ListFriends
unfoldable pub list_friends_handler :
    String → Option PaginationRequest → Exec UserService Code (List UserBrief × PaginationResponse)
list_friends_handler caller_id pagination = do
  reject_if (caller_id == "") unauthenticated
  page ←
      or_fail internal
        (on_store (list_friends caller_id (page_limit pagination) (page_cursor pagination)))
  pure (map to_brief page.0, pagination_response page.1)
