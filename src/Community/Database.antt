-- ===== src/Community/Database.antt =====
-- The tables that backend/services/community-service/repository.go reads and writes, with the
-- constraints of deploy/migrations.
use constell.Prelude.{ℕ, String, Bool, List, nat_eq, string_eq}
use constell.Sql as Sql
use constell.Community.Rows.{
  CommunityRow, ChannelRow, MemberRow, RoleRow, ChannelMessageRow, AttachmentRow,
}

-- communities, with the column that no row type has
pub record CommunityRecord : Type 0 where
  pub row : CommunityRow
  pub is_public : Bool

-- users
pub record UserRow : Type 0 where
  pub id : String
  pub nickname : String

-- member_roles
pub record MemberRoleRow : Type 0 where
  pub community_id : String
  pub user_id : String
  pub role_id : String

-- file_metadata
pub record FileRow : Type 0 where
  pub id : String
  pub filename : String
  pub content_type : String
  pub size : ℕ

pub record Database : Type 0 where
  pub users : List UserRow
  pub files : List FileRow
  pub communities : List CommunityRecord
  pub channels : List ChannelRow
  pub members : List MemberRow
  pub roles : List RoleRow
  pub member_roles : List MemberRoleRow
  pub channel_messages : List ChannelMessageRow
  pub attachments : List AttachmentRow
  -- the identity column of channel_messages
  pub next_seq : ℕ

abbrev pub Store : Type 0
Store = Sql.Store Database
