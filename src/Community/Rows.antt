-- ===== src/Community/Rows.antt =====
-- The rows of backend/services/community-service/repository.go. A time is a number of microseconds
-- since the epoch, the resolution of the database; `unix` is Go's `Unix`.
use constell.Prelude.{ℕ, ◌/◌, String, nat_eq, string_eq, ℤ}

abbrev pub unix : ℕ → ℕ
unix t = t / 1000000

pub record CommunityRow : Type 0 where
  pub id : String
  pub name : String
  pub description : String
  pub icon_url : String
  pub owner_id : String
  pub created_at : ℕ
  pub updated_at : ℕ

pub record ChannelRow : Type 0 where
  pub id : String
  pub community_id : String
  pub name : String
  pub topic : String
  pub type : String
  pub position : ℤ
  pub created_at : ℕ
  pub updated_at : ℕ

pub record MemberRow : Type 0 where
  pub community_id : String
  pub user_id : String
  pub nickname : String
  pub joined_at : ℕ

pub record RoleRow : Type 0 where
  pub id : String
  pub community_id : String
  pub name : String
  pub color : ℤ
  pub permissions : ℕ
  pub position : ℤ
  pub created_at : ℕ

pub record ChannelMessageRow : Type 0 where
  pub id : String
  pub channel_id : String
  pub author_id : String
  pub content : String
  pub created_at : ℕ
  pub updated_at : ℕ
  pub seq : ℕ

pub record AttachmentRow : Type 0 where
  pub id : String
  pub message_type : String
  pub message_id : String
  pub file_id : String
  pub filename : String
  pub content_type : String
  pub size : ℕ
