-- ===== src/User/Rows.antt =====
-- The rows of backend/services/user-service/repository.go, and the tables of deploy/migrations that
-- hold them. A time is a number of microseconds since the epoch.
use constell.Prelude.{ℕ, String, Bool, List, ◌==◌, nat_eq, string_eq, any}
use constell.Sql as Sql

pub record UserRow : Type 0 where
  pub id : String
  pub email : String
  pub nickname : String
  pub avatar_url : String
  pub status_message : String
  pub created_at : ℕ
  pub updated_at : ℕ

pub record RelationRow : Type 0 where
  pub user_id : String
  pub target_user_id : String
  pub type : String
  pub created_at : ℕ

pub record DmConversationRow : Type 0 where
  pub id : String
  pub user_a_id : String
  pub user_b_id : String
  pub created_at : ℕ

pub record DmMessageRow : Type 0 where
  pub id : String
  pub conversation_id : String
  pub sender_id : String
  pub content : String
  pub created_at : ℕ
  pub seq : ℕ

pub record AttachmentRow : Type 0 where
  pub id : String
  pub message_type : String
  pub message_id : String
  pub file_id : String
  pub filename : String
  pub content_type : String
  pub size : ℕ

pub record Database : Type 0 where
  pub users : List UserRow
  -- the ids of file_metadata
  pub files : List String
  pub user_relations : List RelationRow
  pub dm_conversations : List DmConversationRow
  pub dm_messages : List DmMessageRow
  pub attachments : List AttachmentRow
  -- the identity column of dm_messages
  pub next_seq : ℕ

abbrev pub Store : Type 0
Store = Sql.Store Database

abbrev pub user_exists : String → Database → Bool
user_exists id db = any (λ (u : UserRow). u.id == id) db.users
