-- ===== src/Community/Service/Replies.antt =====
-- The messages of proto/community/v1 that backend/services/community-service/service.go builds.
use constell.Prelude.{ℕ, String, List, if◌then◌else◌, ◌==◌, nat_eq, string_eq, ℤ}
use constell.Community.Rows.{
  unix, CommunityRow, ChannelRow, MemberRow, ChannelMessageRow, AttachmentRow,
}

pub record Community : Type 0 where
  pub id : String
  pub name : String
  pub description : String
  pub icon_url : String
  pub owner_id : String
  pub created_at : ℕ
  pub updated_at : ℕ

pub data ChannelType : Type 0 where
  text announcement : ChannelType

pub record Channel : Type 0 where
  pub id : String
  pub community_id : String
  pub name : String
  pub topic : String
  pub type : ChannelType
  pub position : ℤ
  pub created_at : ℕ
  pub updated_at : ℕ

pub record CommunityMember : Type 0 where
  pub community_id : String
  pub user_id : String
  pub nickname : String
  pub joined_at : ℕ

pub record Attachment : Type 0 where
  pub id : String
  pub file_id : String
  pub filename : String
  pub content_type : String
  pub size : ℕ

pub record ChannelMessage : Type 0 where
  pub id : String
  pub channel_id : String
  pub author_id : String
  pub content : String
  pub created_at : ℕ
  pub updated_at : ℕ
  pub seq : ℕ
  pub attachments : List Attachment

-- toPBCommunity
unfoldable pub to_pb_community : CommunityRow → Community
to_pb_community s = record {
  id = s.id;
  name = s.name;
  description = s.description;
  icon_url = s.icon_url;
  owner_id = s.owner_id;
  created_at = unix s.created_at;
  updated_at = unix s.updated_at;
}

-- toPBChannel
unfoldable pub to_pb_channel : ChannelRow → Channel
to_pb_channel c = record {
  id = c.id;
  community_id = c.community_id;
  name = c.name;
  topic = c.topic;
  type = if c.type == "announcement" then announcement else text;
  position = c.position;
  created_at = unix c.created_at;
  updated_at = unix c.updated_at;
}

unfoldable pub to_pb_member : MemberRow → CommunityMember
to_pb_member m = record {
  community_id = m.community_id;
  user_id = m.user_id;
  nickname = m.nickname;
  joined_at = unix m.joined_at;
}

unfoldable pub to_pb_attachment : AttachmentRow → Attachment
to_pb_attachment a = record {
  id = a.id;
  file_id = a.file_id;
  filename = a.filename;
  content_type = a.content_type;
  size = a.size;
}

unfoldable pub to_pb_message : ChannelMessageRow → List Attachment → ChannelMessage
to_pb_message m attachments = record {
  id = m.id;
  channel_id = m.channel_id;
  author_id = m.author_id;
  content = m.content;
  created_at = unix m.created_at;
  updated_at = unix m.updated_at;
  seq = m.seq;
  attachments = attachments;
}
