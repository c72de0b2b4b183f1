-- ===== src/Search/Rows.antt =====
-- The tables that backend/services/search-service reads, and its results (repository.go).
use constell.Prelude.{ℕ, String, Bool, Option, List}

pub record UserRow (V : Type 0) : Type 0 where
  pub id : String
  pub nickname : String
  pub avatar_url : Option String
  pub search_vector : V

pub record ChannelRow : Type 0 where
  pub id : String
  pub community_id : String

pub record MemberRow : Type 0 where
  pub community_id : String
  pub user_id : String

pub record MessageRow (V : Type 0) : Type 0 where
  pub id : String
  pub channel_id : String
  pub author_id : String
  pub content : String
  -- microseconds
  pub created_at : ℕ
  pub search_vector : V

pub record ConversationRow : Type 0 where
  pub id : String
  pub user_a_id : String
  pub user_b_id : String

pub record DmRow (V : Type 0) : Type 0 where
  pub id : String
  pub conversation_id : String
  pub content : String
  pub created_at : ℕ
  pub search_vector : V

pub record CommunityRow (V : Type 0) : Type 0 where
  pub id : String
  pub name : String
  pub icon_url : Option String
  pub description : Option String
  pub is_public : Bool
  pub search_vector : V

pub record SearchTables (V : Type 0) : Type 0 where
  pub users : List (UserRow V)
  pub channels : List ChannelRow
  pub community_members : List MemberRow
  pub channel_messages : List (MessageRow V)
  pub dm_conversations : List ConversationRow
  pub dm_messages : List (DmRow V)
  pub communities : List (CommunityRow V)

-- The results; a rank is given by its place among the ranks.
pub record UserSearchResult : Type 0 where
  pub id : String
  pub nickname : String
  pub avatar_url : String
  pub relevance : ℕ

pub record MessageSearchResult : Type 0 where
  pub id : String
  pub channel_id : String
  pub community_id : String
  pub author_id : String
  pub content : String
  pub created_at : ℕ
  pub relevance : ℕ

pub record DmMessageSearchResult : Type 0 where
  pub id : String
  pub conversation_id : String
  pub peer_id : String
  pub content : String
  pub created_at : ℕ
  pub relevance : ℕ

pub record CommunitySearchResult : Type 0 where
  pub id : String
  pub name : String
  pub icon_url : String
  pub description : String
  pub member_count : ℕ
  pub joined : Bool
  pub relevance : ℕ
