-- ===== src/Community/Repository/Channels.antt =====
-- The statements on channels of backend/services/community-service/repository.go.
use constell.Prelude.{
  ℕ, String, Bool, true, false, not, ◌&&◌, ◌||◌, Option, none, some, List, [], ◌∷◌, ◌++◌, leb,
  if◌then◌else◌, ◌==◌, nat_eq, string_eq, keep, find, any, negsuc, pos, ℤ,
}
use constell.Prelude.Exec.{Result, ok, err, Exec}
use constell.Community.Rows.{ChannelRow}
use constell.Sql.{
  DbError, constraint, no_rows, statement, query, first_row, insert_if, update_where, order_by,
}
use constell.Community.Database.{Database, Store}
use constell.Community.Repository.Communities.{community_exists}

abbrev pub find_channel : String → Database → Option ChannelRow
find_channel id db = find (λ c. c.id == id) db.channels

abbrev pub channel_exists : String → Database → Bool
channel_exists id db = any (λ c. c.id == id) db.channels

-- CHECK (type IN ('text', 'announcement'))
abbrev pub channel_type_ok : String → Bool
channel_type_ok type = type == "text" || type == "announcement"

-- CreateChannel
unfoldable pub create_channel_sql :
    String
    → String
    → String
    → String
    → ℤ
    → ℕ
    → String
    → Database
    → Result DbError (ChannelRow × Database)
create_channel_sql community_id name topic channel_type position now id db =
    let row : ChannelRow = record {
      id = id;
      community_id = community_id;
      name = name;
      topic = topic;
      type = channel_type;
      position = position;
      created_at = now;
      updated_at = now;
    } in
    insert_if
      (community_exists community_id db
        && channel_type_ok channel_type
        && not (channel_exists id db))
      row (record db { channels = db.channels ++ row ∷ [] })

unfoldable pub create_channel :
    String → String → String → String → ℤ → Exec Store DbError ChannelRow
unfolding create_channel_sql
create_channel community_id name topic channel_type position =
    statement (create_channel_sql community_id name topic channel_type position)

-- GetChannel
unfoldable pub get_channel : String → Exec Store DbError ChannelRow
get_channel channel_id = query (λ db. first_row (find_channel channel_id db))

-- A row that is not there meets no CHECK.
abbrev updated_channel :
    Bool → Option ChannelRow → Database → Result DbError (ChannelRow × Database)
updated_channel valid none db = err no_rows
updated_channel valid (some c) db = if valid then ok (c, db) else err constraint

-- UpdateChannel
unfoldable pub update_channel_sql :
    String
    → String
    → String
    → String
    → ℤ
    → ℕ
    → String
    → Database
    → Result DbError (ChannelRow × Database)
update_channel_sql channel_id name topic channel_type position now id db =
    let channels : List ChannelRow =
      update_where (λ c. c.id == channel_id)
        (λ c. record c {
          name = name;
          topic = topic;
          type = channel_type;
          position = position;
          updated_at = now;
        })
        db.channels in
    let db' : Database = record db { channels = channels } in
    updated_channel (channel_type_ok channel_type) (find_channel channel_id db') db'

unfoldable pub update_channel :
    String → String → String → String → ℤ → Exec Store DbError ChannelRow
unfolding update_channel_sql
update_channel channel_id name topic channel_type position =
    statement (update_channel_sql channel_id name topic channel_type position)

-- DeleteChannel, and its messages by ON DELETE CASCADE.
unfoldable pub delete_channel_sql :
    String → ℕ → String → Database → Result DbError ((Unit {0}) × Database)
delete_channel_sql channel_id now id db = ok (
  tt,
  record db {
    channels = keep (λ c. not (c.id == channel_id)) db.channels;
    channel_messages = keep (λ m. not (m.channel_id == channel_id)) db.channel_messages;
  },
)

unfoldable pub delete_channel : String → Exec Store DbError (Unit {0})
unfolding delete_channel_sql
delete_channel channel_id = statement (delete_channel_sql channel_id)

-- Positions in ascending order.
abbrev pub int_le : ℤ → ℤ → Bool
int_le (pos m) (pos n) = leb m n
int_le (pos m) (negsuc n) = false
int_le (negsuc m) (pos n) = true
int_le (negsuc m) (negsuc n) = leb n m

-- ListChannelsByCommunity
unfoldable pub list_channels_by_community : String → Exec Store DbError (List ChannelRow)
unfolding order_by
list_channels_by_community community_id = query (λ db. ok (
    order_by (λ a b. int_le a.position b.position)
      (keep (λ c. c.community_id == community_id) db.channels)))
