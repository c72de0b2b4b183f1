-- ===== src/Community/Repository/Messages.antt =====
-- The statements on messages and attachments of
-- backend/services/community-service/repository.go.
use constell.Prelude.{
  ℕ, suc, ◌+◌, max, String, Bool, true, false, not, ◌&&◌, Option, none, some, List, [], ◌∷◌, ◌++◌,
  map, ltb, leb, if◌then◌else◌, ◌==◌, nat_eq, string_eq, take, keep, find, any, ℤ, pos, negsuc,
}
use constell.Prelude.Exec.{Result, ok, err, Exec}
use constell.Prelude.Decimal.{format_int, parse_int}
use constell.Community.Rows.{ChannelMessageRow, AttachmentRow}
use constell.Sql.{
  DbError, no_rows, invalid_cursor, message_not_found, statement, query, insert_if, update_where,
  order_by, page_of,
}
use constell.Community.Database.{FileRow, Database, Store}
use constell.Community.Repository.Communities.{user_exists}
use constell.Community.Repository.Channels.{channel_exists}

abbrev pub find_message : String → Database → Option ChannelMessageRow
find_message id db = find (λ m. m.id == id) db.channel_messages

abbrev pub message_exists : String → Database → Bool
message_exists id db = any (λ m. m.id == id) db.channel_messages

-- InsertChannelMessage; seq comes from the identity column.
unfoldable pub insert_channel_message_sql :
    String → String → String → ℕ → String → Database → Result DbError (ChannelMessageRow × Database)
insert_channel_message_sql channel_id author_id content now id db =
    let row : ChannelMessageRow = record {
      id = id;
      channel_id = channel_id;
      author_id = author_id;
      content = content;
      created_at = now;
      updated_at = now;
      seq = db.next_seq;
    } in
    insert_if
      (channel_exists channel_id db && user_exists author_id db && not (message_exists id db)) row
      (record db { channel_messages = db.channel_messages ++ row ∷ []; next_seq = suc db.next_seq })

unfoldable pub insert_channel_message :
    String → String → String → Exec Store DbError ChannelMessageRow
unfolding insert_channel_message_sql
insert_channel_message channel_id author_id content =
    statement (insert_channel_message_sql channel_id author_id content)

abbrev pub author_of : Option ChannelMessageRow → Result DbError String
author_of none = err no_rows
author_of (some m) = ok m.author_id

-- GetChannelMessageAuthor
unfoldable pub get_channel_message_author : String → Exec Store DbError String
get_channel_message_author message_id = query (λ db. author_of (find_message message_id db))

-- DeleteChannelMessage: no row deleted is an error.
unfoldable pub delete_channel_message_sql :
    String → ℕ → String → Database → Result DbError ((Unit {0}) × Database)
delete_channel_message_sql message_id now id db =
    if message_exists message_id db
    then ok (
      tt,
      record db { channel_messages = keep (λ m. not (m.id == message_id)) db.channel_messages },
    )
    else err message_not_found

unfoldable pub delete_channel_message : String → Exec Store DbError (Unit {0})
unfolding delete_channel_message_sql
delete_channel_message message_id = statement (delete_channel_message_sql message_id)

abbrev pub updated_message :
    Option ChannelMessageRow → Database → Result DbError (ChannelMessageRow × Database)
updated_message none db = err no_rows
updated_message (some m) db = ok (m, db)

-- GREATEST(NOW(), created_at + INTERVAL '1 second')
abbrev pub edited_at : ℕ → ChannelMessageRow → ℕ
edited_at now m = max now (m.created_at + 1000000)

-- UpdateChannelMessage
unfoldable pub update_channel_message_sql :
    String → String → ℕ → String → Database → Result DbError (ChannelMessageRow × Database)
update_channel_message_sql message_id content now id db =
    let messages : List ChannelMessageRow =
      update_where (λ m. m.id == message_id)
        (λ m. record m { content = content; updated_at = edited_at now m }) db.channel_messages in
    let db' : Database = record db { channel_messages = messages } in
    updated_message (find_message message_id db') db'

unfoldable pub update_channel_message : String → String → Exec Store DbError ChannelMessageRow
unfolding update_channel_message_sql
update_channel_message message_id content =
    statement (update_channel_message_sql message_id content)

-- The messages of a channel, the newest first.
unfoldable pub newest_first : List ChannelMessageRow → List ChannelMessageRow
unfolding order_by
newest_first = order_by (λ a b. leb b.seq a.seq)

unfoldable pub oldest_first : List ChannelMessageRow → List ChannelMessageRow
unfolding order_by
oldest_first = order_by (λ a b. leb a.seq b.seq)

abbrev pub seq_cursor : ChannelMessageRow → String
seq_cursor m = format_int m.seq

-- The statement of GetChannelMessages, with the condition that the cursor sets.
unfoldable pub messages_page :
    String → ℕ → (ChannelMessageRow → Bool) → Database → List ChannelMessageRow × String
unfolding newest_first page_of
messages_page channel_id limit before db = page_of seq_cursor limit (
    take (limit + 1)
      (newest_first (keep (λ m. m.channel_id == channel_id && before m) db.channel_messages)))

abbrev pub seq_below : ℤ → ChannelMessageRow → Bool
seq_below (pos n) m = ltb m.seq n
seq_below (negsuc n) m = false

unfoldable pub page_before :
    String → ℕ → Option ℤ → Exec Store DbError (List ChannelMessageRow × String)
unfolding messages_page
page_before channel_id limit none s = (err invalid_cursor, s)
page_before channel_id limit (some seq) s =
    query (λ db. ok (messages_page channel_id limit (seq_below seq) db)) s

-- GetChannelMessages: a cursor that is no number is refused before any statement.
unfoldable pub get_channel_messages :
    String → ℕ → String → Exec Store DbError (List ChannelMessageRow × String)
unfolding messages_page page_before
get_channel_messages channel_id limit cursor =
    if cursor == ""
    then query (λ db. ok (messages_page channel_id limit (λ m. true) db))
    else page_before channel_id limit (parse_int cursor)

-- GetChannelMessagesSince
unfoldable pub get_channel_messages_since :
    String → ℕ → ℕ → Exec Store DbError (List ChannelMessageRow)
unfolding oldest_first
get_channel_messages_since channel_id since_seq limit =
    let limit' : ℕ = if limit == 0 then 200 else limit in
    query (λ db. ok (
      take limit' (
        oldest_first
          (keep (λ m. m.channel_id == channel_id && ltb since_seq m.seq) db.channel_messages))))

abbrev file_data : AttachmentRow → Option FileRow → AttachmentRow
file_data a none = record a { filename = ""; content_type = ""; size = 0 }
file_data a (some f) = record a {
  filename = f.filename;
  content_type = f.content_type;
  size = f.size;
}

-- GetAttachmentsByMessage: name, type and size are those of the file.
unfoldable pub get_attachments_by_message :
    String → String → Exec Store DbError (List AttachmentRow)
get_attachments_by_message message_type message_id = query (λ db. ok (
    map (λ (a : AttachmentRow). file_data a (find (λ f. f.id == a.file_id) db.files))
      (keep (λ a. a.message_type == message_type && a.message_id == message_id) db.attachments)))

unfoldable pub insert_attachment_sql :
    AttachmentRow → ℕ → String → Database → Result DbError ((Unit {0}) × Database)
insert_attachment_sql a now id db =
    insert_if
      (any (λ f. f.id == a.file_id) db.files
        && not (any (λ (b : AttachmentRow). b.id == id) db.attachments))
      tt (record db { attachments = db.attachments ++ record a { id = id } ∷ [] })

unfoldable pub insert_attachment : AttachmentRow → Exec Store DbError (Unit {0})
unfolding insert_attachment_sql
insert_attachment a = statement (insert_attachment_sql a)

unfoldable pub and_then :
    (Exec Store DbError (Unit {0}))
    → Result DbError (Unit {0}) × Store
    → Result DbError (Unit {0}) × Store
and_then rest (ok u, s) = rest s
and_then rest (err e, s) = (err e, s)

-- InsertAttachments: one statement for each row, up to the first that fails.
unfoldable pub insert_attachments : List AttachmentRow → Exec Store DbError (Unit {0})
unfolding insert_attachment and_then
insert_attachments [] s = (ok tt, s)
insert_attachments (a ∷ rest) s = and_then (insert_attachments rest) (insert_attachment a s)
