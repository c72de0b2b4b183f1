-- ===== src/User/Repository/Messages.antt =====
-- The statements on direct messages and attachments of
-- backend/services/user-service/repository.go.
use constell.Prelude.{
  ℕ, suc, ◌+◌, String, Bool, true, false, not, ◌&&◌, Option, none, some, List, [], ◌∷◌, ◌++◌, ltb,
  leb, if◌then◌else◌, ◌==◌, nat_eq, string_eq, take, keep, any, contains, negsuc, pos, ℤ,
}
use constell.Prelude.Exec.{Result, ok, err, Exec}
use constell.Prelude.Decimal.{format_int, parse_int}
use constell.Sql.{DbError, invalid_cursor, statement, query, insert_if, order_by, page_of}
use constell.User.Rows.{
  DmConversationRow, DmMessageRow, AttachmentRow, Database, Store, user_exists,
}

-- InsertDMMessage
unfoldable pub insert_dm_message_sql :
    String → String → String → ℕ → String → Database → Result DbError (DmMessageRow × Database)
insert_dm_message_sql conversation_id sender_id content now id db =
    let row : DmMessageRow = record {
      id = id;
      conversation_id = conversation_id;
      sender_id = sender_id;
      content = content;
      created_at = now;
      seq = db.next_seq;
    } in
    insert_if
      (any (λ (c : DmConversationRow). c.id == conversation_id) db.dm_conversations
        && user_exists sender_id db
        && not (any (λ (m : DmMessageRow). m.id == id) db.dm_messages))
      row (record db { dm_messages = db.dm_messages ++ row ∷ []; next_seq = suc db.next_seq })

unfoldable pub insert_dm_message : String → String → String → Exec Store DbError DmMessageRow
unfolding insert_dm_message_sql
insert_dm_message conversation_id sender_id content =
    statement (insert_dm_message_sql conversation_id sender_id content)

abbrev pub dm_seq_cursor : DmMessageRow → String
dm_seq_cursor m = format_int m.seq

-- The statement of GetDMHistory, with the condition that the cursor sets.
unfoldable pub dm_page : String → ℕ → (DmMessageRow → Bool) → Database → List DmMessageRow × String
unfolding order_by page_of
dm_page conversation_id limit before db = page_of dm_seq_cursor limit (
    take (limit + 1) (
      order_by (λ a b. leb b.seq a.seq)
        (keep (λ m. m.conversation_id == conversation_id && before m) db.dm_messages)))

abbrev pub dm_seq_below : ℤ → DmMessageRow → Bool
dm_seq_below (pos n) m = ltb m.seq n
dm_seq_below (negsuc n) m = false

unfoldable pub dm_page_before :
    String → ℕ → Option ℤ → Exec Store DbError (List DmMessageRow × String)
unfolding dm_page
dm_page_before conversation_id limit none s = (err invalid_cursor, s)
dm_page_before conversation_id limit (some seq) s =
    query (λ db. ok (dm_page conversation_id limit (dm_seq_below seq) db)) s

-- GetDMHistory
unfoldable pub get_dm_history :
    String → ℕ → String → Exec Store DbError (List DmMessageRow × String)
unfolding dm_page dm_page_before
get_dm_history conversation_id limit cursor =
    if cursor == ""
    then query (λ db. ok (dm_page conversation_id limit (λ m. true) db))
    else dm_page_before conversation_id limit (parse_int cursor)

-- GetDMMessagesSince
unfoldable pub get_dm_messages_since : String → ℕ → ℕ → Exec Store DbError (List DmMessageRow)
unfolding order_by
get_dm_messages_since conversation_id since_seq limit =
    let limit' : ℕ = if limit == 0 then 200 else limit in
    query (λ db. ok (
      take limit' (
        order_by (λ a b. leb a.seq b.seq)
          (keep (λ m. m.conversation_id == conversation_id && ltb since_seq m.seq)
            db.dm_messages))))

unfoldable pub insert_dm_attachment_sql :
    AttachmentRow → ℕ → String → Database → Result DbError ((Unit {0}) × Database)
insert_dm_attachment_sql a now id db =
    insert_if
      (contains a.file_id db.files && not (any (λ (b : AttachmentRow). b.id == id) db.attachments))
      tt (record db { attachments = db.attachments ++ record a { id = id } ∷ [] })

abbrev pub after_row :
    (Exec Store DbError (Unit {0}))
    → Result DbError (Unit {0}) × Store
    → Result DbError (Unit {0}) × Store
after_row rest (ok u, s) = rest s
after_row rest (err e, s) = (err e, s)

-- InsertAttachments: one statement for each row, up to the first that fails.
unfoldable pub insert_dm_attachments : List AttachmentRow → Exec Store DbError (Unit {0})
unfolding insert_dm_attachment_sql
insert_dm_attachments [] s = (ok tt, s)
insert_dm_attachments (a ∷ rest) s =
    after_row (insert_dm_attachments rest) (statement (insert_dm_attachment_sql a) s)
