-- ===== src/Community/Service/Authorship.antt =====
-- Who deletes and edits messages: `DeleteMessage` and `EditMessage` of service.go.
use constell.Prelude.{
  ℕ, suc, ◌<◌, String, ◌≡◌, refl, ap, ◌∙◌, not, ◌||◌, Option, none, some, List, [], ◌∷◌, arith,
  ◌==◌, nat_eq, string_eq, eq_of_equal, keep, find,
}
use constell.Prelude.Exec.{Result, ok, err}
use constell.Prelude.Text.{trim_space}
use constell.Community.Rows.{ChannelMessageRow}
use constell.Sql.{update_where}
use constell.Community.Database.{Database}
use constell.Community.Repository.Messages.{
  author_of, find_message, updated_message, edited_at, get_channel_message_author,
  delete_channel_message, delete_channel_message_sql, update_channel_message,
  update_channel_message_sql,
}
use constell.Rpc.{Code, unauthenticated, invalid_argument, not_found, internal, permission_denied}
use constell.Community.Service.State.{Service}
use constell.Prelude.Exec.Ends.{after_check}
use constell.Community.Service.Outcomes.{ticked, after_read, after_write, last_write}
use constell.Community.Service.Replies.{ChannelMessage, to_pb_message}
use constell.Community.Service.Messages.{delete_message_handler, edit_message_handler}

-- How a request on one message ends: it did `change` to the tables, and then the message was there
-- and its author is the caller, or it was refused with a code and the tables are as before.
abbrev pub OnlyByAuthor :
    {A : Type 0}
    → String
    → String
    → (Database → Database)
    → Service
    → Result Code A × Service
    → Type 0
OnlyByAuthor caller_id message_id change s (ok a, t) =
    (m : ChannelMessageRow) × (find_message message_id s.store.db ≡ some m)
    × (m.author_id ≡ caller_id)
    × (t.store.db ≡ change s.store.db)
OnlyByAuthor caller_id message_id change s (err e, t) = t.store.db ≡ s.store.db

abbrev pub without_message : String → Database → Database
without_message message_id db = record db {
  channel_messages = keep (λ m. not (m.id == message_id)) db.channel_messages;
}

author_of-ok :
    (found : Option ChannelMessageRow) (author : String)
    → author_of found ≡ ok author
    → (m : ChannelMessageRow) × (found ≡ some m) × (m.author_id ≡ author)
author_of-ok none author h = cc
author_of-ok (some m) author h = (m, refl, cc)

delete_channel_message_sql-ok :
    (message_id : String) (now : ℕ) (id : String) (db after : Database)
    → delete_channel_message_sql message_id now id db ≡ ok (tt, after)
    → after ≡ without_message message_id db
unfolding delete_channel_message_sql
delete_channel_message_sql-ok message_id now id db after h = ground arith

-- DeleteMessage succeeds only for the author of a message that is there, and then removes the
-- rows of that id and nothing else; where it fails the tables are as they were.
pub delete_message_handler-OnlyByAuthor :
    (caller_id message_id : String) (s : Service)
    → OnlyByAuthor caller_id
        (trim_space message_id)
        (without_message (trim_space message_id))
        s
        (delete_message_handler caller_id message_id s)
unfolding delete_message_handler get_channel_message_author delete_channel_message
delete_message_handler-OnlyByAuthor caller_id message_id s =
    let id = trim_space message_id in
    let P = OnlyByAuthor caller_id id (without_message id) s in
    after_check P (caller_id == "") unauthenticated _ s (λ _. refl)
      λ _.
        after_check P (id == "") invalid_argument _ s (λ _. refl)
          λ _.
            after_read P not_found (λ db. author_of (find_message id db)) _ s refl
              λ author read.
                after_check P (not (author == caller_id)) permission_denied _ _ (λ _. refl)
                  λ own.
                    let (m, found, wrote) = author_of-ok (find_message id s.store.db) author read in
                    let by = wrote ∙ eq_of_equal author caller_id (ground arith) in
                    last_write P internal (delete_channel_message_sql id) _ refl λ _ db done.
                      (m, found, by, delete_channel_message_sql-ok id 0 "" s.store.db db done)

-- What an edit makes of the message at `id`; the others stay.
abbrev pub edited : String → ℕ → ChannelMessageRow → ChannelMessageRow
edited content now m = record m { content = content; updated_at = edited_at now m }

abbrev pub with_edit : String → String → ℕ → Database → Database
with_edit id content now db = record db {
  channel_messages = update_where (λ m. m.id == id) (edited content now) db.channel_messages;
}

-- How EditMessage ends: the caller's message has the new content, as the reply has, with a time of
-- change that is later than its time of creation even in whole seconds; or nothing has changed.
abbrev pub EditedByAuthor :
    String → String → String → Service → Result Code ChannelMessage × Service → Type 0
EditedByAuthor caller_id id content s (ok reply, t) =
    (m : ChannelMessageRow) × (now : ℕ) × (find_message id s.store.db ≡ some m)
    × (m.author_id ≡ caller_id)
    × (t.store.db ≡ with_edit id content now s.store.db)
    × (reply ≡ to_pb_message (edited content now m) [])
    × (reply.created_at < reply.updated_at)
EditedByAuthor caller_id id content s (err e, t) = t.store.db ≡ s.store.db

later_by_edit :
    (content : String) (now : ℕ) (m : ChannelMessageRow)
    → let reply = to_pb_message (edited content now m) [] in reply.created_at < reply.updated_at
unfolding to_pb_message
later_by_edit content now m = omega arith

find-update_where :
    (id content : String) (now : ℕ) (ms : List ChannelMessageRow) (m : ChannelMessageRow)
    → find (λ n. n.id == id) ms ≡ some m
    → find (λ n. n.id == id) (update_where (λ n. n.id == id) (edited content now) ms)
      ≡ some (edited content now m)
find-update_where id content now [] m h = cc
find-update_where id content now (n ∷ ns) m h =
    ground (arith, find-update_where id content now ns m)

updated_message-ok :
    (found : Option ChannelMessageRow) (db after : Database) (m row : ChannelMessageRow)
    → found ≡ some m
    → updated_message found db ≡ ok (row, after)
    → (row ≡ m) × (after ≡ db)
updated_message-ok none db after m row there h = cc
updated_message-ok (some n) db after m row there h = (cc, cc)

update_channel_message_sql-ok :
    (id content : String) (now : ℕ) (uuid : String) (db after : Database)
    (m row : ChannelMessageRow)
    → find_message id db ≡ some m
    → update_channel_message_sql id content now uuid db ≡ ok (row, after)
    → (row ≡ edited content now m) × (after ≡ with_edit id content now db)
unfolding update_channel_message_sql
update_channel_message_sql-ok id content now uuid db after m row found h =
    let there = find-update_where id content now db.channel_messages m found in
    updated_message-ok _ (with_edit id content now db) after (edited content now m) row there h

-- EditMessage succeeds only for the author of a message that is there; then the message has the
-- trimmed content and nothing else has changed, the reply shows it, and its time of change is
-- later than its creation in whole seconds. Where it fails the tables are as they were.
pub edit_message_handler-EditedByAuthor :
    (caller_id message_id content : String) (s : Service)
    → EditedByAuthor caller_id
        (trim_space message_id)
        (trim_space content)
        s
        (edit_message_handler caller_id message_id content s)
unfolding edit_message_handler get_channel_message_author update_channel_message
edit_message_handler-EditedByAuthor caller_id message_id content s =
    let id = trim_space message_id in
    let text = trim_space content in
    let P = EditedByAuthor caller_id id text s in
    after_check P (caller_id == "") unauthenticated _ s (λ _. refl)
      λ _.
        after_check P (id == "" || text == "") invalid_argument _ s (λ _. refl)
          λ _.
            after_read P not_found (λ db. author_of (find_message id db)) _ s refl
              λ author read.
                after_check P (not (author == caller_id)) permission_denied _ _ (λ _. refl)
                  λ own.
                    let (m, found, wrote) = author_of-ok (find_message id s.store.db) author read in
                    let by = wrote ∙ eq_of_equal author caller_id (ground arith) in
                    after_write P internal (update_channel_message_sql id text) _ (ticked s) refl
                      λ row db done.
                        let now = s.store.server.now (suc s.store.statements) in
                        let (same, change) =
                          update_channel_message_sql-ok id text now "" s.store.db db m row found
                            done in
                        (
                          m,
                          now,
                          found,
                          by,
                          change,
                          ap (λ r. to_pb_message r []) same,
                          rw same (later_by_edit text now m),
                        )
