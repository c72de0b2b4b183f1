-- ===== src/Community/Service/Posting.antt =====
-- What `SendMessage` of service.go writes, and for whom.
use constell.Prelude.{
  ℕ, String, ◌≡◌, refl, sym, ap, ◌∙◌, true, not, ◌||◌, Option, none, some, List, [], ◌∷◌, ◌++◌, map,
  arith, ◌==◌, nat_eq, string_eq,
}
use constell.Prelude.Exec.{Result, ok, err, announced}
use constell.Prelude.Text.{trim_space}
use constell.Community.Rows.{ChannelRow, MemberRow, ChannelMessageRow, unix}
use constell.Community.Permissions.{permission_send_messages}
use constell.Sql.{first_row}
use constell.Community.Database.{Database}
use constell.Community.Repository.Channels.{find_channel, get_channel}
use constell.Community.Repository.Messages.{
  insert_channel_message, insert_channel_message_sql, get_attachments_by_message,
}
use constell.Rpc.{Code, unauthenticated, invalid_argument, not_found, internal, permission_denied}
use constell.Community.Service.State.{
  Service, Event, message_created, cached_members, cached_members_set, check_permission, publish,
}
use constell.Community.Service.Wiring.{IsRunning}
use constell.Prelude.Exec.Ends.{after_check, after_step, after_failing}
use constell.Community.Service.Outcomes.{ticked, with_db, after_read, after_write}
use constell.Community.Service.Untouched.{Same, check_permission-Same}
use constell.Community.Service.Listing.{Lists, cached_members-Same, finish_posting}
use constell.Community.Service.Quiet.{Quiet, cached_members-Quiet, check_permission-Quiet}
use constell.Community.Service.Replies.{Attachment, ChannelMessage, to_pb_message}
use constell.Community.Service.Messages.{
  new_attachment, channel_message_with_attachments, send_message_handler,
}

-- The event of a message: it names all members that the cache returned.
abbrev pub posted : ChannelRow → List MemberRow → ChannelMessageRow → Event
posted channel members row =
    message_created row.id row.channel_id channel.community_id row.author_id row.content
      (unix row.created_at) row.seq (map (λ (m : MemberRow). m.user_id) members)

-- How SendMessage ends. The reply names the one message that was added, at the end: by the caller,
-- in the channel, with the next seq. Then the channel was there, the caller is among the members of
-- its community that the cache returned, and the check of the permission to send passed; the
-- event of the message is published if NATS takes it. Otherwise no message was added and no event
-- published.
abbrev pub Posts :
    String → String → String → Service → Result Code ChannelMessage × Service → Type 0
Posts caller_id channel_id content s (ok reply, t) =
    (channel : ChannelRow) × (members : List MemberRow) × (row : ChannelMessageRow) × (find_channel
        channel_id s.store.db
      ≡ some channel)
    × ((cached_members channel.community_id (ticked s)).0 ≡ ok members)
    × (cached_members_set members caller_id ≡ true)
    × ((check_permission channel.community_id caller_id permission_send_messages
          (cached_members channel.community_id (ticked s)).1).0
        ≡ ok tt)
    × (row.channel_id ≡ channel_id)
    × (row.author_id ≡ caller_id)
    × (row.content ≡ content)
    × (row.seq ≡ s.store.db.next_seq)
    × Lists (s.store.db.channel_messages ++ row ∷ []) t.store
    × (reply.id ≡ row.id)
    × (reply.seq ≡ row.seq)
    × (t.events ≡ s.events ++ announced (posted channel members row) s.nats s.publishes)
Posts caller_id channel_id content s (err e, t) =
    Lists s.store.db.channel_messages t.store × (t.events ≡ s.events)

first_row-ok : (o : Option ChannelRow) (c : ChannelRow) → first_row o ≡ ok c → o ≡ some c
first_row-ok none c h = cc
first_row-ok (some d) c h = cc

record Inserted (channel_id author_id content : String) (db after : Database)
    (row : ChannelMessageRow) : Type 0 where
  channel : row.channel_id ≡ channel_id
  author : row.author_id ≡ author_id
  text : row.content ≡ content
  seq : row.seq ≡ db.next_seq
  messages : after.channel_messages ≡ db.channel_messages ++ row ∷ []

insert_channel_message_sql-Inserted :
    (channel_id author_id content : String) (now : ℕ) (id : String) (db after : Database)
    (row : ChannelMessageRow)
    → insert_channel_message_sql channel_id author_id content now id db ≡ ok (row, after)
    → Inserted channel_id author_id content db after row
unfolding insert_channel_message_sql
insert_channel_message_sql-Inserted channel_id author_id content now id db after row h =
    ground arith

-- The event in the words of the row, and as the first since the request came in.
announced_row :
    (channel : ChannelRow) (members : List MemberRow) (row : ChannelMessageRow)
    (channel_id author_id content : String) (db after : Database) (s t u : Service)
    → Inserted channel_id author_id content db after row
    → Quiet s t
    → u.events
      ≡ t.events
        ++ announced
            (message_created row.id channel_id channel.community_id author_id content
              (unix row.created_at)
              row.seq
              (map (λ (m : MemberRow). m.user_id) members))
            t.nats
            t.publishes
    → u.events ≡ s.events ++ announced (posted channel members row) s.nats s.publishes
announced_row channel members row channel_id author_id content db after s t u i quiet told =
    let channel' = sym i.channel in
    let author' = sym i.author in
    let text' = sym i.text in
    told ∙ λ k.
    quiet.events k
    ++ announced
        (message_created row.id (channel' k) channel.community_id (author' k) (text' k)
          (unix row.created_at) row.seq (map (λ (m : MemberRow). m.user_id) members))
        (quiet.nats k) (quiet.publishes k)

replied_id :
    (row : ChannelMessageRow) (attachments : List Attachment)
    → (to_pb_message row attachments).id ≡ row.id
unfolding to_pb_message
replied_id row attachments = refl

replied_seq :
    (row : ChannelMessageRow) (attachments : List Attachment)
    → (to_pb_message row attachments).seq ≡ row.seq
unfolding to_pb_message
replied_seq row attachments = refl

-- On a running service, where SendMessage answers, exactly one message was added, at the end: by
-- the caller, in the channel, with the trimmed content and the next seq, the reply names it, and
-- its event, which names the members that the cache returned, is published if NATS takes it; then
-- the channel was there, the caller was among those members and passed the check of the
-- permission to send. Where it fails no message was added and no event published.
pub send_message_handler-Posts :
    (caller_id channel_id content : String) (file_ids : List String) (s : Service)
    → IsRunning s
    → Posts caller_id
        (trim_space channel_id)
        (trim_space content)
        s
        (send_message_handler caller_id channel_id content file_ids s)
unfolding send_message_handler get_channel insert_channel_message channel_message_with_attachments
    get_attachments_by_message publish
send_message_handler-Posts caller_id channel_id content file_ids s running =
    let id = trim_space channel_id in
    let text = trim_space content in
    let P = Posts caller_id id text s in
    let start : Same s.store.db (ticked s) = record {
      wired = running.communities;
      tables = refl;
    } in
    after_check P (caller_id == "") unauthenticated _ s (λ _. (refl, refl))
      λ _.
        after_check P (id == "" || text == "") invalid_argument _ s (λ _. (refl, refl))
          λ _.
            after_read P not_found (λ db. first_row (find_channel id db)) _ s (refl, refl)
              λ channel read.
                let community_id = channel.community_id in
                let none_yet : Quiet s (ticked s) = record {
                  events = refl;
                  publishes = refl;
                  nats = refl;
                } in
                let quiet = (cached_members-Quiet s community_id).at (ticked s) none_yet in
                let asked =
                  cached_members-Same s.store.db community_id (ticked s) running.members start in
                let s1 = (cached_members community_id (ticked s)).1 in
                let checked =
                  (check_permission-Same s.store.db community_id caller_id
                      permission_send_messages).at
                    s1 asked in
                let s2 = (check_permission community_id caller_id permission_send_messages s1).1 in
                let silent =
                  (check_permission-Quiet s community_id caller_id permission_send_messages).at s1
                    quiet in
                let before = ap (λ db. db.channel_messages) checked.tables in
                after_failing P internal (cached_members community_id) _ (ticked s)
                  (ap (λ db. db.channel_messages) asked.tables, quiet.events)
                  λ members seen.
                    after_check P (not (cached_members_set members caller_id)) permission_denied _
                      s1 (λ _. (ap (λ db. db.channel_messages) asked.tables, quiet.events))
                      λ joined.
                        after_step P
                          (check_permission community_id caller_id permission_send_messages) _ s1
                          (λ e. (before, silent.events))
                          λ _ passed.
                            after_write P internal (insert_channel_message_sql id caller_id text) _
                              s2 (before, silent.events)
                              λ row db done.
                                let i =
                                  insert_channel_message_sql-Inserted id caller_id text
                                    (s2.store.server.now s2.store.statements)
                                    (s2.store.server.uuid s2.store.statements) s2.store.db db row
                                    done in
                                let files = map (new_attachment row.id) file_ids in
                                let event =
                                  message_created row.id id community_id caller_id text
                                    (unix row.created_at) row.seq
                                    (map (λ (m : MemberRow). m.user_id) members) in
                                let after =
                                  i.messages
                                  ∙ ap (λ db. db.channel_messages ++ row ∷ []) checked.tables in
                                finish_posting P files event row (with_db db (ticked s2))
                                  (s.store.db.channel_messages ++ row ∷ []) after
                                  λ attachments u listed told. (
                                    channel,
                                    members,
                                    row,
                                    first_row-ok _ channel read,
                                    seen,
                                    ground (arith, joined),
                                    passed,
                                    i.channel,
                                    i.author,
                                    i.text,
                                    i.seq ∙ ap (λ db. db.next_seq) checked.tables,
                                    listed,
                                    replied_id row attachments,
                                    replied_seq row attachments,
                                    announced_row channel members row id caller_id text s2.store.db
                                        db s s2 u i silent told,
                                  )
