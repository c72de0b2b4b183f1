-- ===== src/Community/Service/Listing.antt =====
-- Which steps of `SendMessage` of service.go add no message: the cache of members, attachments and
-- the event.
use constell.Prelude.{
  ℕ, String, ◌≡◌, Bool, Option, none, some, List, [], ◌∷◌, ◌++◌, arith, nat_eq, string_eq,
}
use constell.Prelude.Exec.{Result, ok, err, Exec, ◌>>=◌, ◌>>◌, attempt, announced}
use constell.Prelude.Text.{utf8}
use constell.Community.Rows.{MemberRow, ChannelMessageRow, AttachmentRow}
use constell.Sql.{DbError, query, statement}
use constell.Community.Database.{Database, Store}
use constell.Community.Repository.Members.{list_members_by_community}
use constell.Community.Repository.Messages.{
  insert_attachment, insert_attachment_sql, insert_attachments, and_then,
  get_attachments_by_message,
}
use constell.Rpc.{Code}
use constell.Community.Service.State.{
  Service, Event, on_store, first_page, cached_members, fill_members, members_key, publish, send,
}
use constell.GroupCache.Cache.Wired.{IsWired, get-IsWired}
use constell.Community.Service.Wiring.{fill_with_keeps}
use constell.Community.Service.Untouched.{Holds, Same}
use constell.Community.Service.Quiet.{send-announced}
use constell.Community.Service.Replies.{Attachment, ChannelMessage, to_pb_message}
use constell.Community.Service.Messages.{channel_message_with_attachments}

-- The messages in the tables are `ms`.
abbrev pub Lists : List ChannelMessageRow → Store → Type 0
Lists ms s = s.db.channel_messages ≡ ms

pub query-Lists :
    {A : Type 0} (ms : List ChannelMessageRow) (body : Database → Result DbError A) (s : Store)
    → Lists ms s
    → Lists ms (query body s).1
unfolding query
query-Lists ms body s h = ground arith

insert_attachment-Lists :
    (ms : List ChannelMessageRow) (a : AttachmentRow) (s : Store)
    → Lists ms s
    → Lists ms (insert_attachment a s).1
unfolding insert_attachment insert_attachment_sql statement
insert_attachment-Lists ms a s h = ground arith

and_then-Lists :
    (ms : List ChannelMessageRow) (rest : Exec Store DbError (Unit {0}))
    (r : Result DbError (Unit {0}) × Store)
    → ((t : Store) → Lists ms t → Lists ms (rest t).1)
    → Lists ms r.1
    → Lists ms (and_then rest r).1
unfolding and_then
and_then-Lists ms rest (ok u, t) k h = k t h
and_then-Lists ms rest (err e, t) k h = h

insert_attachments-Lists :
    (ms : List ChannelMessageRow) (rows : List AttachmentRow) (s : Store)
    → Lists ms s
    → Lists ms (insert_attachments rows s).1
unfolding insert_attachments
insert_attachments-Lists ms [] s h = h
insert_attachments-Lists ms (a ∷ rows) s h =
    and_then-Lists ms (insert_attachments rows) (insert_attachment a s)
      (insert_attachments-Lists ms rows) (insert_attachment-Lists ms a s h)

send-Lists :
    (ms : List ChannelMessageRow) (event : Event) (nats : Option (ℕ → Bool)) (s : Service)
    → Lists ms s.store
    → Lists ms (send event nats s).store
unfolding send
send-Lists ms event none s h = h
send-Lists ms event (some takes) s h = ground arith

first_page_keeps :
    (db : Database) (r : Result DbError (List MemberRow × String) × Store)
    → Holds db r.1
    → Holds db (first_page r).1
first_page_keeps db (ok (members, next), s) h = h
first_page_keeps db (err e, s) h = h

query-Holds :
    {A : Type 0} (db : Database) (body : Database → Result DbError A) (s : Store)
    → Holds db s
    → Holds db (query body s).1
unfolding query
query-Holds db body s h = ground arith

fill_members-Holds :
    (db : Database) (k : String) (w : Store) → Holds db w → Holds db (fill_members k w).1
unfolding fill_members list_members_by_community
fill_members-Holds db k w h =
    fill_with_keeps (Holds db) _ (first_page_keeps db _ (query-Holds db _ w h))

pub cached_members-Same :
    (db : Database) (id : String) (s : Service)
    → IsWired fill_members s.members
    → Same db s
    → Same db (cached_members id s).1
unfolding cached_members
cached_members-Same db id s wired h =
    let (kept, tables) =
      get-IsWired (Holds db) fill_members utf8 (fill_members-Holds db) (members_key id) s.members
        s.store wired h.tables in
    record { wired = h.wired; tables = tables }

-- What follows the insertion never fails and adds no message.
pub finish_posting :
    (P : Result Code ChannelMessage × Service → Type 0) (files : List AttachmentRow) (event : Event)
    (row : ChannelMessageRow) (t : Service) (ms : List ChannelMessageRow)
    → Lists ms t.store
    → ((attachments : List Attachment) (u : Service)
        → Lists ms u.store
        → u.events ≡ t.events ++ announced event t.nats t.publishes
        → P (ok (to_pb_message row attachments), u))
    → P (
        (do
          _ ← attempt (on_store (insert_attachments files))
          publish event
          channel_message_with_attachments row)
          t)
unfolding channel_message_with_attachments get_attachments_by_message publish
finish_posting P files event row t ms h k =
    let t1 : Service = record t { store = (insert_attachments files t.store).1 } in
    k _ _
      (query-Lists ms _ _
        (send-Lists ms event t.nats t1 (insert_attachments-Lists ms files t.store h)))
      (send-announced event t.nats t1)
