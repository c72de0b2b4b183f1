-- ===== src/User/Delivery.antt =====
-- What `SendDM` of backend/services/user-service/service.go does after its checks: the conversation,
-- the message, its attachments and the event.
use constell.Prelude.{
  ℕ, suc, String, ◌≡◌, refl, sym, ap, subst, ◌∙◌, inl, inr, Bool, true, false, Option, none, some,
  List, [], ◌∷◌, ◌++◌, map, arith, Bool-cases, nat_eq, string_eq,
}
use mathlib.Core.List.{append-nil}
use constell.Prelude.Exec.{Result, ok, err, Exec, pure, ◌>>=◌, ◌>>◌, attempt, or_fail, announced}
use constell.Prelude.Exec.Ends.{after_failing, after_outcome}
use constell.Rpc.{Code, internal}
use constell.Sql.{DbError, finish, statement, insert_if}
use constell.User.Rows.{DmConversationRow, DmMessageRow, AttachmentRow, Database, Store}
use constell.User.Repository.Conversations.{is_pair, get_or_create_conversation}
use constell.User.Repository.Messages.{
  insert_dm_message, insert_dm_message_sql, insert_dm_attachment_sql, insert_dm_attachments,
  after_row,
}
use constell.User.Pairs.{Opens, lower, upper, get_or_create_conversation-Opens}
use constell.User.Service.State.{
  DmCreated, UserService, on_store, send_dm_created, publish_dm_created,
}
use constell.User.Service.Conversations.{DmMessage, to_dm_message, dm_attachment, dm_created}

-- The messages in the tables are `ms`.
abbrev pub Lists : List DmMessageRow → Store → Type 0
Lists ms s = s.db.dm_messages ≡ ms

-- A message that was sent in a conversation.
pub record IsSent (c : DmConversationRow) (sender_id content : String) (seq : ℕ)
    (row : DmMessageRow) : Type 0 where
  pub conversation : row.conversation_id ≡ c.id
  pub sender : row.sender_id ≡ sender_id
  pub text : row.content ≡ content
  pub next : row.seq ≡ seq

-- How InsertDMMessage ends.
abbrev pub Inserts :
    DmConversationRow → String → String → Store → Result DbError DmMessageRow × Store → Type 0
Inserts c sender_id content s (ok row, t) =
    IsSent c sender_id content s.db.next_seq row × Lists (s.db.dm_messages ++ row ∷ []) t
Inserts c sender_id content s (err e, t) = Lists s.db.dm_messages t

insert_dm_message-Inserts :
    (c : DmConversationRow) (sender_id content : String) (s : Store)
    → Inserts c sender_id content s (insert_dm_message c.id sender_id content s)
unfolding insert_dm_message insert_dm_message_sql statement
insert_dm_message-Inserts c sender_id content s = elim (Bool-cases (s.server.fails s.statements)) [
  | inl down ↦ rw down refl
  | inr up ↦
      rw up (ends _ _ (record { conversation = refl; sender = refl; text = refl; next = refl }))
]
  where
    ends :
        (b : Bool) (row : DmMessageRow)
        → IsSent c sender_id content s.db.next_seq row
        → Inserts c sender_id content s (
            finish s (
              insert_if b row (record s.db {
                dm_messages = s.db.dm_messages ++ row ∷ [];
                next_seq = suc s.db.next_seq;
              })))
    ends true row i = (i, refl)
    ends false row i = refl

insert_dm_attachments-Lists :
    (ms : List DmMessageRow) (rows : List AttachmentRow) (s : Store)
    → Lists ms s
    → Lists ms (insert_dm_attachments rows s).1
unfolding insert_dm_attachments insert_dm_attachment_sql statement
insert_dm_attachments-Lists ms [] s h = h
insert_dm_attachments-Lists ms (a ∷ rows) s h =
    after_row-Lists ms (insert_dm_attachments rows) _ (insert_dm_attachments-Lists ms rows)
      (insert_one s h)
  where
    insert_one : (s : Store) → Lists ms s → Lists ms (statement (insert_dm_attachment_sql a) s).1
    insert_one s h = ground arith

    after_row-Lists :
        (ms : List DmMessageRow) (rest : Exec Store DbError (Unit {0}))
        (r : Result DbError (Unit {0}) × Store)
        → ((t : Store) → Lists ms t → Lists ms (rest t).1)
        → Lists ms r.1
        → Lists ms (after_row rest r).1
    after_row-Lists ms rest (ok u, t) k h = k t h
    after_row-Lists ms rest (err e, t) k h = h

send_dm_created-Lists :
    (ms : List DmMessageRow) (event : DmCreated) (nats : Option (ℕ → Bool)) (s : UserService)
    → Lists ms s.store
    → Lists ms (send_dm_created event nats s).store
unfolding send_dm_created
send_dm_created-Lists ms event none s h = h
send_dm_created-Lists ms event (some takes) s h = ground arith

inserted_none :
    (c : DmConversationRow) (sender_id content : String) (s : Store)
    (r : Result DbError DmMessageRow × Store) (e : DbError)
    → Inserts c sender_id content s r
    → r.0 ≡ err e
    → Lists s.db.dm_messages r.1
inserted_none c sender_id content s (ok row, t) e i h = cc
inserted_none c sender_id content s (err f, t) e i h = i

inserted_row :
    (c : DmConversationRow) (sender_id content : String) (s : Store)
    (r : Result DbError DmMessageRow × Store) (row : DmMessageRow)
    → Inserts c sender_id content s r
    → r.0 ≡ ok row
    → IsSent c sender_id content s.db.next_seq row × Lists (s.db.dm_messages ++ row ∷ []) r.1
inserted_row c sender_id content s (ok other, t) row i h =
    let same : other ≡ row = ground arith in
    subst (λ x. IsSent c sender_id content s.db.next_seq x × Lists (s.db.dm_messages ++ x ∷ []) t)
      same i
inserted_row c sender_id content s (err e, t) row i h = cc

-- The tables keep their messages and the next seq where a conversation is opened.
opened_messages :
    (small big : String) (db : Database) (r : Result DbError DmConversationRow × Store)
    → Opens small big db r
    → (r.1.db.dm_messages ≡ db.dm_messages) × (r.1.db.next_seq ≡ db.next_seq)
opened_messages small big db (ok c, t) (p, inl (h, same)) =
    (ap (λ d. d.dm_messages) same, ap (λ d. d.next_seq) same)
opened_messages small big db (ok c, t) (p, inr (h, same)) =
    (ap (λ d. d.dm_messages) same, ap (λ d. d.next_seq) same)
opened_messages small big db (err e, t) same =
    (ap (λ d. d.dm_messages) same, ap (λ d. d.next_seq) same)

opened_pair :
    (small big : String) (db : Database) (r : Result DbError DmConversationRow × Store)
    (c : DmConversationRow)
    → Opens small big db r
    → r.0 ≡ ok c
    → is_pair small big c ≡ true
opened_pair small big db (ok d, t) c o h = ground arith
opened_pair small big db (err e, t) c o h = cc

send_dm_created-events :
    (event : DmCreated) (nats : Option (ℕ → Bool)) (s : UserService)
    → (send_dm_created event nats s).events ≡ s.events ++ announced event nats s.publishes
unfolding send_dm_created
send_dm_created-events event none s = sym (append-nil s.events)
send_dm_created-events event (some takes) s = elim (Bool-cases (takes s.publishes)) [
  | inl y ↦ rw y refl
  | inr n ↦ rw n (sym (append-nil s.events))
]

abbrev on_store_after : {A : Type 0} → Exec Store DbError A → UserService → UserService
on_store_after m s = record s { store = (m s.store).1 }

-- What SendDM does after its checks.
pub delivers :
    (caller_id target content : String) (file_ids : List String) (s : UserService)
    (P : Result Code DmMessage × UserService → Type 0)
    → ((t : UserService)
        → Lists s.store.db.dm_messages t.store
        → t.events ≡ s.events
        → P (err internal, t))
    → ((c : DmConversationRow) (row : DmMessageRow) (t : UserService)
        → is_pair (lower caller_id target) (upper caller_id target) c ≡ true
        → IsSent c caller_id content s.store.db.next_seq row
        → Lists (s.store.db.dm_messages ++ row ∷ []) t.store
        → t.events
          ≡ s.events ++ announced (dm_created row caller_id target c.id content) s.nats s.publishes
        → P (ok (to_dm_message row), t))
    → P (
        (do
          conversation ← or_fail internal (on_store (get_or_create_conversation caller_id target))
          message ←
              or_fail internal (on_store (insert_dm_message conversation.id caller_id content))
          _ ← attempt (on_store (insert_dm_attachments (map (dm_attachment message.id) file_ids)))
          publish_dm_created (dm_created message caller_id target conversation.id content)
          pure (to_dm_message message))
          s)
unfolding publish_dm_created
delivers caller_id target content file_ids s P bad good =
    let opens = on_store (get_or_create_conversation caller_id target) in
    let s' = (opens s).1 in
    let opened = get_or_create_conversation-Opens caller_id target s.store in
    let (messages, next) =
      opened_messages (lower caller_id target) (upper caller_id target) s.store.db _ opened in
    after_failing P internal opens _ s (bad s' messages refl) λ c found.
      let inserts = on_store (insert_dm_message c.id caller_id content) in
      let inserted = insert_dm_message-Inserts c caller_id content s'.store in
      let pair =
        opened_pair (lower caller_id target) (upper caller_id target) s.store.db _ c opened found in
      after_outcome P internal inserts _ s'
        (λ e lost.
          bad (inserts s').1
            (inserted_none c caller_id content s'.store _ e inserted lost ∙ messages) refl)
        λ row done.
          let (sent, listed) = inserted_row c caller_id content s'.store _ row inserted done in
          let files = map (dm_attachment row.id) file_ids in
          let s2 = (inserts s').1 in
          let s3 = on_store_after (insert_dm_attachments files) s2 in
          let event = dm_created row caller_id target c.id content in
          good c row (send_dm_created event s3.nats s3) pair
            (record {
              conversation = sent.conversation;
              sender = sent.sender;
              text = sent.text;
              next = sent.next ∙ next;
            })
            (send_dm_created-Lists _ event s3.nats s3 (
              insert_dm_attachments-Lists _ files s2.store
                (listed ∙ ap (λ ms. ms ++ row ∷ []) messages)))
            (send_dm_created-events event s3.nats s3)
