-- ===== src/User/Running.antt =====
-- The requests to the user service, one after another, and what holds after any of them.
use constell.Prelude.{
  ℕ, String, inl, inr, Bool, Option, none, some, List, [], ◌∷◌, Bool-cases, ◌==◌, nat_eq, string_eq,
  ℤ,
}
use constell.Prelude.Exec.{Result, ok, err, Exec}
use constell.Prelude.Exec.Keeps.{Keeps, keeps_rules}
use constell.Rpc.{PaginationRequest}
use constell.Sql.{DbError}
use constell.Sql.Keeps.{Has, Keeps-statement, Keeps-query, insert_if-OkHas}
use constell.User.Rows.{AttachmentRow, Store}
use constell.User.Invariant.{
  IsConsistent, insert_dm_message-Keeps, get_or_create_conversation-Keeps,
}
use constell.User.Repository.Profiles.{
  get_user_by_id, update_user_profile, update_user_profile_sql, list_friends,
}
use constell.User.Repository.Conversations.{TimeCursor, get_dm_conversations}
use constell.User.Repository.Messages.{
  dm_page_before, get_dm_history, get_dm_messages_since, insert_dm_attachment_sql,
  insert_dm_attachments, after_row,
}
use constell.Prelude.Decimal.{parse_int}
use constell.User.Service.State.{UserService, new_user_service}
use constell.User.Service.Profiles.{get_user_handler, update_profile_handler, list_friends_handler}
use constell.User.Service.Conversations.{
  TimePage, send_dm_handler, read_dms, get_dm_history_handler, get_dm_conversations_handler,
}
use constell.User.Wiring.{
  IsRunning, on_store-Keeps, invalidate_user-Keeps, publish_dm_created-Keeps, cached_user-Keeps,
  cached_relation-Keeps, new_user_service-Runs,
}

get_user_by_id-Keeps : (user_id : String) → Keeps (Has IsConsistent) (get_user_by_id user_id)
unfolding get_user_by_id
get_user_by_id-Keeps user_id = Keeps-query IsConsistent _

update_user_profile-Keeps :
    (user_id nickname avatar_url status_message : String)
    → Keeps (Has IsConsistent) (update_user_profile user_id nickname avatar_url status_message)
unfolding update_user_profile update_user_profile_sql
update_user_profile-Keeps user_id nickname avatar_url status_message =
    Keeps-statement IsConsistent _ λ now id db h. record {
      ordered = h.ordered;
      single = h.single;
      by_seq = h.by_seq;
      fresh = h.fresh;
    }

list_friends-Keeps :
    (user_id : String) (limit : ℕ) (cursor : String)
    → Keeps (Has IsConsistent) (list_friends user_id limit cursor)
unfolding list_friends
list_friends-Keeps user_id limit cursor = Keeps-query IsConsistent _

get_dm_conversations-Keeps :
    (user_id : String) (limit : ℕ) (before : TimeCursor)
    → Keeps (Has IsConsistent) (get_dm_conversations user_id limit before)
unfolding get_dm_conversations
get_dm_conversations-Keeps user_id limit before = Keeps-query IsConsistent _

dm_page_before-Keeps :
    (conversation_id : String) (limit : ℕ) (o : Option ℤ)
    → Keeps (Has IsConsistent) (dm_page_before conversation_id limit o)
unfolding dm_page_before
dm_page_before-Keeps conversation_id limit none = record { at = λ s h. h }
dm_page_before-Keeps conversation_id limit (some seq) = record {
  at = λ s h. (Keeps-query IsConsistent _).at s h;
}

get_dm_history-Keeps :
    (conversation_id : String) (limit : ℕ) (cursor : String)
    → Keeps (Has IsConsistent) (get_dm_history conversation_id limit cursor)
unfolding get_dm_history
get_dm_history-Keeps conversation_id limit cursor = elim (Bool-cases (cursor == "")) [
  | inl y ↦ rw y (Keeps-query IsConsistent _)
  | inr n ↦ rw n (dm_page_before-Keeps conversation_id limit (parse_int cursor))
]

get_dm_messages_since-Keeps :
    (conversation_id : String) (since_seq limit : ℕ)
    → Keeps (Has IsConsistent) (get_dm_messages_since conversation_id since_seq limit)
unfolding get_dm_messages_since
get_dm_messages_since-Keeps conversation_id since_seq limit = Keeps-query IsConsistent _

after_row-Has :
    (rest : Exec Store DbError (Unit {0})) (r : Result DbError (Unit {0}) × Store)
    → Keeps (Has IsConsistent) rest
    → Has IsConsistent r.1
    → Has IsConsistent (after_row rest r).1
after_row-Has rest (ok u, s) k h = k.at s h
after_row-Has rest (err e, s) k h = h

insert_dm_attachments-Keeps :
    (rows : List AttachmentRow) → Keeps (Has IsConsistent) (insert_dm_attachments rows)
unfolding insert_dm_attachments insert_dm_attachment_sql
insert_dm_attachments-Keeps [] = record { at = λ s h. h }
insert_dm_attachments-Keeps (a ∷ rest) = record {
  at = λ s h. after_row-Has (insert_dm_attachments rest) _ (insert_dm_attachments-Keeps rest) (
      (Keeps-statement IsConsistent (insert_dm_attachment_sql a) λ now id db c.
          insert_if-OkHas IsConsistent _ _ _ λ _. record {
            ordered = c.ordered;
            single = c.single;
            by_seq = c.by_seq;
            fresh = c.fresh;
          }).at
        s h);
}

ruleset dm_rules = (
  keeps_rules, on_store-Keeps, invalidate_user-Keeps, publish_dm_created-Keeps, cached_user-Keeps,
  cached_relation-Keeps, get_user_by_id-Keeps, update_user_profile-Keeps, list_friends-Keeps,
  get_dm_conversations-Keeps, get_dm_history-Keeps, get_dm_messages_since-Keeps,
  insert_dm_attachments-Keeps, insert_dm_message-Keeps, get_or_create_conversation-Keeps,
)

get_user_handler-Keeps : (user_id : String) → Keeps IsRunning (get_user_handler user_id)
unfolding get_user_handler
get_user_handler-Keeps user_id = search dm_rules depth 24

update_profile_handler-Keeps :
    (caller_id nickname avatar_url status_message : String)
    → Keeps IsRunning (update_profile_handler caller_id nickname avatar_url status_message)
unfolding update_profile_handler
update_profile_handler-Keeps caller_id nickname avatar_url status_message =
    search dm_rules depth 24 fits 4000

list_friends_handler-Keeps :
    (caller_id : String) (page : Option PaginationRequest)
    → Keeps IsRunning (list_friends_handler caller_id page)
unfolding list_friends_handler
list_friends_handler-Keeps caller_id page = search dm_rules depth 24

send_dm_handler-Keeps :
    (caller_id target_user_id content : String) (file_ids : List String)
    → Keeps IsRunning (send_dm_handler caller_id target_user_id content file_ids)
unfolding send_dm_handler
send_dm_handler-Keeps caller_id target_user_id content file_ids = search dm_rules depth 40 fits 8000

read_dms-Keeps :
    (conversation_id : String) (since_seq : ℤ) (page : Option PaginationRequest)
    → Keeps IsRunning (read_dms conversation_id since_seq page)
unfolding read_dms
read_dms-Keeps conversation_id since_seq page = search dm_rules depth 24

get_dm_history_handler-Keeps :
    (caller_id target_user_id : String) (since_seq : ℤ) (page : Option PaginationRequest)
    → Keeps IsRunning (get_dm_history_handler caller_id target_user_id since_seq page)
unfolding get_dm_history_handler
get_dm_history_handler-Keeps caller_id target_user_id since_seq page =
    search (dm_rules, read_dms-Keeps) depth 24 fits 4000

get_dm_conversations_handler-Keeps :
    (caller_id : String) (page : Option TimePage)
    → Keeps IsRunning (get_dm_conversations_handler caller_id page)
unfolding get_dm_conversations_handler
get_dm_conversations_handler-Keeps caller_id page = search dm_rules depth 24

-- A request, with the user whom the interceptor found.
pub data UserRequest : Type 0 where
  gets_user : String → UserRequest
  updates_profile : String → String → String → String → UserRequest
  lists_friends : String → Option PaginationRequest → UserRequest
  sends_dm : String → String → String → List String → UserRequest
  gets_dm_history : String → String → ℤ → Option PaginationRequest → UserRequest
  gets_dm_conversations : String → Option TimePage → UserRequest

-- What a request makes of the service; the answer is left out.
unfoldable pub answer : UserRequest → UserService → UserService
unfolding get_user_handler update_profile_handler list_friends_handler send_dm_handler
    get_dm_history_handler get_dm_conversations_handler
answer (gets_user id) s = (get_user_handler id s).1
answer (updates_profile u nickname avatar_url status) s =
    (update_profile_handler u nickname avatar_url status s).1
answer (lists_friends u page) s = (list_friends_handler u page s).1
answer (sends_dm u target content files) s = (send_dm_handler u target content files s).1
answer (gets_dm_history u target since page) s = (get_dm_history_handler u target since page s).1
answer (gets_dm_conversations u page) s = (get_dm_conversations_handler u page s).1

unfoldable pub answer_all : List UserRequest → UserService → UserService
unfolding answer
answer_all [] s = s
answer_all (r ∷ rs) s = answer_all rs (answer r s)

answer-IsRunning : (r : UserRequest) (s : UserService) → IsRunning s → IsRunning (answer r s)
unfolding answer
answer-IsRunning (gets_user id) s h = (get_user_handler-Keeps id).at s h
answer-IsRunning (updates_profile u nickname avatar_url status) s h =
    (update_profile_handler-Keeps u nickname avatar_url status).at s h
answer-IsRunning (lists_friends u page) s h = (list_friends_handler-Keeps u page).at s h
answer-IsRunning (sends_dm u target content files) s h =
    (send_dm_handler-Keeps u target content files).at s h
answer-IsRunning (gets_dm_history u target since page) s h =
    (get_dm_history_handler-Keeps u target since page).at s h
answer-IsRunning (gets_dm_conversations u page) s h =
    (get_dm_conversations_handler-Keeps u page).at s h

answer_all-Keeps :
    (rs : List UserRequest) (s : UserService) → IsRunning s → IsRunning (answer_all rs s)
unfolding answer_all
answer_all-Keeps [] s h = h
answer_all-Keeps (r ∷ rs) s h = answer_all-Keeps rs (answer r s) (answer-IsRunning r s h)

-- From consistent tables, after any sequence of requests to the six handlers of a new user
-- service, whatever statements and publications fail, every conversation is between two users in
-- the order of their ids, no pair of users has two conversations, and the messages stand by
-- ascending seq below the next one.
pub answer_all-IsConsistent :
    (store : Store) (capacity : ℤ) (nats : Option (ℕ → Bool)) (rs : List UserRequest)
    → IsConsistent store.db
    → IsConsistent (answer_all rs (new_user_service store capacity nats)).store.db
answer_all-IsConsistent store capacity nats rs h =
    (answer_all-Keeps rs (new_user_service store capacity nats)
      (new_user_service-Runs IsConsistent store capacity nats h)).store
