-- ===== src/Examples/User.antt =====
-- Direct messages between two users, one of whom blocks a third.
use constell.Prelude.{
  String, ◌≡◌, refl, ◌↔◌, true, false, ◌||◌, none, some, [], ◌∷◌, eqb, if◌then◌else◌, nat_eq,
  string_eq, pos,
}
use constell.Prelude.Exec.{ok, err}
use constell.Prelude.Text.{trim_space, has_char}
use constell.Prelude.Order.{less}
use constell.Rpc.{permission_denied}
use constell.Sql.{Server, query, statement}
use constell.User.Rows.{UserRow, DmConversationRow, Store}
use constell.User.Invariant.{IsConsistent}
use constell.User.Repository.Conversations.{
  no_cursor, older_than, get_or_create_conversation, get_dm_conversations, get_or_create,
  found_or_insert, select_conversation_sql, insert_conversation_sql,
}
use constell.User.Pairs.{get_or_create_conversation_agrees}
use constell.User.Listing.{get_dm_conversations_stuck}
use constell.User.Service.State.{UserService, new_user_service}
use constell.GroupCache.Lru.{new_lru_cache}
use constell.User.Service.Caches.{new_relation_cache}
use constell.User.Service.Conversations.{send_dm_handler}
use constell.User.Wiring.{IsRunning, new_user_service-Runs}
use constell.User.Sending.{Sends, send_dm_handler-Sends}
use constell.User.Blocking.{blocks, send_dm_handler-blocks}
use constell.User.Running.{sends_dm, gets_dm_history, answer_all, answer_all-IsConsistent}

abbrev pub server : Server
server = record { fails = λ n. false; uuid = λ n. if eqb n 3 then "d" else "m"; now = λ n. n }

abbrev pub user_row : String → UserRow
user_row id = record {
  id = id;
  email = "";
  nickname = id;
  avatar_url = "";
  status_message = "";
  created_at = 0;
  updated_at = 0;
}

abbrev pub store : Store
store = record {
  server = server;
  statements = 3;
  db = record {
    users = user_row "u" ∷ user_row "v" ∷ user_row "w" ∷ [];
    files = [];
    user_relations =
        (record { user_id = "v"; target_user_id = "w"; type = "blocked"; created_at = 0 }) ∷ [];
    dm_conversations = [];
    dm_messages = [];
    attachments = [];
    next_seq = 1;
  };
}

store-IsConsistent : IsConsistent store.db
store-IsConsistent = record { ordered = tt; single = tt; by_seq = tt; fresh = tt }

abbrev pub service : UserService
service = new_user_service store (pos 100) (some (λ n. true))

pub service-IsRunning : IsRunning service
service-IsRunning =
    new_user_service-Runs IsConsistent store (pos 100) (some (λ n. true)) store-IsConsistent

answer_all-IsConsistent_example :
    IsConsistent
      (answer_all
        (sends_dm "v" "u" "hello" [] ∷ gets_dm_history "u" "v" (pos 0) none ∷ [])
        service).store.db
answer_all-IsConsistent_example =
    answer_all-IsConsistent store (pos 100) (some (λ n. true))
      (sends_dm "v" "u" "hello" [] ∷ gets_dm_history "u" "v" (pos 0) none ∷ []) store-IsConsistent

send_dm_handler-Sends_example :
    Sends "v"
      (trim_space " u ")
      (trim_space "hello")
      service
      (send_dm_handler "v" " u " "hello" [] service)
send_dm_handler-Sends_example = send_dm_handler-Sends "v" " u " "hello" [] service service-IsRunning

send_dm_handler-blocks_example :
    ((send_dm_handler "w" "v" "hello" [] service).0 ≡ err permission_denied) ↔ (
      (blocks (trim_space "v") "w" service.store.db || blocks "w" (trim_space "v") service.store.db)
      ≡ true)
unfolding trim_space has_char new_user_service new_relation_cache new_lru_cache
send_dm_handler-blocks_example =
    send_dm_handler-blocks "w" "v" "hello" [] service service-IsRunning (λ n. refl) tt refl refl
      refl refl refl

abbrev conversation : DmConversationRow
conversation = record { id = "d"; user_a_id = "u"; user_b_id = "v"; created_at = 3 }

abbrev opened : Store
opened = record store {
  statements = 5;
  db = record store.db { dm_conversations = conversation ∷ [] };
}

opens :
    get_or_create_conversation "v" "u" (record store { statements = 2 })
    ≡ (ok conversation, record opened { statements = 4 })
unfolding get_or_create_conversation get_or_create found_or_insert select_conversation_sql
    insert_conversation_sql query statement less
opens = refl

get_or_create_conversation_agrees_example :
    (get_or_create_conversation "v" "u" (record opened { statements = 4 })
      ≡ (ok conversation, opened))
    × (get_or_create_conversation "u" "v" (record opened { statements = 4 })
        ≡ (ok conversation, opened))
get_or_create_conversation_agrees_example =
    get_or_create_conversation_agrees "v" "u" (record store { statements = 2 })
      (record opened { statements = 4 }) conversation store-IsConsistent opens refl

get_dm_conversations_stuck_example :
    get_dm_conversations "u" 1 (older_than 3) opened ≡ get_dm_conversations "u" 1 no_cursor opened
get_dm_conversations_stuck_example = get_dm_conversations_stuck "u" 1 3 opened (refl, tt)
