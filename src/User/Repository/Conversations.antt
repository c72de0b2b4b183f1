-- ===== src/User/Repository/Conversations.antt =====
-- The statements on conversations of backend/services/user-service/repository.go.
use constell.Prelude.{
  ℕ, ◌+◌, String, Bool, not, ◌&&◌, ◌||◌, Option, none, some, List, [], ◌∷◌, ◌++◌, ltb, leb,
  if◌then◌else◌, ◌==◌, nat_eq, string_eq, length, take, get_elem?, keep, find, any,
}
use constell.Prelude.Exec.{Result, ok, err, Exec}
use constell.Prelude.Order.{less}
use constell.Sql.{DbError, no_rows, failed, statement, query, first_row, insert_if, order_by}
use constell.User.Rows.{DmConversationRow, Database, Store, user_exists}

abbrev pub is_pair : String → String → DmConversationRow → Bool
is_pair small big c = c.user_a_id == small && c.user_b_id == big

unfoldable pub select_conversation_sql :
    String → String → Database → Result DbError DmConversationRow
select_conversation_sql small big db = first_row (find (is_pair small big) db.dm_conversations)

-- The keys and the checks of dm_conversations.
unfoldable pub insert_conversation_sql :
    String → String → ℕ → String → Database → Result DbError (DmConversationRow × Database)
insert_conversation_sql small big now id db =
    let row : DmConversationRow = record {
      id = id;
      user_a_id = small;
      user_b_id = big;
      created_at = now;
    } in
    insert_if
      (user_exists small db
        && user_exists big db
        && less small big
        && not (any (is_pair small big) db.dm_conversations)
        && not (any (λ (c : DmConversationRow). c.id == id) db.dm_conversations))
      row (record db { dm_conversations = db.dm_conversations ++ row ∷ [] })

-- What follows the SELECT: a row is returned, no row leads to the INSERT, another error is passed on.
unfoldable pub found_or_insert :
    String
    → String
    → Result DbError DmConversationRow × Store
    → Result DbError DmConversationRow × Store
unfolding insert_conversation_sql
found_or_insert small big (ok c, s) = (ok c, s)
found_or_insert small big (err no_rows, s) = statement (insert_conversation_sql small big) s
found_or_insert small big (err e, s) = (err e, s)

unfoldable pub get_or_create : String → String → Exec Store DbError DmConversationRow
unfolding select_conversation_sql found_or_insert
get_or_create small big s = found_or_insert small big (query (select_conversation_sql small big) s)

-- GetOrCreateConversation: the users by the order of their ids.
unfoldable pub get_or_create_conversation : String → String → Exec Store DbError DmConversationRow
unfolding get_or_create
get_or_create_conversation user_a_id user_b_id =
    if less user_b_id user_a_id
    then get_or_create user_b_id user_a_id
    else get_or_create user_a_id user_b_id

-- A cursor of GetDMConversations: an empty text, the text of a time, or one that the server refuses
-- as a time.
pub data TimeCursor : Type 0 where
  no_cursor malformed : TimeCursor
  older_than : ℕ → TimeCursor

-- The conditions of the statement. AND binds more tightly than OR: the cursor restricts only the
-- second of the two conditions on users.
unfoldable pub selected : String → TimeCursor → DmConversationRow → Bool
selected user_id (older_than time) c =
    c.user_a_id == user_id || (c.user_b_id == user_id && ltb c.created_at time)
selected user_id _ c = c.user_a_id == user_id || c.user_b_id == user_id

-- The next cursor is the time of the row behind the page.
abbrev pub peek_cursor : Option DmConversationRow → TimeCursor
peek_cursor none = no_cursor
peek_cursor (some c) = older_than c.created_at

unfoldable pub conversations_page : ℕ → List DmConversationRow → List DmConversationRow × TimeCursor
conversations_page limit rows =
    if ltb limit (length rows)
    then (take limit rows, peek_cursor (get_elem? rows limit))
    else (rows, no_cursor)

unfoldable pub get_dm_conversations_sql :
    String → ℕ → TimeCursor → Database → Result DbError (List DmConversationRow × TimeCursor)
unfolding selected order_by conversations_page
get_dm_conversations_sql user_id limit malformed db = err failed
get_dm_conversations_sql user_id limit before db = ok (
    conversations_page limit (
      take (limit + 1) (
        order_by (λ a b. leb b.created_at a.created_at)
          (keep (selected user_id before) db.dm_conversations))))

-- GetDMConversations
unfoldable pub get_dm_conversations :
    String → ℕ → TimeCursor → Exec Store DbError (List DmConversationRow × TimeCursor)
unfolding get_dm_conversations_sql
get_dm_conversations user_id limit before = query (get_dm_conversations_sql user_id limit before)
