-- ===== src/User/Listing.antt =====
-- The pages of `GetDMConversations` of backend/services/user-service/repository.go.
use constell.Prelude.{
  ℕ, String, ◌≡◌, refl, false, List, [], ◌∷◌, arith, ◌==◌, nat_eq, string_eq, keep, All,
}
use constell.Sql.{query}
use constell.User.Rows.{DmConversationRow, Database, Store}
use constell.User.Repository.Conversations.{
  no_cursor, older_than, selected, get_dm_conversations_sql, get_dm_conversations,
}

-- The user stands second in no conversation.
abbrev pub FirstInAll : String → Database → Type 0
FirstInAll user_id db =
    All (λ (c : DmConversationRow). (c.user_b_id == user_id) ≡ false) db.dm_conversations

keep-selected :
    (user_id : String) (time : ℕ) (cs : List DmConversationRow)
    → All (λ c. (c.user_b_id == user_id) ≡ false) cs
    → keep (selected user_id (older_than time)) cs ≡ keep (selected user_id no_cursor) cs
unfolding selected
keep-selected user_id time [] h = refl
keep-selected user_id time (c ∷ cs) h = ground (arith, h, keep-selected user_id time cs h.1)

-- For a user who stands second in no conversation, GetDMConversations with any time as its cursor
-- returns what it returns without a cursor, so that the next page is the first page again.
pub get_dm_conversations_stuck :
    (user_id : String) (limit time : ℕ) (s : Store)
    → FirstInAll user_id s.db
    → get_dm_conversations user_id limit (older_than time) s
      ≡ get_dm_conversations user_id limit no_cursor s
unfolding get_dm_conversations get_dm_conversations_sql query
get_dm_conversations_stuck user_id limit time s h =
    rw (keep-selected user_id time s.db.dm_conversations h) refl
