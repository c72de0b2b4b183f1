-- ===== src/Examples/Search.antt =====
-- Two messages in two communities, of which the caller has joined one.
use constell.Prelude.{◌≡◌, refl, String, false, [], ◌∷◌, ◌==◌, nat_eq, string_eq, map, pos, leb}
use Prim.Native.Char.{code}
use constell.Sql.{Store}
use constell.Search.{
  MessageRow, MessageSearchResult, SearchTables, TextSearch, search_handler, search_limit,
  search_channel_messages_sql,
}
use constell.Search.Seeing.{Sees, search_handler-Sees}

-- Vectors that match their own text.
abbrev same_text : TextSearch String
same_text = record {
  is_letter_or_digit = λ c. leb 97 (code c);
  matches = λ q v. q == v;
  rank = λ q v. 1;
}

abbrev message : String → String → MessageRow String
message id channel_id = record {
  id = id;
  channel_id = channel_id;
  author_id = "w";
  content = "hi";
  created_at = 1500000;
  search_vector = "hi:*";
}

abbrev tables : SearchTables String
tables = record {
  users = [];
  channels =
      (record { id = "x"; community_id = "c" }) ∷ (record { id = "y"; community_id = "d" }) ∷ [];
  community_members = (record { community_id = "c"; user_id = "u" }) ∷ [];
  channel_messages = message "m" "x" ∷ message "n" "y" ∷ [];
  dm_conversations = [];
  dm_messages = [];
  communities = [];
}

abbrev store : Store (SearchTables String)
store = record {
  server = record { fails = λ n. false; uuid = λ n. "x"; now = λ n. 0 };
  statements = 0;
  db = tables;
}

search_handler-Sees_example :
    Sees "u" (search_limit (pos 5)) store (search_handler same_text "u" "hi" (pos 5) [] store)
search_handler-Sees_example = search_handler-Sees same_text "u" "hi" (pos 5) [] store

joined_only :
    map
      (λ (r : MessageSearchResult). r.id)
      (search_channel_messages_sql same_text "hi:*" "u" 5 tables)
    ≡ "m" ∷ []
unfolding search_channel_messages_sql
joined_only = refl
