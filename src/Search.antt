-- ===== src/Search.antt =====
-- backend/services/search-service: repository.go and service.go. PostgreSQL's text search is a
-- parameter: whether a vector of type `V` matches a query, and its rank.
pub mod Rows
pub mod Terms
pub mod Ranking
pub mod Access
pub mod Seeing
pub use constell.Search.Rows.{
  UserRow, ChannelRow, MemberRow, MessageRow, ConversationRow, DmRow, CommunityRow, SearchTables,
  UserSearchResult, MessageSearchResult, DmMessageSearchResult, CommunitySearchResult,
}
use constell.Prelude.{
  ℕ, zero, suc, ◌+◌, ◌-◌, ◌*◌, ◌/◌, ◌%◌, ◌^◌, ◌≤◌, ◌<◌, min, max, String, ◌≡◌, refl, sym, ap, subst,
  ◌∙◌, ◌≢◌, ◌↔◌, ◌⊎◌, inl, inr, Bool, true, false, not, ◌&&◌, ◌||◌, Option, none, some, List, [],
  ◌∷◌, ◌++◌, map, arith, eq_iff, ltb, leb, eqb, if◌then◌else◌, ltb→lt, lt→ltb, le→ltb, eqb_iff,
  Bool-cases, Option-cases, Comparable, ◌==◌, nat_eq, string_eq, equal_refl, eq_of_equal, length,
  take, drop, get_elem?, keep, find, any, All, length-append, length-take, take-append-drop,
  take-of_le, take-length-append, drop-length-append, length-keep-le, All-map, All-keep, contains,
  Distinct, All-append, All-keep_with, any-append_left, any-keep, bit_and, bit_or, bit_xor,
  is_positive, ne_of_unequal, negsuc, pos, take-take, to_ℕ, ℤ, equal_sym,
}
use Prim.Native.Char.{Char}
use constell.Prelude.Exec.{Result, ok, err, Exec, pure, ◌>>=◌, ◌>>◌, or_fail, reject_if}
use constell.Rpc.{Code, unauthenticated, invalid_argument, internal}
use constell.Sql.{DbError, Store, query, order_by}
use constell.Search.Terms.{prefix_tsquery}

pub record TextSearch (V : Type 0) : Type 0 where
  pub is_letter_or_digit : Char → Bool
  pub matches : String → V → Bool
  pub rank : String → V → ℕ

abbrev pub or_empty : Option String → String
or_empty none = ""
or_empty (some s) = s

-- EXTRACT(EPOCH FROM t)::bigint, which rounds
abbrev pub epoch : ℕ → ℕ
epoch t = (t + 500000) / 1000000

unfoldable pub flat_map {ℓ ℓ'} : {A : Type ℓ} {B : Type ℓ'} → (A → List B) → List A → List B
flat_map f [] = []
flat_map f (x ∷ xs) = f x ++ flat_map f xs

-- ORDER BY relevance DESC LIMIT limit
unfoldable pub best {ℓ} : {A : Type ℓ} → (A → ℕ) → ℕ → List A → List A
unfolding order_by
best relevance limit rows = take limit (order_by (λ a b. leb (relevance b) (relevance a)) rows)

module _ {V : Type 0} (text : TextSearch V) where
  abbrev pub tsquery : String → String
  unfolding prefix_tsquery
  tsquery q = prefix_tsquery text.is_letter_or_digit q

  -- SearchUsers
  unfoldable pub search_users_sql : String → ℕ → SearchTables V → List UserSearchResult
  unfolding best
  search_users_sql tsq limit db =
      best (λ (r : UserSearchResult). r.relevance) limit
        (map
          (λ (u : UserRow V). record {
            id = u.id;
            nickname = u.nickname;
            avatar_url = or_empty u.avatar_url;
            relevance = text.rank tsq u.search_vector;
          })
          (keep (λ u. text.matches tsq u.search_vector) db.users))

  abbrev pub message_result : String → MessageRow V → ChannelRow → MessageSearchResult
  message_result tsq m c = record {
    id = m.id;
    channel_id = m.channel_id;
    community_id = c.community_id;
    author_id = m.author_id;
    content = m.content;
    created_at = epoch m.created_at;
    relevance = text.rank tsq m.search_vector;
  }

  -- The rows that one message makes with its channel and the membership of the user.
  abbrev pub message_rows :
      String → String → SearchTables V → MessageRow V → List MessageSearchResult
  unfolding flat_map
  message_rows tsq user_id db m =
      flat_map
        (λ (c : ChannelRow).
          map (λ (mb : MemberRow). message_result tsq m c)
            (keep (λ mb. mb.community_id == c.community_id && mb.user_id == user_id)
              db.community_members))
        (keep (λ c. c.id == m.channel_id) db.channels)

  -- SearchChannelMessages
  unfoldable pub search_channel_messages_sql :
      String → String → ℕ → SearchTables V → List MessageSearchResult
  unfolding best flat_map message_rows
  search_channel_messages_sql tsq user_id limit db =
      best (λ (r : MessageSearchResult). r.relevance) limit
        (flat_map (message_rows tsq user_id db)
          (keep (λ (m : MessageRow V). text.matches tsq m.search_vector) db.channel_messages))

  abbrev pub dm_result : String → String → DmRow V → ConversationRow → DmMessageSearchResult
  dm_result tsq user_id m c = record {
    id = m.id;
    conversation_id = m.conversation_id;
    peer_id = if c.user_a_id == user_id then c.user_b_id else c.user_a_id;
    content = m.content;
    created_at = epoch m.created_at;
    relevance = text.rank tsq m.search_vector;
  }

  abbrev pub dm_rows : String → String → SearchTables V → DmRow V → List DmMessageSearchResult
  dm_rows tsq user_id db m = map (dm_result tsq user_id m) (
      keep
        (λ (c : ConversationRow).
          c.id == m.conversation_id && (c.user_a_id == user_id || c.user_b_id == user_id))
        db.dm_conversations)

  -- SearchDMMessages
  unfoldable pub search_dm_messages_sql :
      String → String → ℕ → SearchTables V → List DmMessageSearchResult
  unfolding best flat_map
  search_dm_messages_sql tsq user_id limit db =
      best (λ (r : DmMessageSearchResult). r.relevance) limit
        (flat_map (dm_rows tsq user_id db)
          (keep (λ (m : DmRow V). text.matches tsq m.search_vector) db.dm_messages))

  abbrev pub community_result :
      String → String → SearchTables V → CommunityRow V → CommunitySearchResult
  community_result tsq user_id db c = record {
    id = c.id;
    name = c.name;
    icon_url = or_empty c.icon_url;
    description = or_empty c.description;
    member_count = length (keep (λ (m : MemberRow). m.community_id == c.id) db.community_members);
    joined =
        any (λ (m : MemberRow). m.community_id == c.id && m.user_id == user_id)
          db.community_members;
    relevance = text.rank tsq c.search_vector;
  }

  -- SearchCommunities
  unfoldable pub search_communities_sql :
      String → String → ℕ → SearchTables V → List CommunitySearchResult
  unfolding best
  search_communities_sql tsq user_id limit db =
      best (λ (r : CommunitySearchResult). r.relevance) limit
        (map (community_result tsq user_id db) (
          keep (λ (c : CommunityRow V). c.is_public && text.matches tsq c.search_vector)
            db.communities))

pub data SearchType : Type 0 where
  unspecified users messages dm_messages communities : SearchType

-- The numbers of the types in proto/search/v1.
abbrev pub type_number : SearchType → ℕ
type_number unspecified = 0
type_number users = 1
type_number messages = 2
type_number dm_messages = 3
type_number communities = 4

-- containsType
unfoldable pub contains_type : List SearchType → SearchType → Bool
contains_type [] t = false
contains_type (v ∷ vs) t =
    let rest = contains_type vs t in eqb (type_number v) (type_number t) || rest

abbrev pub is_searched : List SearchType → SearchType → Bool
unfolding contains_type
is_searched types t = eqb (length types) 0 || contains_type types t

unfoldable pub search_limit : ℤ → ℕ
search_limit limit = if is_positive limit then to_ℕ limit else 10

pub record SearchResponse : Type 0 where
  pub users : List UserSearchResult
  pub messages : List MessageSearchResult
  pub dm_messages : List DmMessageSearchResult
  pub communities : List CommunitySearchResult

module _ {V : Type 0} (text : TextSearch V) where
  -- One of the four searches, if its type is asked for; any error is internal.
  abbrev pub search_if :
      {A : Type 0} → Bool → (SearchTables V → List A) → Exec (Store (SearchTables V)) Code (List A)
  search_if true sql = or_fail internal (query (λ db. ok (sql db)))
  search_if false sql = pure []

  -- Search; the four searches run one after another, in one of the orders that the code may take.
  unfoldable pub search_handler :
      String → String → ℤ → List SearchType → Exec (Store (SearchTables V)) Code SearchResponse
  unfolding search_limit is_searched tsquery search_users_sql search_channel_messages_sql
      search_dm_messages_sql search_communities_sql
  search_handler caller_id q limit types = do
    reject_if (caller_id == "") unauthenticated
    reject_if (q == "") invalid_argument
    found_users ←
        search_if (is_searched types users)
          (search_users_sql text (tsquery text q) (search_limit limit))
    found_messages ←
        search_if (is_searched types messages)
          (search_channel_messages_sql text (tsquery text q) caller_id (search_limit limit))
    found_dms ←
        search_if (is_searched types dm_messages)
          (search_dm_messages_sql text (tsquery text q) caller_id (search_limit limit))
    found_communities ←
        search_if (is_searched types communities)
          (search_communities_sql text (tsquery text q) caller_id (search_limit limit))
    pure (record {
      users = found_users;
      messages = found_messages;
      dm_messages = found_dms;
      communities = found_communities;
    })
