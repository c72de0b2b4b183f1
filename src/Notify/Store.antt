-- ===== src/Notify/Store.antt =====
-- backend/services/notify-service/store.go on the tables that it reads and writes. A thread is a
-- channel or a DM conversation: the statements on the two differ only in their tables.
use constell.Prelude.{
  ℕ, suc, ◌%◌, ◌^◌, max, String, Bool, ◌&&◌, ◌||◌, List, [], ◌∷◌, ltb, if◌then◌else◌, ◌==◌, nat_eq,
  string_eq, any, contains,
}
use constell.Prelude.Exec.{ok, err, Exec}

-- channel_messages and dm_messages, as the counts see them
pub record Posted : Type 0 where
  pub thread_id : String
  pub seq : ℕ

-- channel_read_state and dm_read_state
pub record ReadState : Type 0 where
  pub user_id : String
  pub thread_id : String
  pub last_read_seq : ℕ

pub record Channel : Type 0 where
  pub id : String
  pub community_id : String

pub record Membership : Type 0 where
  pub community_id : String
  pub user_id : String

pub record Conversation : Type 0 where
  pub id : String
  pub user_a_id : String
  pub user_b_id : String

-- user_relations
pub record Relation : Type 0 where
  pub user_id : String
  pub target_user_id : String
  pub type : String

pub record Tables : Type 0 where
  pub users : List String
  pub channels : List Channel
  pub community_members : List Membership
  pub channel_messages : List Posted
  pub channel_read_state : List ReadState
  pub dm_conversations : List Conversation
  pub dm_messages : List Posted
  pub dm_read_state : List ReadState
  pub user_relations : List Relation

-- The store: whether the n-th statement fails, the count of statements, and the tables.
pub record Store : Type 0 where
  pub fails : ℕ → Bool
  pub statements : ℕ
  pub tables : Tables

pub data StoreError : Type 0 where
  failed : StoreError
  constraint : StoreError

pub record UnreadChannel : Type 0 where
  pub channel_id : String
  pub community_id : String
  pub count : ℕ

pub record UnreadDm : Type 0 where
  pub conversation_id : String
  pub peer_id : String
  pub count : ℕ

-- An upsert, whose foreign keys must be there.
unfoldable pub exec : (Tables → Bool) → (Tables → Tables) → Exec Store StoreError (Unit {0})
exec valid change s =
    if s.fails s.statements
    then (err failed, record s { statements = suc s.statements })
    else if valid s.tables
    then (ok tt, record s { statements = suc s.statements; tables = change s.tables })
    else (err constraint, record s { statements = suc s.statements })

abbrev pub channel_state_ok : String → String → Tables → Bool
channel_state_ok user_id channel_id t =
    contains user_id t.users && any (λ (c : Channel). c.id == channel_id) t.channels

abbrev pub dm_state_ok : String → String → Tables → Bool
dm_state_ok user_id conv_id t =
    contains user_id t.users && any (λ (c : Conversation). c.id == conv_id) t.dm_conversations

unfoldable pub query : {A : Type 0} → (Tables → A) → Exec Store StoreError A
query rows s =
    if s.fails s.statements
    then (err failed, record s { statements = suc s.statements })
    else (ok (rows s.tables), record s { statements = suc s.statements })

-- COALESCE(max(seq), 0) of a thread
unfoldable pub max_seq : String → List Posted → ℕ
max_seq thread_id [] = 0
max_seq thread_id (m ∷ ms) =
    if m.thread_id == thread_id then max m.seq (max_seq thread_id ms) else max_seq thread_id ms

abbrev pub is_state : String → String → ReadState → Bool
is_state user_id thread_id r = r.user_id == user_id && r.thread_id == thread_id

-- INSERT … ON CONFLICT DO UPDATE SET last_read_seq = GREATEST(…)
unfoldable pub advance : String → String → ℕ → List ReadState → List ReadState
advance user_id thread_id seq [] =
    (record { user_id = user_id; thread_id = thread_id; last_read_seq = seq }) ∷ []
advance user_id thread_id seq (r ∷ rs) =
    if is_state user_id thread_id r
    then (record r { last_read_seq = max r.last_read_seq seq }) ∷ rs
    else r ∷ advance user_id thread_id seq rs

-- COALESCE(rs.last_read_seq, 0) after the LEFT JOIN
unfoldable pub last_read : String → String → List ReadState → ℕ
last_read user_id thread_id [] = 0
last_read user_id thread_id (r ∷ rs) =
    if is_state user_id thread_id r then r.last_read_seq else last_read user_id thread_id rs

-- The count of the messages of a thread past a seq
unfoldable pub count_past : String → ℕ → List Posted → ℕ
count_past thread_id seq [] = 0
count_past thread_id seq (m ∷ ms) =
    if m.thread_id == thread_id && ltb seq m.seq
    then suc (count_past thread_id seq ms)
    else count_past thread_id seq ms

-- MarkChannelRead, MarkDMRead, AdvanceChannelRead, AdvanceDMRead
unfoldable pub mark_channel_read : String → String → Exec Store StoreError (Unit {0})
unfolding advance max_seq
mark_channel_read user_id channel_id = exec (channel_state_ok user_id channel_id) λ t. record t {
  channel_read_state =
      advance user_id channel_id (max_seq channel_id t.channel_messages) t.channel_read_state;
}

unfoldable pub mark_dm_read : String → String → Exec Store StoreError (Unit {0})
unfolding advance max_seq
mark_dm_read user_id conv_id = exec (dm_state_ok user_id conv_id) λ t. record t {
  dm_read_state = advance user_id conv_id (max_seq conv_id t.dm_messages) t.dm_read_state;
}

unfoldable pub advance_channel_read : String → String → ℕ → Exec Store StoreError (Unit {0})
unfolding advance
advance_channel_read user_id channel_id seq =
    exec (channel_state_ok user_id channel_id)
      λ t. record t { channel_read_state = advance user_id channel_id seq t.channel_read_state }

unfoldable pub advance_dm_read : String → String → ℕ → Exec Store StoreError (Unit {0})
unfolding advance
advance_dm_read user_id conv_id seq =
    exec (dm_state_ok user_id conv_id)
      λ t. record t { dm_read_state = advance user_id conv_id seq t.dm_read_state }

-- int32(unread), as its bits
abbrev pub int32 : ℕ → ℕ
int32 n = n % 2 ^ 32

abbrev pub unread_in_channel : String → String → Tables → ℕ
unread_in_channel user_id channel_id t =
    count_past channel_id (last_read user_id channel_id t.channel_read_state) t.channel_messages

abbrev pub unread_in_dm : String → String → Tables → ℕ
unread_in_dm user_id conv_id t =
    count_past conv_id (last_read user_id conv_id t.dm_read_state) t.dm_messages

abbrev pub is_joined : String → Tables → Channel → Bool
is_joined user_id t c =
    any (λ (m : Membership). m.community_id == c.community_id && m.user_id == user_id)
      t.community_members

unfoldable pub unread_channels : String → Tables → List Channel → List UnreadChannel
unfolding count_past last_read
unread_channels user_id t [] = []
unread_channels user_id t (c ∷ cs) =
    let rest : List UnreadChannel = unread_channels user_id t cs in
    let unread : ℕ = unread_in_channel user_id c.id t in
    if is_joined user_id t c && ltb 0 unread
    then (record { channel_id = c.id; community_id = c.community_id; count = int32 unread }) ∷ rest
    else rest

-- GetUnreadChannels; (community_id, user_id) is the key of the members, so the join gives a channel
-- once.
unfoldable pub get_unread_channels : String → Exec Store StoreError (List UnreadChannel)
unfolding unread_channels
get_unread_channels user_id = query λ t. unread_channels user_id t t.channels

unfoldable pub unread_dms : String → Tables → List Conversation → List UnreadDm
unfolding count_past last_read
unread_dms user_id t [] = []
unread_dms user_id t (c ∷ cs) =
    let rest : List UnreadDm = unread_dms user_id t cs in
    let unread : ℕ = unread_in_dm user_id c.id t in
    let peer : String = if c.user_a_id == user_id then c.user_b_id else c.user_a_id in
    if (c.user_a_id == user_id || c.user_b_id == user_id) && ltb 0 unread
    then (record { conversation_id = c.id; peer_id = peer; count = int32 unread }) ∷ rest
    else rest

-- GetUnreadDMs
unfoldable pub get_unread_dms : String → Exec Store StoreError (List UnreadDm)
unfolding unread_dms
get_unread_dms user_id = query λ t. unread_dms user_id t t.dm_conversations
