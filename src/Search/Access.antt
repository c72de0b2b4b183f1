-- ===== src/Search/Access.antt =====
-- Which rows the statements of a search find for a user.
use constell.Prelude.{
  ℕ, String, ◌≡◌, refl, subst, inl, inr, true, not, ◌&&◌, ◌||◌, map, arith, if◌then◌else◌,
  Bool-cases, ◌==◌, nat_eq, string_eq, equal_refl, eq_of_equal, keep, any, All, All-keep_with,
}
use constell.Search.{
  ChannelRow, CommunityRow, CommunitySearchResult, ConversationRow, DmMessageSearchResult, DmRow,
  MemberRow, MessageRow, MessageSearchResult, SearchTables, TextSearch, community_result, dm_result,
  dm_rows, flat_map, message_result, message_rows, search_channel_messages_sql,
  search_communities_sql, search_dm_messages_sql,
}
use constell.Search.Ranking.{
  All-any, All-best, All-flat_map, All-flat_map_each, All-mapped, any-weaken,
}

module _ {V : Type 0} where
  -- A message of a channel of a community of which the user is a member.
  abbrev pub CanReadMessage : String → SearchTables V → MessageSearchResult → Type 0
  CanReadMessage user_id db r =
      (any (λ (c : ChannelRow). c.id == r.channel_id && c.community_id == r.community_id)
          db.channels
        ≡ true)
      × (any (λ (m : MemberRow). m.community_id == r.community_id && m.user_id == user_id)
            db.community_members
          ≡ true)

  -- A message of a conversation of the user with the peer that the result names.
  abbrev pub CanReadDm : String → SearchTables V → DmMessageSearchResult → Type 0
  CanReadDm user_id db r =
      any
        (λ (c : ConversationRow).
          c.id == r.conversation_id
          && ((c.user_a_id == user_id && c.user_b_id == r.peer_id)
              || (c.user_b_id == user_id && c.user_a_id == r.peer_id)))
        db.dm_conversations
      ≡ true

  abbrev pub IsPublic : SearchTables V → CommunitySearchResult → Type 0
  IsPublic db r = any (λ (c : CommunityRow V). c.id == r.id && c.is_public) db.communities ≡ true

-- The conversation of a result has the user and the peer as its two sides.
two_sides :
    (d c : ConversationRow) (conversation_id user_id : String)
    → (d.id == c.id && (d.user_a_id == c.user_a_id && d.user_b_id == c.user_b_id)) ≡ true
    → (c.id == conversation_id && (c.user_a_id == user_id || c.user_b_id == user_id)) ≡ true
    → let peer_id = if c.user_a_id == user_id then c.user_b_id else c.user_a_id in
      (d.id == conversation_id
        && ((d.user_a_id == user_id && d.user_b_id == peer_id)
            || (d.user_b_id == user_id && d.user_a_id == peer_id)))
      ≡ true
two_sides d c conversation_id user_id same kept =
    let id : d.id ≡ c.id = eq_of_equal d.id c.id (ground (arith, same)) in
    let a : d.user_a_id ≡ c.user_a_id =
      eq_of_equal d.user_a_id c.user_a_id (ground (arith, same)) in
    let b : d.user_b_id ≡ c.user_b_id =
      eq_of_equal d.user_b_id c.user_b_id (ground (arith, same)) in
    elim (Bool-cases (c.user_a_id == user_id)) [
      | inl y ↦
          rw (id, a, b, y, equal_refl c.user_b_id)
            (ground (arith, kept, Bool-cases (c.id == conversation_id)))
      | inr n ↦
          rw (id, a, b, n, equal_refl c.user_a_id)
            (ground (arith, kept, n, Bool-cases (c.id == conversation_id)))
    ]

module _ {V : Type 0} (text : TextSearch V) where
  pub communities-IsPublic :
      (tsq user_id : String) (limit : ℕ) (db : SearchTables V)
      → All (IsPublic db) (search_communities_sql text tsq user_id limit db)
  unfolding search_communities_sql
  communities-IsPublic tsq user_id limit db =
      All-best (IsPublic db) (λ (r : CommunitySearchResult). r.relevance) limit
        (map (community_result text tsq user_id db) (
          keep (λ (c : CommunityRow V). c.is_public && text.matches tsq c.search_vector)
            db.communities))
        (All-mapped (IsPublic db) (community_result text tsq user_id db) _ (
          All-keep_with
            (λ c.
              any (λ (d : CommunityRow V). d.id == c.id && (d.is_public || not c.is_public))
                db.communities
              ≡ true)
            (λ c. IsPublic db (community_result text tsq user_id db c)) _
            (λ c kept found.
              any-weaken (λ (d : CommunityRow V). d.id == c.id && (d.is_public || not c.is_public))
                (λ (d : CommunityRow V). d.id == c.id && d.is_public)
                (λ d h. ground (arith, h, kept, Bool-cases c.is_public, Bool-cases d.is_public)) _
                found)
            db.communities
            (All-any (λ c d. d.id == c.id && (d.is_public || not c.is_public))
              (λ c. ground (arith, equal_refl c.id, Bool-cases c.is_public)) db.communities)))

  pub dm_messages-CanReadDm :
      (tsq user_id : String) (limit : ℕ) (db : SearchTables V)
      → All (CanReadDm user_id db) (search_dm_messages_sql text tsq user_id limit db)
  unfolding search_dm_messages_sql
  dm_messages-CanReadDm tsq user_id limit db =
      All-best (CanReadDm user_id db) (λ (r : DmMessageSearchResult). r.relevance) limit
        (flat_map (dm_rows text tsq user_id db)
          (keep (λ (m : DmRow V). text.matches tsq m.search_vector) db.dm_messages))
        (All-flat_map_each (CanReadDm user_id db) (dm_rows text tsq user_id db)
          (λ m. All-mapped (CanReadDm user_id db) (dm_result text tsq user_id m) _ (
            All-keep_with
              (λ c.
                any
                  (λ (d : ConversationRow).
                    d.id == c.id && (d.user_a_id == c.user_a_id && d.user_b_id == c.user_b_id))
                  db.dm_conversations
                ≡ true)
              (λ c. CanReadDm user_id db (dm_result text tsq user_id m c)) _
              (λ c kept found.
                any-weaken _ _ (λ d same. two_sides d c m.conversation_id user_id same kept) _
                  found)
              db.dm_conversations
              (All-any
                (λ c d. d.id == c.id && (d.user_a_id == c.user_a_id && d.user_b_id == c.user_b_id))
                (λ c. rw (equal_refl c.id, equal_refl c.user_a_id, equal_refl c.user_b_id) refl)
                db.dm_conversations)))
          (keep (λ (m : DmRow V). text.matches tsq m.search_vector) db.dm_messages))

  -- The memberships that the join finds for a channel.
  members-CanRead :
      (tsq user_id : String) (db : SearchTables V) (m : MessageRow V) (c : ChannelRow)
      → any
          (λ (d : ChannelRow). d.id == m.channel_id && d.community_id == c.community_id)
          db.channels
        ≡ true
      → All (CanReadMessage user_id db) (
          map
            (λ (mb : MemberRow). message_result text tsq m c)
            (keep
              (λ (mb : MemberRow). mb.community_id == c.community_id && mb.user_id == user_id)
              db.community_members))
  members-CanRead tsq user_id db m c there =
      All-mapped (CanReadMessage user_id db) (λ (mb : MemberRow). message_result text tsq m c) _
        (All-keep_with
          (λ (mb : MemberRow).
            any (λ (x : MemberRow). x.community_id == mb.community_id && x.user_id == mb.user_id)
              db.community_members
            ≡ true)
          (λ (mb : MemberRow). CanReadMessage user_id db (message_result text tsq m c))
          (λ (mb : MemberRow). mb.community_id == c.community_id && mb.user_id == user_id)
          (λ mb kept found. (
            there,
            subst
                (λ u.
                  any (λ (x : MemberRow). x.community_id == c.community_id && x.user_id == u)
                    db.community_members
                  ≡ true)
                (eq_of_equal mb.user_id user_id (ground (arith, kept)))
                (subst
                  (λ k.
                    any (λ (x : MemberRow). x.community_id == k && x.user_id == mb.user_id)
                      db.community_members
                    ≡ true)
                  (eq_of_equal mb.community_id c.community_id (ground (arith, kept))) found),
          ))
          db.community_members
          (All-any (λ (x y : MemberRow). y.community_id == x.community_id && y.user_id == x.user_id)
            (λ x. rw (equal_refl x.community_id, equal_refl x.user_id) refl) db.community_members))

  message_rows-CanRead :
      (tsq user_id : String) (db : SearchTables V) (m : MessageRow V)
      → All (CanReadMessage user_id db) (message_rows text tsq user_id db m)
  unfolding message_rows
  message_rows-CanRead tsq user_id db m =
      All-flat_map (CanReadMessage user_id db)
        (λ (c : ChannelRow).
          any (λ (d : ChannelRow). d.id == m.channel_id && d.community_id == c.community_id)
            db.channels
          ≡ true)
        _ (λ c there. members-CanRead tsq user_id db m c there)
        (keep (λ (c : ChannelRow). c.id == m.channel_id) db.channels)
        (All-keep_with
          (λ (c : ChannelRow).
            any (λ (d : ChannelRow). d.id == c.id && d.community_id == c.community_id) db.channels
            ≡ true)
          (λ (c : ChannelRow).
            any (λ (d : ChannelRow). d.id == m.channel_id && d.community_id == c.community_id)
              db.channels
            ≡ true)
          (λ (c : ChannelRow). c.id == m.channel_id)
          (λ c kept found.
            subst
              (λ id.
                any (λ (d : ChannelRow). d.id == id && d.community_id == c.community_id) db.channels
                ≡ true)
              (eq_of_equal c.id m.channel_id kept) found)
          db.channels
          (All-any (λ (c d : ChannelRow). d.id == c.id && d.community_id == c.community_id)
            (λ c. rw (equal_refl c.id, equal_refl c.community_id) refl) db.channels))

  pub messages-CanRead :
      (tsq user_id : String) (limit : ℕ) (db : SearchTables V)
      → All (CanReadMessage user_id db) (search_channel_messages_sql text tsq user_id limit db)
  unfolding search_channel_messages_sql
  messages-CanRead tsq user_id limit db =
      All-best (CanReadMessage user_id db) (λ (r : MessageSearchResult). r.relevance) limit
        (flat_map (message_rows text tsq user_id db)
          (keep (λ (m : MessageRow V). text.matches tsq m.search_vector) db.channel_messages))
        (All-flat_map_each (CanReadMessage user_id db) (message_rows text tsq user_id db)
          (message_rows-CanRead tsq user_id db)
          (keep (λ (m : MessageRow V). text.matches tsq m.search_vector) db.channel_messages))
