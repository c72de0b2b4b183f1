-- ===== src/Community/Repository/Invariant.antt =====
-- What every statement of the repository keeps: the messages are listed by ascending seq below the
-- next one, and a role is assigned to members only.
use constell.Prelude.{
  ℕ, suc, ◌<◌, String, ◌≡◌, inl, inr, Bool, true, false, not, List, [], ◌∷◌, ◌++◌, arith,
  Bool-cases, ◌==◌, nat_eq, string_eq, keep, any, All, All-map, All-keep, All-append, ℤ,
}
use constell.Prelude.Exec.{Result, ok, err}
use constell.Prelude.Exec.Keeps.{Keeps}
use constell.Community.Rows.{MemberRow, ChannelMessageRow}
use constell.Sql.{DbError, finish, statement, query, insert_if, update_where}
use constell.Community.Database.{MemberRoleRow, Database, Store}
use constell.Community.Repository.Communities.{
  create_community_sql, update_community_sql, create_community, update_community,
}
use constell.Community.Repository.Channels.{
  create_channel_sql, update_channel_sql, delete_channel_sql, create_channel, update_channel,
  delete_channel,
}
use constell.Community.Repository.Members.{is_row_of}
use constell.Community.Repository.Messages.{
  insert_channel_message_sql, delete_channel_message_sql, insert_channel_message,
  delete_channel_message,
}
use constell.Community.Repository.History.{Ascending, Ascending-keep}

abbrev pub IsAssigned : List MemberRow → MemberRoleRow → Type 0
IsAssigned members r = any (is_row_of r.community_id r.user_id) members ≡ true

pub record IsSound (db : Database) : Type 0 where
  pub ordered : Ascending db.channel_messages
  pub fresh : All (λ m. m.seq < db.next_seq) db.channel_messages
  pub assigned : All (IsAssigned db.members) db.member_roles

abbrev pub HasSound : Store → Type 0
HasSound s = IsSound s.db

abbrev pub OkSound : {A : Type 0} → Result DbError (A × Database) → Type 0
OkSound (ok (a, db)) = IsSound db
OkSound (err e) = Unit {0}

finish-IsSound :
    {A : Type 0} (s : Store) (r : Result DbError (A × Database))
    → HasSound s
    → OkSound r
    → HasSound (finish s r).1
finish-IsSound s (ok (a, db)) h k = record {
  ordered = k.ordered;
  fresh = k.fresh;
  assigned = k.assigned;
}
finish-IsSound s (err e) h k = record {
  ordered = h.ordered;
  fresh = h.fresh;
  assigned = h.assigned;
}

pub statement-Keeps :
    {A : Type 0} (body : ℕ → String → Database → Result DbError (A × Database))
    → ((now : ℕ) (id : String) (db : Database) → IsSound db → OkSound (body now id db))
    → Keeps HasSound (statement body)
unfolding statement
statement-Keeps body k = record {
  at = λ s h. elim (Bool-cases (s.server.fails s.statements)) [
    | inl down ↦ rw down h
    | inr up ↦
        rw up
          (finish-IsSound s _ h (k (s.server.now s.statements) (s.server.uuid s.statements) s.db h))
  ];
}

pub query-Keeps : {A : Type 0} (body : Database → Result DbError A) → Keeps HasSound (query body)
unfolding query
query-Keeps body = record {
  at = λ s h. elim (Bool-cases (s.server.fails s.statements)) [
    | inl down ↦ rw down h
    | inr up ↦ rw up h
  ];
}

pub insert_if-OkSound :
    {A : Type 0} (b : Bool) (a : A) (db : Database) → IsSound db → OkSound (insert_if b a db)
insert_if-OkSound true a db h = h
insert_if-OkSound false a db h = tt

-- The same rows in other tables are no concern of the invariant.
pub create_community-Keeps :
    (name description icon_url owner_id : String)
    → Keeps HasSound (create_community name description icon_url owner_id)
unfolding create_community
create_community-Keeps name description icon_url owner_id =
    statement-Keeps (create_community_sql name description icon_url owner_id)
      λ now id db h. ground arith

pub update_community-Keeps :
    (community_id name description icon_url : String)
    → Keeps HasSound (update_community community_id name description icon_url)
unfolding update_community
update_community-Keeps community_id name description icon_url =
    statement-Keeps (update_community_sql community_id name description icon_url)
      λ now id db h. ground arith

pub create_channel-Keeps :
    (community_id name topic channel_type : String) (position : ℤ)
    → Keeps HasSound (create_channel community_id name topic channel_type position)
unfolding create_channel
create_channel-Keeps community_id name topic channel_type position =
    statement-Keeps (create_channel_sql community_id name topic channel_type position)
      λ now id db h. ground arith

pub update_channel-Keeps :
    (channel_id name topic channel_type : String) (position : ℤ)
    → Keeps HasSound (update_channel channel_id name topic channel_type position)
unfolding update_channel
update_channel-Keeps channel_id name topic channel_type position =
    statement-Keeps (update_channel_sql channel_id name topic channel_type position)
      λ now id db h. ground arith

keep-IsSound :
    (p : ChannelMessageRow → Bool) (db : Database)
    → IsSound db
    → IsSound (record db { channel_messages = keep p db.channel_messages })
keep-IsSound p db h = record {
  ordered = Ascending-keep p db.channel_messages h.ordered;
  fresh = All-keep (λ m. m.seq < db.next_seq) p db.channel_messages h.fresh;
  assigned = h.assigned;
}

pub delete_channel-Keeps : (channel_id : String) → Keeps HasSound (delete_channel channel_id)
unfolding delete_channel
delete_channel-Keeps channel_id = statement-Keeps (delete_channel_sql channel_id) λ now id db h.
    let k = keep-IsSound (λ m. not (m.channel_id == channel_id)) db h in
    record { ordered = k.ordered; fresh = k.fresh; assigned = k.assigned }

pub delete_channel_message-Keeps :
    (message_id : String) → Keeps HasSound (delete_channel_message message_id)
unfolding delete_channel_message
delete_channel_message-Keeps message_id =
    statement-Keeps (delete_channel_message_sql message_id)
      λ now id db h. ground (arith, keep-IsSound (λ m. not (m.id == message_id)) db h)

Ascending-snoc :
    (ms : List ChannelMessageRow) (m : ChannelMessageRow)
    → All (λ n. n.seq < m.seq) ms
    → Ascending ms
    → Ascending (ms ++ m ∷ [])
Ascending-snoc [] m h a = (tt, tt)
Ascending-snoc (n ∷ ns) m h a =
    (All-append (λ k. n.seq < k.seq) ns (m ∷ []) a.0 (h.0, tt), Ascending-snoc ns m h.1 a.1)

pub insert_channel_message-Keeps :
    (channel_id author_id content : String)
    → Keeps HasSound (insert_channel_message channel_id author_id content)
unfolding insert_channel_message
insert_channel_message-Keeps channel_id author_id content =
    statement-Keeps (insert_channel_message_sql channel_id author_id content) λ now id db h.
      insert_if-OkSound _ _ _ (record {
        ordered = Ascending-snoc db.channel_messages _ h.fresh h.ordered;
        fresh =
            All-append (λ n. n.seq < suc db.next_seq) db.channel_messages _
              (All-map (λ (n : ChannelMessageRow) (p : n.seq < db.next_seq). omega arith)
                db.channel_messages h.fresh)
              (omega arith, tt);
        assigned = h.assigned;
      })

-- An update that keeps each seq keeps their order.
module _ (p : ChannelMessageRow → Bool) (f : ChannelMessageRow → ChannelMessageRow)
    (same : (m : ChannelMessageRow) → (f m).seq ≡ m.seq) where
  pub All-update_where :
      (P : ℕ → Type 0) (ms : List ChannelMessageRow)
      → All (λ m. P m.seq) ms
      → All (λ m. P m.seq) (update_where p f ms)
  All-update_where P [] h = tt
  All-update_where P (m ∷ ms) h = elim (Bool-cases (p m)) [
    | inl y ↦ rw y (rw same h.0, All-update_where P ms h.1)
    | inr n ↦ rw n (h.0, All-update_where P ms h.1)
  ]

  pub Ascending-update_where :
      (ms : List ChannelMessageRow) → Ascending ms → Ascending (update_where p f ms)
  Ascending-update_where [] h = tt
  Ascending-update_where (m ∷ ms) h = elim (Bool-cases (p m)) [
    | inl y ↦ rw (y, same) (All-update_where (λ k. m.seq < k) ms h.0, Ascending-update_where ms h.1)
    | inr n ↦ rw n (All-update_where (λ k. m.seq < k) ms h.0, Ascending-update_where ms h.1)
  ]
