-- ===== src/Search/Seeing.antt =====
-- What the response of a search shows to the caller.
use constell.Prelude.{
  ℕ, suc, ◌≤◌, String, ◌≡◌, refl, sym, subst, inl, inr, Bool, true, false, List, [], arith,
  Bool-cases, ◌==◌, nat_eq, string_eq, length, All, ℤ,
}
use constell.Prelude.Exec.{Result, ok, err, Exec, continue}
use constell.Prelude.Exec.Ends.{after_check}
use constell.Rpc.{Code, unauthenticated, invalid_argument, internal}
use constell.Sql.{Store, query}
use constell.Search.{
  SearchResponse, SearchTables, SearchType, TextSearch, UserSearchResult, is_searched,
  search_channel_messages_sql, search_communities_sql, search_dm_messages_sql, search_handler,
  search_if, search_limit, search_users_sql, tsquery, users, messages, dm_messages, communities,
}
use constell.Search.Ranking.{length-best}
use constell.Search.Access.{
  CanReadMessage, CanReadDm, IsPublic, dm_messages-CanReadDm, communities-IsPublic,
  messages-CanRead,
}

module _ {V : Type 0} where
  -- What a response shows, by the tables: messages of the caller's communities and conversations and
  -- public communities, of each kind no more than the limit.
  pub record Shows (user_id : String) (limit : ℕ) (db : SearchTables V) (r : SearchResponse)
      : Type 0 where
    pub messages : All (CanReadMessage user_id db) r.messages
    pub dms : All (CanReadDm user_id db) r.dm_messages
    pub communities : All (IsPublic db) r.communities
    pub lengths :
        (length r.users ≤ limit)
        × (length r.messages ≤ limit)
        × (length r.dm_messages ≤ limit)
        × (length r.communities ≤ limit)

  -- How Search ends; it never changes the tables.
  abbrev pub Sees :
      String
      → ℕ
      → Store (SearchTables V)
      → Result Code SearchResponse × Store (SearchTables V)
      → Type 0
  Sees user_id limit s (ok r, t) = (t.db ≡ s.db) × Shows user_id limit s.db r
  Sees user_id limit s (err e, t) = t.db ≡ s.db

module _ {V : Type 0} (text : TextSearch V) where
  -- A search of tables `db` before what follows it.
  after_search :
      {A : Type 0} (P : List A → Type 0)
      (Q : Result Code SearchResponse × Store (SearchTables V) → Type 0) (db : SearchTables V)
      (b : Bool) (sql : SearchTables V → List A)
      (k : List A → Exec (Store (SearchTables V)) Code SearchResponse) (s : Store (SearchTables V))
      → s.db ≡ db
      → P []
      → P (sql db)
      → ((t : Store (SearchTables V)) → t.db ≡ db → Q (err internal, t))
      → ((xs : List A) → P xs → (t : Store (SearchTables V)) → t.db ≡ db → Q (k xs t))
      → Q (continue (search_if text b sql s) k)
  unfolding query
  after_search P Q db false sql k s same nothing found bad good = good [] nothing s same
  after_search P Q db true sql k s same nothing found bad good =
      elim (Bool-cases (s.server.fails s.statements)) [
        | inl down ↦ rw down (bad (record s { statements = suc s.statements }) same)
        | inr up ↦ rw up (
            good (sql s.db) (subst (λ d. P (sql d)) (sym same) found)
              (record s { statements = suc s.statements }) same)
      ]

  abbrev Limited : {A : Type 0} → (A → Type 0) → ℕ → List A → Type 0
  Limited P n xs = All P xs × (length xs ≤ n)

  users-Limited :
      (tsq : String) (n : ℕ) (db : SearchTables V) → length (search_users_sql text tsq n db) ≤ n
  unfolding search_users_sql
  users-Limited tsq n db = search length-best

  messages-Limited :
      (tsq u : String) (n : ℕ) (db : SearchTables V)
      → Limited (CanReadMessage u db) n (search_channel_messages_sql text tsq u n db)
  unfolding search_channel_messages_sql
  messages-Limited tsq u n db = (messages-CanRead text tsq u n db, search length-best)

  dms-Limited :
      (tsq u : String) (n : ℕ) (db : SearchTables V)
      → Limited (CanReadDm u db) n (search_dm_messages_sql text tsq u n db)
  unfolding search_dm_messages_sql
  dms-Limited tsq u n db = (dm_messages-CanReadDm text tsq u n db, search length-best)

  communities-Limited :
      (tsq u : String) (n : ℕ) (db : SearchTables V)
      → Limited (IsPublic db) n (search_communities_sql text tsq u n db)
  unfolding search_communities_sql
  communities-Limited tsq u n db = (communities-IsPublic text tsq u n db, search length-best)

  -- Where Search answers, each channel message is of a channel of a community of which the caller
  -- is a member, each direct message is of a conversation of the caller with the peer that the
  -- result names, each community is public, and of each kind there are no more results than the
  -- limit. Search never changes the tables.
  pub search_handler-Sees :
      (caller_id q : String) (limit : ℤ) (types : List SearchType) (s : Store (SearchTables V))
      → Sees caller_id (search_limit limit) s (search_handler text caller_id q limit types s)
  unfolding search_handler
  search_handler-Sees caller_id q limit types s =
      let n = search_limit limit in
      let tsq = tsquery text q in
      let db = s.db in
      let Q = Sees caller_id n s in
      after_check Q (caller_id == "") unauthenticated _ s (λ _. refl)
        λ _.
          after_check Q (q == "") invalid_argument _ s (λ _. refl)
            λ _.
              after_search (λ (us : List UserSearchResult). length us ≤ n) Q db
                (is_searched types users) (search_users_sql text tsq n) _ s refl (omega arith)
                (users-Limited tsq n db) (λ t same. same)
                λ us few_users t1 same1.
                  after_search (Limited (CanReadMessage caller_id db) n) Q db
                    (is_searched types messages) (search_channel_messages_sql text tsq caller_id n)
                    _ t1 same1 (tt, omega arith) (messages-Limited tsq caller_id n db)
                    (λ t same. same)
                    λ ms found_ms t2 same2.
                      after_search (Limited (CanReadDm caller_id db) n) Q db
                        (is_searched types dm_messages)
                        (search_dm_messages_sql text tsq caller_id n) _ t2 same2 (tt, omega arith)
                        (dms-Limited tsq caller_id n db) (λ t same. same)
                        λ ds found_ds t3 same3.
                          after_search (Limited (IsPublic db) n) Q db
                            (is_searched types communities)
                            (search_communities_sql text tsq caller_id n) _ t3 same3
                            (tt, omega arith) (communities-Limited tsq caller_id n db)
                            (λ t same. same)
                            λ cs found_cs t4 same4. (
                              same4,
                              record {
                                messages = found_ms.0;
                                dms = found_ds.0;
                                communities = found_cs.0;
                                lengths = (few_users, found_ms.1, found_ds.1, found_cs.1);
                              },
                            )
