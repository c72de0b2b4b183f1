-- ===== src/User/Blocking.antt =====
-- The keys of the relation cache of backend/services/user-service/cache.go, and how the blocks in the
-- tables decide `SendDM`.
use constell.Prelude.{
  ℕ, String, ◌≡◌, refl, sym, ap, ◌∙◌, ◌≢◌, ◌↔◌, Bool, true, false, ◌||◌, Option, none, some, List,
  arith, ◌==◌, nat_eq, string_eq, find,
}
use constell.Prelude.Exec.{Result, ok, err}
use constell.Prelude.Exec.Ends.{after_check, after_outcome}
use constell.Prelude.Text.{trim_space, join, utf8, drop_chars, has_char, split_at-join}
use constell.GroupCache.Lru.View.{view}
use constell.GroupCache.Cache.{CacheError, filled}
use constell.GroupCache.Cache.Wired.{IsWired, get-IsWired}
use constell.GroupCache.Cache.Agreement.{Agrees, get-Agrees}
use constell.Rpc.{Code, unauthenticated, invalid_argument, internal, permission_denied}
use constell.Sql.{query}
use constell.User.Rows.{RelationRow, Database, Store}
use constell.User.Repository.Profiles.{is_relation, get_relation}
use constell.User.Wiring.{IsRunning}
use constell.User.Delivery.{delivers}
use constell.User.Service.Caches.{
  FillError, relation_key, split_relation_key, fill_parts, fill_relation,
}
use constell.User.Service.State.{UserService, cached_relation, fetched}
use constell.User.Service.Conversations.{DmMessage, is_blocked, send_dm_handler}

-- about0
pub split_relation_key-relation_key :
    (user_id target_user_id : String)
    → has_char 58 user_id ≡ false
    → split_relation_key (relation_key user_id target_user_id) ≡ some (user_id, target_user_id)
unfolding split_relation_key drop_chars join
split_relation_key-relation_key user_id target_user_id h =
    split_at-join user_id target_user_id ":" h

-- The row of a relation, by the users or by its key.
abbrev pub relation_of : String → String → Database → Option RelationRow
relation_of user_id target_user_id db = find (is_relation user_id target_user_id) db.user_relations

abbrev pub relation_in : Database → Option (String × String) → Option RelationRow
relation_in db none = none
relation_in db (some (user_id, target_user_id)) = relation_of user_id target_user_id db

unfoldable pub relation_at : Database → String → Option RelationRow
relation_at db key = relation_in db (split_relation_key key)

-- The server answers, and the tables are `db`.
record Answers (db : Database) (s : Store) : Type 0 where
  up : (n : ℕ) → s.server.fails n ≡ false
  tables : s.db ≡ db

fill_relation-Answers :
    (db : Database) (k : String) (w : Store) → Answers db w → Answers db (fill_relation k w).1
unfolding fill_relation fill_parts get_relation query
fill_relation-Answers db k w h = ends (split_relation_key k)
  where
    ends : (o : Option (String × String)) → Answers db (fill_parts o w).1
    ends none = h
    ends (some (user_id, target_user_id)) =
        rw (h.up w.statements) (record { up = h.up; tables = h.tables })

fill_relation_lem :
    (user_id target_user_id : String) (db : Database) (w : Store)
    → has_char 58 user_id ≡ false
    → Answers db w
    → (fill_relation (relation_key user_id target_user_id) w).0
      ≡ filled (relation_at db (relation_key user_id target_user_id))
unfolding fill_relation fill_parts get_relation query relation_at
fill_relation_lem user_id target_user_id db w h a =
    rw (split_relation_key-relation_key user_id target_user_id h, a.up w.statements, a.tables) refl

-- A service whose cache of relations agrees with the tables.
record IsCurrent (db : Database) (s : UserService) : Type 0 where
  answers : Answers db s.store
  wired : IsWired fill_relation s.relations
  agrees : Agrees (relation_at db) (view s.relations.lru)

module _ (user_id target_user_id : String) (db : Database) (s : UserService)
    (no_colon : has_char 58 user_id ≡ false) (h : IsCurrent db s) where
  cached_relation-IsCurrent : IsCurrent db (cached_relation user_id target_user_id s).1
  unfolding cached_relation
  cached_relation-IsCurrent =
      let key = relation_key user_id target_user_id in
      let (wired, answers) =
        get-IsWired (Answers db) fill_relation utf8 (fill_relation-Answers db) key s.relations
          s.store h.wired h.answers in
      let filled = fill_relation_lem user_id target_user_id db s.store no_colon h.answers in
      record {
        answers = answers;
        wired = wired;
        agrees =
            (get-Agrees (relation_at db) fill_relation utf8 key s.relations s.store h.wired h.agrees
              filled).1;
      }

  cached_relation_lem :
      (cached_relation user_id target_user_id s).0 ≡ ok (relation_of user_id target_user_id db)
  unfolding cached_relation relation_at
  cached_relation_lem =
      let key = relation_key user_id target_user_id in
      let filled = fill_relation_lem user_id target_user_id db s.store no_colon h.answers in
      ap fetched
        (get-Agrees (relation_at db) fill_relation utf8 key s.relations s.store h.wired h.agrees
          filled).0
      ∙ ap (λ o. ok (relation_in db o))
          (split_relation_key-relation_key user_id target_user_id no_colon)

-- Whether the first user blocks the second.
abbrev pub blocks : String → String → Database → Bool
blocks user_id target_user_id db = is_blocked (relation_of user_id target_user_id db)

blocked_alike :
    (a b : Option RelationRow) (r : Result (CacheError FillError) (Option RelationRow))
    → r ≡ ok a
    → r ≡ ok b
    → is_blocked a ≡ is_blocked b
blocked_alike a b (ok o) p q =
    let left : o ≡ a = ground arith in
    let right : o ≡ b = ground arith in ap is_blocked (sym left ∙ right)
blocked_alike a b (err e) p q = cc

abbrev Answer : Type 0
Answer = Result Code DmMessage

refused_by : (b : Bool) (r : Answer) → b ≡ true → (r ≡ r) ↔ (b ≡ true)
refused_by b r h = ((λ _. h), (λ _. refl))

not_refused :
    (b : Bool) (r : Answer)
    → b ≡ false
    → r ≢ err permission_denied
    → (r ≡ err permission_denied) ↔ (b ≡ true)
not_refused b r h n = ((λ p. absurd (n p)), (λ p. cc))

-- Where the database answers, the cache of relations agrees with the tables, caller, trimmed
-- target and trimmed content are given and the ids of both users have no colon, SendDM refuses
-- with permission_denied exactly when one of the two users blocks the other.
pub send_dm_handler-blocks :
    (caller_id target_user_id content : String) (file_ids : List String) (s : UserService)
    → IsRunning s
    → ((n : ℕ) → s.store.server.fails n ≡ false)
    → Agrees (relation_at s.store.db) (view s.relations.lru)
    → (caller_id == "") ≡ false
    → (trim_space target_user_id == "") ≡ false
    → (trim_space content == "") ≡ false
    → has_char 58 caller_id ≡ false
    → has_char 58 (trim_space target_user_id) ≡ false
    → ((send_dm_handler caller_id target_user_id content file_ids s).0 ≡ err permission_denied) ↔ (
        (blocks (trim_space target_user_id) caller_id s.store.db
          || blocks caller_id (trim_space target_user_id) s.store.db)
        ≡ true)
unfolding send_dm_handler
send_dm_handler-blocks caller_id target_user_id content file_ids s running up agrees given named
      worded plain plain' =
    let target = trim_space target_user_id in
    let text = trim_space content in
    let db = s.store.db in
    let P = λ (r : Result Code DmMessage × UserService).
      (r.0 ≡ err permission_denied)
      ↔ ((blocks target caller_id db || blocks caller_id target db) ≡ true) in
    let current : IsCurrent db s = record {
      answers = record { up = up; tables = refl };
      wired = running.relations;
      agrees = agrees;
    } in
    let s1 = (cached_relation target caller_id s).1 in
    let asked = cached_relation-IsCurrent target caller_id db s plain' current in
    let theirs_is = cached_relation_lem target caller_id db s plain' current in
    let ours_is = cached_relation_lem caller_id target db s1 plain asked in
    let s2 = (cached_relation caller_id target s1).1 in
    after_check P (caller_id == "") unauthenticated _ s (λ p. cc)
      λ _.
        after_check P (target == "") invalid_argument _ s (λ p. cc)
          λ _.
            after_check P (text == "") invalid_argument _ s (λ p. cc)
              λ _.
                after_outcome P internal (cached_relation target caller_id) _ s (λ e p. cc)
                  λ theirs read.
                    let first : is_blocked theirs ≡ blocks target caller_id db =
                      blocked_alike theirs _ _ read theirs_is in
                    after_check P (is_blocked theirs) permission_denied _ s1
                      (λ y. refused_by _ _ (ground (arith, y, first)))
                      λ free.
                        after_outcome P internal (cached_relation caller_id target) _ s1 (λ e p. cc)
                          λ ours read'.
                            let second : is_blocked ours ≡ blocks caller_id target db =
                              blocked_alike ours _ _ read' ours_is in
                            after_check P (is_blocked ours) permission_denied _ s2
                              (λ y. refused_by _ _ (ground (arith, y, second, free, first)))
                              λ free'.
                                let none_blocks : (blocks target caller_id db
                                      || blocks caller_id target db)
                                    ≡ false =
                                  ground (arith, free, free', first, second) in
                                delivers caller_id target text file_ids s2 P
                                  (λ t _ _. not_refused _ (err internal) none_blocks λ p. cc)
                                  λ c row t _ _ _ _. not_refused _ (ok _) none_blocks λ p. cc
