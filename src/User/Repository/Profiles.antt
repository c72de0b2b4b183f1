-- ===== src/User/Repository/Profiles.antt =====
-- The statements on profiles and relations of backend/services/user-service/repository.go.
use constell.Prelude.{
  ℕ, ◌+◌, String, Bool, not, ◌&&◌, ◌||◌, Option, List, [], ◌∷◌, if◌then◌else◌, ◌==◌, nat_eq,
  string_eq, take, keep, find, any,
}
use constell.Prelude.Exec.{Result, ok, Exec}
use constell.Prelude.Order.{less}
use constell.Sql.{DbError, statement, query, first_row, insert_if, update_where, order_by, page_of}
use constell.User.Rows.{UserRow, RelationRow, Database, Store, user_exists}

-- GetUserByID
unfoldable pub get_user_by_id : String → Exec Store DbError UserRow
get_user_by_id user_id = query (λ db. first_row (find (λ (u : UserRow). u.id == user_id) db.users))

-- UpdateUserProfile
unfoldable pub update_user_profile_sql :
    String
    → String
    → String
    → String
    → ℕ
    → String
    → Database
    → Result DbError ((Unit {0}) × Database)
update_user_profile_sql user_id nickname avatar_url status_message now id db = ok (
  tt,
  record db {
    users =
        update_where (λ u. u.id == user_id)
          (λ u. record u {
            nickname = nickname;
            avatar_url = avatar_url;
            status_message = status_message;
            updated_at = now;
          })
          db.users;
  },
)

unfoldable pub update_user_profile :
    String → String → String → String → Exec Store DbError (Unit {0})
unfolding update_user_profile_sql
update_user_profile user_id nickname avatar_url status_message =
    statement (update_user_profile_sql user_id nickname avatar_url status_message)

abbrev pub is_relation : String → String → RelationRow → Bool
is_relation user_id target_user_id r = r.user_id == user_id && r.target_user_id == target_user_id

-- GetRelation: none where there is no row.
unfoldable pub get_relation : String → String → Exec Store DbError (Option RelationRow)
get_relation user_id target_user_id =
    query (λ db. ok (find (is_relation user_id target_user_id) db.user_relations))

-- ON CONFLICT (user_id, target_user_id) DO UPDATE SET type
unfoldable pub upsert_relation : RelationRow → List RelationRow → List RelationRow
upsert_relation row [] = row ∷ []
upsert_relation row (r ∷ rs) =
    if is_relation row.user_id row.target_user_id r
    then (record r { type = row.type }) ∷ rs
    else r ∷ upsert_relation row rs

-- CreateRelation, under the checks of user_relations.
unfoldable pub create_relation_sql :
    String → String → String → ℕ → String → Database → Result DbError ((Unit {0}) × Database)
unfolding upsert_relation
create_relation_sql user_id target_user_id type now id db =
    let row : RelationRow = record {
      user_id = user_id;
      target_user_id = target_user_id;
      type = type;
      created_at = now;
    } in
    insert_if
      (user_exists user_id db
        && user_exists target_user_id db
        && (type == "friend" || type == "blocked")
        && not (user_id == target_user_id))
      tt (record db { user_relations = upsert_relation row db.user_relations })

unfoldable pub create_relation : String → String → String → Exec Store DbError (Unit {0})
unfolding create_relation_sql
create_relation user_id target_user_id type =
    statement (create_relation_sql user_id target_user_id type)

-- DeleteRelation
unfoldable pub delete_relation_sql :
    String → String → ℕ → String → Database → Result DbError ((Unit {0}) × Database)
delete_relation_sql user_id target_user_id now id db = ok (
  tt,
  record db {
    user_relations = keep (λ r. not (is_relation user_id target_user_id r)) db.user_relations;
  },
)

unfoldable pub delete_relation : String → String → Exec Store DbError (Unit {0})
unfolding delete_relation_sql
delete_relation user_id target_user_id = statement (delete_relation_sql user_id target_user_id)

-- user_relations r JOIN users u ON u.id = r.target_user_id, where the user's friends are asked for
unfoldable pub friends_of : String → Database → List UserRow
friends_of user_id db =
    keep
      (λ u.
        any (λ (r : RelationRow). is_relation user_id u.id r && r.type == "friend")
          db.user_relations)
      db.users

abbrev pub user_key : UserRow → String
user_key u = u.id

-- ListFriends
unfoldable pub list_friends : String → ℕ → String → Exec Store DbError (List UserRow × String)
unfolding friends_of order_by page_of
list_friends user_id limit cursor = query (λ db. ok (
    page_of user_key limit (
      take (limit + 1) (
        order_by (λ a b. not (less b.id a.id))
          (keep (λ u. cursor == "" || less cursor u.id) (friends_of user_id db))))))
