-- ===== src/Community/Repository/Communities.antt =====
-- The statements on communities of backend/services/community-service/repository.go.
use constell.Prelude.{
  ℕ, ◌+◌, String, Bool, true, not, ◌&&◌, ◌||◌, Option, none, some, List, [], ◌∷◌, ◌++◌, ◌==◌,
  nat_eq, string_eq, take, keep, find, any,
}
use text.Mathlib.Text.{is_lt}
use Prim.Native.String.{compare}
use constell.Prelude.Exec.{Result, ok, err, Exec}
use constell.Community.Rows.{CommunityRow, MemberRow}
use constell.Sql.{DbError, no_rows, statement, query, insert_if, update_where, order_by, page_of}
use constell.Community.Database.{CommunityRecord, Database, Store}

abbrev pub text_lt : String → String → Bool
text_lt a b = is_lt (compare a b)

abbrev pub user_exists : String → Database → Bool
user_exists id db = any (λ u. u.id == id) db.users

abbrev pub community_exists : String → Database → Bool
community_exists id db = any (λ c. c.row.id == id) db.communities

abbrev pub find_community : String → Database → Option CommunityRecord
find_community id db = find (λ c. c.row.id == id) db.communities

-- CreateCommunity; is_public is true by default.
unfoldable pub create_community_sql :
    String
    → String
    → String
    → String
    → ℕ
    → String
    → Database
    → Result DbError (CommunityRow × Database)
create_community_sql name description icon_url owner_id now id db =
    let row : CommunityRow = record {
      id = id;
      name = name;
      description = description;
      icon_url = icon_url;
      owner_id = owner_id;
      created_at = now;
      updated_at = now;
    } in
    insert_if (user_exists owner_id db && not (community_exists id db)) row
      (record db { communities = db.communities ++ (record { row = row; is_public = true }) ∷ [] })

unfoldable pub create_community :
    String → String → String → String → Exec Store DbError CommunityRow
unfolding create_community_sql
create_community name description icon_url owner_id =
    statement (create_community_sql name description icon_url owner_id)

abbrev public_of : Option CommunityRecord → Result DbError Bool
public_of none = err no_rows
public_of (some c) = ok c.is_public

-- IsCommunityPublic
unfoldable pub is_community_public : String → Exec Store DbError Bool
is_community_public community_id = query (λ db. public_of (find_community community_id db))

abbrev row_of : Option CommunityRecord → Result DbError CommunityRow
row_of none = err no_rows
row_of (some c) = ok c.row

-- GetCommunity
unfoldable pub get_community : String → Exec Store DbError CommunityRow
get_community community_id = query (λ db. row_of (find_community community_id db))

abbrev updated_row : Option CommunityRecord → Database → Result DbError (CommunityRow × Database)
updated_row none db = err no_rows
updated_row (some c) db = ok (c.row, db)

-- UpdateCommunity
unfoldable pub update_community_sql :
    String
    → String
    → String
    → String
    → ℕ
    → String
    → Database
    → Result DbError (CommunityRow × Database)
update_community_sql community_id name description icon_url now id db =
    let communities : List CommunityRecord =
      update_where (λ c. c.row.id == community_id)
        (λ c. record c {
          row = record c.row {
            name = name;
            description = description;
            icon_url = icon_url;
            updated_at = now;
          };
        })
        db.communities in
    let db' : Database = record db { communities = communities } in
    updated_row (find_community community_id db') db'

unfoldable pub update_community :
    String → String → String → String → Exec Store DbError CommunityRow
unfolding update_community_sql
update_community community_id name description icon_url =
    statement (update_community_sql community_id name description icon_url)

-- DeleteCommunity: the row goes, and by ON DELETE CASCADE all that belongs to it.
unfoldable pub delete_community_sql :
    String → ℕ → String → Database → Result DbError ((Unit {0}) × Database)
delete_community_sql community_id now id db =
    let of_community = λ (channel_id : String).
      any (λ ch. ch.id == channel_id && ch.community_id == community_id) db.channels in
    let of_role = λ (role_id : String).
      any (λ role. role.id == role_id && role.community_id == community_id) db.roles in
    ok (
      tt,
      record db {
        communities = keep (λ c. not (c.row.id == community_id)) db.communities;
        channels = keep (λ ch. not (ch.community_id == community_id)) db.channels;
        members = keep (λ m. not (m.community_id == community_id)) db.members;
        roles = keep (λ r. not (r.community_id == community_id)) db.roles;
        member_roles =
            keep (λ r. not (r.community_id == community_id || of_role r.role_id)) db.member_roles;
        channel_messages = keep (λ m. not (of_community m.channel_id)) db.channel_messages;
      },
    )

unfoldable pub delete_community : String → Exec Store DbError (Unit {0})
unfolding delete_community_sql
delete_community community_id = statement (delete_community_sql community_id)

abbrev rows_of : List CommunityRecord → List CommunityRow
rows_of [] = []
rows_of (c ∷ cs) = c.row ∷ rows_of cs

-- ListCommunitiesByUser; an empty cursor sets no condition.
unfoldable pub list_communities_by_user :
    String → ℕ → String → Exec Store DbError (List CommunityRow × String)
unfolding order_by page_of
list_communities_by_user user_id limit cursor = query (λ db.
    let joined = λ (c : CommunityRecord).
      any (λ (m : MemberRow). m.community_id == c.row.id && m.user_id == user_id) db.members in
    let after = λ (c : CommunityRecord). cursor == "" || text_lt cursor c.row.id in
    let sorted : List CommunityRecord =
      order_by (λ a b. not (text_lt b.row.id a.row.id))
        (keep (λ c. joined c && after c) db.communities) in
    ok (page_of (λ c. c.id) limit (rows_of (take (limit + 1) sorted))))
