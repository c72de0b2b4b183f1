-- ===== src/Community/Repository/Members.antt =====
-- The statements on members of backend/services/community-service/repository.go.
use constell.Prelude.{
  ℕ, ◌+◌, String, Bool, not, ◌&&◌, ◌||◌, Option, none, some, List, [], ◌∷◌, ◌++◌, map,
  if◌then◌else◌, ◌==◌, nat_eq, string_eq, take, keep, find, any,
}
use constell.Prelude.Exec.{Result, ok, err, Exec}
use constell.Community.Rows.{MemberRow}
use constell.Sql.{DbError, no_rows, constraint, statement, query, order_by, page_of}
use constell.Sql.Uuids.{same_uuid}
use constell.Community.Database.{UserRow, Database, Store}
use constell.Community.Repository.Communities.{community_exists, user_exists, text_lt}

-- community_id = $1 AND user_id = $2, on columns of type UUID
unfoldable pub is_member_row : String → String → MemberRow → Bool
unfolding same_uuid
is_member_row community_id user_id m =
    same_uuid m.community_id community_id && same_uuid m.user_id user_id

unfoldable pub find_member : String → String → Database → Option MemberRow
unfolding is_member_row
find_member community_id user_id db = find (is_member_row community_id user_id) db.members

-- The key of a row, which the role assignments refer to.
abbrev pub is_row_of : String → String → MemberRow → Bool
is_row_of community_id user_id m = m.community_id == community_id && m.user_id == user_id

abbrev pub is_member : String → String → Database → Bool
is_member community_id user_id db = any (is_row_of community_id user_id) db.members

abbrev nickname_or_empty : Option UserRow → String
nickname_or_empty none = ""
nickname_or_empty (some u) = u.nickname

-- COALESCE((SELECT nickname FROM users WHERE id = …), '')
abbrev pub nickname_of : String → Database → String
nickname_of user_id db = nickname_or_empty (find (λ u. u.id == user_id) db.users)

-- The LEFT JOIN with users: the nickname shown is the user's current one.
abbrev pub with_nickname : Database → MemberRow → MemberRow
with_nickname db m = record m { nickname = nickname_of m.user_id db }

abbrev shown_member : Database → Option MemberRow → Option MemberRow
shown_member db none = none
shown_member db (some m) = some (with_nickname db m)

-- GetMember: no row is no error.
unfoldable pub get_member : String → String → Exec Store DbError (Option MemberRow)
unfolding find_member
get_member community_id user_id =
    query (λ db. ok (shown_member db (find_member community_id user_id db)))

-- The INSERT of AddMember: ON CONFLICT DO NOTHING returns no row.
unfoldable pub insert_member_sql :
    String → String → ℕ → String → Database → Result DbError (MemberRow × Database)
unfolding is_member_row
insert_member_sql community_id user_id now id db =
    let row : MemberRow = record {
      community_id = community_id;
      user_id = user_id;
      nickname = nickname_of user_id db;
      joined_at = now;
    } in
    if any (is_member_row community_id user_id) db.members
    then err no_rows
    else if community_exists community_id db && user_exists user_id db
    then ok (row, record db { members = db.members ++ row ∷ [] })
    else err constraint

unfoldable pub insert_member : String → String → Exec Store DbError MemberRow
unfolding insert_member_sql
insert_member community_id user_id = statement (insert_member_sql community_id user_id)

abbrev some_member : Result DbError MemberRow × Store → Result DbError (Option MemberRow) × Store
some_member (ok m, s) = (ok (some m), s)
some_member (err e, s) = (err e, s)

-- On ErrNoRows the member is there already, and is read.
unfoldable pub add_or_get :
    String → String → Result DbError MemberRow × Store → Result DbError (Option MemberRow) × Store
unfolding get_member
add_or_get community_id user_id (err no_rows, s) = get_member community_id user_id s
add_or_get community_id user_id (ok m, s) = (ok (some m), s)
add_or_get community_id user_id (err e, s) = (err e, s)

-- AddMember; the pointer that it returns may be nil with no error.
unfoldable pub add_member : String → String → Exec Store DbError (Option MemberRow)
unfolding add_or_get insert_member
add_member community_id user_id s =
    add_or_get community_id user_id (insert_member community_id user_id s)

-- RemoveMember; the member's role assignments go by ON DELETE CASCADE.
unfoldable pub remove_member_sql :
    String → String → ℕ → String → Database → Result DbError ((Unit {0}) × Database)
unfolding is_member_row same_uuid
remove_member_sql community_id user_id now id db = ok (
  tt,
  record db {
    members = keep (λ m. not (is_member_row community_id user_id m)) db.members;
    member_roles =
        keep (λ r. not (same_uuid r.community_id community_id && same_uuid r.user_id user_id))
          db.member_roles;
  },
)

unfoldable pub remove_member : String → String → Exec Store DbError (Unit {0})
unfolding remove_member_sql
remove_member community_id user_id = statement (remove_member_sql community_id user_id)

-- ListMembersByCommunity
unfoldable pub list_members_by_community :
    String → ℕ → String → Exec Store DbError (List MemberRow × String)
unfolding order_by page_of
list_members_by_community community_id limit cursor = query (λ db.
    let after = λ (m : MemberRow). cursor == "" || text_lt cursor m.user_id in
    let sorted : List MemberRow =
      order_by (λ a b. not (text_lt b.user_id a.user_id))
        (keep (λ m. m.community_id == community_id && after m) db.members) in
    ok (page_of (λ m. m.user_id) limit (map (with_nickname db) (take (limit + 1) sorted))))
