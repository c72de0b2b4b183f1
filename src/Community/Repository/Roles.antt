-- ===== src/Community/Repository/Roles.antt =====
-- The statements on roles of backend/services/community-service/repository.go.
use constell.Prelude.{
  ℕ, String, Bool, not, ◌&&◌, List, [], ◌∷◌, ◌++◌, if◌then◌else◌, ◌==◌, nat_eq, string_eq, keep,
  find, any, ℤ,
}
use constell.Prelude.Exec.{Result, ok, err, Exec}
use constell.Community.Rows.{RoleRow}
use constell.Sql.{DbError, constraint, statement, query, first_row, insert_if, order_by}
use constell.Community.Database.{MemberRoleRow, Database, Store}
use constell.Community.Repository.Communities.{community_exists}
use constell.Community.Repository.Channels.{int_le}
use constell.Community.Repository.Members.{is_member}

abbrev pub role_exists : String → Database → Bool
role_exists id db = any (λ r. r.id == id) db.roles

-- CreateRole
unfoldable pub create_role_sql :
    String → String → ℤ → ℕ → ℤ → ℕ → String → Database → Result DbError (RoleRow × Database)
create_role_sql community_id name color permissions position now id db =
    let row : RoleRow = record {
      id = id;
      community_id = community_id;
      name = name;
      color = color;
      permissions = permissions;
      position = position;
      created_at = now;
    } in
    insert_if (community_exists community_id db && not (role_exists id db)) row
      (record db { roles = db.roles ++ row ∷ [] })

unfoldable pub create_role : String → String → ℤ → ℕ → ℤ → Exec Store DbError RoleRow
unfolding create_role_sql
create_role community_id name color permissions position =
    statement (create_role_sql community_id name color permissions position)

abbrev pub is_assignment : String → String → String → MemberRoleRow → Bool
is_assignment community_id user_id role_id r =
    r.community_id == community_id && r.user_id == user_id && r.role_id == role_id

-- AssignRole: an assignment that is there stays; the member and the role must exist.
unfoldable pub assign_role_sql :
    String → String → String → ℕ → String → Database → Result DbError ((Unit {0}) × Database)
assign_role_sql community_id user_id role_id now id db =
    let row : MemberRoleRow = record {
      community_id = community_id;
      user_id = user_id;
      role_id = role_id;
    } in
    if any (is_assignment community_id user_id role_id) db.member_roles
    then ok (tt, db)
    else if is_member community_id user_id db && role_exists role_id db
    then ok (tt, record db { member_roles = db.member_roles ++ row ∷ [] })
    else err constraint

unfoldable pub assign_role : String → String → String → Exec Store DbError (Unit {0})
unfolding assign_role_sql
assign_role community_id user_id role_id = statement (assign_role_sql community_id user_id role_id)

-- GetDefaultRole
unfoldable pub get_default_role : String → Exec Store DbError RoleRow
get_default_role community_id =
    query (λ db.
      first_row (find (λ r. r.community_id == community_id && r.name == "@everyone") db.roles))

-- ListRolesByCommunity
unfoldable pub list_roles_by_community : String → Exec Store DbError (List RoleRow)
unfolding order_by
list_roles_by_community community_id = query (λ db. ok (
    order_by (λ a b. int_le a.position b.position)
      (keep (λ r. r.community_id == community_id) db.roles)))

abbrev pub has_assignment : Database → String → String → RoleRow → Bool
has_assignment db community_id user_id role =
    any (is_assignment community_id user_id role.id) db.member_roles

-- ListMemberRoles: the join, in which an assignment and its role occur once each.
unfoldable pub list_member_roles : String → String → Exec Store DbError (List RoleRow)
unfolding order_by
list_member_roles community_id user_id = query (λ db. ok (
    order_by (λ a b. int_le a.position b.position)
      (keep (has_assignment db community_id user_id) db.roles)))
