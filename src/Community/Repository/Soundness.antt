-- ===== src/Community/Repository/Soundness.antt =====
-- What the statements on members, roles, edited messages and attachments keep, and the reads.
use constell.Prelude.{
  ℕ, ◌<◌, String, ◌≡◌, refl, Bool, true, false, not, ◌&&◌, ◌||◌, Option, none, some, List, [], ◌∷◌,
  ◌++◌, arith, if◌then◌else◌, ◌==◌, nat_eq, string_eq, eq_of_equal, keep, any, All, All-keep,
  All-append, All-keep_with, any-append_left, any-keep, ℤ,
}
use constell.Prelude.Exec.{Result, ok, err, Exec}
use constell.Prelude.Exec.Keeps.{Keeps}
use constell.Community.Rows.{MemberRow, ChannelMessageRow, AttachmentRow}
use constell.Sql.{DbError, no_rows, constraint, update_where}
use constell.Sql.Uuids.{same_uuid}
use constell.Community.Database.{MemberRoleRow, Database, Store}
use constell.Community.Repository.Communities.{
  community_exists, user_exists, delete_community_sql, delete_community,
}
use constell.Community.Repository.Members.{
  is_member, is_row_of, is_member_row, nickname_of, insert_member_sql, remove_member_sql,
  get_member, insert_member, add_or_get, add_member, remove_member,
}
use constell.Community.Repository.Roles.{create_role_sql, assign_role_sql, create_role, assign_role}
use constell.Community.Repository.Messages.{
  update_channel_message_sql, insert_attachment_sql, update_channel_message, updated_message,
  find_message, edited_at, insert_attachments, insert_attachment, and_then,
}
use constell.Community.Repository.History.{Ascending-keep}
use constell.Community.Repository.Invariant.{
  IsAssigned, IsSound, HasSound, OkSound, statement-Keeps, query-Keeps, All-update_where,
  Ascending-update_where,
}

IsAssigned-append :
    (members added : List MemberRow) (rs : List MemberRoleRow)
    → All (IsAssigned members) rs
    → All (IsAssigned (members ++ added)) rs
IsAssigned-append members added [] h = tt
IsAssigned-append members added (r ∷ rs) h = (
  any-append_left (is_row_of r.community_id r.user_id) members added h.0,
  IsAssigned-append members added rs h.1,
)

grown-IsSound :
    (db : Database) (added : List MemberRow)
    → IsSound db
    → IsSound (record db { members = db.members ++ added })
grown-IsSound db added h = record {
  ordered = h.ordered;
  fresh = h.fresh;
  assigned = IsAssigned-append db.members added db.member_roles h.assigned;
}

insert_unless-OkSound :
    (present valid : Bool) (row : MemberRow) (db : Database)
    → IsSound db
    → OkSound (if present then err no_rows else if valid then ok (row, db) else err constraint)
insert_unless-OkSound true valid row db h = tt
insert_unless-OkSound false true row db h = h
insert_unless-OkSound false false row db h = tt

pub insert_member-Keeps :
    (community_id user_id : String) → Keeps HasSound (insert_member community_id user_id)
unfolding insert_member
insert_member-Keeps community_id user_id =
    statement-Keeps (insert_member_sql community_id user_id) λ now id db h.
      let row : MemberRow = record {
        community_id = community_id;
        user_id = user_id;
        nickname = nickname_of user_id db;
        joined_at = now;
      } in
      insert_unless-OkSound (any (is_member_row community_id user_id) db.members)
        (community_exists community_id db && user_exists user_id db) row
        (record db { members = db.members ++ row ∷ [] }) (grown-IsSound db (row ∷ []) h)

pub get_member-Keeps :
    (community_id user_id : String) → Keeps HasSound (get_member community_id user_id)
unfolding get_member
get_member-Keeps community_id user_id = query-Keeps _

add_or_get-Keeps :
    (community_id user_id : String) (r : Result DbError MemberRow × Store)
    → HasSound r.1
    → HasSound (add_or_get community_id user_id r).1
unfolding add_or_get
add_or_get-Keeps community_id user_id (err no_rows, s) h =
    (get_member-Keeps community_id user_id).at s h
add_or_get-Keeps community_id user_id (ok m, s) h = h
add_or_get-Keeps community_id user_id (err e, s) h = h

pub add_member-Keeps :
    (community_id user_id : String) → Keeps HasSound (add_member community_id user_id)
unfolding add_member
add_member-Keeps community_id user_id = record {
  at = λ s h.
      add_or_get-Keeps community_id user_id (insert_member community_id user_id s)
        ((insert_member-Keeps community_id user_id).at s h);
}

-- A member other than the one removed keeps its row.
still-IsAssigned :
    (community_id user_id : String) (members : List MemberRow) (r : MemberRoleRow)
    → not (same_uuid r.community_id community_id && same_uuid r.user_id user_id) ≡ true
    → IsAssigned members r
    → IsAssigned (keep (λ m. not (is_member_row community_id user_id m)) members) r
unfolding is_member_row
still-IsAssigned community_id user_id members r other h =
    any-keep (is_row_of r.community_id r.user_id) (λ m. not (is_member_row community_id user_id m))
      (λ m here.
        let c = eq_of_equal m.community_id r.community_id in
        let u = eq_of_equal m.user_id r.user_id in
        let c' : m.community_id ≡ r.community_id = c (ground (arith, here)) in
        let u' : m.user_id ≡ r.user_id = u (ground (arith, here)) in rw (c', u') other)
      members h

shrunk-IsSound :
    (community_id user_id : String) (db : Database)
    → IsSound db
    → OkSound (remove_member_sql community_id user_id 0 "" db)
unfolding remove_member_sql
shrunk-IsSound community_id user_id db h = record {
  ordered = h.ordered;
  fresh = h.fresh;
  assigned =
      All-keep_with (IsAssigned db.members)
        (IsAssigned (keep (λ m. not (is_member_row community_id user_id m)) db.members))
        (λ r. not (same_uuid r.community_id community_id && same_uuid r.user_id user_id))
        (still-IsAssigned community_id user_id db.members) db.member_roles h.assigned;
}

pub remove_member-Keeps :
    (community_id user_id : String) → Keeps HasSound (remove_member community_id user_id)
unfolding remove_member
remove_member-Keeps community_id user_id =
    statement-Keeps (remove_member_sql community_id user_id)
      λ now id db h. shrunk-IsSound community_id user_id db h

pub create_role-Keeps :
    (community_id name : String) (color : ℤ) (permissions : ℕ) (position : ℤ)
    → Keeps HasSound (create_role community_id name color permissions position)
unfolding create_role
create_role-Keeps community_id name color permissions position =
    statement-Keeps (create_role_sql community_id name color permissions position)
      λ now id db h. ground arith

assigned-IsSound :
    (db : Database) (r : MemberRoleRow)
    → IsSound db
    → is_member r.community_id r.user_id db ≡ true
    → IsSound (record db { member_roles = db.member_roles ++ r ∷ [] })
assigned-IsSound db r h here = record {
  ordered = h.ordered;
  fresh = h.fresh;
  assigned = All-append (IsAssigned db.members) db.member_roles (r ∷ []) h.assigned (here, tt);
}

pub assign_role-Keeps :
    (community_id user_id role_id : String)
    → Keeps HasSound (assign_role community_id user_id role_id)
unfolding assign_role
assign_role-Keeps community_id user_id role_id =
    statement-Keeps (assign_role_sql community_id user_id role_id) λ now id db h. ground (
      arith,
      assigned-IsSound db
          (record { community_id = community_id; user_id = user_id; role_id = role_id }) h,
    )

updated_message-OkSound :
    (found : Option ChannelMessageRow) (db : Database)
    → IsSound db
    → OkSound (updated_message found db)
updated_message-OkSound none db h = tt
updated_message-OkSound (some m) db h = h

pub update_channel_message-Keeps :
    (message_id content : String) → Keeps HasSound (update_channel_message message_id content)
unfolding update_channel_message
update_channel_message-Keeps message_id content =
    statement-Keeps (update_channel_message_sql message_id content) λ now id db h.
      let p = λ (m : ChannelMessageRow). m.id == message_id in
      let f =
        λ (m : ChannelMessageRow). record m { content = content; updated_at = edited_at now m } in
      let db' : Database = record db { channel_messages = update_where p f db.channel_messages } in
      updated_message-OkSound (find_message message_id db') db' (record {
        ordered = Ascending-update_where p f (λ m. refl) db.channel_messages h.ordered;
        fresh = All-update_where p f (λ m. refl) (λ n. n < db.next_seq) db.channel_messages h.fresh;
        assigned = h.assigned;
      })

-- The members and the roles of the other communities stay.
pub delete_community-Keeps :
    (community_id : String) → Keeps HasSound (delete_community community_id)
unfolding delete_community
delete_community-Keeps community_id =
    statement-Keeps (delete_community_sql community_id) λ now id db h. record {
      ordered = Ascending-keep _ db.channel_messages h.ordered;
      fresh = All-keep (λ m. m.seq < db.next_seq) _ db.channel_messages h.fresh;
      assigned =
          All-keep_with (IsAssigned db.members)
            (IsAssigned (keep (λ m. not (m.community_id == community_id)) db.members))
            (λ r. not (
              r.community_id == community_id
              || any (λ role. role.id == r.role_id && role.community_id == community_id) db.roles))
            (λ r other here.
              any-keep (is_row_of r.community_id r.user_id)
                (λ m. not (m.community_id == community_id))
                (λ m at. let c = eq_of_equal m.community_id r.community_id in ground (arith, c))
                db.members here)
            db.member_roles h.assigned;
    }

insert_attachment-Keeps : (a : AttachmentRow) → Keeps HasSound (insert_attachment a)
unfolding insert_attachment
insert_attachment-Keeps a = statement-Keeps (insert_attachment_sql a) λ now id db h. ground arith

and_then-HasSound :
    (rest : Exec Store DbError (Unit {0})) (r : Result DbError (Unit {0}) × Store)
    → Keeps HasSound rest
    → HasSound r.1
    → HasSound (and_then rest r).1
unfolding and_then
and_then-HasSound rest (ok u, s) k h = k.at s h
and_then-HasSound rest (err e, s) k h = h

pub insert_attachments-Keeps :
    (rows : List AttachmentRow) → Keeps HasSound (insert_attachments rows)
unfolding insert_attachments
insert_attachments-Keeps [] = record { at = λ s h. h }
insert_attachments-Keeps (a ∷ rest) = record {
  at = λ s h.
      and_then-HasSound (insert_attachments rest) (insert_attachment a s)
        (insert_attachments-Keeps rest) ((insert_attachment-Keeps a).at s h);
}
