-- ===== src/Examples/Handlers.antt =====
-- The handlers of the community service on three messages of one channel.
use constell.Prelude.{
  ◌^◌, ◌≡◌, refl, subst, true, none, [], ◌∷◌, map, arith, nat_eq, string_eq, pos,
}
use constell.Prelude.Exec.{ok}
use constell.Community.Rows.{CommunityRow, MemberRow}
use constell.Sql.Uuids.{same_uuid}
use constell.Prelude.Text.{trim_space}
use constell.Community.Database.{Store}
use constell.Community.Repository.Invariant.{HasSound}
use constell.Community.Service.State.{
  Service, fill_community, new_community_service, cached_community, check_permission,
  invalidate_members,
}
use constell.Community.Service.Wiring.{IsRunning, new_community_service-IsRunning}
use constell.Community.Service.Authorship.{
  OnlyByAuthor, without_message, delete_message_handler-OnlyByAuthor, EditedByAuthor,
  edit_message_handler-EditedByAuthor,
}
use constell.Community.Service.Posting.{Posts, send_message_handler-Posts}
use constell.Community.Service.Authority.{Decides, check_permission-Decides}
use constell.Community.Service.Membership.{Removes, MayKick, IsPrinted, kick_member_handler-Removes}
use constell.Community.Service.Members.{kick_member_handler, publish_member_left}
use constell.Community.Repository.Members.{remove_member}
use constell.GroupCache.Lru as Lru
use constell.GroupCache.Peers.{resolve_owner, dedupe_peers}
use constell.Sql.{query, statement}
use constell.Community.Service.Messages.{
  delete_message_handler, edit_message_handler, send_message_handler,
}
use constell.Examples.Community.{three_messages, plain_role}

-- A community "c" of "u" with a channel "x", in which "v" may kick.
abbrev pub club : Store
club = record three_messages {
  db = record three_messages.db {
    communities =
        (record {
          row = record {
            id = "c";
            name = "Go";
            description = "";
            icon_url = "";
            owner_id = "u";
            created_at = 0;
            updated_at = 0;
          };
          is_public = true;
        })
        ∷ [];
    channels =
        (record {
          id = "x";
          community_id = "c";
          name = "general";
          topic = "";
          type = "text";
          position = pos 0;
          created_at = 0;
          updated_at = 0;
        })
        ∷ [];
    members =
        (record { community_id = "c"; user_id = "u"; nickname = "Ann"; joined_at = 0 })
        ∷ (record { community_id = "c"; user_id = "v"; nickname = "Bob"; joined_at = 0 })
        ∷ (record { community_id = "c"; user_id = "w"; nickname = "Eve"; joined_at = 0 })
        ∷ [];
    roles = plain_role 16 ∷ [];
    member_roles = (record { community_id = "c"; user_id = "v"; role_id = "r" }) ∷ [];
  };
}

pub club-HasSound : HasSound club
club-HasSound = record { ordered = ground arith; fresh = ground arith; assigned = (refl, tt) }

abbrev service : Service
service = new_community_service club none

service-IsRunning : IsRunning service
service-IsRunning = new_community_service-IsRunning club none club-HasSound

delete_message_handler-OnlyByAuthor_example :
    OnlyByAuthor "u"
      (trim_space " m1")
      (without_message (trim_space " m1"))
      service
      (delete_message_handler "u" " m1" service)
delete_message_handler-OnlyByAuthor_example = delete_message_handler-OnlyByAuthor "u" " m1" service

edit_message_handler-EditedByAuthor_example :
    EditedByAuthor "u"
      (trim_space "m1")
      (trim_space "bye")
      service
      (edit_message_handler "u" "m1" "bye" service)
edit_message_handler-EditedByAuthor_example =
    edit_message_handler-EditedByAuthor "u" "m1" "bye" service

check_permission-Decides_example :
    Decides 4 "c" "v" service (check_permission "c" "v" (2 ^ 4) service)
check_permission-Decides_example = check_permission-Decides 4 "c" "v" service

abbrev club_row : CommunityRow
club_row = record {
  id = "c";
  name = "Go";
  description = "";
  icon_url = "";
  owner_id = "u";
  created_at = 0;
  updated_at = 0;
}

cached_club : (cached_community (trim_space "c") service).0 ≡ ok club_row
unfolding cached_community new_community_service fill_community trim_space Lru.get Lru.new_lru_cache
    resolve_owner dedupe_peers query
cached_club = refl

IsPrinted-owner :
    (community : CommunityRow)
    → (cached_community (trim_space "c") service).0 ≡ ok community
    → IsPrinted community.owner_id (trim_space "w")
unfolding trim_space same_uuid
IsPrinted-owner community seen =
    let same : club_row ≡ community = cc (cached_club) in
    subst (λ (c : CommunityRow). IsPrinted c.owner_id (trim_space "w")) same refl

-- The guard compares texts: the owner's id in upper case passes, and the owner is removed.
owner_kicked :
    map (λ (m : MemberRow). m.user_id) (kick_member_handler "v" "c" "U" service).1.store.db.members
    ≡ "v" ∷ "w" ∷ []
unfolding kick_member_handler new_community_service same_uuid trim_space cached_community Lru.get
    Lru.new_lru_cache resolve_owner dedupe_peers query check_permission Lru.add Lru.evict
    remove_member statement invalidate_members publish_member_left
owner_kicked = refl

kick_member_handler-Removes_example :
    Removes
      (MayKick "v" (trim_space "c") (trim_space "w") (cached_community (trim_space "c") service).1)
      (trim_space "c")
      (trim_space "w")
      service
      (kick_member_handler "v" "c" "w" service)
kick_member_handler-Removes_example =
    kick_member_handler-Removes "v" "c" "w" service service-IsRunning IsPrinted-owner

send_message_handler-Posts_example :
    Posts "u"
      (trim_space "x")
      (trim_space " hello ")
      service
      (send_message_handler "u" "x" " hello " [] service)
send_message_handler-Posts_example =
    send_message_handler-Posts "u" "x" " hello " [] service service-IsRunning
