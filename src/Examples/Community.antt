-- ===== src/Examples/Community.antt =====
-- The community service on a small database.
use constell.Prelude.{
  ℕ, ◌^◌, String, ◌≡◌, refl, true, false, ◌||◌, none, [], ◌∷◌, arith, eqb, if◌then◌else◌, ◌==◌,
  nat_eq, string_eq, any, pos,
}
use constell.Prelude.Exec.{ok}
use constell.Community.Rows.{MemberRow, RoleRow, ChannelMessageRow}
use constell.Community.Permissions.{
  grants, has_permission, compute_permissions, has_permission-compute_permissions,
}
use constell.Sql.{Server}
use constell.Community.Database.{Store}
use constell.Community.Repository.Invariant.{HasSound}
use constell.Community.Repository.History.{history}
use constell.Community.Repository.Scroll.{scroll, scroll_complete}
use constell.Community.Service.State.{new_community_service}
use constell.Community.Service.Wiring.{IsRunning}
use constell.Community.Service.Running.{
  creates_community, joins, sends, serve_all, serve_all-new_community_service-IsRunning,
}

abbrev pub server : Server
server = record { fails = λ n. false; uuid = λ n. if eqb n 0 then "c" else "x"; now = λ n. n }

abbrev pub empty_store : Store
empty_store = record {
  server = server;
  statements = 0;
  db = record {
    users = record { id = "u"; nickname = "Ann" } ∷ record { id = "v"; nickname = "Bob" } ∷ [];
    files = [];
    communities = [];
    channels = [];
    members = [];
    roles = [];
    member_roles = [];
    channel_messages = [];
    attachments = [];
    next_seq = 1;
  };
}

empty_store-HasSound : HasSound empty_store
empty_store-HasSound = record { ordered = tt; fresh = tt; assigned = tt }

serve_all-new_community_service-IsRunning_example : IsRunning (
    serve_all
      (creates_community "u" "Go" "" "" ∷ joins "v" "c" ∷ sends "v" "x" "hello" [] ∷ [])
      (new_community_service empty_store none))
serve_all-new_community_service-IsRunning_example =
    serve_all-new_community_service-IsRunning empty_store none
      (creates_community "u" "Go" "" "" ∷ joins "v" "c" ∷ sends "v" "x" "hello" [] ∷ [])
      empty_store-HasSound

abbrev pub message : String → ℕ → ChannelMessageRow
message id seq = record {
  id = id;
  channel_id = "x";
  author_id = "u";
  content = "hello";
  created_at = 1000000;
  updated_at = 1000000;
  seq = seq;
}

abbrev pub three_messages : Store
three_messages = record empty_store {
  db = record empty_store.db {
    channel_messages = message "m1" 1 ∷ message "m2" 2 ∷ message "m3" 5 ∷ [];
    next_seq = 6;
  };
}

scroll_complete_example :
    (scroll 4 "x" 2 "" three_messages).0 ≡ ok (history "x" (λ m. true) three_messages.db)
scroll_complete_example =
    scroll_complete "x" 2 (omega arith) 4 three_messages (λ n. refl) (ground arith) (ground arith)
      (omega arith)

abbrev pub plain_role : ℕ → RoleRow
plain_role permissions = record {
  id = "r";
  community_id = "c";
  name = "role";
  color = pos 0;
  permissions = permissions;
  position = pos 1;
  created_at = 0;
}

abbrev bob : MemberRow
bob = record { community_id = "c"; user_id = "v"; nickname = ""; joined_at = 0 }

has_permission-compute_permissions_example :
    has_permission (compute_permissions bob (plain_role 6 ∷ plain_role 1 ∷ []) "u") (2 ^ 3)
    ≡ (bob.user_id == "u" || any (grants 3) (plain_role 6 ∷ plain_role 1 ∷ []))
has_permission-compute_permissions_example =
    has_permission-compute_permissions 3 bob (plain_role 6 ∷ plain_role 1 ∷ []) "u"
