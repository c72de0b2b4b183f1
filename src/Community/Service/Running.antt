-- ===== src/Community/Service/Running.antt =====
-- The requests to the community service, one after another, and what holds after any of them.
use constell.Prelude.{ℕ, String, Bool, Option, List, [], ◌∷◌, nat_eq, string_eq, ℤ}
use constell.Community.Database.{Store}
use constell.Community.Repository.Invariant.{HasSound}
use constell.Community.Service.State.{Service, new_community_service}
use constell.Community.Service.Wiring.{IsRunning, new_community_service-IsRunning}
use constell.Rpc.{PaginationRequest}
use constell.Community.Service.Replies.{ChannelType}
use constell.Community.Service.Communities.{
  create_community_handler, get_community_handler, update_community_handler,
  delete_community_handler, list_communities_handler,
}
use constell.Community.Service.Channels.{
  create_channel_handler, get_channel_handler, update_channel_handler, delete_channel_handler,
  list_channels_handler,
}
use constell.Community.Service.Members.{
  join_community_handler, leave_community_handler, kick_member_handler, list_members_handler,
}
use constell.Community.Service.Messages.{
  send_message_handler, delete_message_handler, edit_message_handler, get_messages_handler,
}
use constell.Community.Service.Handling.{
  create_community_handler-Keeps, get_community_handler-Keeps, update_community_handler-Keeps,
  delete_community_handler-Keeps, list_communities_handler-Keeps, create_channel_handler-Keeps,
  get_channel_handler-Keeps, update_channel_handler-Keeps, delete_channel_handler-Keeps,
  list_channels_handler-Keeps,
}
use constell.Community.Service.Exchange.{
  join_community_handler-Keeps, leave_community_handler-Keeps, kick_member_handler-Keeps,
  list_members_handler-Keeps, send_message_handler-Keeps, delete_message_handler-Keeps,
  edit_message_handler-Keeps, get_messages_handler-Keeps,
}

-- A request to the service, with the user whom the interceptor found.
pub data Request : Type 0 where
  creates_community : String → String → String → String → Request
  gets_community : String → Request
  updates_community : String → String → String → String → String → Request
  deletes_community : String → String → Request
  lists_communities : String → Option PaginationRequest → Request
  creates_channel : String → String → String → String → ChannelType → ℤ → Request
  gets_channel : String → Request
  updates_channel : String → String → String → String → ChannelType → ℤ → Request
  deletes_channel : String → String → Request
  lists_channels : String → Request
  joins : String → String → Request
  leaves : String → String → Request
  kicks : String → String → String → Request
  lists_members : String → Option PaginationRequest → Request
  sends : String → String → String → List String → Request
  deletes_message : String → String → Request
  edits_message : String → String → String → Request
  gets_messages : String → String → ℤ → Option PaginationRequest → Request

-- What a request makes of the service; the answer is left out.
unfoldable pub serve : Request → Service → Service
unfolding create_community_handler get_community_handler update_community_handler
    delete_community_handler list_communities_handler create_channel_handler get_channel_handler
    update_channel_handler delete_channel_handler list_channels_handler join_community_handler
    leave_community_handler kick_member_handler list_members_handler send_message_handler
    delete_message_handler edit_message_handler get_messages_handler
serve (creates_community u name description icon) s =
    (create_community_handler u name description icon s).1
serve (gets_community c) s = (get_community_handler c s).1
serve (updates_community u c name description icon) s =
    (update_community_handler u c name description icon s).1
serve (deletes_community u c) s = (delete_community_handler u c s).1
serve (lists_communities u page) s = (list_communities_handler u page s).1
serve (creates_channel u c name topic type position) s =
    (create_channel_handler u c name topic type position s).1
serve (gets_channel ch) s = (get_channel_handler ch s).1
serve (updates_channel u ch name topic type position) s =
    (update_channel_handler u ch name topic type position s).1
serve (deletes_channel u ch) s = (delete_channel_handler u ch s).1
serve (lists_channels c) s = (list_channels_handler c s).1
serve (joins u c) s = (join_community_handler u c s).1
serve (leaves u c) s = (leave_community_handler u c s).1
serve (kicks u c target) s = (kick_member_handler u c target s).1
serve (lists_members c page) s = (list_members_handler c page s).1
serve (sends u ch content files) s = (send_message_handler u ch content files s).1
serve (deletes_message u m) s = (delete_message_handler u m s).1
serve (edits_message u m content) s = (edit_message_handler u m content s).1
serve (gets_messages u ch since page) s = (get_messages_handler u ch since page s).1

unfoldable pub serve_all : List Request → Service → Service
unfolding serve
serve_all [] s = s
serve_all (r ∷ rs) s = serve_all rs (serve r s)

serve-IsRunning : (r : Request) (s : Service) → IsRunning s → IsRunning (serve r s)
unfolding serve
serve-IsRunning (creates_community u name description icon) s h =
    (create_community_handler-Keeps u name description icon).at s h
serve-IsRunning (gets_community c) s h = (get_community_handler-Keeps c).at s h
serve-IsRunning (updates_community u c name description icon) s h =
    (update_community_handler-Keeps u c name description icon).at s h
serve-IsRunning (deletes_community u c) s h = (delete_community_handler-Keeps u c).at s h
serve-IsRunning (lists_communities u page) s h = (list_communities_handler-Keeps u page).at s h
serve-IsRunning (creates_channel u c name topic type position) s h =
    (create_channel_handler-Keeps u c name topic type position).at s h
serve-IsRunning (gets_channel ch) s h = (get_channel_handler-Keeps ch).at s h
serve-IsRunning (updates_channel u ch name topic type position) s h =
    (update_channel_handler-Keeps u ch name topic type position).at s h
serve-IsRunning (deletes_channel u ch) s h = (delete_channel_handler-Keeps u ch).at s h
serve-IsRunning (lists_channels c) s h = (list_channels_handler-Keeps c).at s h
serve-IsRunning (joins u c) s h = (join_community_handler-Keeps u c).at s h
serve-IsRunning (leaves u c) s h = (leave_community_handler-Keeps u c).at s h
serve-IsRunning (kicks u c target) s h = (kick_member_handler-Keeps u c target).at s h
serve-IsRunning (lists_members c page) s h = (list_members_handler-Keeps c page).at s h
serve-IsRunning (sends u ch content files) s h =
    (send_message_handler-Keeps u ch content files).at s h
serve-IsRunning (deletes_message u m) s h = (delete_message_handler-Keeps u m).at s h
serve-IsRunning (edits_message u m content) s h = (edit_message_handler-Keeps u m content).at s h
serve-IsRunning (gets_messages u ch since page) s h =
    (get_messages_handler-Keeps u ch since page).at s h

serve_all-IsRunning : (rs : List Request) (s : Service) → IsRunning s → IsRunning (serve_all rs s)
unfolding serve_all
serve_all-IsRunning [] s h = h
serve_all-IsRunning (r ∷ rs) s h = serve_all-IsRunning rs (serve r s) (serve-IsRunning r s h)

-- From sound tables, after any sequence of requests to the eighteen handlers of a new service,
-- whatever statements and publications fail, the messages stand by ascending seq below the next
-- one, roles are assigned to members only, and the three caches are valid with their own fillers.
pub serve_all-new_community_service-IsRunning :
    (store : Store) (nats : Option (ℕ → Bool)) (rs : List Request)
    → HasSound store
    → IsRunning (serve_all rs (new_community_service store nats))
serve_all-new_community_service-IsRunning store nats rs h =
    serve_all-IsRunning rs (new_community_service store nats)
      (new_community_service-IsRunning store nats h)
