-- ===== src/Gateway/Connections.antt =====
-- ConnManager of backend/services/ws-gateway/connmgr.go: the connections of one gateway by their
-- users. A connection is the identity of its socket; closing one is noted in `closed`. The lock
-- makes each call one step.
pub mod Lookup
pub mod Users
use constell.Prelude.{
  ℕ, zero, suc, ◌+◌, ◌-◌, ◌*◌, ◌/◌, ◌%◌, ◌^◌, ◌≤◌, ◌<◌, min, max, String, ◌≡◌, refl, sym, ap, subst,
  ◌∙◌, ◌≢◌, ◌↔◌, ◌⊎◌, inl, inr, Bool, true, false, not, ◌&&◌, ◌||◌, Option, none, some, List, [],
  ◌∷◌, ◌++◌, map, arith, eq_iff, ltb, leb, eqb, if◌then◌else◌, ltb→lt, lt→ltb, le→ltb, eqb_iff,
  Bool-cases, Option-cases, Comparable, ◌==◌, nat_eq, string_eq, equal_refl, eq_of_equal, length,
  take, drop, get_elem?, keep, find, any, All, length-append, length-take, take-append-drop,
  take-of_le, take-length-append, drop-length-append, length-keep-le, All-map, All-keep, contains,
  Distinct, take-take, ℤ, pos, negsuc, is_positive, to_ℕ, bit_xor, bit_and, bit_or, All-append,
  All-keep_with, any-append_left, any-keep,
}

pub record ConnEntry : Type 0 where
  pub user_id : String
  pub conn : ℕ
  pub connected_at : ℕ
  pub subscribed_channels : List String

pub record ConnManager : Type 0 where
  pub conns : List ConnEntry
  pub closed : List ℕ

unfoldable pub new_conn_manager : ConnManager
new_conn_manager = record { conns = []; closed = [] }

abbrev pub is_user : String → ConnEntry → Bool
is_user user_id e = e.user_id == user_id

-- Writing a key of the map, and deleting it.
abbrev pub put_entry : ConnEntry → List ConnEntry → List ConnEntry
put_entry e es = e ∷ keep (λ f. not (is_user e.user_id f)) es

-- Get
unfoldable pub get : String → ConnManager → Option ConnEntry
get user_id m = find (is_user user_id) m.conns

abbrev pub socket_of : Option ConnEntry → Option ℕ
socket_of none = none
socket_of (some e) = some e.conn

-- GetAll
unfoldable pub get_all : ConnManager → List ConnEntry
get_all m = m.conns

-- Count
unfoldable pub count : ConnManager → ℕ
count m = length m.conns

abbrev pub new_entry : String → ℕ → ℕ → ConnEntry
new_entry user_id conn now = record {
  user_id = user_id;
  conn = conn;
  connected_at = now;
  subscribed_channels = [];
}

-- Register, at a time. The socket that it replaces is not closed.
unfoldable pub register : String → ℕ → ℕ → ConnManager → ConnManager
register user_id conn now m = record m { conns = put_entry (new_entry user_id conn now) m.conns }

unfoldable pub close_entry : Option ConnEntry → String → ConnManager → ConnManager
close_entry none user_id m = m
close_entry (some entry) user_id m = record m {
  conns = keep (λ f. not (is_user user_id f)) m.conns;
  closed = entry.conn ∷ m.closed;
}

-- Unregister
unfoldable pub unregister : String → ConnManager → ConnManager
unfolding get close_entry
unregister user_id m = close_entry (get user_id m) user_id m

-- A set of channels as a list without repetition.
abbrev pub add_channel : String → List String → List String
add_channel channel_id cs = if contains channel_id cs then cs else channel_id ∷ cs

abbrev pub remove_channel : String → List String → List String
remove_channel channel_id cs = keep (λ c. not (c == channel_id)) cs

unfoldable pub change_entry :
    (List String → List String) → Option ConnEntry → ConnManager → ConnManager
change_entry f none m = m
change_entry f (some entry) m = record m {
  conns = put_entry (record entry { subscribed_channels = f entry.subscribed_channels }) m.conns;
}

-- AddSubscribedChannel, RemoveSubscribedChannel
unfoldable pub add_subscribed_channel : String → String → ConnManager → ConnManager
unfolding get change_entry
add_subscribed_channel user_id channel_id m =
    change_entry (add_channel channel_id) (get user_id m) m

unfoldable pub remove_subscribed_channel : String → String → ConnManager → ConnManager
unfolding get change_entry
remove_subscribed_channel user_id channel_id m =
    change_entry (remove_channel channel_id) (get user_id m) m

-- The calls that change the manager.
pub data ConnCall : Type 0 where
  registers : String → ℕ → ℕ → ConnCall
  unregisters : String → ConnCall
  subscribes unsubscribes : String → String → ConnCall

unfoldable pub perform : ConnCall → ConnManager → ConnManager
unfolding register unregister add_subscribed_channel remove_subscribed_channel
perform (registers u conn now) m = register u conn now m
perform (unregisters u) m = unregister u m
perform (subscribes u c) m = add_subscribed_channel u c m
perform (unsubscribes u c) m = remove_subscribed_channel u c m

unfoldable pub perform_all : List ConnCall → ConnManager → ConnManager
unfolding perform
perform_all [] m = m
perform_all (c ∷ cs) m = perform_all cs (perform c m)

-- What a call means for one user, whatever the other users do.
abbrev pub with_channels : (List String → List String) → Option ConnEntry → Option ConnEntry
with_channels f none = none
with_channels f (some e) = some (record e { subscribed_channels = f e.subscribed_channels })

abbrev pub user_step : String → ConnCall → Option ConnEntry → Option ConnEntry
user_step u (registers v conn now) e = if v == u then some (new_entry v conn now) else e
user_step u (unregisters v) e = if v == u then none else e
user_step u (subscribes v c) e = if v == u then with_channels (add_channel c) e else e
user_step u (unsubscribes v c) e = if v == u then with_channels (remove_channel c) e else e

abbrev pub user_steps : String → List ConnCall → Option ConnEntry → Option ConnEntry
user_steps u [] e = e
user_steps u (c ∷ cs) e = user_steps u cs (user_step u c e)
