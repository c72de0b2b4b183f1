-- ===== src/Gateway/Connections/Lookup.antt =====
-- What Get finds after calls of Register, Unregister and the two subscriptions.
use constell.Prelude.{
  ℕ, String, ◌≡◌, refl, ap, ◌∙◌, ◌≢◌, inl, inr, Bool-cases, not, Option, none, some, List, [], ◌∷◌,
  arith, eq_iff, if◌then◌else◌, ◌==◌, nat_eq, string_eq, equal_refl, keep, find,
}
use constell.Gateway.Connections.{
  ConnEntry, new_entry, ConnManager, new_conn_manager, is_user, put_entry, get, socket_of, register,
  close_entry, unregister, add_channel, remove_channel, change_entry, add_subscribed_channel,
  remove_subscribed_channel, ConnCall, registers, unregisters, subscribes, unsubscribes, perform,
  perform_all, with_channels, user_step, user_steps,
}

find-keep_other :
    (u v : String) (es : List ConnEntry)
    → find (is_user u) (keep (λ f. not (is_user v f)) es)
      ≡ (if v == u then none else find (is_user u) es)
find-keep_other u v [] = ground arith
find-keep_other u v (e ∷ es) =
    ground (arith, find-keep_other u v es, eq_iff e.user_id v, eq_iff e.user_id u, eq_iff v u)

find-is_user :
    (v : String) (es : List ConnEntry) (e : ConnEntry)
    → find (is_user v) es ≡ some e
    → e.user_id ≡ v
find-is_user v [] e h = cc
find-is_user v (f ∷ es) e h = ground (arith, find-is_user v es e, eq_iff f.user_id v)

find-put_entry :
    (u : String) (e : ConnEntry) (es : List ConnEntry)
    → find (is_user u) (put_entry e es) ≡ (if e.user_id == u then some e else find (is_user u) es)
find-put_entry u e es = ground (arith, find-keep_other u e.user_id es)

-- One call, for the user whom it names and for the others.
unregister_lem :
    (u v : String) (m : ConnManager) (o : Option ConnEntry)
    → get v m ≡ o
    → get u (close_entry o v m) ≡ (if v == u then none else get u m)
unfolding get close_entry
unregister_lem u v m none h = ground (arith, eq_iff v u)
unregister_lem u v m (some e) h = find-keep_other u v m.conns

change_lem :
    (f : List String → List String) (u v : String) (m : ConnManager) (o : Option ConnEntry)
    → get v m ≡ o
    → get u (change_entry f o m) ≡ (if v == u then with_channels f (get u m) else get u m)
unfolding get change_entry
change_lem f u v m none h = ground (arith, eq_iff v u)
change_lem f u v m (some e) h =
    let named = find-is_user v m.conns e h in
    ground (
      arith,
      find-put_entry u (record e { subscribed_channels = f e.subscribed_channels }) m.conns,
      eq_iff v u,
    )

get-perform :
    (u : String) (c : ConnCall) (m : ConnManager) → get u (perform c m) ≡ user_step u c (get u m)
unfolding get perform register unregister add_subscribed_channel remove_subscribed_channel
get-perform u (registers v conn now) m = find-put_entry u (new_entry v conn now) m.conns
get-perform u (unregisters v) m = unregister_lem u v m (get v m) refl
get-perform u (subscribes v c) m = change_lem (add_channel c) u v m (get v m) refl
get-perform u (unsubscribes v c) m = change_lem (remove_channel c) u v m (get v m) refl

-- Get after Unregister.
pub get-unregister :
    (u v : String) (m : ConnManager) → get u (unregister v m) ≡ (if v == u then none else get u m)
unfolding perform
get-unregister u v m = get-perform u (unregisters v) m

pub get-register :
    (u v : String) (conn now : ℕ) (m : ConnManager)
    → get u (register v conn now m) ≡ (if v == u then some (new_entry v conn now) else get u m)
unfolding perform
get-register u v conn now m = get-perform u (registers v conn now) m

get-perform_all_from :
    (u : String) (cs : List ConnCall) (m : ConnManager)
    → get u (perform_all cs m) ≡ user_steps u cs (get u m)
unfolding perform_all
get-perform_all_from u [] m = refl
get-perform_all_from u (c ∷ cs) m =
    get-perform_all_from u cs (perform c m) ∙ ap (user_steps u cs) (get-perform u c m)

-- After any calls of Register, Unregister and the two subscriptions, Get returns for each user
-- what the calls that name the user made of his entry, whatever the other users did.
pub get-perform_all :
    (u : String) (cs : List ConnCall)
    → get u (perform_all cs new_conn_manager) ≡ user_steps u cs none
unfolding get new_conn_manager
get-perform_all u cs = get-perform_all_from u cs new_conn_manager

-- Unregister of a user right after he registered a new connection, as the clean-up of his old
-- connection calls it, forgets the user and closes the socket registered last, and no other,
-- whatever connection was registered before.
pub unregister-register :
    (u : String) (conn now : ℕ) (m : ConnManager)
    → let after = unregister u (register u conn now m) in
      (get u after ≡ none) × (after.closed ≡ conn ∷ m.closed)
unfolding get register unregister close_entry perform
unregister-register u conn now m =
    let m' = register u conn now m in
    let there : get u m' ≡ some (new_entry u conn now) =
      find-put_entry u (new_entry u conn now) m.conns ∙ rw (equal_refl u) refl in
    (
      get-perform u (unregisters u) m' ∙ rw (equal_refl u) refl,
      ap (λ o. (close_entry o u m').closed) there,
    )

change-closed :
    (f : List String → List String) (o : Option ConnEntry) (m : ConnManager)
    → (change_entry f o m).closed ≡ m.closed
unfolding change_entry
change-closed f none m = refl
change-closed f (some e) m = refl

-- A subscription closes no socket and concerns its user alone.
pub closed-add_subscribed_channel :
    (u c : String) (m : ConnManager) → (add_subscribed_channel u c m).closed ≡ m.closed
unfolding add_subscribed_channel
closed-add_subscribed_channel u c m = change-closed (add_channel c) (get u m) m

pub closed-remove_subscribed_channel :
    (u c : String) (m : ConnManager) → (remove_subscribed_channel u c m).closed ≡ m.closed
unfolding remove_subscribed_channel
closed-remove_subscribed_channel u c m = change-closed (remove_channel c) (get u m) m

pub get-add_subscribed_channel_other :
    (u c v : String) (m : ConnManager) → u ≢ v → get v (add_subscribed_channel u c m) ≡ get v m
unfolding perform
get-add_subscribed_channel_other u c v m other =
    get-perform v (subscribes u c) m ∙ ground (arith, other, eq_iff u v)

pub get-remove_subscribed_channel_other :
    (u c v : String) (m : ConnManager) → u ≢ v → get v (remove_subscribed_channel u c m) ≡ get v m
unfolding perform
get-remove_subscribed_channel_other u c v m other =
    get-perform v (unsubscribes u c) m ∙ ground (arith, other, eq_iff u v)

-- Nobody gains or loses a socket by a subscription.
socket-with_channels :
    (f : List String → List String) (o : Option ConnEntry)
    → socket_of (with_channels f o) ≡ socket_of o
socket-with_channels f none = refl
socket-with_channels f (some e) = refl

socket-changed :
    (f : List String → List String) (u v : String) (o : Option ConnEntry)
    → socket_of (if u == v then with_channels f o else o) ≡ socket_of o
socket-changed f u v o = elim (Bool-cases (u == v)) [
  | inl y ↦ rw y (socket-with_channels f o)
  | inr n ↦ rw n refl
]

pub socket-add_subscribed_channel :
    (u c v : String) (m : ConnManager)
    → socket_of (get v (add_subscribed_channel u c m)) ≡ socket_of (get v m)
unfolding perform
socket-add_subscribed_channel u c v m =
    ap socket_of (get-perform v (subscribes u c) m) ∙ socket-changed (add_channel c) u v (get v m)

pub socket-remove_subscribed_channel :
    (u c v : String) (m : ConnManager)
    → socket_of (get v (remove_subscribed_channel u c m)) ≡ socket_of (get v m)
unfolding perform
socket-remove_subscribed_channel u c v m =
    ap socket_of (get-perform v (unsubscribes u c) m)
    ∙ socket-changed (remove_channel c) u v (get v m)
