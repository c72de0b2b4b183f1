-- ===== src/Gateway/Connections/Users.antt =====
-- The users of the connections, each once.
use constell.Prelude.{
  String, ◌≡◌, refl, ◌∙◌, inl, inr, not, ◌&&◌, Option, none, some, List, [], ◌∷◌, arith, eq_iff,
  Bool-cases, ◌==◌, nat_eq, string_eq, equal_refl, length, keep, contains, Distinct,
}
use constell.Gateway.Connections.{
  ConnEntry, new_entry, ConnManager, new_conn_manager, is_user, put_entry, get, get_all, count,
  register, close_entry, unregister, add_channel, remove_channel, change_entry,
  add_subscribed_channel, remove_subscribed_channel, ConnCall, registers, unregisters, subscribes,
  unsubscribes, perform, perform_all,
}

abbrev pub users : List ConnEntry → List String
users [] = []
users (e ∷ es) = e.user_id ∷ users es

contains-users-keep :
    (u v : String) (es : List ConnEntry)
    → contains u (users (keep (λ f. not (is_user v f)) es))
      ≡ (not (v == u) && contains u (users es))
contains-users-keep u v [] = ground arith
contains-users-keep u v (e ∷ es) =
    ground (arith, contains-users-keep u v es, eq_iff e.user_id v, eq_iff e.user_id u, eq_iff v u)

Distinct-keep :
    (v : String) (es : List ConnEntry)
    → Distinct (users es)
    → Distinct (users (keep (λ f. not (is_user v f)) es))
Distinct-keep v [] h = tt
Distinct-keep v (e ∷ es) h = elim (Bool-cases (is_user v e)) [
  | inl y ↦ rw y (Distinct-keep v es h.1)
  | inr n ↦
      rw n (contains-users-keep e.user_id v es ∙ rw h.0 (ground arith), Distinct-keep v es h.1)
]

Distinct-put_entry :
    (e : ConnEntry) (es : List ConnEntry) → Distinct (users es) → Distinct (users (put_entry e es))
Distinct-put_entry e es h = (
  contains-users-keep e.user_id e.user_id es ∙ ground (arith, equal_refl e.user_id),
  Distinct-keep e.user_id es h,
)

close-Distinct :
    (v : String) (m : ConnManager) (o : Option ConnEntry)
    → Distinct (users m.conns)
    → Distinct (users (close_entry o v m).conns)
unfolding close_entry
close-Distinct v m none h = h
close-Distinct v m (some e) h = Distinct-keep v m.conns h

change-Distinct :
    (f : List String → List String) (m : ConnManager) (o : Option ConnEntry)
    → Distinct (users m.conns)
    → Distinct (users (change_entry f o m).conns)
unfolding change_entry
change-Distinct f m none h = h
change-Distinct f m (some e) h =
    Distinct-put_entry (record e { subscribed_channels = f e.subscribed_channels }) m.conns h

perform-Distinct :
    (c : ConnCall) (m : ConnManager)
    → Distinct (users m.conns)
    → Distinct (users (perform c m).conns)
unfolding perform register unregister add_subscribed_channel remove_subscribed_channel
perform-Distinct (registers v conn now) m h = Distinct-put_entry (new_entry v conn now) m.conns h
perform-Distinct (unregisters v) m h = close-Distinct v m (get v m) h
perform-Distinct (subscribes v c) m h = change-Distinct (add_channel c) m (get v m) h
perform-Distinct (unsubscribes v c) m h = change-Distinct (remove_channel c) m (get v m) h

perform_all-Distinct_from :
    (cs : List ConnCall) (m : ConnManager)
    → Distinct (users m.conns)
    → Distinct (users (perform_all cs m).conns)
unfolding perform_all
perform_all-Distinct_from [] m h = h
perform_all-Distinct_from (c ∷ cs) m h =
    perform_all-Distinct_from cs (perform c m) (perform-Distinct c m h)

-- After any calls no user has two connections in the map of the gateway, so that Count counts the
-- connected users.
pub perform_all-Distinct :
    (cs : List ConnCall)
    → let m = perform_all cs new_conn_manager in
      Distinct (users (get_all m)) × (count m ≡ length (users (get_all m)))
unfolding get_all count new_conn_manager
perform_all-Distinct cs = (
  perform_all-Distinct_from cs new_conn_manager tt,
  length-users (perform_all cs new_conn_manager).conns,
)
  where
    length-users : (es : List ConnEntry) → length es ≡ length (users es)
    length-users [] = refl
    length-users (e ∷ es) = omega (arith, length-users es)
