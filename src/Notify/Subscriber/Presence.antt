-- ===== src/Notify/Subscriber/Presence.antt =====
-- Who is told of a user's presence, and through which gateway.
use constell.Prelude.{
  ℕ, suc, String, ◌≡◌, refl, sym, ◌∙◌, inl, inr, Bool, true, false, not, ◌&&◌, ◌||◌, List, [], ◌∷◌,
  ◌++◌, map, arith, if◌then◌else◌, Bool-cases, ◌==◌, nat_eq, string_eq, equal_refl, eq_of_equal,
  keep, any, contains, Distinct,
}
use constell.Prelude.Sets.{contains-append, Distinct-snoc, contains_equal, contains-map-keep}
use constell.Notify.Store.{Relation, Membership, Tables, query}
use constell.Notify.Subscriber.{
  presence_payload, Subscriber, add_user, add_users, friends_of, co_members_of, contacts_of,
  group_by_gateway, push_to_users, push_presence_to_contacts,
}
use constell.Notify.Subscriber.Gateways.{
  StandsAt, gateway_of, is_at, targets_at, gateways, group_by_gateway-Grouped, push_at,
  push_groups-published,
}

contains-add_user :
    (u v : String) (us : List String) → contains u (add_user v us) ≡ (v == u || contains u us)
unfolding add_user
contains-add_user u v us = elim (Bool-cases (contains v us)) [
  | inl y ↦ rw y (elim (Bool-cases (v == u)) [
    | inl same ↦ rw same (sym (contains_equal v u us same) ∙ y)
    | inr other ↦ rw other refl
  ])
  | inr n ↦ rw n (contains-append u us (v ∷ []) ∙ ground arith)
]

Distinct-add_user : (v : String) (us : List String) → Distinct us → Distinct (add_user v us)
unfolding add_user
Distinct-add_user v us d = elim (Bool-cases (contains v us)) [
  | inl y ↦ rw y d
  | inr n ↦ rw n (Distinct-snoc us v n d)
]

contains-add_users :
    (u : String) (vs us : List String)
    → contains u (add_users vs us) ≡ (contains u vs || contains u us)
unfolding add_users
contains-add_users u [] us = refl
contains-add_users u (v ∷ vs) us =
    contains-add_users u vs (add_user v us) ∙ ground (arith, contains-add_user u v us)

Distinct-add_users : (vs us : List String) → Distinct us → Distinct (add_users vs us)
unfolding add_users
Distinct-add_users [] us d = d
Distinct-add_users (v ∷ vs) us d = Distinct-add_users vs (add_user v us) (Distinct-add_user v us d)

-- A friend by a relation of either direction, and a member of a community of the user's.
abbrev pub is_friend : String → String → Tables → Bool
is_friend user_id u t =
    any
      (λ (r : Relation).
        r.type == "friend"
        && ((r.user_id == user_id && r.target_user_id == u)
            || (r.target_user_id == user_id && r.user_id == u)))
      t.user_relations

abbrev pub is_co_member : String → String → Tables → Bool
is_co_member user_id u t =
    any
      (λ (m : Membership).
        m.user_id == u
        && not (u == user_id)
        && any (λ (n : Membership). n.community_id == m.community_id && n.user_id == user_id)
            t.community_members)
      t.community_members

any_alike {ℓ} :
    {A : Type ℓ} (p q : A → Bool) (xs : List A) → ((x : A) → p x ≡ q x) → any p xs ≡ any q xs
any_alike p q [] h = refl
any_alike p q (x ∷ xs) h = rw (h x, any_alike p q xs h) refl

both_ends : (a b x u : String) → (a == x) ≡ true → ((b == x) && (a == u)) ≡ true → (b == u) ≡ true
both_ends a b x u h k =
    let one = eq_of_equal a x h in
    let two = eq_of_equal b x (ground (arith, k)) in
    let three = eq_of_equal a u (ground (arith, k)) in rw (two ∙ sym one ∙ three) (equal_refl u)

friend_either_way :
    (a b x u : String) (f : Bool)
    → (((a == x) || (b == x)) && f && ((if a == x then b else a) == u))
      ≡ (f && (((a == x) && (b == u)) || ((b == x) && (a == u))))
friend_either_way a b x u f = elim (Bool-cases (a == x)) [
  | inl y ↦ rw y (ground (arith, both_ends a b x u y))
  | inr n ↦ rw n (ground arith)
]

member_alike :
    (a x u : String) (c : Bool)
    → ((c && not (a == x)) && (a == u)) ≡ ((a == u) && not (u == x) && c)
member_alike a x u c = elim (Bool-cases (a == u)) [
  | inl y ↦ rw (y, eq_of_equal a u y) (ground arith)
  | inr n ↦ rw n (ground arith)
]

contains-friends_of :
    (user_id u : String) (t : Tables) → contains u (friends_of user_id t) ≡ is_friend user_id u t
unfolding friends_of
contains-friends_of user_id u t =
    contains-map-keep u _ _ t.user_relations
    ∙ any_alike _ _ t.user_relations λ r. friend_either_way r.user_id r.target_user_id user_id u _

contains-co_members_of :
    (user_id u : String) (t : Tables)
    → contains u (co_members_of user_id t) ≡ is_co_member user_id u t
unfolding co_members_of
contains-co_members_of user_id u t =
    contains-map-keep u _ _ t.community_members
    ∙ any_alike _ _ t.community_members λ m. member_alike m.user_id user_id u _

-- The contacts of a user, and the pushes that tell them.
pub record Tells (time : ℕ) (user_id event_type : String) (s t : Subscriber) : Type 0 where
  pub contacts : List String
  pub groups : List (String × List String)
  -- every contact once
  pub once : Distinct contacts
  pub who :
      (u : String)
      → contains u contacts
        ≡ (is_co_member user_id u s.store.tables || is_friend user_id u s.store.tables)
  -- one push to a gateway, for the contacts that are there
  pub one_each : Distinct (gateways groups)
  pub where_to :
      (gw_id : String)
      → targets_at gw_id groups
        ≡ keep (λ u. is_at gw_id (gateway_of time s.redis.entries u)) contacts
  pub told :
      t.published
      ≡ s.published
        ++ map
            (push_at (record {
              targets = contacts;
              event_type = event_type;
              payload = presence_payload user_id;
            }))
            groups

-- Where the statements, Redis and NATS do not fail and the clock of Redis stands, a change of
-- presence is published once to each gateway and with the contacts who are at that gateway by
-- Redis as its targets; the contacts are the friends by a relation of either direction and the
-- other members of the communities of the user, each once.
pub push_presence_to_contacts-Tells :
    (time : ℕ) (user_id event_type : String) (s : Subscriber)
    → ((n : ℕ) → s.store.fails n ≡ false)
    → StandsAt time s.redis
    → ((n : ℕ) → s.takes n ≡ true)
    → Tells time user_id event_type s (push_presence_to_contacts user_id event_type s)
unfolding push_presence_to_contacts contacts_of query push_to_users
push_presence_to_contacts-Tells time user_id event_type s up stands takes =
    let t = s.store.tables in
    let friends = add_users (friends_of user_id t) [] in
    let contacts = add_users (co_members_of user_id t) friends in
    let grouped = group_by_gateway-Grouped time contacts [] s.redis stands in
    rw (up s.store.statements, up (suc s.store.statements))
      (record {
        contacts = contacts;
        groups = (group_by_gateway contacts [] s.redis).0;
        once =
            Distinct-add_users (co_members_of user_id t) friends
              (Distinct-add_users (friends_of user_id t) [] tt);
        who = λ u.
            contains-add_users u (co_members_of user_id t) friends
            ∙ rw
                (
                  contains-add_users u (friends_of user_id t) [],
                  contains-friends_of user_id u t,
                  contains-co_members_of user_id u t,
                )
                (ground arith);
        one_each = grouped.distinct tt;
        where_to = λ gw_id. grouped.targets gw_id;
        told =
            push_groups-published
              (record {
                targets = contacts;
                event_type = event_type;
                payload = presence_payload user_id;
              })
              _ _ takes;
      })
