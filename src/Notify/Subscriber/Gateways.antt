-- ===== src/Notify/Subscriber/Gateways.antt =====
-- Which users are at which gateway by Redis, and the pushes to the gateways.
use constell.Prelude.{
  ℕ, suc, String, ◌≡◌, refl, sym, ◌∙◌, inl, inr, Bool, true, false, ◌||◌, Option, none, some, List,
  [], ◌∷◌, ◌++◌, map, arith, if◌then◌else◌, Bool-cases, ◌==◌, nat_eq, string_eq, eq_of_equal, keep,
  contains, Distinct, equal_sym,
}
use mathlib.Core.List.{append-nil, append_assoc}
use constell.Prelude.Text.{join}
use constell.Redis.{Redis, RedisEntry, redis_get, value_at, or_no_value}
use constell.Notify.Subscriber.{
  NotificationPush, Subscriber, connection_key, push_topic, publish_to, add_target, add_if_online,
  group_by_gateway, push_groups,
}

-- Redis answers, and its clock stands at `time`, as within one pipeline.
pub record StandsAt (time : ℕ) (r : Redis) : Type 0 where
  pub up : (n : ℕ) → r.fails n ≡ false
  pub clock : (n : ℕ) → r.now n ≡ time

-- The gateway of a user in Redis.
unfoldable pub gateway_of : ℕ → List RedisEntry → String → Option String
unfolding value_at join
gateway_of time es user_id = value_at time (connection_key user_id) es

abbrev pub is_at : String → Option String → Bool
is_at gw_id none = false
is_at gw_id (some g) = g == gw_id

abbrev pub targets_at : String → List (String × List String) → List String
targets_at gw_id [] = []
targets_at gw_id ((g, us) ∷ rest) = if g == gw_id then us else targets_at gw_id rest

abbrev pub gateways : List (String × List String) → List String
gateways = map (λ (p : String × List String). p.0)

targets_at-add_target :
    (gw_id g u : String) (groups : List (String × List String))
    → targets_at gw_id (add_target g u groups)
      ≡ (if g == gw_id then targets_at gw_id groups ++ u ∷ [] else targets_at gw_id groups)
unfolding add_target
targets_at-add_target gw_id g u [] = refl
targets_at-add_target gw_id g u ((h, us) ∷ rest) = elim (Bool-cases (h == g)) [
  | inl y ↦
      rw (y, eq_of_equal h g y)
        (elim (Bool-cases (g == gw_id)) [ inl s ↦ rw s refl | inr s ↦ rw s refl ])
  | inr n ↦ rw n (elim (Bool-cases (h == gw_id)) [
    | inl s ↦
        let other : (g == gw_id) ≡ false = rw (sym (eq_of_equal h gw_id s)) (equal_sym g h ∙ n) in
        rw (s, other) refl
    | inr s ↦ rw s (targets_at-add_target gw_id g u rest)
  ])
]

contains-gateways :
    (k g u : String) (groups : List (String × List String))
    → contains k (gateways (add_target g u groups)) ≡ (g == k || contains k (gateways groups))
unfolding add_target
contains-gateways k g u [] = refl
contains-gateways k g u ((h, us) ∷ rest) = elim (Bool-cases (h == g)) [
  | inl y ↦ rw (y, eq_of_equal h g y) (ground arith)
  | inr n ↦ rw n (ground (arith, contains-gateways k g u rest))
]

Distinct-add_target :
    (g u : String) (groups : List (String × List String))
    → Distinct (gateways groups)
    → Distinct (gateways (add_target g u groups))
unfolding add_target
Distinct-add_target g u [] d = (refl, tt)
Distinct-add_target g u ((h, us) ∷ rest) d = elim (Bool-cases (h == g)) [
  | inl y ↦ rw y d
  | inr n ↦ rw n (
    contains-gateways h g u rest ∙ ground (arith, d, n, equal_sym h g),
    Distinct-add_target g u rest d.1,
  )
]

-- The groups of a pipeline: at each gateway the users who are there, after those who were.
pub record Grouped (time : ℕ) (es : List RedisEntry) (us : List String)
    (groups out : List (String × List String)) : Type 0 where
  pub targets :
      (gw_id : String)
      → targets_at gw_id out
        ≡ targets_at gw_id groups ++ keep (λ u. is_at gw_id (gateway_of time es u)) us
  pub distinct : Distinct (gateways groups) → Distinct (gateways out)

Grouped-step :
    (time : ℕ) (es : List RedisEntry) (u : String) (us : List String)
    (groups out : List (String × List String)) (o : Option String)
    → gateway_of time es u ≡ o
    → Grouped time es us (add_if_online (or_no_value o) u groups) out
    → Grouped time es (u ∷ us) groups out
Grouped-step time es u us groups out none h g = record {
  targets = λ gw_id. g.targets gw_id ∙ rw h refl;
  distinct = g.distinct;
}
Grouped-step time es u us groups out (some gw) h g = record {
  targets = λ gw_id.
      g.targets gw_id
      ∙ rw (targets_at-add_target gw_id gw u groups, h)
          (elim (Bool-cases (gw == gw_id)) [
            | inl y ↦ rw y (append_assoc (targets_at gw_id groups) (u ∷ []) _)
            | inr n ↦ rw n refl
          ]);
  distinct = λ d. g.distinct (Distinct-add_target gw u groups d);
}

pub redis_get_lem :
    (time : ℕ) (key : String) (r : Redis)
    → StandsAt time r
    → redis_get key r
      ≡ (or_no_value (value_at time key r.entries), record r { commands = suc r.commands })
unfolding redis_get
redis_get_lem time key r h = rw (h.up r.commands, h.clock r.commands) refl

pub group_by_gateway-Grouped :
    (time : ℕ) (us : List String) (groups : List (String × List String)) (r : Redis)
    → StandsAt time r
    → Grouped time r.entries us groups (group_by_gateway us groups r).0
unfolding group_by_gateway redis_get gateway_of
group_by_gateway-Grouped time [] groups r h = record {
  targets = λ gw_id. sym (append-nil _);
  distinct = λ d. d;
}
group_by_gateway-Grouped time (u ∷ us) groups r h =
    let r' : Redis = record r { commands = suc r.commands } in
    let rest =
      group_by_gateway-Grouped time us
        (add_if_online (or_no_value (gateway_of time r.entries u)) u groups) r'
        (record { up = h.up; clock = h.clock }) in
    rw (group_by_gateway, redis_get_lem time (connection_key u) r h)
      (Grouped-step time r.entries u us groups _ _ refl rest)

-- The pushes to the groups, where NATS takes them.
abbrev pub push_at : NotificationPush → String × List String → String × NotificationPush
push_at push (gw_id, us) = (push_topic gw_id, record push { targets = us })

pub push_groups-published :
    (push : NotificationPush) (groups : List (String × List String)) (s : Subscriber)
    → ((n : ℕ) → s.takes n ≡ true)
    → (push_groups push groups s).published ≡ s.published ++ map (push_at push) groups
unfolding push_groups publish_to
push_groups-published push [] s up = sym (append-nil _)
push_groups-published push ((gw_id, us) ∷ rest) s up =
    let s' : Subscriber = record s {
      publishes = suc s.publishes;
      published = s.published ++ (push_topic gw_id, record push { targets = us }) ∷ [];
    } in
    rw (push_groups, publish_to, up s.publishes)
      (push_groups-published push rest s' up ∙ append_assoc s.published _ (map (push_at push) rest))
