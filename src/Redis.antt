-- ===== src/Redis.antt =====
-- The Redis commands that the services under backend/services use: SET with a time to live, GET, MGET
-- and DEL. The n-th command may fail, and has a time of its own, in seconds; one that fails changes
-- nothing.
use constell.Prelude.{
  ℕ, suc, ◌+◌, String, ◌≡◌, refl, ap, ◌∙◌, inl, inr, Bool, false, not, Option, none, some, List, [],
  ◌∷◌, map, arith, ltb, if◌then◌else◌, Bool-cases, ◌==◌, nat_eq, string_eq, eq_of_equal, keep, find,
  equal_sym,
}
use constell.Prelude.Exec.{Result, ok, err, Exec}

pub record RedisEntry : Type 0 where
  pub key : String
  pub value : String
  pub expires_at : ℕ

pub record Redis : Type 0 where
  pub fails : ℕ → Bool
  pub now : ℕ → ℕ
  pub commands : ℕ
  pub entries : List RedisEntry

pub data RedisError : Type 0 where
  -- redis.Nil
  no_value : RedisError
  unreachable : RedisError

abbrev pub is_key : String → RedisEntry → Bool
is_key key e = e.key == key

-- The value of an entry that has not expired.
abbrev pub live_value : ℕ → Option RedisEntry → Option String
live_value now none = none
live_value now (some e) = if ltb now e.expires_at then some e.value else none

unfoldable pub value_at : ℕ → String → List RedisEntry → Option String
value_at now key es = live_value now (find (is_key key) es)

abbrev pub without : String → List RedisEntry → List RedisEntry
without key es = keep (λ e. not (is_key key e)) es

abbrev pub or_no_value : Option String → Result RedisError String
or_no_value none = err no_value
or_no_value (some v) = ok v

unfoldable pub redis_get : String → Exec Redis RedisError String
unfolding value_at
redis_get key r =
    let after : Redis = record r { commands = suc r.commands } in
    if r.fails r.commands
    then (err unreachable, after)
    else (or_no_value (value_at (r.now r.commands) key r.entries), after)

unfoldable pub redis_mget : List String → Exec Redis RedisError (List (Option String))
unfolding value_at
redis_mget keys r =
    if r.fails r.commands then (err unreachable, record r { commands = suc r.commands }) else (
      ok (map (λ key. value_at (r.now r.commands) key r.entries) keys),
      record r { commands = suc r.commands },
    )

unfoldable pub redis_set : String → String → ℕ → Exec Redis RedisError (Unit {0})
redis_set key value ttl r =
    let entry : RedisEntry = record {
      key = key;
      value = value;
      expires_at = r.now r.commands + ttl;
    } in
    if r.fails r.commands
    then (err unreachable, record r { commands = suc r.commands })
    else (ok tt, record r { commands = suc r.commands; entries = entry ∷ without key r.entries })

unfoldable pub redis_del : String → Exec Redis RedisError (Unit {0})
redis_del key r =
    if r.fails r.commands
    then (err unreachable, record r { commands = suc r.commands })
    else (ok tt, record r { commands = suc r.commands; entries = without key r.entries })

pub find-without :
    (k key : String) (es : List RedisEntry)
    → (k == key) ≡ false
    → find (is_key k) (without key es) ≡ find (is_key k) es
find-without k key [] h = refl
find-without k key (e ∷ es) h = elim (Bool-cases (e.key == key)) [
  | inl y ↦
      let other : (e.key == k) ≡ false = rw (eq_of_equal e.key key y) (equal_sym key k ∙ h) in
      rw (y, other) (find-without k key es h)
  | inr n ↦ rw n (ground (arith, find-without k key es h))
]

pub find-without_self :
    (key : String) (es : List RedisEntry) → find (is_key key) (without key es) ≡ none
find-without_self key [] = refl
find-without_self key (e ∷ es) = ground (arith, find-without_self key es)

-- What a SET and a DEL leave at another key.
pub value_at-without :
    (now : ℕ) (k key : String) (es : List RedisEntry)
    → (k == key) ≡ false
    → value_at now k (without key es) ≡ value_at now k es
unfolding value_at
value_at-without now k key es h = ap (live_value now) (find-without k key es h)
