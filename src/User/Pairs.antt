-- ===== src/User/Pairs.antt =====
-- `GetOrCreateConversation` of backend/services/user-service/repository.go: one conversation for two
-- users, whoever of them asks.
use constell.Prelude.{
  suc, String, ◌≡◌, refl, sym, subst, ◌⊎◌, inl, inr, Bool, true, false, Option, none, some, List,
  [], ◌∷◌, ◌++◌, arith, if◌then◌else◌, Bool-cases, Option-cases, ◌==◌, nat_eq, string_eq,
  equal_refl, eq_of_equal, find, All,
}
use constell.Prelude.Exec.{Result, ok, err}
use constell.Prelude.Order.{less, less-asym}
use constell.Sql.{DbError, finish, statement, query, first_row, insert_if}
use constell.User.Rows.{DmConversationRow, Database, Store}
use constell.User.Invariant.{IsConsistent, IsOrdered, get_or_create_conversation-Keeps}
use constell.User.Repository.Conversations.{
  is_pair, select_conversation_sql, insert_conversation_sql, found_or_insert, get_or_create,
  get_or_create_conversation,
}

-- The conversation of a pair in the tables.
abbrev pub conversation_of : String → String → Database → Option DmConversationRow
conversation_of small big db = find (is_pair small big) db.dm_conversations

abbrev pub with_conversation : DmConversationRow → Database → Database
with_conversation c db = record db { dm_conversations = db.dm_conversations ++ c ∷ [] }

-- How the call ends: with the pair's conversation that was there, or with a new one at the end where
-- none was; or it fails and the tables are as they were.
abbrev pub Opens : String → String → Database → Result DbError DmConversationRow × Store → Type 0
Opens small big db (ok c, t) =
    (is_pair small big c ≡ true)
    × (((conversation_of small big db ≡ some c) × (t.db ≡ db))
        ⊎ ((conversation_of small big db ≡ none) × (t.db ≡ with_conversation c db)))
Opens small big db (err e, t) = t.db ≡ db

find-keeps {ℓ} : {A : Type ℓ} (p : A → Bool) (xs : List A) (x : A) → find p xs ≡ some x → p x ≡ true
find-keeps p [] x h = cc
find-keeps p (y ∷ ys) x h = ground (arith, find-keeps p ys x)

first_row-some : {A : Type 0} (o : Option A) (a : A) → first_row o ≡ ok a → o ≡ some a
first_row-some none a h = cc
first_row-some (some b) a h = ground arith

insert_conversation-Opens :
    (small big : String) (s : Store)
    → conversation_of small big s.db ≡ none
    → Opens small big s.db (statement (insert_conversation_sql small big) s)
unfolding statement insert_conversation_sql
insert_conversation-Opens small big s h =
    let id = s.server.uuid s.statements in
    let now = s.server.now s.statements in
    elim (Bool-cases (s.server.fails s.statements)) [
      | inl down ↦ rw down refl
      | inr up ↦ rw up (ends _ _ (equal_refl small) (equal_refl big))
    ]
  where
    ends :
        (b : Bool) (row : DmConversationRow)
        → (row.user_a_id == small) ≡ true
        → (row.user_b_id == big) ≡ true
        → Opens small big s.db (finish s (insert_if b row (with_conversation row s.db)))
    ends true row p q = (ground arith, inr (h, refl))
    ends false row p q = refl

abbrev ticked : Store → Store
ticked s = record s { statements = suc s.statements }

get_or_create-Opens :
    (small big : String) (s : Store) → Opens small big s.db (get_or_create small big s)
unfolding get_or_create select_conversation_sql query found_or_insert
get_or_create-Opens small big s = elim (Bool-cases (s.server.fails s.statements)) [
  | inl down ↦ rw down refl
  | inr up ↦ elim (Option-cases (conversation_of small big s.db)) [
    | inl missing ↦ rw (up, missing) (insert_conversation-Opens small big (ticked s) missing)
    | inr (c, there) ↦
        rw (up, there)
          (find-keeps (is_pair small big) s.db.dm_conversations c there, inl (there, refl))
  ]
]

-- The pair of two users by the order of their ids.
abbrev pub lower : String → String → String
lower a b = if less b a then b else a

abbrev pub upper : String → String → String
upper a b = if less b a then a else b

-- about1
pub get_or_create_conversation-Opens :
    (a b : String) (s : Store)
    → Opens (lower a b) (upper a b) s.db (get_or_create_conversation a b s)
unfolding get_or_create_conversation
get_or_create_conversation-Opens a b s = elim (Bool-cases (less b a)) [
  | inl y ↦ rw y (get_or_create-Opens b a s)
  | inr n ↦ rw n (get_or_create-Opens a b s)
]

find-append_last {ℓ} :
    {A : Type ℓ} (p : A → Bool) (xs : List A) (x : A)
    → find p xs ≡ none
    → p x ≡ true
    → find p (xs ++ x ∷ []) ≡ some x
find-append_last p [] x h y = ground (arith, y)
find-append_last p (z ∷ zs) x h y = ground (arith, find-append_last p zs x)

-- Then the pair's conversation is there.
stays :
    (small big : String) (db : Database) (c : DmConversationRow) (t : Store)
    → Opens small big db (ok c, t)
    → conversation_of small big t.db ≡ some c
stays small big db c t (pair, inl (there, same)) = rw same there
stays small big db c t (pair, inr (missing, new)) =
    rw new (find-append_last (is_pair small big) db.dm_conversations c missing pair)

All-found :
    (P : DmConversationRow → Type 0) (p : DmConversationRow → Bool) (cs : List DmConversationRow)
    (c : DmConversationRow)
    → All P cs
    → find p cs ≡ some c
    → P c
All-found P p [] c a h = cc
All-found P p (d ∷ ds) c a h = elim (Bool-cases (p d)) [
  | inl y ↦ subst P (ground (arith, y, h)) a.0
  | inr n ↦ All-found P p ds c a.1 (ground (arith, n, h))
]

-- A pair that a row of a consistent table has is in order, so both users name it alike.
lower_sym : (a b : String) → less (lower a b) (upper a b) ≡ true → lower b a ≡ lower a b
lower_sym a b h = ground (arith, less-asym a b, less-asym b a)

upper_sym : (a b : String) → less (lower a b) (upper a b) ≡ true → upper b a ≡ upper a b
upper_sym a b h = ground (arith, less-asym a b, less-asym b a)

pair_in_order :
    (small big : String) (c : DmConversationRow)
    → is_pair small big c ≡ true
    → IsOrdered c
    → less small big ≡ true
pair_in_order small big c p h =
    let first : c.user_a_id ≡ small = eq_of_equal c.user_a_id small (ground (arith, p)) in
    let second : c.user_b_id ≡ big = eq_of_equal c.user_b_id big (ground (arith, p)) in
    rw (sym first, sym second) h

finds :
    (a b : String) (c : DmConversationRow) (t : Store)
    → conversation_of (lower a b) (upper a b) t.db ≡ some c
    → t.server.fails t.statements ≡ false
    → get_or_create_conversation a b t ≡ (ok c, ticked t)
unfolding get_or_create_conversation get_or_create select_conversation_sql query found_or_insert
finds a b c t h up = elim (Bool-cases (less b a)) [
  | inl y ↦ let there : conversation_of b a t.db ≡ some c = rw y at h in rw (y, up, there)
  | inr n ↦ let there : conversation_of a b t.db ≡ some c = rw n at h in rw (n, up, there)
]

-- From consistent tables, once GetOrCreateConversation has returned a conversation for two users,
-- the next call for the same users in either order, where its statement does not fail, returns
-- the same conversation and changes no table.
pub get_or_create_conversation_agrees :
    (a b : String) (s t : Store) (c : DmConversationRow)
    → IsConsistent s.db
    → get_or_create_conversation a b s ≡ (ok c, t)
    → t.server.fails t.statements ≡ false
    → (get_or_create_conversation a b t ≡ (ok c, ticked t))
      × (get_or_create_conversation b a t ≡ (ok c, ticked t))
get_or_create_conversation_agrees a b s t c h done up =
    let opened : Opens (lower a b) (upper a b) s.db (ok c, t) =
      subst (Opens (lower a b) (upper a b) s.db) done (get_or_create_conversation-Opens a b s) in
    let kept : IsConsistent t.db =
      subst (λ r. IsConsistent r.1.db) done ((get_or_create_conversation-Keeps a b).at s h) in
    let there = stays (lower a b) (upper a b) s.db c t opened in
    let ordered = pair_in_order (lower a b) (upper a b) c opened.0 (
      All-found IsOrdered (is_pair (lower a b) (upper a b)) t.db.dm_conversations c kept.ordered
        there) in
    (
      finds a b c t there up,
      finds b a c t (rw (lower_sym a b ordered, upper_sym a b ordered) there) up,
    )
