-- ===== src/Sql.antt =====
-- The database that the repositories under backend/services share: one SQL statement as a step on the
-- tables `D` of a service, and the parts of SQL that the statements use. A statement that fails
-- changes nothing.
pub mod Keeps
pub mod Uuids
use constell.Prelude.{
  ℕ, zero, suc, ◌+◌, ◌-◌, ◌*◌, ◌/◌, ◌%◌, ◌^◌, ◌≤◌, ◌<◌, min, max, String, ◌≡◌, refl, sym, ap, subst,
  ◌∙◌, ◌≢◌, ◌↔◌, ◌⊎◌, inl, inr, Bool, true, false, not, ◌&&◌, ◌||◌, Option, none, some, List, [],
  ◌∷◌, ◌++◌, map, arith, eq_iff, ltb, leb, eqb, if◌then◌else◌, ltb→lt, lt→ltb, le→ltb, eqb_iff,
  Bool-cases, Option-cases, Comparable, ◌==◌, nat_eq, string_eq, equal_refl, eq_of_equal, length,
  take, drop, get_elem?, keep, find, any, All, length-append, length-take, take-append-drop,
  take-of_le, take-length-append, drop-length-append, length-keep-le, All-map, All-keep, contains,
  Distinct, take-take, ℤ, pos, negsuc, is_positive, to_ℕ, bit_xor, bit_and, bit_or, All-append,
  All-keep_with, any-append_left, any-keep,
}
use constell.Prelude.Exec.{Result, ok, err, Exec}

-- What the database server decides, for the n-th statement: whether it fails, the value of
-- gen_random_uuid() and of now().
pub record Server : Type 0 where
  pub fails : ℕ → Bool
  pub uuid : ℕ → String
  pub now : ℕ → ℕ

pub record Store (D : Type 0) : Type 0 where
  pub server : Server
  pub statements : ℕ
  pub db : D

pub data DbError : Type 0 where
  -- pgx.ErrNoRows
  no_rows : DbError
  -- a constraint is violated
  constraint : DbError
  -- the statement failed for a reason of the server's
  failed : DbError
  invalid_cursor : DbError
  message_not_found : DbError

abbrev pub finish : {D A : Type 0} → Store D → Result DbError (A × D) → Result DbError A × Store D
finish s (ok (a, db)) = (ok a, record s { statements = suc s.statements; db = db })
finish s (err e) = (err e, record s { statements = suc s.statements })

-- A statement that reads and writes: it is given its time and a new id.
unfoldable pub statement :
    {D A : Type 0} → (ℕ → String → D → Result DbError (A × D)) → Exec (Store D) DbError A
statement body s =
    if s.server.fails s.statements
    then finish s (err failed)
    else finish s (body (s.server.now s.statements) (s.server.uuid s.statements) s.db)

-- A statement that only reads.
unfoldable pub query : {D A : Type 0} → (D → Result DbError A) → Exec (Store D) DbError A
query body s =
    if s.server.fails s.statements
    then (err failed, record s { statements = suc s.statements })
    else (body s.db, record s { statements = suc s.statements })

abbrev pub first_row : {A : Type 0} → Option A → Result DbError A
first_row none = err no_rows
first_row (some a) = ok a

-- INSERT under its constraints.
abbrev pub insert_if : {D A : Type 0} → Bool → A → D → Result DbError (A × D)
insert_if true a db = ok (a, db)
insert_if false a db = err constraint

-- UPDATE of the rows that pass a test, and the first of the new rows.
abbrev pub update_where {ℓ} : {A : Type ℓ} → (A → Bool) → (A → A) → List A → List A
update_where p f [] = []
update_where p f (x ∷ xs) = (if p x then f x else x) ∷ update_where p f xs

-- ORDER BY, stable, by a Boolean order.
unfoldable pub insert_by {ℓ} : {A : Type ℓ} → (A → A → Bool) → A → List A → List A
insert_by le x [] = x ∷ []
insert_by le x (y ∷ ys) = if le x y then x ∷ y ∷ ys else y ∷ insert_by le x ys

unfoldable pub order_by {ℓ} : {A : Type ℓ} → (A → A → Bool) → List A → List A
unfolding insert_by
order_by le [] = []
order_by le (x ∷ xs) = insert_by le x (order_by le xs)

-- The keyset page of the LIMIT limit + 1 statements: the first `limit` rows, and the key of the
-- last of them if there was one row more. (`limit` is positive in every call.)
abbrev pub cursor_of {ℓ} : {A : Type ℓ} → (A → String) → Option A → String
cursor_of key none = ""
cursor_of key (some a) = key a

unfoldable pub page_of {ℓ} : {A : Type ℓ} → (A → String) → ℕ → List A → List A × String
page_of key limit rows =
    if ltb limit (length rows)
    then (take limit rows, cursor_of key (get_elem? rows (limit - 1)))
    else (rows, "")
