-- ===== src/Community/Service/Outcomes.antt =====
-- How a handler ends, one step after another: what holds of every outcome, by the checks and the
-- statements on the way to it.
use constell.Prelude.{ℕ, suc, String, ◌≡◌, refl, ◌∙◌, inl, inr, Bool-cases, nat_eq, string_eq}
use constell.Prelude.Exec.{Result, ok, err, Exec, ◌>>=◌, or_fail, replace_error}
use constell.Sql.{DbError, finish, query, statement, failed}
use constell.Community.Database.{Database}
use constell.Rpc.{Code}
use constell.Community.Service.State.{Service, on_store}

abbrev pub ticked : Service → Service
ticked s = record s { store = record s.store { statements = suc s.store.statements } }

abbrev pub with_db : Database → Service → Service
with_db db s = record s { store = record s.store { db = db } }

module _ {B : Type 0} (P : Result Code B × Service → Type 0) where
  pub after_read :
      {A : Type 0} (c : Code) (body : Database → Result DbError A) (k : A → Exec Service Code B)
      (s : Service)
      → P (err c, ticked s)
      → ((a : A) → body s.store.db ≡ ok a → P (k a (ticked s)))
      → P ((or_fail c (on_store (query body)) >>= k) s)
  unfolding query
  after_read {A} c body k s bad good = elim (Bool-cases (s.store.server.fails s.store.statements)) [
    | inl down ↦ rw down bad
    | inr up ↦ rw up (answered (body s.store.db) refl)
  ]
    where
      answered :
          (r : Result DbError A)
          → body s.store.db ≡ r
          → P (((λ (t : Service). replace_error c (r, t)) >>= k) (ticked s))
      answered (ok a) at = good a at
      answered (err e) at = bad

  -- The same, where what holds depends on how the statement failed.
  pub after_failed_read :
      {A : Type 0} (c : Code) (body : Database → Result DbError A) (k : A → Exec Service Code B)
      (s : Service)
      → ((e : DbError) → (query body s.store).0 ≡ err e → P (err c, ticked s))
      → ((a : A) → body s.store.db ≡ ok a → P (k a (ticked s)))
      → P ((or_fail c (on_store (query body)) >>= k) s)
  unfolding query
  after_failed_read {A} c body k s bad good =
      elim (Bool-cases (s.store.server.fails s.store.statements)) [
        | inl down ↦
            let lost : (query body s.store).0 ≡ err failed = rw down refl in
            rw down (bad failed lost)
        | inr up ↦
            let seen : (query body s.store).0 ≡ body s.store.db = rw up refl in
            rw up (answered (body s.store.db) refl (λ e at. bad e (seen ∙ at)))
      ]
    where
      answered :
          (r : Result DbError A)
          → body s.store.db ≡ r
          → ((e : DbError) → r ≡ err e → P (err c, ticked s))
          → P (((λ (t : Service). replace_error c (r, t)) >>= k) (ticked s))
      answered (ok a) at lost = good a at
      answered (err e) at lost = lost e refl

  pub after_write :
      {A : Type 0} (c : Code) (body : ℕ → String → Database → Result DbError (A × Database))
      (k : A → Exec Service Code B) (s : Service)
      → P (err c, ticked s)
      → ((a : A) (db : Database)
          → body
              (s.store.server.now s.store.statements)
              (s.store.server.uuid s.store.statements)
              s.store.db
            ≡ ok (a, db)
          → P (k a (with_db db (ticked s))))
      → P ((or_fail c (on_store (statement body)) >>= k) s)
  unfolding statement
  after_write {A} c body k s bad good =
      elim (Bool-cases (s.store.server.fails s.store.statements)) [
        | inl down ↦ rw down bad
        | inr up ↦ rw up (
            written
              (body (s.store.server.now s.store.statements) (s.store.server.uuid s.store.statements)
                s.store.db)
              refl)
      ]
    where
      written :
          (r : Result DbError (A × Database))
          → body
              (s.store.server.now s.store.statements)
              (s.store.server.uuid s.store.statements)
              s.store.db
            ≡ r
          → P (
              ((λ (t : Service).
                    let (q, store) = finish t.store r in
                    replace_error c (q, record t { store = store }))
                  >>= k)
                s)
      written (ok (a, db)) at = good a db at
      written (err e) at = bad

module _ {A : Type 0} (P : Result Code A × Service → Type 0) where
  -- A statement at the end.
  pub last_write :
      (c : Code) (body : ℕ → String → Database → Result DbError (A × Database)) (s : Service)
      → P (err c, ticked s)
      → ((a : A) (db : Database)
          → body
              (s.store.server.now s.store.statements)
              (s.store.server.uuid s.store.statements)
              s.store.db
            ≡ ok (a, db)
          → P (ok a, with_db db (ticked s)))
      → P (or_fail c (on_store (statement body)) s)
  unfolding statement
  last_write c body s bad good = elim (Bool-cases (s.store.server.fails s.store.statements)) [
    | inl down ↦ rw down bad
    | inr up ↦ rw up (
        written
          (body (s.store.server.now s.store.statements) (s.store.server.uuid s.store.statements)
            s.store.db)
          refl)
  ]
    where
      written :
          (r : Result DbError (A × Database))
          → body
              (s.store.server.now s.store.statements)
              (s.store.server.uuid s.store.statements)
              s.store.db
            ≡ r
          → P (
              ((λ (t : Service).
                  let (q, store) = finish t.store r in
                  replace_error c (q, record t { store = store })))
                s)
      written (ok (a, db)) at = good a db at
      written (err e) at = bad
