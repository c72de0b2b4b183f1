-- ===== src/Sql/Keeps.antt =====
-- What holds of the tables before a statement and after it, whether it fails or not.
use constell.Prelude.{
  ℕ, String, ◌≡◌, refl, inl, inr, Bool, true, false, Bool-cases, nat_eq, string_eq,
}
use constell.Prelude.Exec.{Result, ok, err}
use constell.Prelude.Exec.Keeps.{Keeps}
use constell.Sql.{Store, DbError, finish, statement, query, insert_if}

module _ {D : Type 0} (P : D → Type 0) where
  abbrev pub Has : Store D → Type 0
  Has s = P s.db

  -- A result whose tables, where it has some, have the property.
  abbrev pub OkHas : {A : Type 0} → Result DbError (A × D) → Type 0
  OkHas (ok (a, db)) = P db
  OkHas (err e) = Unit {0}

  finish_keeps :
      {A : Type 0} (s : Store D) (r : Result DbError (A × D)) → Has s → OkHas r → Has (finish s r).1
  finish_keeps s (ok (a, db)) h k = k
  finish_keeps s (err e) h k = h

  pub Keeps-statement :
      {A : Type 0} (body : ℕ → String → D → Result DbError (A × D))
      → ((now : ℕ) (id : String) (db : D) → P db → OkHas (body now id db))
      → Keeps Has (statement body)
  unfolding statement
  Keeps-statement body k = record {
    at = λ s h. elim (Bool-cases (s.server.fails s.statements)) [
      | inl down ↦ rw down h
      | inr up ↦
          rw up
            (finish_keeps s _ h (k (s.server.now s.statements) (s.server.uuid s.statements) s.db h))
    ];
  }

  pub Keeps-query : {A : Type 0} (body : D → Result DbError A) → Keeps Has (query body)
  unfolding query
  Keeps-query body = record {
    at = λ s h. elim (Bool-cases (s.server.fails s.statements)) [
      | inl down ↦ rw down h
      | inr up ↦ rw up h
    ];
  }

  pub insert_if-OkHas :
      {A : Type 0} (b : Bool) (a : A) (db : D) → (b ≡ true → P db) → OkHas (insert_if b a db)
  insert_if-OkHas true a db h = h refl
  insert_if-OkHas false a db h = tt
