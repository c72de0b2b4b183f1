-- ===== src/Auth/Service/Passwords.antt =====
-- Who registers and who logs in, by the password, in backend/services/auth-service/service.go.
use constell.Prelude.{
  suc, String, ◌≡◌, refl, sym, ap, subst, ◌∙◌, ◌⊎◌, inl, inr, Bool, true, false, ◌||◌, Option, none,
  some, List, [], ◌∷◌, ◌++◌, arith, ltb, Bool-cases, ◌==◌, nat_eq, string_eq, length, find, any,
}
use constell.Prelude.Exec.{Result, ok, err}
use constell.Prelude.Exec.Ends.{after_check, after_failing, after_outcome}
use constell.Prelude.Text.{trim_space, utf8}
use constell.Rpc.{Code, invalid_argument, internal, already_exists}
use constell.Sql.{DbError, Store, finish, statement, query, insert_if}
use constell.Auth.Service.{
  AuthUser, AuthService, AuthError, TokenPair, SignedIn, create_user, create_user_sql,
  get_user_by_email, hash_password, or_hash_failed, is_ok, on_users, generate_token_pair,
  register_handler,
}
use constell.Auth.Service.Refreshing.{Alike, Issues, generate_token_pair-Issues}

abbrev pub find_email : String → List AuthUser → Option AuthUser
find_email email = find (λ (u : AuthUser). u.email == email)

-- The row of a user who registered.
pub record IsRegistered (email password : String) (s : AuthService) (row : AuthUser) : Type 0 where
  pub given : (email == "" || password == "") ≡ false
  pub address : row.email ≡ email
  pub hashed : s.crypto.bcrypt s.hashes password ≡ some row.password_hash
  pub fresh : any (λ (u : AuthUser). u.email == email) s.store.db ≡ false

-- How Register ends. Where it answers there is one user more, with an email that nobody had; where
-- it fails the users are as they were, unless the tokens were what failed.
abbrev pub Registers : String → String → AuthService → Result Code SignedIn × AuthService → Type 0
Registers email password s (ok reply, t) =
    (row : AuthUser) × IsRegistered email password s row
    × (t.store.db ≡ s.store.db ++ row ∷ [])
    × (reply.user_id ≡ row.id)
    × (t.crypto ≡ s.crypto)
    × (t.jwt_secret ≡ s.jwt_secret)
    × (t.store.server ≡ s.store.server)
    × (t.redis.fails ≡ s.redis.fails)
Registers email password s (err e, t) =
    (t.store.db ≡ s.store.db)
    ⊎ ((row : AuthUser) × IsRegistered email password s row
        × (t.store.db ≡ s.store.db ++ row ∷ [])
        × (e ≡ internal))

-- How CreateUser ends.
abbrev Creates :
    String → String → Store (List AuthUser) → Result DbError String × Store (List AuthUser) → Type 0
Creates email hash s (ok id, t) =
    (row : AuthUser) × (row.id ≡ id)
    × (row.email ≡ email)
    × (row.password_hash ≡ hash)
    × (any (λ (u : AuthUser). u.email == email) s.db ≡ false)
    × (t.db ≡ s.db ++ row ∷ [])
    × (t.server ≡ s.server)
Creates email hash s (err e, t) = t.db ≡ s.db

create_user-Creates :
    (nickname email hash : String) (s : Store (List AuthUser))
    → Creates email hash s (create_user nickname email hash s)
unfolding create_user create_user_sql statement
create_user-Creates nickname email hash s = elim (Bool-cases (s.server.fails s.statements)) [
  | inl down ↦ rw down refl
  | inr up ↦ rw up (ends _ _ _ refl (λ y. ground (arith, y)) refl refl)
]
  where
    ends :
        (b : Bool) (row : AuthUser) (id : String)
        → row.id ≡ id
        → (b ≡ true → any (λ (u : AuthUser). u.email == email) s.db ≡ false)
        → row.email ≡ email
        → row.password_hash ≡ hash
        → Creates email hash s (finish s (insert_if b id (s.db ++ row ∷ [])))
    ends true row id i f p q = (row, i, p, q, f refl, refl, refl)
    ends false row id i f p q = refl

get_user_by_email-db :
    (email : String) (s : Store (List AuthUser))
    → ((get_user_by_email email s).1.db ≡ s.db) × ((get_user_by_email email s).1.server ≡ s.server)
unfolding get_user_by_email query
get_user_by_email-db email s = elim (Bool-cases (s.server.fails s.statements)) [
  | inl down ↦ rw down (refl, refl)
  | inr up ↦ rw up (refl, refl)
]

created_none :
    (email hash : String) (s : Store (List AuthUser))
    (r : Result DbError String × Store (List AuthUser)) (e : DbError)
    → Creates email hash s r
    → r.0 ≡ err e
    → r.1.db ≡ s.db
created_none email hash s (ok id, t) e c h = cc
created_none email hash s (err f, t) e c h = c

created_row :
    (email hash : String) (s : Store (List AuthUser))
    (r : Result DbError String × Store (List AuthUser)) (id : String)
    → Creates email hash s r
    → r.0 ≡ ok id
    → Creates email hash s (ok id, r.1)
created_row email hash s (ok other, t) id c h =
    let same : other ≡ id = ground arith in subst (λ i. Creates email hash s (ok i, t)) same c
created_row email hash s (err e, t) id c h = cc

issued-Alike :
    (user_id : String) (s : AuthService) (r : Result AuthError TokenPair × AuthService)
    → Issues user_id s r
    → Alike s r.1
issued-Alike user_id s (ok pair, t) (alike, _) = alike
issued-Alike user_id s (err e, t) alike = alike

hashed_as : (o : Option String) (h : String) → or_hash_failed o ≡ ok h → o ≡ some h
hashed_as none h e = cc
hashed_as (some g) h e = ground arith

pub register_handler-Registers :
    (email password nickname : String) (s : AuthService)
    → Registers (trim_space email) password s (register_handler email password nickname s)
unfolding register_handler hash_password
register_handler-Registers email password nickname s =
    let address = trim_space email in
    let P = Registers address password s in
    let s1 : AuthService = record s { store = (get_user_by_email address s.store).1 } in
    let s2 : AuthService = record s1 { hashes = suc s.hashes } in
    let (db, server) = get_user_by_email-db address s.store in
    after_check P (address == "" || password == "" || trim_space nickname == "") invalid_argument _
      s (λ _. inl refl)
      λ given.
        after_check P (ltb (length (utf8 password)) 8) invalid_argument _ s (λ _. inl refl)
          λ _.
            after_check P (is_ok (get_user_by_email address s.store).0) already_exists _ s1
              (λ _. inl db)
              λ _. after_failing P internal (hash_password password) _ s1 (inl db) λ hash made.
                let creates = create_user (trim_space nickname) address hash in
                let created = create_user-Creates (trim_space nickname) address hash s1.store in
                let s3 : AuthService = record s2 { store = (creates s1.store).1 } in
                after_outcome P internal (on_users creates) _ s2
                  (λ e lost. inl (created_none address hash s1.store _ e created lost ∙ db))
                  λ id added.
                    let (row, named, addressed, kept, fresh, users, same) =
                      created_row address hash s1.store _ id created added in
                    let registered : IsRegistered address password s row = record {
                      given = ground (arith, given);
                      address = addressed;
                      hashed = hashed_as _ hash made ∙ ap some (sym kept);
                      fresh = ap (any (λ (u : AuthUser). u.email == address)) (sym db) ∙ fresh;
                    } in
                    let all = users ∙ ap (λ us. us ++ row ∷ []) db in
                    let s4 = (generate_token_pair id s3).1 in
                    let alike = issued-Alike id s3 _ (generate_token_pair-Issues id s3) in
                    let all' : s4.store.db ≡ s.store.db ++ row ∷ [] =
                      ap (λ (st : Store (List AuthUser)). st.db) alike.store ∙ all in
                    after_failing P internal (generate_token_pair id) _ s3
                      (inr (row, registered, all', refl))
                      λ pair issued. (
                        row,
                        registered,
                        all',
                        sym named,
                        alike.crypto,
                        alike.secret,
                        ap (λ (st : Store (List AuthUser)). st.server) alike.store ∙ same ∙ server,
                        alike.fails,
                      )
