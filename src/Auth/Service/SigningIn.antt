-- ===== src/Auth/Service/SigningIn.antt =====
-- A user who registered logs in: Register and Login of backend/services/auth-service/service.go.
use constell.Prelude.{
  ℕ, suc, ◌+◌, String, ◌≡◌, refl, sym, ap, subst, ◌∙◌, true, false, ◌||◌, some, List, [], ◌∷◌, ◌++◌,
  arith, ◌==◌, nat_eq, string_eq, equal_refl, any,
}
use constell.Prelude.Exec.{Result, ok, err, pure, continue, replace_error}
use constell.Prelude.Text.{trim_space}
use constell.Rpc.{internal}
use constell.Redis.{redis_set}
use constell.Sql.{Store, query}
use constell.Auth.Tokens.{Claims, JwtLibrary, generate_token}
use constell.Auth.Service.{
  AuthUser, AuthService, AuthError, TokenPair, SignedIn, Crypto, get_user_by_email, new_token,
  access_token_expiry, refresh_token_expiry, generate_token_pair, register_handler, login_handler,
}
use constell.Auth.Service.Passwords.{find_email, Registers, register_handler-Registers}

-- bcrypt knows the password of a hash that it made.
abbrev pub KnowsPasswords : Crypto → Type 0
KnowsPasswords crypto =
    (n : ℕ) (password hash : String)
    → crypto.bcrypt n password ≡ some hash
    → crypto.bcrypt_matches hash password ≡ true

-- Signing with the secret succeeds.
abbrev pub Signs : JwtLibrary → String → Type 0
Signs lib secret = (c : Claims) → (token : String) × (lib.sign secret c ≡ some token)

new_token_signed :
    (user_id : String) (ttl : ℕ) (s : AuthService)
    → Signs s.crypto.jwt s.jwt_secret
    → (token : String) × (new_token user_id ttl s
        ≡ (ok token, record s { readings = suc s.readings }))
unfolding new_token generate_token
new_token_signed user_id ttl s signs =
    let (token, at) = signs (record {
      subject = user_id;
      issued_at = s.clock s.readings;
      expires_at = s.clock s.readings + ttl;
    }) in
    (token, rw at refl)

generate_token_pair_succeeds :
    (user_id : String) (s : AuthService)
    → Signs s.crypto.jwt s.jwt_secret
    → ((n : ℕ) → s.redis.fails n ≡ false)
    → (pair : TokenPair) × ((generate_token_pair user_id s).0 ≡ ok pair)
unfolding generate_token_pair redis_set
generate_token_pair_succeeds user_id s signs up =
    let s1 : AuthService = record s { readings = suc s.readings } in
    let (access, first) = new_token_signed user_id access_token_expiry s signs in
    let (refresh, second) = new_token_signed user_id refresh_token_expiry s1 signs in
    (
      record {
        access_token = access;
        refresh_token = refresh;
        expires_at = s.clock (suc s1.readings) + access_token_expiry;
      },
      rw (first, second, up s.redis.commands) refl,
    )

find_email-last :
    (email : String) (users : List AuthUser) (row : AuthUser)
    → any (λ (u : AuthUser). u.email == email) users ≡ false
    → row.email ≡ email
    → find_email email (users ++ row ∷ []) ≡ some row
find_email-last email [] row h e = rw (e, equal_refl email) refl
find_email-last email (u ∷ us) row h e = ground (arith, h, find_email-last email us row)

get_user_by_email_lem :
    (email : String) (st : Store (List AuthUser)) (row : AuthUser)
    → ((n : ℕ) → st.server.fails n ≡ false)
    → find_email email st.db ≡ some row
    → get_user_by_email email st ≡ (ok row, record st { statements = suc st.statements })
unfolding get_user_by_email query
get_user_by_email_lem email st row up found = rw (up st.statements, found) refl

login_handler_lem :
    (email password : String) (t : AuthService) (row : AuthUser)
    → (trim_space email == "" || password == "") ≡ false
    → ((n : ℕ) → t.store.server.fails n ≡ false)
    → find_email (trim_space email) t.store.db ≡ some row
    → t.crypto.bcrypt_matches row.password_hash password ≡ true
    → Signs t.crypto.jwt t.jwt_secret
    → ((n : ℕ) → t.redis.fails n ≡ false)
    → (pair : TokenPair) × ((login_handler email password t).0
        ≡ ok (record { user_id = row.id; pair = pair }))
unfolding login_handler
login_handler_lem email password t row given up found matches signs redis_up =
    let t1 : AuthService = record t {
      store = record t.store { statements = suc t.store.statements };
    } in
    let (pair, issued) = generate_token_pair_succeeds row.id t1 signs redis_up in
    (
      pair,
      rw (given, get_user_by_email_lem (trim_space email) t.store row up found, matches)
          (with_pair row.id pair (generate_token_pair row.id t1) issued),
    )
  where
    with_pair :
        (id : String) (pair : TokenPair) (r : Result AuthError TokenPair × AuthService)
        → r.0 ≡ ok pair
        → (continue {B = SignedIn}
            (replace_error internal r)
            (λ p. pure (record { user_id = id; pair = p }))).0
          ≡ ok (record { user_id = id; pair = pair })
    with_pair id pair (ok p, u) h =
        let same : p ≡ pair = ground arith in
        ap (λ (q : TokenPair). ok (record { user_id = id; pair = q })) same
    with_pair id pair (err e, u) h = cc

-- After a registration that answers, where bcrypt knows the passwords it hashed, signing succeeds
-- and neither the database nor Redis fails, Login with the same email and password answers with
-- the id of the registered user.
pub register_handler_login :
    (email password nickname : String) (s t : AuthService) (reply : SignedIn)
    → register_handler email password nickname s ≡ (ok reply, t)
    → KnowsPasswords s.crypto
    → Signs s.crypto.jwt s.jwt_secret
    → ((n : ℕ) → s.store.server.fails n ≡ false)
    → ((n : ℕ) → s.redis.fails n ≡ false)
    → (pair : TokenPair) × ((login_handler email password t).0
        ≡ ok (record { user_id = reply.user_id; pair = pair }))
register_handler_login email password nickname s t reply done knows signs up redis_up =
    let (row, r, users, named, crypto, secret, server, fails) =
      subst (Registers (trim_space email) password s) done
        (register_handler-Registers email password nickname s) in
    let (pair, answer) =
      login_handler_lem email password t row r.given (λ n. rw server (up n))
        (ap (find_email (trim_space email)) users
          ∙ find_email-last (trim_space email) s.store.db row r.fresh r.address)
        (rw crypto (knows s.hashes password row.password_hash r.hashed)) (rw (crypto, secret) signs)
        (λ n. rw fails (redis_up n)) in
    (pair, answer ∙ ap (λ (id : String). ok (record { user_id = id; pair = pair })) (sym named))
