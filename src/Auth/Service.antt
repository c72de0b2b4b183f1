-- ===== src/Auth/Service.antt =====
-- backend/services/auth-service: service.go, repository.go and password.go. bcrypt and SHA-256 are
-- parameters.
pub mod Refreshing
pub mod Passwords
pub mod SigningIn
use constell.Prelude.{
  ℕ, zero, suc, ◌+◌, ◌-◌, ◌*◌, ◌/◌, ◌%◌, ◌^◌, ◌≤◌, ◌<◌, min, max, String, ◌≡◌, refl, sym, ap, subst,
  ◌∙◌, ◌≢◌, ◌↔◌, ◌⊎◌, inl, inr, Bool, true, false, not, ◌&&◌, ◌||◌, Option, none, some, List, [],
  ◌∷◌, ◌++◌, map, arith, eq_iff, ltb, leb, eqb, if◌then◌else◌, ltb→lt, lt→ltb, le→ltb, eqb_iff,
  Bool-cases, Option-cases, Comparable, ◌==◌, nat_eq, string_eq, equal_refl, eq_of_equal, length,
  take, drop, get_elem?, keep, find, any, All, length-append, length-take, take-append-drop,
  take-of_le, take-length-append, drop-length-append, length-keep-le, All-map, All-keep, contains,
  Distinct, All-append, All-keep_with, any-append_left, any-keep, bit_and, bit_or, bit_xor,
  is_positive, ne_of_unequal, negsuc, pos, take-take, to_ℕ, ℤ, equal_sym,
}
use constell.Prelude.Exec.{Result, ok, err, Exec, pure, ◌>>=◌, ◌>>◌, or_fail, attempt, reject_if}
use constell.Prelude.Text.{join, trim_space, utf8}
use constell.Rpc.{Code, unauthenticated, invalid_argument, internal, already_exists}
use constell.Redis.{Redis, RedisError, no_value, unreachable, redis_get, redis_set, redis_del}
use constell.Sql.{DbError, Store, statement, query, first_row, insert_if}
use constell.Auth.Tokens.{JwtLibrary, generate_token}

-- User
pub record AuthUser : Type 0 where
  pub id : String
  pub email : String
  pub password_hash : String
  pub nickname : String
  pub created_at : ℕ
  pub updated_at : ℕ

-- CreateUser, under the keys of the table users
unfoldable pub create_user_sql :
    String → String → String → ℕ → String → List AuthUser → Result DbError (String × List AuthUser)
create_user_sql nickname email hashed_password now id users =
    let row : AuthUser = record {
      id = id;
      email = email;
      password_hash = hashed_password;
      nickname = nickname;
      created_at = now;
      updated_at = now;
    } in
    insert_if
      (not (any (λ (u : AuthUser). u.email == email) users)
        && not (any (λ (u : AuthUser). u.id == id) users))
      id (users ++ row ∷ [])

unfoldable pub create_user : String → String → String → Exec (Store (List AuthUser)) DbError String
unfolding create_user_sql
create_user nickname email hashed_password =
    statement (create_user_sql nickname email hashed_password)

-- GetUserByEmail
unfoldable pub get_user_by_email : String → Exec (Store (List AuthUser)) DbError AuthUser
get_user_by_email email =
    query (λ users. first_row (find (λ (u : AuthUser). u.email == email) users))

-- bcrypt, which draws a salt for the n-th hash, SHA-256 in hexadecimal, and golang-jwt
pub record Crypto : Type 0 where
  pub bcrypt : ℕ → String → Option String
  pub bcrypt_matches : String → String → Bool
  pub sha256 : String → String
  pub jwt : JwtLibrary

pub record AuthService : Type 0 where
  pub crypto : Crypto
  pub jwt_secret : String
  pub store : Store (List AuthUser)
  pub redis : Redis
  -- what the n-th reading of the clock gives, in seconds
  pub clock : ℕ → ℕ
  pub readings : ℕ
  pub hashes : ℕ

abbrev pub on_users : {E A : Type 0} → Exec (Store (List AuthUser)) E A → Exec AuthService E A
on_users m s = let (r, store) = m s.store in (r, record s { store = store })

abbrev pub on_redis : {E A : Type 0} → Exec Redis E A → Exec AuthService E A
on_redis m s = let (r, redis) = m s.redis in (r, record s { redis = redis })

-- time.Now
abbrev pub read_clock : {E : Type 0} → Exec AuthService E ℕ
read_clock s = (ok (s.clock s.readings), record s { readings = suc s.readings })

pub data AuthError : Type 0 where
  hash_failed sign_failed : AuthError
  token_not_stored : AuthError

abbrev pub or_sign_failed : Option (String × ℕ) → Result AuthError String
or_sign_failed none = err sign_failed
or_sign_failed (some (token, expires_at)) = ok token

-- jwt.GenerateToken under the secret of the service; the expiry it returns is not used.
unfoldable pub new_token : String → ℕ → Exec AuthService AuthError String
unfolding generate_token
new_token user_id ttl s = (
  or_sign_failed (generate_token s.crypto.jwt s.jwt_secret user_id ttl (s.clock s.readings)),
  record s { readings = suc s.readings },
)

abbrev pub or_hash_failed : Option String → Result AuthError String
or_hash_failed none = err hash_failed
or_hash_failed (some h) = ok h

-- hashPassword, checkPassword
unfoldable pub hash_password : String → Exec AuthService AuthError String
hash_password password s =
    (or_hash_failed (s.crypto.bcrypt s.hashes password), record s { hashes = suc s.hashes })

abbrev pub check_password : String → String → AuthService → Bool
check_password password hash s = s.crypto.bcrypt_matches hash password

abbrev pub access_token_expiry : ℕ
access_token_expiry = 15 * 60

abbrev pub refresh_token_expiry : ℕ
refresh_token_expiry = 7 * 24 * 60 * 60

-- hashToken, in the key of Redis
unfoldable pub refresh_key : Crypto → String → String
unfolding join
refresh_key crypto token = join "refresh:" (crypto.sha256 token)

pub record TokenPair : Type 0 where
  pub access_token : String
  pub refresh_token : String
  pub expires_at : ℕ

-- generateTokenPair
unfoldable pub generate_token_pair : String → Exec AuthService AuthError TokenPair
unfolding new_token refresh_key redis_set
generate_token_pair user_id = do
  access_token ← new_token user_id access_token_expiry
  refresh_token ← new_token user_id refresh_token_expiry
  or_fail token_not_stored (λ s.
      on_redis (redis_set (refresh_key s.crypto refresh_token) user_id refresh_token_expiry) s)
  now ← read_clock
  pure (record {
    access_token = access_token;
    refresh_token = refresh_token;
    expires_at = now + access_token_expiry;
  })

-- What RegisterResponse and LoginResponse say.
pub record SignedIn : Type 0 where
  pub user_id : String
  pub pair : TokenPair

abbrev pub is_ok : {E A : Type 0} → Result E A → Bool
is_ok (ok a) = true
is_ok (err e) = false

-- Register; any error of the look-up is taken for a free email.
unfoldable pub register_handler : String → String → String → Exec AuthService Code SignedIn
unfolding get_user_by_email create_user hash_password generate_token_pair
register_handler email password nickname = do
  reject_if (trim_space email == "" || password == "" || trim_space nickname == "") invalid_argument
  reject_if (ltb (length (utf8 password)) 8) invalid_argument
  taken ← attempt (on_users (get_user_by_email (trim_space email)))
  reject_if (is_ok taken) already_exists
  hashed_password ← or_fail internal (hash_password password)
  user_id ←
      or_fail internal
        (on_users (create_user (trim_space nickname) (trim_space email) hashed_password))
  pair ← or_fail internal (generate_token_pair user_id)
  pure (record { user_id = user_id; pair = pair })

-- Login
unfoldable pub login_handler : String → String → Exec AuthService Code SignedIn
unfolding get_user_by_email generate_token_pair
login_handler email password = do
  reject_if (trim_space email == "" || password == "") invalid_argument
  user ← or_fail unauthenticated (on_users (get_user_by_email (trim_space email)))
  (λ s. reject_if (not (check_password password user.password_hash s)) unauthenticated s)
  pair ← or_fail internal (generate_token_pair user.id)
  pure (record { user_id = user.id; pair = pair })

-- A refresh token that Redis does not have, and Redis out of reach.
abbrev pub lookup_code : RedisError → Code
lookup_code no_value = unauthenticated
lookup_code unreachable = internal

abbrev pub with_code :
    {A : Type 0} → Result RedisError A × AuthService → Result Code A × AuthService
with_code (ok a, s) = (ok a, s)
with_code (err e, s) = (err (lookup_code e), s)

-- What RefreshToken does for a user: an error of DEL is not looked at.
unfoldable pub rotate : String → String → Exec AuthService Code TokenPair
unfolding redis_del refresh_key generate_token_pair
rotate refresh_token user_id = do
  _ ← attempt (λ s. on_redis (redis_del (refresh_key s.crypto refresh_token)) s)
  or_fail internal (generate_token_pair user_id)

-- RefreshToken
unfoldable pub refresh_token_handler : String → Exec AuthService Code TokenPair
unfolding redis_get refresh_key rotate
refresh_token_handler refresh_token = do
  reject_if (refresh_token == "") invalid_argument
  user_id ← (λ s. with_code (on_redis (redis_get (refresh_key s.crypto refresh_token)) s))
  rotate refresh_token user_id
