-- ===== src/Examples/Auth.antt =====
-- Signing in, refreshing and calling with a token, over a toy library that signs by writing the
-- user and the expiry.
use constell.Prelude.{
  ℕ, String, ◌≡◌, refl, sym, ap, subst, ◌∙◌, inl, inr, Bool, true, false, ◌&&◌, none, some, [], ◌∷◌,
  arith, ltb, if◌then◌else◌, lt→ltb, Bool-cases, ◌==◌, nat_eq, string_eq, equal_refl, eq_of_equal,
  find,
}
use constell.Prelude.Exec.{ok, err}
use constell.Prelude.Text.{trim_space, join, utf8}
use constell.Prelude.Decimal.{format_int}
use constell.Rpc.{unauthenticated}
use constell.Redis.{is_key, value_at, redis_get, redis_set, redis_del}
use constell.Sql.{query, statement}
use constell.Auth.Tokens.{
  Claims, JwtLibrary, IsJwtLibrary, generate_token, parse_token, parse_token-generate_token,
}
use constell.Auth.Interceptor.{Admits, authenticate, authenticate-Admits}
use constell.Auth.Service.{
  AuthService, Crypto, TokenPair, register_handler, login_handler, refresh_token_handler,
  refresh_key, get_user_by_email, create_user, create_user_sql, hash_password, generate_token_pair,
  new_token, rotate,
}
use constell.Auth.Service.Refreshing.{token_entry, refresh_token_handler_rotates}
use constell.Auth.Service.SigningIn.{KnowsPasswords, register_handler_login}

abbrev claims : Claims
claims = record { subject = "u"; issued_at = 100; expires_at = 1000 }

-- It knows one set of claims.
abbrev knows : Claims → Bool
knows c = c.subject == "u" && c.issued_at == 100 && c.expires_at == 1000

abbrev one_token : JwtLibrary
one_token = record {
  sign = λ secret c. if knows c then some "token" else none;
  verify = λ now secret t. if ltb now 1000 then some claims else none;
}

known : (c : Claims) → knows c ≡ true → claims ≡ c
known c h =
    let subject : c.subject ≡ "u" = eq_of_equal c.subject "u" (ground (arith, h)) in
    let issued : c.issued_at ≡ 100 = ground (arith, h) in
    let expires : c.expires_at ≡ 1000 = ground (arith, h) in
    sym (
      ap (λ s. record c { subject = s }) subject
      ∙ ap (λ n. record claims { issued_at = n; expires_at = c.expires_at }) issued
      ∙ ap (λ n. record claims { expires_at = n }) expires)

signed :
    (c : Claims) (t : String)
    → (if knows c then some "token" else none) ≡ some t
    → (knows c ≡ true) × ("token" ≡ t)
signed c t h = elim (Bool-cases (knows c)) [
  | inl y ↦ (y, ground (arith, y, h))
  | inr n ↦ let bad : none ≡ some t = rw n at h in cc
]

one_token-IsJwtLibrary : IsJwtLibrary one_token
one_token-IsJwtLibrary = record {
  not_empty = λ secret c t h. subst (λ s. (s == "") ≡ false) (signed c t h).1 refl;
  verifies = λ secret c t now h live.
      let same = known c (signed c t h).0 in
      let early : ltb now 1000 ≡ true =
        lt→ltb now 1000 (omega (arith, ap (λ (d : Claims). d.expires_at) same)) in
      rw early (ap some same);
}

parse_token-generate_token_example : parse_token one_token "secret" "token" 500 ≡ some "u"
parse_token-generate_token_example =
    parse_token-generate_token one_token "secret" "u" 900 100 500 "token" 1000
      one_token-IsJwtLibrary generates (omega arith)
  where
    generates : generate_token one_token "secret" "u" 900 100 ≡ some ("token", 1000)
    generates = unfold generate_token in refl

authenticate-Admits_example :
    Admits one_token "secret"
      ("/auth.v1.AuthService/Login" ∷ [])
      "/user.v1.UserService/SendDM"
      "bearer token"
      500
      (authenticate one_token "secret"
        ("/auth.v1.AuthService/Login" ∷ [])
        "/user.v1.UserService/SendDM"
        "bearer token"
        500)
authenticate-Admits_example =
    authenticate-Admits one_token "secret" ("/auth.v1.AuthService/Login" ∷ [])
      "/user.v1.UserService/SendDM" "bearer token" 500

-- A service whose tokens are the user and the time.
abbrev plain : Crypto
plain = record {
  bcrypt = λ n password. some password;
  bcrypt_matches = λ hash password. hash == password;
  sha256 = λ token. token;
  jwt = record {
    sign = λ secret c. some (join c.subject (format_int c.issued_at));
    verify = λ now secret t. none;
  };
}

abbrev service : AuthService
service = record {
  crypto = plain;
  jwt_secret = "secret";
  store = record {
    server = record { fails = λ n. false; uuid = λ n. "u"; now = λ n. n };
    statements = 0;
    db = [];
  };
  redis = record { fails = λ n. false; now = λ n. n; commands = 0; entries = [] };
  clock = λ n. n;
  readings = 0;
  hashes = 0;
}

plain-KnowsPasswords : KnowsPasswords plain
plain-KnowsPasswords n password hash h =
    let same : password ≡ hash = ground arith in
    subst (λ p. (hash == p) ≡ true) (sym same) (equal_refl hash)

abbrev first_pair : TokenPair
first_pair = record { access_token = "u0"; refresh_token = "u1"; expires_at = 902 }

abbrev registered : AuthService
registered = record service {
  store = record service.store {
    statements = 2;
    db =
        (record {
          id = "u";
          email = "a@b";
          password_hash = "password";
          nickname = "Ann";
          created_at = 1;
          updated_at = 1;
        })
        ∷ [];
  };
  redis = record service.redis {
    commands = 1;
    entries = (record { key = "refresh:u1"; value = "u"; expires_at = 604800 }) ∷ [];
  };
  readings = 3;
  hashes = 1;
}

registers :
    register_handler "a@b " "password" "Ann" service
    ≡ (ok (record { user_id = "u"; pair = first_pair }), registered)
unfolding register_handler get_user_by_email create_user create_user_sql hash_password
    generate_token_pair new_token generate_token redis_set refresh_key trim_space utf8 join
    format_int query statement
registers = refl

register_handler_login_example :
    (pair : TokenPair) × ((login_handler "a@b " "password" registered).0
      ≡ ok (record { user_id = "u"; pair = pair }))
register_handler_login_example =
    register_handler_login "a@b " "password" "Ann" service registered
      (record { user_id = "u"; pair = first_pair }) registers plain-KnowsPasswords
      (λ c. (join c.subject (format_int c.issued_at), refl)) (λ n. refl) (λ n. refl)

abbrev second_pair : TokenPair
second_pair = record { access_token = "u3"; refresh_token = "u4"; expires_at = 905 }

abbrev refreshed : AuthService
refreshed = record registered {
  redis = record registered.redis {
    commands = 4;
    entries = (record { key = "refresh:u4"; value = "u"; expires_at = 604803 }) ∷ [];
  };
  readings = 6;
}

refreshes : refresh_token_handler "u1" registered ≡ (ok second_pair, refreshed)
unfolding refresh_token_handler rotate generate_token_pair new_token generate_token redis_get
    redis_set redis_del value_at refresh_key join format_int
refreshes = refl

refresh_token_handler_rotates_example :
    (user_id : String) × (issued : ℕ) × (value_at 1
        (refresh_key plain "u1")
        registered.redis.entries
      ≡ some user_id)
    × (find (is_key (refresh_key plain "u4")) refreshed.redis.entries
        ≡ some (token_entry (refresh_key plain "u4") user_id issued))
    × (refreshed.store ≡ registered.store)
    × ((refresh_token_handler "u1" refreshed).0 ≡ err unauthenticated)
unfolding refresh_key join
refresh_token_handler_rotates_example =
    refresh_token_handler_rotates "u1" registered refreshed second_pair (λ n. refl) refreshes refl
