-- ===== src/Auth/Interceptor.antt =====
-- NewAuthInterceptor of backend/pkg/middleware/auth.go: which user a handler sees.
use constell.Prelude.{
  ℕ, String, ◌≡◌, refl, ◌⊎◌, inl, inr, true, false, Option, none, some, List, if◌then◌else◌,
  Bool-cases, ◌==◌, nat_eq, string_eq, eq_of_equal, contains,
}
use constell.Prelude.Exec.{Result, ok, err}
use constell.Prelude.Text.{split_at, equal_fold}
use constell.Rpc.{Code, unauthenticated}
use constell.Auth.Tokens.{JwtLibrary, parse_token}

-- What is behind "Bearer " in the header. The letters of the word fold to ASCII letters only.
abbrev pub bearer_of : Option (String × String) → Option String
bearer_of none = none
bearer_of (some (scheme, token)) = if equal_fold scheme "Bearer" then some token else none

abbrev pub or_unauthenticated : Option String → Result Code String
or_unauthenticated none = err unauthenticated
or_unauthenticated (some a) = ok a

abbrev pub parse_bearer : JwtLibrary → String → ℕ → Option String → Result Code String
parse_bearer lib secret now none = err unauthenticated
parse_bearer lib secret now (some token) = or_unauthenticated (parse_token lib secret token now)

-- The user id that the context of the next handler has: none on a path that is skipped.
unfoldable pub authenticate :
    JwtLibrary → String → List String → String → String → ℕ → Result Code String
unfolding split_at equal_fold parse_token
authenticate lib secret skip_paths procedure header now =
    if contains procedure skip_paths
    then ok ""
    else if header == ""
    then err unauthenticated
    else parse_bearer lib secret now (bearer_of (split_at 32 header))

abbrev pub run_next : {A : Type 0} → (String → Result Code A) → Result Code String → Result Code A
run_next next (ok user_id) = next user_id
run_next next (err e) = err e

-- The interceptor around a handler, which reads the user id by UserIDFromContext
unfoldable pub intercept :
    {A : Type 0}
    → JwtLibrary
    → String
    → List String
    → (String → Result Code A)
    → String
    → String
    → ℕ
    → Result Code A
unfolding authenticate
intercept lib secret skip_paths next procedure header now =
    run_next next (authenticate lib secret skip_paths procedure header now)

-- The header is "Bearer <token>", in any case of letters, and the token is the user's.
abbrev pub HasBearer : JwtLibrary → String → String → ℕ → String → Type 0
HasBearer lib secret header now user_id =
    (scheme : String) × (token : String) × (split_at 32 header ≡ some (scheme, token))
    × (equal_fold scheme "Bearer" ≡ true)
    × (parse_token lib secret token now ≡ some user_id)

-- How the interceptor decides.
abbrev pub Admits :
    JwtLibrary → String → List String → String → String → ℕ → Result Code String → Type 0
Admits lib secret skip_paths procedure header now (ok user_id) =
    ((contains procedure skip_paths ≡ true) × (user_id ≡ ""))
    ⊎ ((contains procedure skip_paths ≡ false) × HasBearer lib secret header now user_id)
Admits lib secret skip_paths procedure header now (err e) =
    (contains procedure skip_paths ≡ false)
    × (e ≡ unauthenticated)
    × ((user_id : String) → ¬ (HasBearer lib secret header now user_id))

abbrev parsed : JwtLibrary → String → String → ℕ → Result Code String
parsed lib secret header now = parse_bearer lib secret now (bearer_of (split_at 32 header))

parse_bearer_lem :
    (lib : JwtLibrary) (secret header : String) (now : ℕ) (user_id : String)
    → HasBearer lib secret header now user_id
    → parsed lib secret header now ≡ ok user_id
parse_bearer_lem lib secret header now user_id (scheme, token, parts, word, verified) =
    rw (parts, word, verified) refl

none_bears :
    (lib : JwtLibrary) (secret header : String) (now : ℕ) (e : Code)
    → parsed lib secret header now ≡ err e
    → (user_id : String) → ¬ (HasBearer lib secret header now user_id)
none_bears lib secret header now e h user_id bears =
    let good = parse_bearer_lem lib secret header now user_id bears in cc

module _ (lib : JwtLibrary) (secret : String) (skip_paths : List String) (procedure header : String)
    (now : ℕ) (asked : contains procedure skip_paths ≡ false) where
  token-Admits :
      (scheme token : String) (o : Option String)
      → split_at 32 header ≡ some (scheme, token)
      → equal_fold scheme "Bearer" ≡ true
      → parse_token lib secret token now ≡ o
      → Admits lib secret skip_paths procedure header now (or_unauthenticated o)
  token-Admits scheme token none parts word verified = (
    asked,
    refl,
    none_bears lib secret header now unauthenticated (rw (parts, word, verified) refl),
  )
  token-Admits scheme token (some user_id) parts word verified =
      inr (asked, (scheme, token, parts, word, verified))

  header-Admits :
      (o : Option (String × String))
      → split_at 32 header ≡ o
      → Admits lib secret skip_paths procedure header now
          (parse_bearer lib secret now (bearer_of o))
  header-Admits none parts =
      (asked, refl, none_bears lib secret header now unauthenticated (rw parts refl))
  header-Admits (some (scheme, token)) parts = elim (Bool-cases (equal_fold scheme "Bearer")) [
    | inl word ↦ rw word (token-Admits scheme token _ parts word refl)
    | inr other ↦
        rw other
          (asked, refl, none_bears lib secret header now unauthenticated (rw (parts, other) refl))
  ]

empty_header :
    (lib : JwtLibrary) (secret header : String) (now : ℕ)
    → (header == "") ≡ true
    → parsed lib secret header now ≡ err unauthenticated
unfolding split_at
empty_header lib secret header now h = rw (eq_of_equal header "" h) refl

-- On a path that is to be skipped the interceptor passes the call on with the empty user id. On
-- any other path it passes the call on only where the header is a bearer token that parses, with
-- the user id of that token, which may be empty. Every refusal is unauthenticated, on a path that
-- is not to be skipped, and then the header bears no token that parses.
pub authenticate-Admits :
    (lib : JwtLibrary) (secret : String) (skip_paths : List String) (procedure header : String)
    (now : ℕ)
    → Admits lib secret skip_paths procedure header now
        (authenticate lib secret skip_paths procedure header now)
unfolding authenticate
authenticate-Admits lib secret skip_paths procedure header now =
    elim (Bool-cases (contains procedure skip_paths)) [
      | inl skip ↦ rw skip (inl (skip, refl))
      | inr asked ↦ rw asked (elim (Bool-cases (header == "")) [
        | inl empty ↦ rw empty (
          asked,
          refl,
          none_bears lib secret header now unauthenticated
              (empty_header lib secret header now empty),
        )
        | inr given ↦
            rw given (header-Admits lib secret skip_paths procedure header now asked _ refl)
      ])
    ]
