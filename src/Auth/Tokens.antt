-- ===== src/Auth/Tokens.antt =====
-- backend/pkg/jwt/jwt.go over the library golang-jwt. Times are seconds since 1970, the precision of
-- the library's dates.
use constell.Prelude.{
  ℕ, ◌+◌, ◌<◌, String, ◌≡◌, refl, false, Option, none, some, arith, if◌then◌else◌, ◌==◌, nat_eq,
  string_eq,
}

pub record Claims : Type 0 where
  pub subject : String
  pub issued_at : ℕ
  pub expires_at : ℕ

-- The library: signing with a secret, and at a time the claims of a text whose signature the secret
-- makes and that has not expired.
pub record JwtLibrary : Type 0 where
  pub sign : String → Claims → Option String
  pub verify : ℕ → String → String → Option Claims

-- Its documented behaviour: a signed text is not empty, and verifies with its secret until it
-- expires.
pub record IsJwtLibrary (lib : JwtLibrary) : Type 0 where
  pub not_empty :
      (secret : String) (c : Claims) (t : String) → lib.sign secret c ≡ some t → (t == "") ≡ false
  pub verifies :
      (secret : String) (c : Claims) (t : String) (now : ℕ)
      → lib.sign secret c ≡ some t
      → now < c.expires_at
      → lib.verify now secret t ≡ some c

abbrev pub with_expiry : ℕ → Option String → Option (String × ℕ)
with_expiry expires_at none = none
with_expiry expires_at (some t) = some (t, expires_at)

-- GenerateToken, at a time
unfoldable pub generate_token : JwtLibrary → String → String → ℕ → ℕ → Option (String × ℕ)
generate_token lib secret user_id ttl now =
    with_expiry (now + ttl)
      (lib.sign secret (record { subject = user_id; issued_at = now; expires_at = now + ttl }))

abbrev pub subject_of : Option Claims → Option String
subject_of none = none
subject_of (some c) = some c.subject

-- ParseToken, at a time
unfoldable pub parse_token : JwtLibrary → String → String → ℕ → Option String
parse_token lib secret token now =
    if token == "" then none else subject_of (lib.verify now secret token)

with_expiry-some :
    (e : ℕ) (o : Option String) (t : String) (f : ℕ)
    → with_expiry e o ≡ some (t, f)
    → (o ≡ some t) × (f ≡ e)
with_expiry-some e none t f h = cc
with_expiry-some e (some u) t f h = ground arith

-- Over a library that verifies what it signed, a token that GenerateToken made for a user is
-- parsed to that user with the same secret at any time before its expiry.
pub parse_token-generate_token :
    (lib : JwtLibrary) (secret user_id : String) (ttl issued now : ℕ) (token : String)
    (expires_at : ℕ)
    → IsJwtLibrary lib
    → generate_token lib secret user_id ttl issued ≡ some (token, expires_at)
    → now < expires_at
    → parse_token lib secret token now ≡ some user_id
unfolding parse_token generate_token
parse_token-generate_token lib secret user_id ttl issued now token expires_at law h live =
    let (signed, same) = with_expiry-some (issued + ttl) _ token expires_at h in
    rw
      (
        law.not_empty secret _ token signed,
        law.verifies secret _ token now signed (omega (arith, same)),
      )
      refl
