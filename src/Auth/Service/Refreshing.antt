-- ===== src/Auth/Service/Refreshing.antt =====
-- The rotation of refresh tokens in backend/services/auth-service/service.go.
use constell.Prelude.{
  ℕ, suc, ◌+◌, String, ◌≡◌, refl, ap, subst, ◌∙◌, inl, inr, false, none, some, List, ◌∷◌,
  Bool-cases, Option-cases, ◌==◌, nat_eq, string_eq, equal_refl, find, equal_sym,
}
use constell.Prelude.Exec.{Result, ok, err, replace_error}
use constell.Prelude.Exec.Ends.{after_check, after_step}
use constell.Rpc.{Code, unauthenticated, invalid_argument, internal}
use constell.Redis.{
  RedisEntry, is_key, value_at, without, redis_get, redis_set, redis_del, find-without,
  find-without_self,
}
use constell.Auth.Service.{
  AuthService, AuthError, TokenPair, new_token, refresh_key, refresh_token_expiry,
  access_token_expiry, generate_token_pair, rotate, refresh_token_handler,
}

-- The entry of a refresh token.
abbrev pub token_entry : String → String → ℕ → RedisEntry
token_entry key user_id now = record {
  key = key;
  value = user_id;
  expires_at = now + refresh_token_expiry;
}

-- What a step leaves alone.
pub record Alike (s t : AuthService) : Type 0 where
  pub crypto : t.crypto ≡ s.crypto
  pub store : t.store ≡ s.store
  pub fails : t.redis.fails ≡ s.redis.fails
  pub secret : t.jwt_secret ≡ s.jwt_secret

-- How generateTokenPair ends, where Redis answers: the refresh token is stored for the user.
abbrev pub Issues : String → AuthService → Result AuthError TokenPair × AuthService → Type 0
Issues user_id s (ok pair, t) =
    Alike s t
    × ((now : ℕ) × (t.redis.entries
          ≡ token_entry (refresh_key s.crypto pair.refresh_token) user_id now
            ∷ without (refresh_key s.crypto pair.refresh_token) s.redis.entries))
Issues user_id s (err e, t) = Alike s t

pub generate_token_pair-Issues :
    (user_id : String) (s : AuthService) → Issues user_id s (generate_token_pair user_id s)
unfolding generate_token_pair new_token redis_set
generate_token_pair-Issues user_id s =
    let P = Issues user_id s in
    let s1 = (new_token user_id access_token_expiry s).1 in
    after_step P (new_token user_id access_token_expiry) _ s
      (λ e. record { crypto = refl; store = refl; fails = refl; secret = refl })
      λ access made.
        after_step P (new_token user_id refresh_token_expiry) _ s1
          (λ e. record { crypto = refl; store = refl; fails = refl; secret = refl })
          λ refresh made'. elim (Bool-cases (s.redis.fails s.redis.commands)) [
            | inl down ↦
                rw down (record { crypto = refl; store = refl; fails = refl; secret = refl })
            | inr up ↦ rw up (
              record { crypto = refl; store = refl; fails = refl; secret = refl },
              (s.redis.now s.redis.commands, refl),
            )
          ]

-- How RefreshToken ends, where Redis answers. Where it answers, Redis had the token for a user; now
-- it has the new token for that user, and no other entry has changed but that of the old token,
-- which is gone unless the two have the same key.
record Rotated (token : String) (s t : AuthService) (pair : TokenPair) (user_id : String)
    : Type 0 where
  given : (token == "") ≡ false
  alike : Alike s t
  live :
      value_at (s.redis.now s.redis.commands) (refresh_key s.crypto token) s.redis.entries
      ≡ some user_id
  issued : ℕ
  entries :
      t.redis.entries
      ≡ token_entry (refresh_key s.crypto pair.refresh_token) user_id issued
        ∷ without
            (refresh_key s.crypto pair.refresh_token)
            (without (refresh_key s.crypto token) s.redis.entries)

abbrev Rotates : String → AuthService → Result Code TokenPair × AuthService → Type 0
Rotates token s (ok pair, t) = (user_id : String) × Rotated token s t pair user_id
Rotates token s (err e, t) = Unit {0}

rotate-Rotates :
    (token user_id : String) (s s' : AuthService) (r : Result AuthError TokenPair × AuthService)
    → (token == "") ≡ false
    → Alike s s'
    → s'.redis.entries ≡ without (refresh_key s.crypto token) s.redis.entries
    → value_at (s.redis.now s.redis.commands) (refresh_key s.crypto token) s.redis.entries
      ≡ some user_id
    → Issues user_id s' r
    → Rotates token s (replace_error internal r)
rotate-Rotates token user_id s s' (ok pair, t) given alike dropped live (kept, (now, entries)) = (
  user_id,
  record {
    given = given;
    alike = record {
      crypto = kept.crypto ∙ alike.crypto;
      store = kept.store ∙ alike.store;
      fails = kept.fails ∙ alike.fails;
      secret = kept.secret ∙ alike.secret;
    };
    live = live;
    issued = now;
    entries = entries ∙ rw (dropped, alike.crypto) refl;
  },
)
rotate-Rotates token user_id s s' (err e, t) given alike dropped live i = tt

refresh_token_handler-Rotates :
    (token : String) (s : AuthService)
    → ((n : ℕ) → s.redis.fails n ≡ false)
    → Rotates token s (refresh_token_handler token s)
unfolding refresh_token_handler rotate redis_get redis_del
refresh_token_handler-Rotates token s up =
    let P = Rotates token s in
    let key = refresh_key s.crypto token in
    let s1 : AuthService = record s {
      redis = record s.redis { commands = suc s.redis.commands };
    } in
    let s2 : AuthService = record s1 {
      redis = record s1.redis {
        commands = suc s1.redis.commands;
        entries = without key s.redis.entries;
      };
    } in
    after_check P (token == "") invalid_argument _ s (λ _. tt)
      λ given.
        rw (up s.redis.commands)
          (elim (Option-cases (value_at (s.redis.now s.redis.commands) key s.redis.entries)) [
            | inl missing ↦ rw missing tt
            | inr (user_id, found) ↦
                rw (found, up (suc s.redis.commands))
                  (rotate-Rotates token user_id s s2 _ given
                    (record { crypto = refl; store = refl; fails = refl; secret = refl }) refl found
                    (generate_token_pair-Issues user_id s2))
          ])

-- A token that Redis does not have is refused.
refused :
    (token : String) (t : AuthService)
    → (token == "") ≡ false
    → ((n : ℕ) → t.redis.fails n ≡ false)
    → find (is_key (refresh_key t.crypto token)) t.redis.entries ≡ none
    → (refresh_token_handler token t).0 ≡ err unauthenticated
unfolding refresh_token_handler redis_get value_at
refused token t named up gone = rw (named, up t.redis.commands, gone) refl

gone_from :
    (old new user_id : String) (now : ℕ) (es : List RedisEntry)
    → (new == old) ≡ false
    → find (is_key old) (token_entry new user_id now ∷ without new (without old es)) ≡ none
gone_from old new user_id now es other =
    rw other
      (find-without old new (without old es) (equal_sym old new ∙ other) ∙ find-without_self old es)

-- Where Redis does not fail and RefreshToken answers with a refresh token of another key, the old
-- token was stored for a user and had not expired, the new one is stored for the same user, no
-- user row has changed, and the next call with the old token is refused as unauthenticated.
pub refresh_token_handler_rotates :
    (token : String) (s t : AuthService) (pair : TokenPair)
    → ((n : ℕ) → s.redis.fails n ≡ false)
    → refresh_token_handler token s ≡ (ok pair, t)
    → (refresh_key s.crypto pair.refresh_token == refresh_key s.crypto token) ≡ false
    → (user_id : String) × (issued : ℕ) × (value_at
          (s.redis.now s.redis.commands)
          (refresh_key s.crypto token)
          s.redis.entries
        ≡ some user_id)
      × (find (is_key (refresh_key s.crypto pair.refresh_token)) t.redis.entries
          ≡ some (token_entry (refresh_key s.crypto pair.refresh_token) user_id issued))
      × (t.store ≡ s.store)
      × ((refresh_token_handler token t).0 ≡ err unauthenticated)
refresh_token_handler_rotates token s t pair up done other =
    let old = refresh_key s.crypto token in
    let new = refresh_key s.crypto pair.refresh_token in
    let (user_id, r) : Rotates token s (ok pair, t) =
      subst (Rotates token s) done (refresh_token_handler-Rotates token s up) in
    let gone : find (is_key (refresh_key t.crypto token)) t.redis.entries ≡ none =
      ap (λ c. find (is_key (refresh_key c token)) t.redis.entries) r.alike.crypto
      ∙ ap (find (is_key old)) r.entries
      ∙ gone_from old new user_id r.issued s.redis.entries other in
    (
      user_id,
      r.issued,
      r.live,
      ap (find (is_key new)) r.entries ∙ rw (equal_refl new) refl,
      r.alike.store,
      refused token t r.given (λ n. rw r.alike.fails (up n)) gone,
    )
