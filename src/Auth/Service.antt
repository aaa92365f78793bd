-- ===== src/Auth/Service.antt =====
-- `Service` of services/api/internal/auth/service.go.
pub mod Sessions
pub mod Accounts
use learning_garden_server.Prelude.{
  ℕ, ◌+◌, Bool, true, false, not, ◌||◌, Option, Text, List, codes, text_eq, ◌==◌, ltb,
  if◌then◌else◌, Error, Result, ok, err, Exec, pure, lift, refuse, ◌>>=◌, ◌>>◌, invalid_credentials,
  refresh_revoked, unauthorized,
}
use learning_garden_server.Strconv.{hex_encode}
use learning_garden_server.Auth.Types.{
  Time, Config, RegisterInput, LoginInput, User, Session, CreateUserInput, RefreshSession,
}
use learning_garden_server.Auth.Crypto.{Crypto}
use learning_garden_server.Auth.Token.{sign_access_token, parse_access_token, new_refresh_token}
use learning_garden_server.Auth.Password.{hash_password, verify_password}
use learning_garden_server.Auth.Store.{UserStore, RefreshStore}

-- What a call draws: 16 bytes of salt and 32 of a refresh token, where the random source gives
-- them; the id of `randomID`; what the user store draws; and the clock's times, in their order.
pub record Draws : Type 0 where
  pub salt : Option Text
  pub id : Text
  pub store_id : Text
  pub store_now : Time
  pub raw_token : Option (List ℕ)
  pub signed_at : Time
  pub saved_at : Time

-- `randomID`: the hex digits of 16 bytes, or of the clock's text where the random source fails.
unfoldable pub random_id : Option (List ℕ) → (clock : List ℕ) → Text
unfolding hex_encode
random_id raw clock = hex_encode (elim raw [ Option.none ↦ clock | Option.some bytes ↦ bytes ])

-- `if err != nil { return …, e }`, whatever `err` is
abbrev pub replaced {ℓ} : {A : Type ℓ} → Error → Result A → Result A
replaced e (ok a) = ok a
replaced e (err _) = err e

abbrev pub or_fail {ℓ} : {S A : Type ℓ} → Error → Exec S A → Exec S A
or_fail e m s = let (r, s') = m s in (replaced e r, s')

module _ {S T A : Type 0} where
  -- A call of one of the two stores.
  abbrev pub on_users : Exec S A → Exec (S × T) A
  on_users m (s, t) = let (r, s') = m s in (r, (s', t))

  abbrev pub on_refresh : Exec T A → Exec (S × T) A
  on_refresh m (s, t) = let (r, t') = m t in (r, (s, t'))

module _ (c : Crypto) (users : UserStore) (sessions : RefreshStore) (config : Config) where
  abbrev pub State : Type 0
  State = users.State × sessions.State

  unfoldable pub new_session : User → Draws → Exec State Session
  new_session user d = do
    access ← lift (sign_access_token c config.jwt_secret user d.signed_at config.access_token_ttl)
    token ← lift (new_refresh_token c d.raw_token)
    on_refresh (
        sessions.save (record {
          token = token;
          user_id = user.id;
          expires_at = d.saved_at + config.refresh_token_ttl;
          revoked = false;
        }))
    pure (record { access_token = access; refresh_token = token; user = user })

  unfoldable pub register : RegisterInput → Draws → Exec State Session
  register input d = do
    hash ← lift (hash_password c input.password d.salt)
    user ← on_users (
        users.create_user
          (record {
            id = d.id;
            email = input.email;
            handle = input.handle;
            display_name = input.display_name;
            password_hash = hash;
          })
          d.store_id d.store_now)
    new_session user d

  unfoldable pub login : LoginInput → Draws → Exec State Session
  login input d = do
    user ← or_fail invalid_credentials (on_users (users.find_by_email input.email))
    refuse
        (not (user.status == codes "active")
          || not (verify_password c input.password user.password_hash))
        invalid_credentials
    new_session user d

  -- The clock is read for the expiry, and again for the token.
  unfoldable pub refresh : Text → (now signed_at : Time) → Exec State Session
  refresh token now signed_at = do
    stored ← or_fail refresh_revoked (on_refresh (sessions.find token))
    refuse (not (ltb now stored.expires_at)) refresh_revoked
    user ← or_fail unauthorized (on_users (users.find_by_id stored.user_id))
    access ← lift (sign_access_token c config.jwt_secret user signed_at config.access_token_ttl)
    pure (record { access_token = access; refresh_token = token; user = user })

  unfoldable pub logout : Text → Exec State (Unit {0})
  logout token = on_refresh (sessions.revoke token)

  unfoldable pub authenticate_access_token : Text → (now : Time) → Exec State User
  authenticate_access_token token now = do
    claims ← lift (parse_access_token c config.jwt_secret token now)
    on_users (users.find_by_id claims.user_id)

  unfoldable pub find_user_by_handle : Text → Exec State User
  find_user_by_handle handle = on_users (users.find_by_handle handle)
