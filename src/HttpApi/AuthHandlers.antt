-- ===== src/HttpApi/AuthHandlers.antt =====
-- `authHandler` of services/api/internal/httpapi/router.go. The service is configured; its state
-- is the handler's.
pub mod Cookies
use learning_garden_server.Prelude.{
  ℕ, ◌+◌, ◌*◌, Bool, true, false, Option, none, some, [], Text, codes, is_empty, if◌then◌else◌,
  Error, Result, ok, err, Exec,
}
use learning_garden_server.Auth.Types.{
  Time, second, Config, RegisterInput, LoginInput, Session, User,
}
use learning_garden_server.Auth.Crypto.{Crypto}
use learning_garden_server.Auth.Store.{UserStore, RefreshStore}
use learning_garden_server.Auth.Service.{
  State, Draws, register, login, refresh, logout, authenticate_access_token,
}
use learning_garden_server.HttpApi.Answers.{
  AppError, Payload, a_session, a_user, no_body, Cookie, cookie, clear_cookie, Response, write_json,
  app_error, Outcome, value, refused, Handler, answer, write_error, outcome_of, ◌>>=◌, ◌>>◌, refuse,
}
use learning_garden_server.HttpApi.Errors.{auth_app_error}
use learning_garden_server.HttpApi.Requests.{Request, bearer_token}

-- `decodeJSON`, where the body decodes to the input, or not
abbrev pub decode_json : {W A : Type 0} → Option A → Handler W A
decode_json none = write_error (app_error 400 (codes "BAD_REQUEST") (codes "invalid JSON body"))
decode_json (some input) = answer input

-- A call of the auth service whose error goes to `authAppError`.
abbrev pub call_auth : {W A : Type 0} → Exec W A → Handler W A
call_auth m w = let (r, w') = m w in (outcome_of auth_app_error r, w')

abbrev pub cookie_ttl : ℕ
cookie_ttl = 30 * 24 * 60 * 60 * second

-- `setRefreshCookie`
unfoldable pub set_refresh_cookie : (secure : Bool) → Text → (now : Time) → Response → Response
set_refresh_cookie secure token now r = record r {
  set_cookie = some (cookie token (now + cookie_ttl) secure);
}

-- The value of the refresh cookie, empty where the request has none.
abbrev pub cookie_value : Request → Text
cookie_value r = elim r.refresh_cookie [ none ↦ [] | some v ↦ v ]

module _ (c : Crypto) (users : UserStore) (sessions : RefreshStore) (config : Config)
    (cookie_secure : Bool) where
  abbrev Served : Type 0
  Served = State c users sessions config

  unfoldable pub register_handler :
      Option RegisterInput → Draws → (now : Time) → Handler Served Response
  unfolding register set_refresh_cookie
  register_handler body d now = do
    input ← decode_json body
    session ← call_auth (register c users sessions config input d)
    answer (
        set_refresh_cookie cookie_secure session.refresh_token now
          (write_json 201 (a_session session)))

  unfoldable pub login_handler : Option LoginInput → Draws → (now : Time) → Handler Served Response
  unfolding login set_refresh_cookie
  login_handler body d now = do
    input ← decode_json body
    session ← call_auth (login c users sessions config input d)
    answer (
        set_refresh_cookie cookie_secure session.refresh_token now
          (write_json 200 (a_session session)))

  unfoldable pub refresh_handler : Request → (now signed_at : Time) → Handler Served Response
  unfolding refresh
  refresh_handler r now signed_at = do
    refuse (is_empty (cookie_value r))
        (app_error 401 (codes "UNAUTHORIZED") (codes "refresh cookie is missing"))
    session ← call_auth (refresh c users sessions config (cookie_value r) now signed_at)
    answer (write_json 200 (a_session session))

  -- The error of `Logout` is dropped.
  unfoldable pub logout_handler : Request → Handler Served Response
  unfolding logout
  logout_handler r w = (
    value (record { status = 204; set_cookie = some (clear_cookie cookie_secure); body = no_body }),
    if is_empty (cookie_value r) then w else (logout c users sessions config (cookie_value r) w).1,
  )

  unfoldable pub me_handler : Request → (now : Time) → Handler Served Response
  unfolding authenticate_access_token bearer_token
  me_handler r now = do
    let token = bearer_token r.authorization
    refuse (is_empty token) (app_error 401 (codes "UNAUTHORIZED") (codes "access token is missing"))
    user ← call_auth (authenticate_access_token c users sessions config token now)
    answer (write_json 200 (a_user user))

  unfoldable pub github_handler : Handler Served Response
  github_handler =
      write_error
        (app_error 501 (codes "OAUTH_NOT_CONFIGURED") (codes "GitHub OAuth is not configured"))
