-- ===== src/HttpApi/AuthHandlers/Cookies.antt =====
-- The refresh cookie over the handlers that set and read it, over the in-memory stores.
use learning_garden_server.Prelude.{◌+◌, ◌≡◌, Bool, false, some, is_empty, ok, Bool-cases, inl, inr}
use learning_garden_server.Strings.{Unicode}
use learning_garden_server.Auth.Types.{Time, Config, LoginInput, Session}
use learning_garden_server.Auth.Crypto.{Crypto}
use learning_garden_server.Auth.Store.{memory_users, memory_refresh}
use learning_garden_server.Auth.Service.{Draws, login, refresh}
use learning_garden_server.Auth.Service.Sessions.{Stores, refresh-logout}
use learning_garden_server.HttpApi.Answers.{
  response_of, write_app_error, a_session, cookie, value, write_json,
}
use learning_garden_server.HttpApi.Errors.{auth_app_error}
use learning_garden_server.HttpApi.Requests.{Request}
use learning_garden_server.HttpApi.AuthHandlers.{
  cookie_ttl, set_refresh_cookie, cookie_value, refresh_handler, logout_handler, login_handler,
}

module _ (u : Unicode) (c : Crypto) (config : Config) (secure : Bool) where
  -- After a logout, a refresh with the same cookie is answered with status 401, whatever the
  -- cookie was.
  pub refresh_handler-logout_handler :
      (r : Request) (w : Stores) (now signed_at : Time)
      → (response_of
          (refresh_handler c
            (memory_users u)
            memory_refresh
            config
            secure
            r
            now
            signed_at
            (logout_handler c (memory_users u) memory_refresh config secure r w).1).0).status
        ≡ 401
  unfolding refresh_handler logout_handler write_app_error auth_app_error
  refresh_handler-logout_handler r w now signed_at = elim (Bool-cases (is_empty (cookie_value r))) [
    | inl empty ↦ rw empty
    | inr there ↦ rw (there, refresh-logout u c config (cookie_value r) w now signed_at)
  ]

  -- A login that succeeds sets the session's refresh token as the cookie; where the token is not
  -- empty and the service refreshes it, the next request that carries the cookie is answered 200
  -- with the refreshed session.
  pub refresh_handler-login_handler :
      (input : LoginInput) (d : Draws) (now : Time) (w : Stores) (session : Session) (r : Request)
      (later signed_at : Time) (again : Session)
      → (login c (memory_users u) memory_refresh config input d w).0 ≡ ok session
      → r.refresh_cookie ≡ some session.refresh_token
      → is_empty session.refresh_token ≡ false
      → (refresh c
          (memory_users u)
          memory_refresh
          config
          session.refresh_token
          later
          signed_at
          (login c (memory_users u) memory_refresh config input d w).1).0
        ≡ ok again
      → ((response_of
            (login_handler c
              (memory_users u)
              memory_refresh
              config
              secure
              (some input)
              d
              now
              w).0).set_cookie
          ≡ some (cookie session.refresh_token (now + cookie_ttl) secure))
        × ((refresh_handler c
              (memory_users u)
              memory_refresh
              config
              secure
              r
              later
              signed_at
              (login_handler c
                (memory_users u)
                memory_refresh
                config
                secure
                (some input)
                d
                now
                w).1).0
            ≡ value (write_json 200 (a_session again)))
  unfolding refresh_handler login_handler set_refresh_cookie
  refresh_handler-login_handler input d now w session r later signed_at again opened carried filled
        renewed =
      (rw opened, rw (opened, carried, filled, renewed))
