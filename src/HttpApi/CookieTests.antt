-- ===== src/HttpApi/CookieTests.antt =====
-- The theorems of the refresh cookie and of the middleware, at examples.
use learning_garden_server.Prelude.{List, ◌≡◌, refl, true, some, [], ◌∷◌, arith, codes, text_eq}
use learning_garden_server.Auth.Types.{Session, LoginInput}
use learning_garden_server.Auth.Store.{memory_users, memory_refresh}
use learning_garden_server.Auth.Service.{login, refresh}
use learning_garden_server.Auth.Service.Sessions.{Stores}
use learning_garden_server.Auth.Service.Accounts.{registers}
use learning_garden_server.Auth.Tests.{config}
use learning_garden_server.Auth.SessionTests.{stores, draws, session_in, bob_input}
use learning_garden_server.HttpApi.Answers.{response_of}
use learning_garden_server.HttpApi.AuthHandlers.{refresh_handler, logout_handler}
use learning_garden_server.HttpApi.AuthHandlers.Cookies.{refresh_handler-logout_handler}
use learning_garden_server.HttpApi.Middleware.{
  Call, call_header, call_write, new_recorder, perform_all, status_code, IsReported,
  perform_all-IsReported,
}
use learning_garden_server.HttpApi.Tests.{asking}
use learning_garden_server.Samples.{ascii}
use learning_garden_server.Samples.Codec.{toy_crypto}

refresh_handler-logout_handler_example :
    (response_of
      (refresh_handler toy_crypto
        (memory_users ascii)
        memory_refresh
        config
        true
        (record (asking [] []) { refresh_cookie = some (codes "t") })
        5
        6
        (logout_handler toy_crypto
          (memory_users ascii)
          memory_refresh
          config
          true
          (record (asking [] []) { refresh_cookie = some (codes "t") })
          stores).1).0).status
    ≡ 401
refresh_handler-logout_handler_example =
    refresh_handler-logout_handler ascii toy_crypto config true
      (record (asking [] []) { refresh_cookie = some (codes "t") }) stores 5 6

-- The stores after a registration.
abbrev registered : Stores
registered = (registers ascii toy_crypto config bob_input draws stores).1

abbrev bob_login : LoginInput
bob_login = record { email = codes "bob@x.org"; password = codes "pw" }

abbrev logged_in : Session
logged_in =
    session_in
      (login toy_crypto (memory_users ascii) memory_refresh config bob_login draws registered).0

abbrev again : Session
again =
    session_in
      (refresh toy_crypto (memory_users ascii) memory_refresh config logged_in.refresh_token 5 6
        (login toy_crypto (memory_users ascii) memory_refresh config bob_login draws
          registered).1).0

abbrev calls : List Call
calls = call_write (104 ∷ 105 ∷ []) 2 ∷ call_header 404 ∷ []

perform_all-IsReported_example : IsReported (perform_all calls new_recorder)
perform_all-IsReported_example = perform_all-IsReported calls (tt, (omega arith, tt))

status_code_test : status_code (perform_all calls new_recorder) ≡ 200
unfolding perform_all status_code
status_code_test = refl
