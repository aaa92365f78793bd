-- ===== src/HttpApi/Router/AuthSafety.antt =====
-- The auth endpoints of services/api/internal/httpapi/router.go answer with a status between 200
-- and 599.
use learning_garden_server.Prelude.{Bool, ◌≡◌, refl, ◌&&◌, leb, ltb, true, Option}
use learning_garden_server.Auth.Types.{Config, Time, RegisterInput, LoginInput}
use learning_garden_server.Auth.Crypto.{Crypto}
use learning_garden_server.Auth.Store.{UserStore, RefreshStore}
use learning_garden_server.Auth.Service.{Draws}
use learning_garden_server.HttpApi.Answers.{Response}
use learning_garden_server.HttpApi.Requests
use learning_garden_server.HttpApi.AuthHandlers.{
  register_handler, login_handler, refresh_handler, logout_handler, me_handler, github_handler,
}
use learning_garden_server.HttpApi.Router.Rules.{
  IsErrorStatus, Safe, Anything, OnContent, auth_app_error-IsErrorStatus,
  content_app_error-IsErrorStatus, Safe-answer, Safe-write_error, Safe-refuse, Safe-if,
  Safe-decode_json, Safe-bind, Safe-on_auth, Safe-on_content, Safe-on_first, Safe-call_auth,
  Keeps-reader,
}

abbrev pub IsStatus : Response → Type 0
IsStatus r = (leb 200 r.status && ltb r.status 600) ≡ true

-- Closes the goals on constant statuses, which compute.
pub constant_status : true ≡ true
constant_status = refl

pub any_answer : Unit {0}
any_answer = tt

pub ruleset handler_rules = (
  Safe-answer, Safe-write_error, Safe-refuse, Safe-if, Safe-decode_json, Safe-bind, Safe-call_auth,
  constant_status, any_answer, auth_app_error-IsErrorStatus, content_app_error-IsErrorStatus,
)

module _ (c : Crypto) (users : UserStore) (sessions : RefreshStore) (config : Config)
    (secure : Bool) where
  pub refresh_handler-Safe :
      (r : Requests.Request) (now signed_at : Time)
      → Safe (λ s. Unit) IsStatus (refresh_handler c users sessions config secure r now signed_at)
  unfolding refresh_handler
  refresh_handler-Safe r now signed_at = search handler_rules depth 10

  pub register_handler-Safe :
      (body : Option RegisterInput) (d : Draws) (now : Time)
      → Safe (λ s. Unit) IsStatus (register_handler c users sessions config secure body d now)
  unfolding register_handler
  register_handler-Safe body d now = search handler_rules depth 10

  pub login_handler-Safe :
      (body : Option LoginInput) (d : Draws) (now : Time)
      → Safe (λ s. Unit) IsStatus (login_handler c users sessions config secure body d now)
  unfolding login_handler
  login_handler-Safe body d now = search handler_rules depth 10

  pub logout_handler-Safe :
      (r : Requests.Request)
      → Safe (λ s. Unit) IsStatus (logout_handler c users sessions config secure r)
  unfolding logout_handler
  logout_handler-Safe r = record { at = λ w h. (refl, tt) }

  pub me_handler-Safe :
      (r : Requests.Request) (now : Time)
      → Safe (λ s. Unit) IsStatus (me_handler c users sessions config secure r now)
  unfolding me_handler
  me_handler-Safe r now = search handler_rules depth 10

  pub github_handler-Safe :
      Safe (λ s. Unit) IsStatus (github_handler c users sessions config secure)
  unfolding github_handler
  github_handler-Safe = search handler_rules depth 4
