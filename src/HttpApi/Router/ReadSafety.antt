-- ===== src/HttpApi/Router/ReadSafety.antt =====
-- The content endpoints of services/api/internal/httpapi/content_handlers.go that read: they keep
-- whatever holds of the content store, and answer with a status between 200 and 599.
use learning_garden_server.Prelude.{Bool, ◌≡◌, refl, ◌&&◌, leb, ltb, true, Text, Error}
use learning_garden_server.Auth.Types.{Config, Time}
use learning_garden_server.Auth.Crypto.{Crypto}
use learning_garden_server.Auth.Store.{UserStore, RefreshStore}
use learning_garden_server.Content.Store.{Store, StoreLaws}
use learning_garden_server.Content.Service.Reads.{
  find_visible-IsReader, backlinks-IsReader, list_public-IsReader, graph-IsReader, stats-IsReader,
  portfolio-IsReader, community_feed-IsReader,
}
use learning_garden_server.HttpApi.Requests
use learning_garden_server.HttpApi.ContentHandlers.{
  list_content, get_content, backlinks_handler, public_profile, user_content, portfolio_handler,
  graph_handler, community_feed_handler, require_user, optional_user, profile_for_handle,
}
use learning_garden_server.HttpApi.Router.Rules.{
  IsErrorStatus, Safe, Anything, OnContent, auth_app_error-IsErrorStatus,
  content_app_error-IsErrorStatus, Safe-answer, Safe-write_error, Safe-refuse, Safe-if,
  Safe-decode_json, Safe-bind, Safe-on_auth, Safe-on_content, Safe-on_first, Safe-call_auth,
  Keeps-reader,
}
use learning_garden_server.HttpApi.Router.AuthSafety.{IsStatus, handler_rules}

module _ (c : Crypto) (users : UserStore) (sessions : RefreshStore) (config : Config)
    (store : Store) (laws : StoreLaws store) (has_content : Bool) (P : store.State → Type 0) where
  pub ruleset content_rules = (
    handler_rules, Safe-on_auth, Safe-on_content, Keeps-reader, find_visible-IsReader,
    backlinks-IsReader, list_public-IsReader, graph-IsReader, stats-IsReader, portfolio-IsReader,
    community_feed-IsReader,
  )

  pub list_content-Safe :
      (r : Requests.Request)
      → Safe (OnContent P) IsStatus (list_content c users sessions config store true has_content r)
  unfolding list_content
  list_content-Safe r = search (content_rules, laws) depth 10

  pub get_content-Safe :
      (r : Requests.Request) (now : Time)
      → Safe
          (OnContent P)
          IsStatus
          (get_content c users sessions config store true has_content r now)
  unfolding get_content optional_user
  get_content-Safe r now = search (content_rules, laws) depth 14

  pub require_user-Safe :
      (r : Requests.Request) (now : Time)
      → Safe
          (OnContent P)
          Anything
          (require_user c users sessions config store true has_content r now)
  unfolding require_user
  require_user-Safe r now = search content_rules depth 12

  pub backlinks_handler-Safe :
      (r : Requests.Request)
      → Safe
          (OnContent P)
          IsStatus
          (backlinks_handler c users sessions config store true has_content r)
  unfolding backlinks_handler
  backlinks_handler-Safe r = search (content_rules, laws) depth 10

  pub no_user-IsErrorStatus : (e : Error) → (leb 400 404 && ltb 404 600) ≡ true
  no_user-IsErrorStatus e = refl

  pub profile_for_handle-Safe :
      (handle : Text)
      → Safe
          (OnContent P)
          Anything
          (profile_for_handle c users sessions config store true has_content handle)
  unfolding profile_for_handle
  profile_for_handle-Safe handle = search (content_rules, laws, no_user-IsErrorStatus) depth 12

  pub public_profile-Safe :
      (r : Requests.Request)
      → Safe
          (OnContent P)
          IsStatus
          (public_profile c users sessions config store true has_content r)
  unfolding public_profile
  public_profile-Safe r = search (content_rules, profile_for_handle-Safe) depth 8

  pub user_content-Safe :
      (r : Requests.Request)
      → Safe (OnContent P) IsStatus (user_content c users sessions config store true has_content r)
  unfolding user_content
  user_content-Safe r = search (content_rules, laws, no_user-IsErrorStatus) depth 12

  pub portfolio_handler-Safe :
      (r : Requests.Request)
      → Safe
          (OnContent P)
          IsStatus
          (portfolio_handler c users sessions config store true has_content r)
  unfolding portfolio_handler
  portfolio_handler-Safe r = search (content_rules, laws, profile_for_handle-Safe) depth 12

  pub graph_handler-Safe :
      (r : Requests.Request)
      → Safe (OnContent P) IsStatus (graph_handler c users sessions config store true has_content r)
  unfolding graph_handler
  graph_handler-Safe r = search (content_rules, laws, no_user-IsErrorStatus) depth 14

  pub community_feed_handler-Safe :
      (r : Requests.Request)
      → Safe
          (OnContent P)
          IsStatus
          (community_feed_handler c users sessions config store true has_content r)
  unfolding community_feed_handler
  community_feed_handler-Safe r = search (content_rules, laws) depth 10
