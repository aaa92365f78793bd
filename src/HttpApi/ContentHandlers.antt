-- ===== src/HttpApi/ContentHandlers.antt =====
-- `contentHandler` of services/api/internal/httpapi/content_handlers.go. A handler's pointers to
-- the two services may be nil: a method that is called on a nil service panics at its first read
-- of it.
pub mod Guards
pub mod Listing
use learning_garden_server.Prelude.{
  ℕ, Bool, true, false, not, ◌&&◌, ◌||◌, Option, none, some, List, [], Text, codes, is_empty,
  if◌then◌else◌, Error, Result, ok, err, Exec,
}
use learning_garden_server.Prelude.Int.{pos}
use learning_garden_server.Strings.{Unicode}
use learning_garden_server.Auth.Types.{Config, User}
use learning_garden_server.Auth.Crypto.{Crypto}
use learning_garden_server.Auth.Store.{UserStore, RefreshStore}
use learning_garden_server.Auth.Service.{State, authenticate_access_token, find_user_by_handle}
use learning_garden_server.Content.Types.{
  Time, CreateItemInput, UpdateItemInput, ListFilter, PublicProfile, Stats,
}
use learning_garden_server.Content.Store.{Store}
use learning_garden_server.Content.Service.{
  find_visible, create, update, remove, add_relation, backlinks,
}
use learning_garden_server.Content.Service.Queries.{
  list_public, graph, stats, portfolio, community_feed,
}
use learning_garden_server.HttpApi.Answers.{
  AppError, an_item, items, a_relation, links, a_profile, a_portfolio, a_graph, a_feed, no_body,
  Response, write_json, app_error, Outcome, value, refused, panics, Handler, answer, write_error,
  outcome_of, ◌>>=◌, ◌>>◌, refuse,
}
use learning_garden_server.HttpApi.Errors.{auth_app_error, content_app_error}
use learning_garden_server.HttpApi.Requests.{Request, bearer_token, query_text, limit_query}
use learning_garden_server.HttpApi.AuthHandlers.{decode_json}

-- The body of a new relation.
pub record RelationInput : Type 0 where
  pub target_id : Text
  pub type : Text

abbrev unavailable : AppError
unavailable =
    app_error 503 (codes "CONTENT_UNAVAILABLE") (codes "content service is not configured")

abbrev pub missing_token : AppError
missing_token = app_error 401 (codes "UNAUTHORIZED") (codes "access token is missing")

abbrev no_user : Error → AppError
no_user _ = app_error 404 (codes "NOT_FOUND") (codes "user not found")

-- The response without a body.
abbrev no_content : Response
no_content = record { status = 204; set_cookie = none; body = no_body }

-- `viewerID`
abbrev pub viewer_id : Option User → Text
viewer_id none = []
viewer_id (some user) = user.id

module _ {S T A : Type 0} where
  -- A call of the auth or of the content service, through a pointer that may be nil.
  abbrev pub on_auth : Bool → (Error → AppError) → Exec S A → Handler (S × T) A
  on_auth false f m w = (panics, w)
  on_auth true f m (s, t) = let (r, s') = m s in (outcome_of f r, (s', t))

  abbrev pub on_content : Bool → (Error → AppError) → Exec T A → Handler (S × T) A
  on_content false f m w = (panics, w)
  on_content true f m (s, t) = let (r, t') = m t in (outcome_of f r, (s, t'))

module _ (c : Crypto) (users : UserStore) (sessions : RefreshStore) (config : Config)
    (store : Store) (has_auth has_content : Bool) where
  abbrev World : Type 0
  World = State c users sessions config × store.State

  unfoldable pub require_user : Request → Time → Handler World User
  unfolding bearer_token authenticate_access_token
  require_user r now = do
    let token = bearer_token r.authorization
    refuse (not has_auth || not has_content) unavailable
    refuse (is_empty token) missing_token
    on_auth has_auth auth_app_error (authenticate_access_token c users sessions config token now)

  -- Without a token the viewer is nil.
  abbrev viewer_of : Text → Handler World User → Handler World (Option User)
  viewer_of token m = if is_empty token then answer none else (m >>= λ user. answer (some user))

  unfoldable pub optional_user : Request → Time → Handler World (Option User)
  unfolding bearer_token authenticate_access_token
  optional_user r now = do
    let token = bearer_token r.authorization
    refuse (not has_content) unavailable
    viewer_of token (
        on_auth has_auth auth_app_error
          (authenticate_access_token c users sessions config token now))

  abbrev query_filter : Request → Text → ListFilter
  query_filter r owner = record {
    kind = query_text (codes "kind") r;
    owner_id = owner;
    visibility = [];
    limit = limit_query r;
  }

  unfoldable pub list_content : Request → Handler World Response
  unfolding list_public limit_query
  list_content r = do
    refuse (not has_content) unavailable
    found ← on_content has_content content_app_error (list_public store (query_filter r []))
    answer (write_json 200 (items found))

  unfoldable pub get_content : Request → Time → Handler World Response
  unfolding optional_user find_visible
  get_content r now = do
    viewer ← optional_user r now
    item ← on_content has_content content_app_error (find_visible store r.param (viewer_id viewer))
    answer (write_json 200 (an_item item))

  unfoldable pub delete_content : Request → Time → Handler World Response
  unfolding require_user remove
  delete_content r now = do
    user ← require_user r now
    on_content has_content content_app_error (remove store r.param user.id)
    answer no_content

  unfoldable pub backlinks_handler : Request → Handler World Response
  unfolding backlinks
  backlinks_handler r = do
    rows ← on_content has_content content_app_error (backlinks store r.param)
    answer (write_json 200 (links rows))

  abbrev user_of_handle : Text → Handler World User
  user_of_handle handle =
      on_auth has_auth no_user (find_user_by_handle c users sessions config handle)

  unfoldable pub profile_for_handle : Text → Handler World PublicProfile
  unfolding stats find_user_by_handle
  profile_for_handle handle = do
    user ← user_of_handle handle
    counted ← on_content has_content content_app_error (stats store user.id)
    answer (record {
      id = user.id;
      handle = user.handle;
      display_name = user.display_name;
      role = user.role;
      created_at = user.created_at;
      stats = counted;
    })

  unfoldable pub public_profile : Request → Handler World Response
  unfolding profile_for_handle
  public_profile r = do
    profile ← profile_for_handle r.param
    answer (write_json 200 (a_profile profile))

  unfoldable pub user_content : Request → Handler World Response
  unfolding list_public limit_query find_user_by_handle
  user_content r = do
    user ← user_of_handle r.param
    found ← on_content has_content content_app_error (list_public store (query_filter r user.id))
    answer (write_json 200 (items found))

  unfoldable pub portfolio_handler : Request → Handler World Response
  unfolding profile_for_handle portfolio limit_query
  portfolio_handler r = do
    profile ← profile_for_handle r.param
    made ← on_content has_content content_app_error (portfolio store profile (limit_query r))
    answer (write_json 200 (a_portfolio made))

  abbrev owner_of : Text → Handler World Text
  owner_of handle =
      if is_empty handle then answer [] else (user_of_handle handle >>= λ user. answer user.id)

  unfoldable pub graph_handler : Request → Handler World Response
  unfolding graph limit_query find_user_by_handle
  graph_handler r = do
    owner ← owner_of (query_text (codes "handle") r)
    made ← on_content has_content content_app_error (
        graph store
          (record { kind = []; owner_id = owner; visibility = []; limit = limit_query r }))
    answer (write_json 200 (a_graph made))

  unfoldable pub community_feed_handler : Request → Handler World Response
  unfolding community_feed limit_query
  community_feed_handler r = do
    rows ← on_content has_content content_app_error (community_feed store (limit_query r))
    answer (write_json 200 (a_feed rows))

module _ (u : Unicode) (c : Crypto) (users : UserStore) (sessions : RefreshStore) (config : Config)
    (store : Store) (has_auth has_content : Bool) where
  abbrev Worlds : Type 0
  Worlds = State c users sessions config × store.State

  abbrev required : Request → Time → Handler Worlds User
  required = require_user c users sessions config store has_auth has_content

  unfoldable pub create_content :
      Request
      → Time
      → Option CreateItemInput
      → (id : Text) (created updated : Time) → Handler Worlds Response
  unfolding require_user create
  create_content r now body id created updated = do
    user ← required r now
    input ← decode_json body
    item ←
        on_content has_content content_app_error (create u store user.id input id created updated)
    answer (write_json 201 (an_item item))

  unfoldable pub update_content :
      Request → Time → Option UpdateItemInput → (edited : Time) → Handler Worlds Response
  unfolding require_user update
  update_content r now body edited = do
    user ← required r now
    input ← decode_json body
    item ← on_content has_content content_app_error (update u store r.param user.id input edited)
    answer (write_json 200 (an_item item))

  unfoldable pub add_relation_handler :
      Request → Time → Option RelationInput → (created : Time) → Handler Worlds Response
  unfolding require_user add_relation
  add_relation_handler r now body created = do
    user ← required r now
    input ← decode_json body
    relation ←
        on_content has_content content_app_error
          (add_relation u store r.param user.id input.target_id input.type created)
    answer (write_json 201 (a_relation relation))
