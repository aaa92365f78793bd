-- ===== src/HttpApi/Router.antt =====
-- `NewRouter` of services/api/internal/httpapi/router.go: the table of routes and the chain of
-- middleware around them, as one function that serves a request. The auth service is configured.
pub mod Dispatch
pub mod Rules
pub mod AuthSafety
pub mod ReadSafety
pub mod WriteSafety
pub mod Safety
pub mod Serving
pub mod Guarantees
pub mod GetReads
mod Tests
use learning_garden_server.Prelude.{
  ℕ, ◌*◌, Bool, Option, none, some, List, [], ◌∷◌, ◌++◌, map, Text, codes, text_eq, nat_eq, ◌==◌,
  if◌then◌else◌, All, ◌≡◌, ◌⊎◌, ◌&&◌, leb, ltb, true,
}
use learning_garden_server.Auth.Types.{Time, second, RegisterInput, LoginInput}
use learning_garden_server.Auth.Service.{Draws}
use learning_garden_server.Content.Types.{CreateItemInput, UpdateItemInput}
use learning_garden_server.HttpApi.Answers.{Response, Body}
use learning_garden_server.HttpApi.Requests
use learning_garden_server.HttpApi.Metrics.{Metrics}
use learning_garden_server.HttpApi.ContentHandlers.{RelationInput}

-- What a route calls.
pub data Endpoint : Type 0 where
  healthz metrics_page : Endpoint
  register_ep login_ep refresh_ep logout_ep me_ep github_ep : Endpoint
  list_content_ep create_content_ep get_content_ep update_content_ep delete_content_ep : Endpoint
  add_relation_ep backlinks_ep public_profile_ep user_content_ep portfolio_ep graph_ep : Endpoint
  community_feed_ep : Endpoint

-- A route, of one method or, as `Handle` makes it, of all.
pub record Route : Type 0 where
  pub method : Option Text
  pub pattern : Text
  pub endpoint : Endpoint

abbrev route : Text → Text → Endpoint → Route
route method pattern endpoint = record {
  method = some method;
  pattern = pattern;
  endpoint = endpoint;
}

-- `r.Route(prefix, …)`
abbrev under : Text → List Route → List Route
under prefix = map (λ (r : Route). record r { pattern = prefix ++ r.pattern })

abbrev pub routes : List Route
routes =
    route (codes "GET") (codes "/healthz") healthz
    ∷ record { method = none; pattern = codes "/metrics"; endpoint = metrics_page }
    ∷ route (codes "POST") (codes "/auth/register") register_ep
    ∷ route (codes "POST") (codes "/auth/login") login_ep
    ∷ route (codes "POST") (codes "/auth/refresh") refresh_ep
    ∷ route (codes "POST") (codes "/auth/logout") logout_ep
    ∷ route (codes "GET") (codes "/auth/me") me_ep
    ∷ route (codes "GET") (codes "/auth/github") github_ep
    ∷ under (codes "/api/v1") (
        route (codes "GET") (codes "/content") list_content_ep
        ∷ route (codes "POST") (codes "/content") create_content_ep
        ∷ route (codes "GET") (codes "/content/{id}") get_content_ep
        ∷ route (codes "PATCH") (codes "/content/{id}") update_content_ep
        ∷ route (codes "DELETE") (codes "/content/{id}") delete_content_ep
        ∷ route (codes "POST") (codes "/content/{id}/relations") add_relation_ep
        ∷ route (codes "GET") (codes "/content/{id}/backlinks") backlinks_ep
        ∷ route (codes "GET") (codes "/users/{handle}") public_profile_ep
        ∷ route (codes "GET") (codes "/users/{handle}/content") user_content_ep
        ∷ route (codes "GET") (codes "/portfolio/{handle}") portfolio_ep
        ∷ route (codes "GET") (codes "/graph") graph_ep
        ∷ route (codes "GET") (codes "/community/feed") community_feed_ep
        ∷ [])

-- What chi finds for a method and a path: a route with its parameter, or its answer to a path
-- or a method that it does not know.
pub data Matched : Type 0 where
  found : Route → (param : Text) → Matched
  unknown : Response → Matched

-- The parts of chi, promhttp and encoding/json that the router relies on: the search in a table of
-- routes, the pattern that it reports, the page of the metrics, and the bytes of a body.
pub record Libraries : Type 0 where
  pub find : List Route → (method path : Text) → Matched
  pub pattern : (method path : Text) → Text
  pub page : Metrics → Response
  pub encode : Body → List ℕ

-- What the program relies on of them: a route that is found is one of the table, made for the
-- method or for all, chi answers 404 or 405 where there is none, and the page has a status.
pub record LibraryLaws (libraries : Libraries) : Type 1 where
  pub find-All :
      (P : Route → Type 0) (table : List Route) (method path param : Text) (r : Route)
      → All P table
      → libraries.find table method path ≡ found r param
      → P r
  pub find-method :
      (table : List Route) (method path param : Text) (r : Route)
      → libraries.find table method path ≡ found r param
      → (r.method ≡ none) ⊎ (r.method ≡ some method)
  pub unknown_status :
      (table : List Route) (method path : Text) (r : Response)
      → libraries.find table method path ≡ unknown r
      → (r.status ≡ 404) ⊎ (r.status ≡ 405)
  pub page_status :
      (m : Metrics)
      → (leb 200 (libraries.page m).status && ltb (libraries.page m).status 600) ≡ true

-- `NewRouterConfig`, without the services
pub record RouterConfig : Type 0 where
  pub allowed_origins : List Text
  pub cookie_secure : Bool
  pub request_timeout : ℕ

abbrev default_request_timeout : ℕ
default_request_timeout = 3 * second

-- The time that `NewRouter` gives a request.
unfoldable pub request_timeout : RouterConfig → ℕ
request_timeout config =
    if config.request_timeout == 0 then default_request_timeout else config.request_timeout

-- A request with what the program draws and reads from the clock while it serves it. A body is what
-- `decodeJSON` makes of it for the endpoint's input, none where it does not decode.
pub record Incoming : Type 0 where
  pub method : Text
  pub path : Text
  pub origin : Text
  pub request_id : Text
  pub request : Requests.Request
  pub register_body : Option RegisterInput
  pub login_body : Option LoginInput
  pub create_body : Option CreateItemInput
  pub update_body : Option UpdateItemInput
  pub relation_body : Option RelationInput
  pub draws : Draws
  pub drawn_request_id : Text
  pub drawn_id : Text
  pub now : Time
  pub signed_at : Time
  pub created : Time
  pub updated : Time
  pub elapsed : ℕ
