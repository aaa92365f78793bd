-- ===== src/HttpApi/Router/Dispatch.antt =====
-- The handlers and the middleware of `NewRouter` in services/api/internal/httpapi/router.go, in the
-- order in which the router wraps them.
use learning_garden_server.Prelude.{
  ℕ, Bool, true, false, ◌&&◌, Option, none, some, List, [], ◌∷◌, ◌++◌, Text, codes, text_eq, ◌==◌,
  if◌then◌else◌, length,
}
use learning_garden_server.Strings.{Unicode}
use learning_garden_server.Auth.Types.{Config}
use learning_garden_server.Auth.Crypto.{Crypto}
use learning_garden_server.Auth.Store.{UserStore, RefreshStore}
use learning_garden_server.Auth.Service.{State}
use learning_garden_server.Content.Store.{Store}
use learning_garden_server.HttpApi.Answers.{
  Response, Body, no_body, health, write_json, Outcome, panics, Handler, answer, response_of,
}
use learning_garden_server.HttpApi.Requests
use learning_garden_server.HttpApi.Middleware.{
  new_recorder, Call, call_header, call_write, perform_all, request_id, cors, status_code,
}
use learning_garden_server.HttpApi.Metrics.{Metrics, enter, finish, returned}
use learning_garden_server.HttpApi.AuthHandlers.{
  register_handler, login_handler, refresh_handler, logout_handler, me_handler, github_handler,
}
use learning_garden_server.HttpApi.ContentHandlers.{
  list_content, get_content, create_content, update_content, delete_content, add_relation_handler,
  backlinks_handler, public_profile, user_content, portfolio_handler, graph_handler,
  community_feed_handler,
}
use learning_garden_server.HttpApi.Router.{
  Endpoint, healthz, metrics_page, register_ep, login_ep, refresh_ep, logout_ep, me_ep, github_ep,
  list_content_ep, create_content_ep, get_content_ep, update_content_ep, delete_content_ep,
  add_relation_ep, backlinks_ep, public_profile_ep, user_content_ep, portfolio_ep, graph_ep,
  community_feed_ep, routes, Matched, found, unknown, Libraries, RouterConfig, Incoming,
}

-- What the log gets: the line of `recoveryMiddleware` and that of `accessLogMiddleware`.
pub data LogLine : Type 0 where
  panic_recovered : (request_id method path : Text) → LogLine
  request_completed : (request_id method path : Text) (status bytes elapsed : ℕ) → LogLine

-- What the client gets: the id that the response repeats, the origin that the `Access-Control`
-- headers allow, and the rest.
pub record Reply : Type 0 where
  pub request_id : Text
  pub allow_origin : Option Text
  pub response : Response

abbrev pub no_content : Response
no_content = record { status = 204; set_cookie = none; body = no_body }

-- A handler's calls of the writer. `written` bytes are all of the body's.
abbrev pub calls_of : (Body → List ℕ) → Response → List Call
calls_of encode response = elim response.body [
  | no_body ↦ call_header response.status ∷ []
  | body ↦ call_header response.status ∷ call_write (encode body) (length (encode body)) ∷ []
]

abbrev pub panic_lines : Outcome Response → (request_id method path : Text) → List LogLine
panic_lines panics request_id method path = panic_recovered request_id method path ∷ []
panic_lines _ request_id method path = []

module _ {S T : Type 0} where
  abbrev pub on_first : {A : Type 0} → Handler S A → Handler (S × T) A
  on_first m (s, t) = let (r, s') = m s in (r, (s', t))

-- `len(config.AllowedOrigins) > 0`
abbrev pub has_origins : RouterConfig → Bool
has_origins router = elim router.allowed_origins [ [] ↦ false | o ∷ os ↦ true ]

module _ (c : Crypto) (users : UserStore) (sessions : RefreshStore) (config : Config)
    (store : Store) where
  abbrev pub World : Type 0
  World = State c users sessions config × store.State

  pub record ServerState : Type 0 where
    pub world : World
    pub metrics : Metrics
    pub log : List LogLine

module _ (u : Unicode) (c : Crypto) (users : UserStore) (sessions : RefreshStore) (config : Config)
    (store : Store) (has_content : Bool) (router : RouterConfig) (libraries : Libraries) where
  abbrev Worlds : Type 0
  Worlds = World c users sessions config store

  abbrev Servers : Type 0
  Servers = ServerState c users sessions config store

  -- The handler of an endpoint. The metrics' page shows them as they are then.
  unfoldable pub dispatch :
      Endpoint → Incoming → Requests.Request → Metrics → Handler Worlds Response
  dispatch healthz i r m = answer (write_json 200 (health true))
  dispatch metrics_page i r m = answer (libraries.page m)
  dispatch register_ep i r m =
      on_first (
        register_handler c users sessions config router.cookie_secure i.register_body i.draws i.now)
  dispatch login_ep i r m =
      on_first
        (login_handler c users sessions config router.cookie_secure i.login_body i.draws i.now)
  dispatch refresh_ep i r m =
      on_first (refresh_handler c users sessions config router.cookie_secure r i.now i.signed_at)
  dispatch logout_ep i r m =
      on_first (logout_handler c users sessions config router.cookie_secure r)
  dispatch me_ep i r m = on_first (me_handler c users sessions config router.cookie_secure r i.now)
  dispatch github_ep i r m = on_first (github_handler c users sessions config router.cookie_secure)
  dispatch list_content_ep i r m = list_content c users sessions config store true has_content r
  dispatch create_content_ep i r m =
      create_content u c users sessions config store true has_content r i.now i.create_body
        i.drawn_id i.created i.updated
  dispatch get_content_ep i r m = get_content c users sessions config store true has_content r i.now
  dispatch update_content_ep i r m =
      update_content u c users sessions config store true has_content r i.now i.update_body
        i.updated
  dispatch delete_content_ep i r m =
      delete_content c users sessions config store true has_content r i.now
  dispatch add_relation_ep i r m =
      add_relation_handler u c users sessions config store true has_content r i.now i.relation_body
        i.created
  dispatch backlinks_ep i r m = backlinks_handler c users sessions config store true has_content r
  dispatch public_profile_ep i r m = public_profile c users sessions config store true has_content r
  dispatch user_content_ep i r m = user_content c users sessions config store true has_content r
  dispatch portfolio_ep i r m = portfolio_handler c users sessions config store true has_content r
  dispatch graph_ep i r m = graph_handler c users sessions config store true has_content r
  dispatch community_feed_ep i r m =
      community_feed_handler c users sessions config store true has_content r

  abbrev pub dispatch_matched : Matched → Incoming → Metrics → Handler Worlds Response
  dispatch_matched (found route param) i m =
      dispatch route.endpoint i (record i.request { param = param }) m
  dispatch_matched (unknown response) i m = answer response

  -- The router at the end of the chain
  abbrev pub routed : Incoming → Metrics → Handler Worlds Response
  routed i m = dispatch_matched (libraries.find routes i.method i.path) i m

  -- `corsMiddleware` is there only if some origin is allowed.
  abbrev pub cors_handler : Incoming → Metrics → Option Text × Handler Worlds Response
  cors_handler i m =
      if has_origins router
      then cors router.allowed_origins i.origin i.method (answer no_content) (routed i m)
      else (none, routed i m)

  -- The pattern of the route is known once the router has been reached.
  abbrev pub pattern_of : Incoming → Text
  pattern_of i =
      if has_origins router && i.method == codes "OPTIONS"
      then []
      else libraries.pattern i.method i.path

  -- The chain: the request's id, the access log, the metrics, the recovery from panics, the time
  -- limit, which only cancels what the libraries do, CORS, and the router.
  unfoldable pub serve : Incoming → Servers → Reply × Servers
  unfolding dispatch cors request_id enter perform_all
  serve i s =
      let id = request_id i.request_id i.drawn_request_id in
      let entered = enter s.metrics in
      let (allow_origin, handler) = cors_handler i entered in
      let (outcome, world) = handler s.world in
      let response = response_of outcome in
      let recorder = perform_all (calls_of libraries.encode response) new_recorder in
      let after = finish i.method (returned recorder (some (pattern_of i)) i.elapsed) entered in
      let completed =
        request_completed id i.method i.path (status_code recorder) recorder.bytes i.elapsed in
      (
        record { request_id = id; allow_origin = allow_origin; response = response },
        record {
          world = world;
          metrics = after;
          log = s.log ++ panic_lines outcome id i.method i.path ++ completed ∷ [];
        },
      )

  -- The requests one after the other
  unfoldable pub serve_all : List Incoming → Servers → Servers
  serve_all [] s = s
  serve_all (i ∷ is) s = serve_all is (serve i s).1
