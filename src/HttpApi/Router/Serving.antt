-- ===== src/HttpApi/Router/Serving.antt =====
-- What a request to the router of services/api/internal/httpapi/router.go gets, and what it leaves.
use learning_garden_server.Prelude.{
  ℕ, ◌≡◌, refl, Bool, true, Text, text_eq, ◌==◌, codes, List, [], ◌∷◌, arith, inl, inr, ◌⊎◌, nat_eq,
  Bool-cases,
}
use learning_garden_server.Prelude.Actions.{Keeps}
use learning_garden_server.Strings.{Unicode}
use learning_garden_server.Auth.Types.{Config}
use learning_garden_server.Auth.Crypto.{Crypto}
use learning_garden_server.Auth.Store.{UserStore, RefreshStore}
use learning_garden_server.Content.Types.{Item, Relation}
use learning_garden_server.Content.Normalize.{valid_item}
use learning_garden_server.Content.Store.{Store, StoreLaws}
use learning_garden_server.HttpApi.Answers.{
  Response, Body, no_body, data_body, error_body, Outcome, value, refused, panics, Handler, answer,
  response_of, write_app_error,
}
use learning_garden_server.HttpApi.Middleware.{new_recorder, perform_all, status_code, cors}
use learning_garden_server.HttpApi.Metrics.{Metrics, enter}
use learning_garden_server.HttpApi.Router.{
  Matched, found, unknown, Libraries, LibraryLaws, RouterConfig, Incoming, routes,
}
use learning_garden_server.HttpApi.Router.Dispatch.{
  calls_of, World, ServerState, dispatch_matched, routed, cors_handler, no_content, has_origins,
  serve, serve_all,
}
use learning_garden_server.HttpApi.Router.Rules.{Safe, OnContent, Settles, Safe-answer}
use learning_garden_server.HttpApi.Router.AuthSafety.{IsStatus}
use learning_garden_server.HttpApi.Router.Safety.{dispatch-Safe}

pub response-IsStatus :
    (outcome : Outcome Response) → Settles IsStatus outcome → IsStatus (response_of outcome)
unfolding write_app_error
response-IsStatus (value r) h = h
response-IsStatus (refused e) h = ground arith
response-IsStatus panics h = refl

-- The recorder's status is that of the response.
pub recorded :
    (encode : Body → List ℕ) (r : Response)
    → IsStatus r
    → status_code (perform_all (calls_of encode r) new_recorder) ≡ r.status
unfolding status_code perform_all
recorded encode r h = recorded_body r.body refl
  where
    recorded_body :
        (b : Body)
        → r.body ≡ b
        → status_code (perform_all (calls_of encode r) new_recorder) ≡ r.status
    recorded_body no_body e = rw e (ground arith)
    recorded_body (data_body p) e = rw e (ground arith)
    recorded_body (error_body code message) e = rw e (ground arith)

module _ (u : Unicode) (c : Crypto) (users : UserStore) (sessions : RefreshStore) (config : Config)
    (store : Store) (has_content : Bool) (router : RouterConfig) (libraries : Libraries) where
  -- CORS answers `OPTIONS` itself, and otherwise the router is reached.
  abbrev pub Reached :
      Incoming → Metrics → Handler (World c users sessions config store) Response → Type 0
  Reached i metrics handler =
      (handler ≡ routed u c users sessions config store has_content router libraries i metrics)
      ⊎ (handler ≡ answer no_content)

  pub cors_handler-Reached :
      (i : Incoming) (metrics : Metrics)
      → Reached i metrics
          (cors_handler u c users sessions config store has_content router libraries i metrics).1
  unfolding cors
  cors_handler-Reached i metrics = elim (Bool-cases (has_origins router)) [
    | inr without ↦ rw without (inl refl)
    | inl within ↦ elim (Bool-cases (i.method == codes "OPTIONS")) [
      | inl preflight ↦ rw (within, preflight) (inr refl)
      | inr other ↦ rw (within, other) (inl refl)
    ]
  ]

module _ (u : Unicode) (c : Crypto) (users : UserStore) (sessions : RefreshStore) (config : Config)
    (store : Store) (laws : StoreLaws store) (has_content : Bool) (P : store.State → Type 0)
    (create_keeps : (i : Item) → valid_item i ≡ true → Keeps P (store.create i))
    (replace_keeps : (i : Item) → valid_item i ≡ true → Keeps P (store.replace i))
    (remove_keeps : (id : Text) → Keeps P (store.remove id))
    (add_relation_keeps : (r : Relation) → Keeps P (store.add_relation r)) (router : RouterConfig)
    (libraries : Libraries) (library_laws : LibraryLaws libraries) where
  pub matched-Safe :
      (m : Matched) (i : Incoming) (metrics : Metrics)
      → libraries.find routes i.method i.path ≡ m
      → Safe (OnContent P) IsStatus (
          dispatch_matched u c users sessions config store has_content router libraries m i metrics)
  matched-Safe (found route param) i metrics e =
      dispatch-Safe u c users sessions config store laws has_content P create_keeps replace_keeps
        remove_keeps add_relation_keeps router libraries library_laws.page_status route.endpoint i
        (record i.request { param = param }) metrics
  matched-Safe (unknown r) i metrics e =
      Safe-answer (OnContent P) IsStatus r
        (elim (library_laws.unknown_status routes i.method i.path r e) [
          | inl missing ↦ rw missing refl
          | inr other_method ↦ rw other_method refl
        ])

  pub cors-Safe :
      (i : Incoming) (metrics : Metrics)
      → Safe
          (OnContent P)
          IsStatus
          (cors_handler u c users sessions config store has_content router libraries i metrics).1
  cors-Safe i metrics =
      elim (cors_handler-Reached u c users sessions config store has_content router libraries i
        metrics) [
          | inl reached ↦
              rw reached (matched-Safe (libraries.find routes i.method i.path) i metrics refl)
          | inr preflight ↦ rw preflight (Safe-answer (OnContent P) IsStatus no_content refl)
        ]

  -- A request keeps what the content store's writes keep, and its response has a status between 200
  -- and 599.
  pub serve_safe :
      (i : Incoming) (s : ServerState c users sessions config store)
      → P s.world.1
      → IsStatus (serve u c users sessions config store has_content router libraries i s).0.response
        × P (serve u c users sessions config store has_content router libraries i s).1.world.1
  unfolding serve
  serve_safe i s h =
      let (settled, kept) = (cors-Safe i (enter s.metrics)).at s.world h in
      (response-IsStatus _ settled, kept)

  pub serve_all_keeps :
      (is : List Incoming) (s : ServerState c users sessions config store)
      → P s.world.1
      → P (serve_all u c users sessions config store has_content router libraries is s).world.1
  unfolding serve_all
  serve_all_keeps [] s h = h
  serve_all_keeps (i ∷ is) s h =
      serve_all_keeps is (serve u c users sessions config store has_content router libraries i s).1
        (serve_safe i s h).1
