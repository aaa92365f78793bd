-- ===== src/HttpApi/Router/GetReads.antt =====
-- A `GET` through the router of services/api/internal/httpapi/router.go changes no content.
use learning_garden_server.Prelude.{
  Bool, ◌≡◌, refl, ◌&&◌, not, true, false, some, none, Option, Text, codes, text_eq, text_beq, ◌==◌,
  All, inl, inr, arith,
}
use learning_garden_server.Strings.{Unicode}
use learning_garden_server.Auth.Types.{Config}
use learning_garden_server.Auth.Crypto.{Crypto}
use learning_garden_server.Auth.Store.{UserStore, RefreshStore}
use learning_garden_server.Content.Store.{Store, StoreLaws}
use learning_garden_server.HttpApi.Requests
use learning_garden_server.HttpApi.Router.{
  Route, routes, Matched, found, unknown, LibraryLaws, Endpoint, healthz, metrics_page, register_ep,
  login_ep, refresh_ep, logout_ep, me_ep, github_ep, list_content_ep, create_content_ep,
  get_content_ep, update_content_ep, delete_content_ep, add_relation_ep, backlinks_ep,
  public_profile_ep, user_content_ep, portfolio_ep, graph_ep, community_feed_ep, Libraries,
  RouterConfig, Incoming,
}
use learning_garden_server.HttpApi.Metrics.{Metrics, enter}
use learning_garden_server.HttpApi.Router.Dispatch.{dispatch, dispatch_matched, serve, ServerState}
use learning_garden_server.HttpApi.Router.Serving.{cors_handler-Reached}
use learning_garden_server.HttpApi.Router.Rules.{Safe, OnContent, Safe-answer, Safe-on_first}
use learning_garden_server.HttpApi.Router.AuthSafety.{
  IsStatus, refresh_handler-Safe, register_handler-Safe, login_handler-Safe, logout_handler-Safe,
  me_handler-Safe, github_handler-Safe,
}
use learning_garden_server.HttpApi.Router.ReadSafety.{
  list_content-Safe, get_content-Safe, backlinks_handler-Safe, public_profile-Safe,
  user_content-Safe, portfolio_handler-Safe, graph_handler-Safe, community_feed_handler-Safe,
}

-- What the content store's writes keep of valid items, every handler keeps.

-- The endpoint calls no method of the content service that writes.
abbrev pub only_reads : Endpoint → Bool
only_reads create_content_ep = false
only_reads update_content_ep = false
only_reads delete_content_ep = false
only_reads add_relation_ep = false
only_reads _ = true

abbrev serves_get : Option Text → Bool
serves_get none = true
serves_get (some method) = method == codes "GET"

-- No route for `GET` writes.
abbrev GetReads : Route → Type 0
GetReads r = (serves_get r.method && not (only_reads r.endpoint)) ≡ false

routes-GetReads : All GetReads routes
unfolding text_beq
routes-GetReads = (
  refl,
  (
    refl,
    (
      refl,
      (
        refl,
        (
          refl,
          (
            refl,
            (
              refl,
              (
                refl,
                (
                  refl,
                  (
                    refl,
                    (
                      refl,
                      (refl, (refl, (refl, (refl, (refl, (refl, (refl, (refl, (refl, tt))))))))),
                    ),
                  ),
                ),
              ),
            ),
          ),
        ),
      ),
    ),
  ),
)

module _ (u : Unicode) (c : Crypto) (users : UserStore) (sessions : RefreshStore) (config : Config)
    (store : Store) (laws : StoreLaws store) (has_content : Bool) (P : store.State → Type 0)
    (router : RouterConfig) (libraries : Libraries) (library_laws : LibraryLaws libraries) where
  dispatch_reads :
      (e : Endpoint) (i : Incoming) (r : Requests.Request) (m : Metrics)
      → only_reads e ≡ true
      → Safe
          (OnContent P)
          IsStatus
          (dispatch u c users sessions config store has_content router libraries e i r m)
  unfolding dispatch
  dispatch_reads healthz i r m h = Safe-answer (OnContent P) IsStatus _ refl
  dispatch_reads metrics_page i r m h =
      Safe-answer (OnContent P) IsStatus _ (library_laws.page_status m)
  dispatch_reads register_ep i r m h = Safe-on_first P IsStatus _ (
      register_handler-Safe c users sessions config router.cookie_secure i.register_body i.draws
        i.now)
  dispatch_reads login_ep i r m h =
      Safe-on_first P IsStatus _
        (login_handler-Safe c users sessions config router.cookie_secure i.login_body i.draws i.now)
  dispatch_reads refresh_ep i r m h =
      Safe-on_first P IsStatus _
        (refresh_handler-Safe c users sessions config router.cookie_secure r i.now i.signed_at)
  dispatch_reads logout_ep i r m h =
      Safe-on_first P IsStatus _
        (logout_handler-Safe c users sessions config router.cookie_secure r)
  dispatch_reads me_ep i r m h =
      Safe-on_first P IsStatus _
        (me_handler-Safe c users sessions config router.cookie_secure r i.now)
  dispatch_reads github_ep i r m h =
      Safe-on_first P IsStatus _ (github_handler-Safe c users sessions config router.cookie_secure)
  dispatch_reads list_content_ep i r m h =
      list_content-Safe c users sessions config store laws has_content P r
  dispatch_reads create_content_ep i r m h = cc
  dispatch_reads get_content_ep i r m h =
      get_content-Safe c users sessions config store laws has_content P r i.now
  dispatch_reads update_content_ep i r m h = cc
  dispatch_reads delete_content_ep i r m h = cc
  dispatch_reads add_relation_ep i r m h = cc
  dispatch_reads backlinks_ep i r m h =
      backlinks_handler-Safe c users sessions config store laws has_content P r
  dispatch_reads public_profile_ep i r m h =
      public_profile-Safe c users sessions config store laws has_content P r
  dispatch_reads user_content_ep i r m h =
      user_content-Safe c users sessions config store laws has_content P r
  dispatch_reads portfolio_ep i r m h =
      portfolio_handler-Safe c users sessions config store laws has_content P r
  dispatch_reads graph_ep i r m h =
      graph_handler-Safe c users sessions config store laws has_content P r
  dispatch_reads community_feed_ep i r m h =
      community_feed_handler-Safe c users sessions config store laws has_content P r

  matched_reads :
      (m : Matched) (i : Incoming) (metrics : Metrics)
      → libraries.find routes i.method i.path ≡ m
      → i.method ≡ codes "GET"
      → Safe (OnContent P) IsStatus (
          dispatch_matched u c users sessions config store has_content router libraries m i metrics)
  unfolding text_beq
  matched_reads (found route param) i metrics e get =
      let reads =
        library_laws.find-All GetReads routes i.method i.path param route routes-GetReads e in
      let fits : serves_get route.method ≡ true =
        elim (library_laws.find-method routes i.method i.path param route e) [
          | inl any ↦ rw any refl
          | inr one ↦ rw (one, get) refl
        ] in
      dispatch_reads route.endpoint i (record i.request { param = param }) metrics (ground arith)
  matched_reads (unknown r) i metrics e get =
      Safe-answer (OnContent P) IsStatus r
        (elim (library_laws.unknown_status routes i.method i.path r e) [
          | inl missing ↦ rw missing refl
          | inr other_method ↦ rw other_method refl
        ])

module _ (u : Unicode) (c : Crypto) (users : UserStore) (sessions : RefreshStore) (config : Config)
    (store : Store) (laws : StoreLaws store) (has_content : Bool) (router : RouterConfig)
    (libraries : Libraries) (library_laws : LibraryLaws libraries) (i : Incoming)
    (s : ServerState c users sessions config store) where
  -- Over a lawful content store, a `GET` leaves the content as it was, whatever its path.
  pub get_changes_no_content :
      i.method ≡ codes "GET"
      → (serve u c users sessions config store has_content router libraries i s).1.world.1
        ≡ s.world.1
  unfolding serve
  get_changes_no_content get =
      elim (cors_handler-Reached u c users sessions config store has_content router libraries i
        (enter s.metrics)) [
          | inl reached ↦
              rw reached
                ((matched_reads u c users sessions config store laws has_content
                    (λ t. t ≡ s.world.1) router libraries library_laws
                    (libraries.find routes i.method i.path) i (enter s.metrics) refl get).at
                  s.world refl).1
          | inr preflight ↦ rw preflight refl
        ]
