-- ===== src/HttpApi/Router/Safety.antt =====
-- Every endpoint of services/api/internal/httpapi/router.go keeps what the content store's writes
-- keep, and answers with a status between 200 and 599.
use learning_garden_server.Prelude.{Bool, ◌≡◌, refl, true, Text}
use learning_garden_server.Prelude.Actions.{Keeps}
use learning_garden_server.Strings.{Unicode}
use learning_garden_server.Auth.Types.{Config}
use learning_garden_server.Auth.Crypto.{Crypto}
use learning_garden_server.Auth.Store.{UserStore, RefreshStore}
use learning_garden_server.Content.Types.{Item, Relation}
use learning_garden_server.Content.Normalize.{valid_item}
use learning_garden_server.Content.Store.{Store, StoreLaws}
use learning_garden_server.HttpApi.Requests
use learning_garden_server.HttpApi.Router.{
  Endpoint, healthz, metrics_page, register_ep, login_ep, refresh_ep, logout_ep, me_ep, github_ep,
  list_content_ep, create_content_ep, get_content_ep, update_content_ep, delete_content_ep,
  add_relation_ep, backlinks_ep, public_profile_ep, user_content_ep, portfolio_ep, graph_ep,
  community_feed_ep, Libraries, RouterConfig, Incoming,
}
use learning_garden_server.HttpApi.Metrics.{Metrics}
use learning_garden_server.HttpApi.Router.Dispatch.{dispatch}
use learning_garden_server.HttpApi.Router.Rules.{Safe, OnContent, Safe-answer, Safe-on_first}
use learning_garden_server.HttpApi.Router.AuthSafety.{
  IsStatus, refresh_handler-Safe, register_handler-Safe, login_handler-Safe, logout_handler-Safe,
  me_handler-Safe, github_handler-Safe,
}
use learning_garden_server.HttpApi.Router.ReadSafety.{
  list_content-Safe, get_content-Safe, backlinks_handler-Safe, public_profile-Safe,
  user_content-Safe, portfolio_handler-Safe, graph_handler-Safe, community_feed_handler-Safe,
}
use learning_garden_server.HttpApi.Router.WriteSafety.{
  delete_content-Safe, create_content-Safe, update_content-Safe, add_relation_handler-Safe,
}

-- What the content store's writes keep of valid items, every handler keeps.
module _ (u : Unicode) (c : Crypto) (users : UserStore) (sessions : RefreshStore) (config : Config)
    (store : Store) (laws : StoreLaws store) (has_content : Bool) (P : store.State → Type 0)
    (create_keeps : (i : Item) → valid_item i ≡ true → Keeps P (store.create i))
    (replace_keeps : (i : Item) → valid_item i ≡ true → Keeps P (store.replace i))
    (remove_keeps : (id : Text) → Keeps P (store.remove id))
    (add_relation_keeps : (r : Relation) → Keeps P (store.add_relation r)) where
  -- The page of the metrics has a status between 200 and 599.
  pub dispatch-Safe :
      (router : RouterConfig) (libraries : Libraries)
      → ((m : Metrics) → IsStatus (libraries.page m))
      → (e : Endpoint) (i : Incoming) (r : Requests.Request) (m : Metrics)
      → Safe
          (OnContent P)
          IsStatus
          (dispatch u c users sessions config store has_content router libraries e i r m)
  unfolding dispatch
  dispatch-Safe router libraries page healthz i r m = Safe-answer (OnContent P) IsStatus _ refl
  dispatch-Safe router libraries page metrics_page i r m =
      Safe-answer (OnContent P) IsStatus _ (page m)
  dispatch-Safe router libraries page register_ep i r m = Safe-on_first P IsStatus _ (
      register_handler-Safe c users sessions config router.cookie_secure i.register_body i.draws
        i.now)
  dispatch-Safe router libraries page login_ep i r m =
      Safe-on_first P IsStatus _
        (login_handler-Safe c users sessions config router.cookie_secure i.login_body i.draws i.now)
  dispatch-Safe router libraries page refresh_ep i r m =
      Safe-on_first P IsStatus _
        (refresh_handler-Safe c users sessions config router.cookie_secure r i.now i.signed_at)
  dispatch-Safe router libraries page logout_ep i r m =
      Safe-on_first P IsStatus _
        (logout_handler-Safe c users sessions config router.cookie_secure r)
  dispatch-Safe router libraries page me_ep i r m =
      Safe-on_first P IsStatus _
        (me_handler-Safe c users sessions config router.cookie_secure r i.now)
  dispatch-Safe router libraries page github_ep i r m =
      Safe-on_first P IsStatus _ (github_handler-Safe c users sessions config router.cookie_secure)
  dispatch-Safe router libraries page list_content_ep i r m =
      list_content-Safe c users sessions config store laws has_content P r
  dispatch-Safe router libraries page create_content_ep i r m =
      create_content-Safe u c users sessions config store laws has_content P create_keeps
        replace_keeps remove_keeps add_relation_keeps r i
  dispatch-Safe router libraries page get_content_ep i r m =
      get_content-Safe c users sessions config store laws has_content P r i.now
  dispatch-Safe router libraries page update_content_ep i r m =
      update_content-Safe u c users sessions config store laws has_content P create_keeps
        replace_keeps remove_keeps add_relation_keeps r i
  dispatch-Safe router libraries page delete_content_ep i r m =
      delete_content-Safe u c users sessions config store laws has_content P create_keeps
        replace_keeps remove_keeps add_relation_keeps r i.now
  dispatch-Safe router libraries page add_relation_ep i r m =
      add_relation_handler-Safe u c users sessions config store laws has_content P create_keeps
        replace_keeps remove_keeps add_relation_keeps r i
  dispatch-Safe router libraries page backlinks_ep i r m =
      backlinks_handler-Safe c users sessions config store laws has_content P r
  dispatch-Safe router libraries page public_profile_ep i r m =
      public_profile-Safe c users sessions config store laws has_content P r
  dispatch-Safe router libraries page user_content_ep i r m =
      user_content-Safe c users sessions config store laws has_content P r
  dispatch-Safe router libraries page portfolio_ep i r m =
      portfolio_handler-Safe c users sessions config store laws has_content P r
  dispatch-Safe router libraries page graph_ep i r m =
      graph_handler-Safe c users sessions config store laws has_content P r
  dispatch-Safe router libraries page community_feed_ep i r m =
      community_feed_handler-Safe c users sessions config store laws has_content P r
