-- ===== src/HttpApi/Router/WriteSafety.antt =====
-- The content endpoints of services/api/internal/httpapi/content_handlers.go that write: they keep
-- what the content store's writes keep, and answer with a status between 200 and 599.
use learning_garden_server.Prelude.{Bool, ◌≡◌, true, Text}
use learning_garden_server.Prelude.Actions.{Keeps}
use learning_garden_server.Strings.{Unicode}
use learning_garden_server.Auth.Types.{Config, Time}
use learning_garden_server.Auth.Crypto.{Crypto}
use learning_garden_server.Auth.Store.{UserStore, RefreshStore}
use learning_garden_server.Content.Types.{Item, Relation}
use learning_garden_server.Content.Normalize.{valid_item}
use learning_garden_server.Content.Store.{Store, StoreLaws}
use learning_garden_server.Content.Service.Requests.{
  create-Keeps, update-Keeps, remove-Keeps, add_relation-Keeps,
}
use learning_garden_server.HttpApi.Requests
use learning_garden_server.HttpApi.ContentHandlers.{
  create_content, update_content, delete_content, add_relation_handler, require_user,
}
use learning_garden_server.HttpApi.Router.{Incoming}
use learning_garden_server.HttpApi.Router.Rules.{Safe, Anything, OnContent, Safe-on_content}
use learning_garden_server.HttpApi.Router.AuthSafety.{IsStatus, handler_rules}
use learning_garden_server.HttpApi.Router.ReadSafety.{require_user-Safe}

-- What the content store's writes keep of valid items, every handler keeps.
module _ (u : Unicode) (c : Crypto) (users : UserStore) (sessions : RefreshStore) (config : Config)
    (store : Store) (laws : StoreLaws store) (has_content : Bool) (P : store.State → Type 0)
    (create_keeps : (i : Item) → valid_item i ≡ true → Keeps P (store.create i))
    (replace_keeps : (i : Item) → valid_item i ≡ true → Keeps P (store.replace i))
    (remove_keeps : (id : Text) → Keeps P (store.remove id))
    (add_relation_keeps : (r : Relation) → Keeps P (store.add_relation r)) where
  required :
      (r : Requests.Request) (now : Time)
      → Safe
          (OnContent P)
          Anything
          (require_user c users sessions config store true has_content r now)
  required = require_user-Safe c users sessions config store laws has_content P

  ruleset write_rules = (handler_rules, Safe-on_content, required)

  pub delete_content-Safe :
      (r : Requests.Request) (now : Time)
      → Safe
          (OnContent P)
          IsStatus
          (delete_content c users sessions config store true has_content r now)
  unfolding delete_content
  delete_content-Safe r now =
      let removes =
        remove-Keeps u store laws P create_keeps replace_keeps remove_keeps add_relation_keeps in
      search (write_rules, removes) depth 10

  pub create_content-Safe :
      (r : Requests.Request) (i : Incoming)
      → Safe (OnContent P) IsStatus (
          create_content u c users sessions config store true has_content r i.now i.create_body
            i.drawn_id i.created i.updated)
  unfolding create_content
  create_content-Safe r i =
      let creates =
        create-Keeps u store laws P create_keeps replace_keeps remove_keeps add_relation_keeps in
      search (write_rules, creates) depth 12

  pub update_content-Safe :
      (r : Requests.Request) (i : Incoming)
      → Safe (OnContent P) IsStatus (
          update_content u c users sessions config store true has_content r i.now i.update_body
            i.updated)
  unfolding update_content
  update_content-Safe r i =
      let updates =
        update-Keeps u store laws P create_keeps replace_keeps remove_keeps add_relation_keeps in
      search (write_rules, updates) depth 12

  pub add_relation_handler-Safe :
      (r : Requests.Request) (i : Incoming)
      → Safe (OnContent P) IsStatus (
          add_relation_handler u c users sessions config store true has_content r i.now
            i.relation_body i.created)
  unfolding add_relation_handler
  add_relation_handler-Safe r i =
      let relates =
        add_relation-Keeps u store laws P create_keeps replace_keeps remove_keeps
          add_relation_keeps in
      search (write_rules, relates) depth 12
