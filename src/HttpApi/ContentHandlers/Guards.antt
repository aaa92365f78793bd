-- ===== src/HttpApi/ContentHandlers/Guards.antt =====
-- Who gets past the content handlers: callers without a valid access token, readers of items that
-- are hidden from them, and callers who do not own an item.
use learning_garden_server.Prelude.{
  ℕ, refl, none, Bool-cases, ◌≡◌, true, false, Option, some, Text, text_eq, ◌==◌, is_empty, Result,
  ok, err, Error, not_found, Result-cases, inl, inr,
}
use learning_garden_server.Strings.{Unicode, trim_space}
use learning_garden_server.Auth.Types.{Config, User}
use learning_garden_server.Auth.Crypto.{Crypto}
use learning_garden_server.Auth.Token.{parse_access_token}
use learning_garden_server.Auth.UserStore.{find_by_id, stored_user}
use learning_garden_server.Auth.Store.{memory_users, memory_refresh}
use learning_garden_server.Auth.Service.{authenticate_access_token}
use learning_garden_server.Auth.Service.Sessions.{Stores}
use learning_garden_server.Content.Types.{Time, Item, CreateItemInput, UpdateItemInput}
use learning_garden_server.Content.Store.{Store, StoreLaws}
use learning_garden_server.Content.Service.Authorization.{non_owner_changes_nothing}
use learning_garden_server.Content.Service.Privacy.{MayRead, hidden-eq-missing}
use learning_garden_server.HttpApi.Answers.{
  AppError, Response, Outcome, value, refused, response_of, write_app_error,
}
use learning_garden_server.Auth.Token.Refusals.{
  IsAuthorization, IsAuthorization-err, parse-IsAuthorization,
}
use learning_garden_server.Prelude.Map.{lookup}
use learning_garden_server.HttpApi.Errors.{auth_app_error, content_app_error}
use learning_garden_server.HttpApi.Requests.{Request, bearer_token}
use learning_garden_server.HttpApi.ContentHandlers.{
  RelationInput, missing_token, viewer_id, require_user, optional_user, get_content, delete_content,
  create_content, update_content, add_relation_handler,
}

stored-IsAuthorization : (o : Option User) → IsAuthorization (stored_user o)
stored-IsAuthorization none = refl
stored-IsAuthorization (some user) = tt

-- The client gets the status, and nothing changes.
abbrev pub Denied : {W : Type 0} → ℕ → Outcome Response × W → W → Type 0
Denied status result w = ((response_of result.0).status ≡ status) × (result.1 ≡ w)

module _ (u : Unicode) (c : Crypto) (config : Config) (store : Store) (r : Request) (now : Time)
    (w : Stores × store.State) where
  abbrev authenticated : Result User
  authenticated =
      (authenticate_access_token c (memory_users u) memory_refresh config
        (bearer_token r.authorization) now w.0).0

  authenticate_reads :
      (authenticate_access_token c
        (memory_users u)
        memory_refresh
        config
        (bearer_token r.authorization)
        now
        w.0).1
      ≡ w.0
  unfolding authenticate_access_token find_by_id
  authenticate_reads =
      elim (Result-cases
        (parse_access_token c config.jwt_secret (bearer_token r.authorization) now)) [
          | inl (claims, e) ↦ rw e
          | inr (x, e) ↦ rw e
        ]

  authenticated-IsAuthorization : IsAuthorization authenticated
  unfolding authenticate_access_token find_by_id
  authenticated-IsAuthorization =
      elim (Result-cases
        (parse_access_token c config.jwt_secret (bearer_token r.authorization) now)) [
          | inl (claims, e) ↦
              rw (e, IsAuthorization) (stored-IsAuthorization (lookup claims.user_id w.0.0.users))
          | inr (x, e) ↦
              rw (e, IsAuthorization)
                (IsAuthorization-err _ x
                  (parse-IsAuthorization c config.jwt_secret (bearer_token r.authorization) now) e)
        ]

  -- What a bearer token gives, where both services are configured.
  required-eq :
      (token : is_empty (bearer_token r.authorization) ≡ false)
      → (e : Error) → authenticated ≡ err e
      → require_user c (memory_users u) memory_refresh config store true true r now w
        ≡ (refused (auth_app_error e), w)
  unfolding require_user
  required-eq token e h = rw (token, h, authenticate_reads)

  required-missing :
      is_empty (bearer_token r.authorization) ≡ true
      → require_user c (memory_users u) memory_refresh config store true true r now w
        ≡ (refused missing_token, w)
  unfolding require_user
  required-missing none_given = rw none_given

  -- A token that is not accepted, or is missing, is refused with 401.
  required-Denied :
      (e : Error)
      → authenticated ≡ err e
      → (error : AppError) × (require_user c
            (memory_users u)
            memory_refresh
            config
            store
            true
            true
            r
            now
            w
          ≡ (refused error, w))
        × (error.http_code ≡ 401)
  unfolding auth_app_error
  required-Denied e h = elim (Bool-cases (is_empty (bearer_token r.authorization))) [
    | inl none_given ↦ (missing_token, required-missing none_given, refl)
    | inr given ↦
        let one = IsAuthorization-err authenticated e authenticated-IsAuthorization h in
        (auth_app_error e, required-eq given e h, rw one refl)
  ]

  -- Where both services are configured, over the in-memory stores of accounts and any content
  -- store: if the auth service does not accept the bearer token of the request, which includes that
  -- there is none, the four handlers that write answer with status 401 and change nothing.
  pub unauthenticated_changes_nothing :
      (item : Option CreateItemInput) (edit : Option UpdateItemInput)
      (relation : Option RelationInput) (id : Text) (created updated : Time) (e : Error)
      → authenticated ≡ err e
      → Denied 401
          (create_content u c
            (memory_users u)
            memory_refresh
            config
            store
            true
            true
            r
            now
            item
            id
            created
            updated
            w)
          w
        × Denied 401
            (update_content u c
              (memory_users u)
              memory_refresh
              config
              store
              true
              true
              r
              now
              edit
              updated
              w)
            w
        × Denied 401
            (delete_content c (memory_users u) memory_refresh config store true true r now w)
            w
        × Denied 401
            (add_relation_handler u c
              (memory_users u)
              memory_refresh
              config
              store
              true
              true
              r
              now
              relation
              created
              w)
            w
  unfolding create_content update_content delete_content add_relation_handler write_app_error
  unauthenticated_changes_nothing item edit relation id created updated e h =
      let (error, stopped, code) = required-Denied e h in
      (
        rw (stopped, code) (refl, refl),
        rw (stopped, code) (refl, refl),
        rw (stopped, code) (refl, refl),
        rw (stopped, code) (refl, refl),
      )

  -- Where both services are configured, over a lawful content store: a user who is let in and does
  -- not own the item that is found gets an answer with status 403 from the update, the deletion and
  -- a new relation, and nothing changes.
  pub forbidden_changes_nothing :
      (laws : StoreLaws store) (user : User) (item : Item) (edit : UpdateItemInput)
      (relation : RelationInput) (updated : Time)
      → require_user c (memory_users u) memory_refresh config store true true r now w
        ≡ (value user, w)
      → (store.find_by_id (trim_space r.param) w.1).0 ≡ ok item
      → (item.owner_id == trim_space user.id) ≡ false
      → Denied 403
          (update_content u c
            (memory_users u)
            memory_refresh
            config
            store
            true
            true
            r
            now
            (some edit)
            updated
            w)
          w
        × Denied 403
            (delete_content c (memory_users u) memory_refresh config store true true r now w)
            w
        × Denied 403
            (add_relation_handler u c
              (memory_users u)
              memory_refresh
              config
              store
              true
              true
              r
              now
              (some relation)
              updated
              w)
            w
  unfolding update_content delete_content add_relation_handler content_app_error write_app_error
  forbidden_changes_nothing laws user item edit relation updated let_in there other =
      let (updates, removes, relates) =
        non_owner_changes_nothing u store laws r.param user.id w.1 item edit relation.target_id
          relation.type updated there other in
      (
        rw (let_in, updates) (refl, refl),
        rw (let_in, removes) (refl, refl),
        rw (let_in, relates) (refl, refl),
      )

  -- Where both services are configured, over a lawful content store: a reader who may not read the
  -- item that is found gets the error 404, as where there is none, and nothing changes.
  pub hidden_is_not_found :
      (laws : StoreLaws store) (viewer : Option User) (item : Item)
      → optional_user c (memory_users u) memory_refresh config store true true r now w
        ≡ (value viewer, w)
      → (store.find_by_id (trim_space r.param) w.1).0 ≡ ok item
      → ¬ MayRead item (viewer_id viewer)
      → get_content c (memory_users u) memory_refresh config store true true r now w
        ≡ (refused (content_app_error not_found), w)
  unfolding get_content
  hidden_is_not_found laws viewer item seen there hidden =
      rw (seen, hidden-eq-missing store r.param (viewer_id viewer) w.1 laws item there hidden)
