-- ===== src/HttpApi/Router/Guarantees.antt =====
-- What holds of every request to the router of services/api/internal/httpapi/router.go, and of
-- every run of requests.
use learning_garden_server.Prelude.{
  some, Bool-cases, Text, any, ◌==◌, ◌↔◌, ◌⊎◌, inl, inr, if◌then◌else◌, ℕ, ◌+◌, ◌≡◌, refl, Bool,
  true, text_eq, List, [], ◌∷◌, ◌++◌,
}
use learning_garden_server.Strings.{Unicode}
use learning_garden_server.Auth.Types.{Config}
use learning_garden_server.Auth.Crypto.{Crypto}
use learning_garden_server.Auth.Store.{UserStore, RefreshStore}
use learning_garden_server.Content.MemoryStore.{Range, new_memory_store}
use learning_garden_server.Content.Store.{Store, StoreLaws}
use learning_garden_server.Content.Store.Memory.{memory_store, memory_store_laws}
use learning_garden_server.Content.Service.Reachable.{
  IsWellFormed, create-Keeps, replace-Keeps, remove-Keeps, add_relation-Keeps,
  new_memory_store-IsWellFormed,
}
use learning_garden_server.Strconv.{itoa}
use learning_garden_server.HttpApi.Middleware.{cors, cors_origin}
use learning_garden_server.HttpApi.Metrics.{Labels, same_labels, route_pattern, enter}
use learning_garden_server.HttpApi.Metrics.Steps.{count_of}
use learning_garden_server.HttpApi.Router.{Libraries, LibraryLaws, RouterConfig, Incoming}
use learning_garden_server.HttpApi.Router.Dispatch.{
  Reply, LogLine, request_completed, panic_recovered, pattern_of, ServerState, cors_handler, serve,
  serve_all,
}
use learning_garden_server.HttpApi.Router.Serving.{serve_all_keeps}

-- Whatever requests come to the router over the in-memory content store, from whatever state of
-- accounts: the content store that they lead to from the empty one is well formed.
pub serve_all-IsWellFormed :
    (u : Unicode) (c : Crypto) (users : UserStore) (sessions : RefreshStore) (config : Config)
    (range : Range) (has_content : Bool) (router : RouterConfig) (libraries : Libraries)
    → LibraryLaws libraries
    → (s : ServerState c users sessions config (memory_store range)) → s.world.1 ≡ new_memory_store
    → (requests : List Incoming)
    → IsWellFormed
        (serve_all u c users sessions config
          (memory_store range)
          has_content
          router
          libraries
          requests
          s).world.1
serve_all-IsWellFormed u c users sessions config range has_content router libraries laws s h
      requests =
    serve_all_keeps u c users sessions config (memory_store range) (memory_store_laws range)
      has_content IsWellFormed create-Keeps replace-Keeps remove-Keeps add_relation-Keeps router
      libraries laws requests s (rw h new_memory_store-IsWellFormed)

cors_origin-eq-some :
    (allowed : List Text) (asked origin : Text)
    → (cors_origin allowed asked ≡ some origin)
      ↔ ((origin ≡ asked) × (any (λ o. o == origin) allowed ≡ true))
unfolding cors_origin
cors_origin-eq-some allowed asked origin = elim (Bool-cases (any (λ o. o == asked) allowed)) [
  | inl listed ↦ (
    λ h. let same : origin ≡ asked = cc (rw listed at h) in (same, rw same listed),
    λ (same, h). rw (listed, same) refl,
  )
  | inr unlisted ↦ (λ h. cc (rw unlisted at h), λ (same, h). cc (rw (same, unlisted) at h))
]

module _ (u : Unicode) (c : Crypto) (users : UserStore) (sessions : RefreshStore) (config : Config)
    (store : Store) (laws : StoreLaws store) (has_content : Bool) (router : RouterConfig)
    (libraries : Libraries) (library_laws : LibraryLaws libraries) (i : Incoming)
    (s : ServerState c users sessions config store) where
  -- The series of the request, with the status of its response
  abbrev pub series : Reply → Labels
  series reply = record {
    method = i.method;
    route =
        route_pattern
          (some (pattern_of u c users sessions config store has_content router libraries i));
    status = itoa reply.response.status;
  }

  -- A line on a panic, of a request that is answered with 500
  abbrev pub IsRecovery : Reply → List LogLine → Type 0
  IsRecovery reply lines =
      (lines ≡ [])
      ⊎ ((lines ≡ panic_recovered reply.request_id i.method i.path ∷ [])
          × (reply.response.status ≡ 500))

  -- What the metrics and the log get of a request.
  abbrev pub IsObserved : Reply → ServerState c users sessions config store → Type 0
  IsObserved reply after =
      ((l : Labels)
        → count_of l after.metrics.requests ≡ (
            if same_labels (series reply) l
            then count_of l s.metrics.requests + 1
            else count_of l s.metrics.requests))
      × (after.metrics.in_flight ≡ s.metrics.in_flight)
      × (recovered : List LogLine) × IsRecovery reply recovered
      × (bytes : ℕ) × (after.log
          ≡ s.log
            ++ recovered
            ++ request_completed reply.request_id i.method i.path reply.response.status bytes
                i.elapsed
              ∷ [])

  cors_handler-origin :
      (origins : List Text)
      → router.allowed_origins ≡ origins
      → (cors_handler u c users sessions config store has_content router libraries i
          (enter s.metrics)).0
        ≡ cors_origin router.allowed_origins i.origin
  unfolding cors cors_origin
  cors_handler-origin [] none_allowed = rw none_allowed refl
  cors_handler-origin (o ∷ os) some_allowed = rw some_allowed refl

  -- The response allows an origin exactly when it is that of the request and the router's list has
  -- it; no other origin is ever allowed.
  pub serve-allow_origin :
      (origin : Text)
      → ((serve u c users sessions config store has_content router libraries i s).0.allow_origin
          ≡ some origin)
        ↔ ((origin ≡ i.origin) × (any (λ o. o == origin) router.allowed_origins ≡ true))
  unfolding serve
  serve-allow_origin origin =
      rw (cors_handler-origin router.allowed_origins refl)
        (cors_origin-eq-some router.allowed_origins i.origin origin)
