-- ===== src/HttpApi/Router/Tests.antt =====
-- The theorems on the router, at the sample accounts and garden.
use learning_garden_server.Prelude.{
  ◌↔◌, any, ℕ, ◌≡◌, refl, true, some, none, Option, [], ◌∷◌, List, Text, codes, text_eq, ◌==◌,
  if◌then◌else◌, ◌&&◌, inl, inr, Bool, Bool-cases, All, arith, ◌⊎◌, ap, text_beq_iff,
}
use mathlib.Core.Path.{subst}
use learning_garden_server.Auth.Store.{memory_users, memory_refresh}
use learning_garden_server.Auth.Service.{Draws}
use learning_garden_server.Auth.Tests.{config}
use learning_garden_server.Auth.SessionTests.{stores}
use learning_garden_server.Content.MemoryStore.{new_memory_store}
use learning_garden_server.Content.Service.Reachable.{IsWellFormed}
use learning_garden_server.HttpApi.Answers.{Response, no_body}
use learning_garden_server.HttpApi.Metrics.{new_metrics}
use learning_garden_server.HttpApi.Router.{
  Route, Matched, found, unknown, Libraries, LibraryLaws, RouterConfig, Incoming,
}
use learning_garden_server.HttpApi.Router.Dispatch.{ServerState, serve, serve_all}
use learning_garden_server.HttpApi.Router.Guarantees.{serve_all-IsWellFormed, serve-allow_origin}
use learning_garden_server.HttpApi.Router.GetReads.{get_changes_no_content}
use learning_garden_server.HttpApi.Tests.{asking}
use learning_garden_server.Samples.{ascii, in_order}
use learning_garden_server.Samples.Codec.{toy_crypto}
use learning_garden_server.Samples.Garden.{shelf, shelf_laws, garden, note_input}

abbrev plain : ℕ → Response
plain status = record { status = status; set_cookie = none; body = no_body }

abbrev for_method : Option Text → Text → Bool
for_method none method = true
for_method (some m) method = m == method

-- A router that knows the patterns without parameters.
abbrev exact : List Route → Text → Text → Matched
exact [] method path = unknown (plain 404)
exact (r ∷ rs) method path =
    let rest = exact rs method path in
    if r.pattern == path && for_method r.method method then found r [] else rest

abbrev libraries : Libraries
libraries = record {
  find = exact;
  pattern = λ method path. path;
  page = λ m. plain 200;
  encode = λ body. [];
}

exact-All :
    (P : Route → Type 0) (table : List Route) (method path param : Text) (r : Route)
    → All P table
    → exact table method path ≡ found r param
    → P r
exact-All P [] method path param r h e = cc
exact-All P (x ∷ xs) method path param r (p, h) e =
    elim (Bool-cases (x.pattern == path && for_method x.method method)) [
      | inl here ↦ let same : x ≡ r = ground arith in subst P same p
      | inr later ↦ exact-All P xs method path param r h (ground arith)
    ]

for_method_lem :
    (o : Option Text) (method : Text) → for_method o method ≡ true → (o ≡ none) ⊎ (o ≡ some method)
for_method_lem none method h = inl refl
for_method_lem (some m) method h = inr (ap some (ground (arith, text_beq_iff m method)))

exact_method :
    (table : List Route) (method path param : Text) (r : Route)
    → exact table method path ≡ found r param
    → (r.method ≡ none) ⊎ (r.method ≡ some method)
exact_method [] method path param r e = cc
exact_method (x ∷ xs) method path param r e =
    elim (Bool-cases (x.pattern == path && for_method x.method method)) [
      | inl here ↦
          let same : x ≡ r = ground arith in
          let fits : for_method x.method method ≡ true = ground arith in
          rw (← same) (for_method_lem x.method method fits)
      | inr later ↦ exact_method xs method path param r (ground arith)
    ]

exact_unknown :
    (table : List Route) (method path : Text) (r : Response)
    → exact table method path ≡ unknown r
    → (r.status ≡ 404) ⊎ (r.status ≡ 405)
exact_unknown [] method path r e = inl (ground arith)
exact_unknown (x ∷ xs) method path r e =
    elim (Bool-cases (x.pattern == path && for_method x.method method)) [
      | inl here ↦ ground arith
      | inr later ↦ exact_unknown xs method path r (ground arith)
    ]

library_laws : LibraryLaws libraries
library_laws = record {
  find-All = exact-All;
  find-method = exact_method;
  unknown_status = exact_unknown;
  page_status = λ m. refl;
}

abbrev router : RouterConfig
router = record {
  allowed_origins = codes "http://garden" ∷ [];
  cookie_secure = true;
  request_timeout = 0;
}

abbrev draws : Draws
draws = record {
  salt = none;
  id = codes "u9";
  store_id = codes "u9";
  store_now = 1;
  raw_token = none;
  signed_at = 1;
  saved_at = 1;
}

abbrev incoming : Text → Text → Incoming
incoming method path = record {
  method = method;
  path = path;
  origin = codes "http://garden";
  request_id = codes " r1 ";
  request = asking [] (codes "i1");
  register_body = none;
  login_body = none;
  create_body = some note_input;
  update_body = none;
  relation_body = none;
  draws = draws;
  drawn_request_id = codes "drawn";
  drawn_id = codes "i3";
  now = 5;
  signed_at = 5;
  created = 6;
  updated = 7;
  elapsed = 2;
}

abbrev server : ServerState toy_crypto (memory_users ascii) memory_refresh config shelf
server = record { world = (stores, garden); metrics = new_metrics; log = [] }

abbrev empty_server : ServerState toy_crypto (memory_users ascii) memory_refresh config shelf
empty_server = record { world = (stores, new_memory_store); metrics = new_metrics; log = [] }

abbrev listing : Incoming
listing = incoming (codes "GET") (codes "/api/v1/content")

serve_all-IsWellFormed_example :
    IsWellFormed
      (serve_all ascii toy_crypto
        (memory_users ascii)
        memory_refresh
        config
        shelf
        true
        router
        libraries
        (incoming (codes "POST") (codes "/api/v1/content") ∷ listing ∷ [])
        empty_server).world.1
serve_all-IsWellFormed_example =
    serve_all-IsWellFormed ascii toy_crypto (memory_users ascii) memory_refresh config in_order true
      router libraries library_laws empty_server refl
      (incoming (codes "POST") (codes "/api/v1/content") ∷ listing ∷ [])

get_changes_no_content_example :
    (serve ascii toy_crypto
      (memory_users ascii)
      memory_refresh
      config
      shelf
      true
      router
      libraries
      listing
      server).1.world.1
    ≡ garden
get_changes_no_content_example =
    get_changes_no_content ascii toy_crypto (memory_users ascii) memory_refresh config shelf
      shelf_laws true router libraries library_laws listing server refl

serve-allow_origin_example :
    ((serve ascii toy_crypto
        (memory_users ascii)
        memory_refresh
        config
        shelf
        true
        router
        libraries
        listing
        server).0.allow_origin
      ≡ some (codes "http://garden"))
    ↔ ((codes "http://garden" ≡ listing.origin)
        × (any (λ o. o == codes "http://garden") router.allowed_origins ≡ true))
serve-allow_origin_example =
    serve-allow_origin ascii toy_crypto (memory_users ascii) memory_refresh config shelf shelf_laws
      true router libraries library_laws listing server (codes "http://garden")
