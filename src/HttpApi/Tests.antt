-- ===== src/HttpApi/Tests.antt =====
-- The theorems of the HTTP handlers, at the sample garden and accounts.
use learning_garden_server.HttpApi.ContentHandlers.{list_content}
use learning_garden_server.HttpApi.ContentHandlers.Listing.{list_content-bounds}
use learning_garden_server.Content.Service.Public.{IsPublic}
use learning_garden_server.Content.Types.{Item}
use learning_garden_server.HttpApi.Answers.{value, items, write_json}
use learning_garden_server.Prelude.{
  List, length, All, ◌≤◌, ℕ, ◌*◌, ◌≡◌, refl, true, none, some, [], ◌∷◌, ◌++◌, arith, Text, codes,
  text_eq, text_beq, ok, err, unauthorized,
}
use learning_garden_server.Prelude.Int.{pos}
use learning_garden_server.Prelude.Map.{lookup, insert}
use learning_garden_server.Strings.{trim_space}
use learning_garden_server.Auth.Types.{second, normalize_email, normalize_handle}
use learning_garden_server.Auth.Token.{sign_access_token, parse_access_token, unix_claim}
use learning_garden_server.Auth.UserStore.{create_user, new_user, find_by_id}
use learning_garden_server.Auth.Store.{memory_users, memory_refresh}
use learning_garden_server.Auth.Service.{authenticate_access_token}
use learning_garden_server.Auth.Service.Sessions.{Stores}
use learning_garden_server.Auth.Tests.{config, alice}
use learning_garden_server.Auth.SessionTests.{stores}
use learning_garden_server.Content.MemoryStore
use learning_garden_server.Content.MemoryStore.{MemoryStore, clone_item}
use learning_garden_server.Content.Service.Privacy.{MayRead}
use learning_garden_server.HttpApi.Answers.{Response, Handler}
use learning_garden_server.HttpApi.Requests.{
  Request, bearer_token, int_query, limit_query, limit_query-fixed,
}
use learning_garden_server.HttpApi.ContentHandlers.{
  RelationInput, require_user, create_content, update_content, delete_content, add_relation_handler,
}
use learning_garden_server.HttpApi.ContentHandlers.Guards.{
  Denied, unauthenticated_changes_nothing, forbidden_changes_nothing,
}
use learning_garden_server.Samples.{ascii, in_order}
use learning_garden_server.Samples.Codec.{toy_crypto, encode, decode}
use learning_garden_server.Samples.Garden.{shelf, shelf_laws, note_input, note, paper, garden, edit}

abbrev world : Stores × MemoryStore
world = (stores, garden)

-- A request for an item of the garden.
abbrev pub asking : Text → Text → Request
asking authorization id = record {
  authorization = authorization;
  refresh_cookie = none;
  query = (codes "limit", codes "50") ∷ [];
  param = id;
}

limit_of_fifty : limit_query (asking [] []) ≡ pos 50
unfolding int_query text_beq
limit_of_fifty = limit_query-fixed (asking [] []) 50 refl (omega arith) (omega arith)

-- A query whose limit is far above what is allowed
abbrev greedy : Request
greedy = record (asking [] []) { query = (codes "limit", codes "5000") ∷ [] }

list_content-bounds_example :
    (found : List Item) × (list_content toy_crypto
        (memory_users ascii)
        memory_refresh
        config
        shelf
        true
        true
        greedy
        world
      ≡ (value (write_json 200 (items found)), world))
    × (length found ≤ 100)
    × All IsPublic found
list_content-bounds_example =
    list_content-bounds toy_crypto (memory_users ascii) memory_refresh config in_order greedy world

abbrev relation : RelationInput
relation = record { target_id = codes "i2"; type = codes "cites" }

-- The four writes, as requests make them of the sample world.
abbrev creates : Request → Handler (Stores × MemoryStore) Response
creates r =
    create_content ascii toy_crypto (memory_users ascii) memory_refresh config shelf true true r 5
      (some note_input) (codes "i9") 6 7

abbrev updates : Request → Handler (Stores × MemoryStore) Response
updates r =
    update_content ascii toy_crypto (memory_users ascii) memory_refresh config shelf true true r 5
      (some edit) 7

abbrev deletes : Request → Handler (Stores × MemoryStore) Response
deletes r = delete_content toy_crypto (memory_users ascii) memory_refresh config shelf true true r 5

abbrev relates : (created : ℕ) → Request → Handler (Stores × MemoryStore) Response
relates created r =
    add_relation_handler ascii toy_crypto (memory_users ascii) memory_refresh config shelf true true
      r 5 (some relation) created

unauthenticated_changes_nothing_example :
    Denied 401 (creates (asking [] (codes "i1")) world) world
    × Denied 401 (updates (asking [] (codes "i1")) world) world
    × Denied 401 (deletes (asking [] (codes "i1")) world) world
    × Denied 401 (relates 6 (asking [] (codes "i1")) world) world
unfolding bearer_token authenticate_access_token parse_access_token
unauthenticated_changes_nothing_example =
    unauthenticated_changes_nothing ascii toy_crypto config shelf (asking [] (codes "i1")) 5 world
      (some note_input) (some edit) (some relation) (codes "i9") 6 7 unauthorized refl

-- A request with a token of the user `u1`, who owns neither item.
abbrev visit : Text → Request
visit id =
    asking
      (codes "Bearer " ++ elim (sign_access_token toy_crypto (codes "s") alice 0 (60 * second)) [
        | ok t ↦ t
        | err e ↦ []
      ])
      id

forbidden_changes_nothing_example :
    Denied 403 (updates (visit (codes "i1")) world) world
    × Denied 403 (deletes (visit (codes "i1")) world) world
    × Denied 403 (relates 7 (visit (codes "i1")) world) world
unfolding require_user authenticate_access_token parse_access_token sign_access_token encode
    find_by_id create_user new_user normalize_email normalize_handle lookup insert text_beq
    trim_space MemoryStore.find_by_id clone_item MemoryStore.clone_metadata unix_claim decode
forbidden_changes_nothing_example =
    forbidden_changes_nothing ascii toy_crypto config shelf (visit (codes "i1")) 5 world shelf_laws
      alice note edit relation 7 refl refl refl

hidden_from_nobody : ¬ MayRead paper []
unfolding text_beq
hidden_from_nobody h = ground arith
