-- ===== src/HttpApi/ContentHandlers/Listing.antt =====
-- What `listContent` of services/api/internal/httpapi/content_handlers.go answers over the in-memory
-- store.
use learning_garden_server.Prelude.{◌≤◌, ◌<◌, ◌≡◌, refl, true, List, [], arith, All, length}
use learning_garden_server.Prelude.Int.{ℤ, pos, negsuc, pos_part, leb_ℤ}
use learning_garden_server.Auth.Types.{Config}
use learning_garden_server.Auth.Crypto.{Crypto}
use learning_garden_server.Auth.Store.{UserStore, RefreshStore}
use learning_garden_server.Auth.Service.{State}
use learning_garden_server.Content.Types.{Item, ListFilter, visibility_public}
use learning_garden_server.Content.MemoryStore
use learning_garden_server.Content.MemoryStore.{Range, MemoryStore, listing}
use learning_garden_server.Content.MemoryStore.Listing.{length-limit_items}
use learning_garden_server.Content.Store.Memory.{memory_store, memory_store_laws}
use learning_garden_server.Content.Service.Queries.{list_public}
use learning_garden_server.Content.Service.Public.{IsPublic, list_public-IsPublic}
use learning_garden_server.HttpApi.Answers.{value, write_json, items}
use learning_garden_server.HttpApi.Requests.{Request, limit_query, limit_query-between}
use learning_garden_server.HttpApi.ContentHandlers.{list_content, query_filter}

between_parts :
    (n : ℤ)
    → (leb_ℤ (pos 1) n ≡ true) × (leb_ℤ n (pos 100) ≡ true)
    → (0 < pos_part n) × (pos_part n ≤ 100)
between_parts (pos n) h = ground arith
between_parts (negsuc n) h = ground arith

length-listing :
    (range : Range) (f : ListFilter) (s : MemoryStore)
    → 0 < pos_part f.limit
    → length (listing range f s) ≤ pos_part f.limit
unfolding listing
length-listing range f s h = length-limit_items f.limit _ h

module _ (c : Crypto) (users : UserStore) (sessions : RefreshStore) (config : Config)
    (range : Range) where
  -- Where the content service is configured, over the in-memory store: whatever the query asks
  -- for, a limit that is huge, negative or no number included, the listing is answered with 200, at
  -- most a hundred items, and public ones only, and leaves accounts and content.
  pub list_content-bounds :
      (r : Request) (w : State c users sessions config × MemoryStore)
      → (found : List Item) × (list_content c users sessions config
            (memory_store range)
            true
            true
            r
            w
          ≡ (value (write_json 200 (items found)), w))
        × (length found ≤ 100)
        × All IsPublic found
  unfolding list_content list_public MemoryStore.list_items
  list_content-bounds r w =
      let filter = query_filter c users sessions config (memory_store range) true true r [] in
      let public : ListFilter = record filter { visibility = visibility_public } in
      let (positive, most) = between_parts (limit_query r) (limit_query-between r) in
      (
        listing range public w.1,
        refl,
        omega (arith, length-listing range public w.1 positive, most),
        list_public-IsPublic (memory_store range) (memory_store_laws range) filter w.1
            (listing range public w.1) refl,
      )
