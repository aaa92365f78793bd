-- ===== src/Content/Tests.antt =====
-- The theorems of the content service at the sample garden.
use learning_garden_server.Prelude.{
  some, List, ◌≤◌, ◌≡◌, ◌↔◌, refl, [], ◌∷◌, All, length, codes, text_eq, text_beq, text_lt, ok, err,
  forbidden,
}
use learning_garden_server.Prelude.Int.{pos}
use learning_garden_server.Prelude.Map.{lookup, insert, delete}
use learning_garden_server.Prelude.Sort.{IsSorted, insert_stable}
use learning_garden_server.Strings.{trim_space}
use learning_garden_server.Content.Types.{ListFilter, Item}
use learning_garden_server.Content.MemoryStore
use learning_garden_server.Content.MemoryStore.{
  MemoryStore, new_memory_store, same_slot, clone_item, touches, matches_filter, item_less, listing,
  backlink_less,
}
use learning_garden_server.Content.Normalize.{
  normalize_slug, normalize_relation_type, valid_item, valid_kind, valid_visibility, can_view,
}
use learning_garden_server.Content.Service
use learning_garden_server.Content.Service.{find_visible, update, new_item, edit_item, new_relation}
use learning_garden_server.Content.Service.Queries.{
  list_public, community_feed, graph, row_of, feed_limit,
}
use learning_garden_server.Content.Service.Requests.{
  run, run_all, remove_item, Request, update_item, create_item, failed_request_changes_nothing,
}
use learning_garden_server.Content.Service.Reachable.{IsWellFormed, reachable-IsWellFormed}
use learning_garden_server.Content.Service.Authorization.{non_owner_changes_nothing}
use learning_garden_server.Content.Service.Isolation.{AreOfOthers, isolation}
use learning_garden_server.Content.Service.Privacy.{MayRead, find_visible-eq-ok_iff}
use learning_garden_server.Content.Service.Public.{
  IsPublic, ShowsPublic, all_public, row_newer, list_public-IsPublic, community_feed_lem,
}
use learning_garden_server.Samples.{ascii, in_order}
use learning_garden_server.Samples.Garden.{
  paper_input, shelf, shelf_laws, note, paper, planting, garden, garden-planted, edit,
}

pub garden-IsWellFormed : IsWellFormed garden
garden-IsWellFormed = rw (← garden-planted) (reachable-IsWellFormed ascii in_order planting)

non_owner_changes_nothing_example :
    (update ascii shelf (codes "i1") (codes "bob") edit 5 garden ≡ (err forbidden, garden))
    × (Service.remove shelf (codes "i1") (codes "bob") garden ≡ (err forbidden, garden))
    × (Service.add_relation ascii shelf
          (codes "i1")
          (codes "bob")
          (codes "i2")
          (codes "cites")
          5
          garden
        ≡ (err forbidden, garden))
unfolding Service.create update Service.remove Service.add_relation find_visible new_item edit_item
    new_relation normalize_slug normalize_relation_type valid_item valid_kind valid_visibility
    can_view MemoryStore.create MemoryStore.replace MemoryStore.remove MemoryStore.find_by_id
    MemoryStore.add_relation same_slot clone_item touches lookup insert delete text_beq trim_space
non_owner_changes_nothing_example =
    non_owner_changes_nothing ascii shelf shelf_laws (codes "i1") (codes "bob") garden note edit
      (codes "i2") (codes "cites") 5 refl refl

failed_request_changes_nothing_example :
    (run ascii shelf (remove_item (codes "i1") (codes "bob")) garden).1 ≡ garden
unfolding Service.create update Service.remove Service.add_relation find_visible new_item edit_item
    new_relation normalize_slug normalize_relation_type valid_item valid_kind valid_visibility
    can_view MemoryStore.create MemoryStore.replace MemoryStore.remove MemoryStore.find_by_id
    MemoryStore.add_relation same_slot clone_item touches lookup insert delete text_beq trim_space
    run
failed_request_changes_nothing_example =
    failed_request_changes_nothing ascii shelf shelf_laws (remove_item (codes "i1") (codes "bob"))
      garden forbidden refl

find_visible-eq-ok_iff_example :
    ((find_visible shelf (codes "i2") (codes "alice") garden).0 ≡ ok paper) ↔ (
      ((shelf.find_by_id (trim_space (codes "i2")) garden).0 ≡ ok paper)
      × MayRead paper (codes "alice"))
find_visible-eq-ok_iff_example =
    find_visible-eq-ok_iff shelf (codes "i2") (codes "alice") garden paper

abbrev everything : ListFilter
everything = record { kind = []; owner_id = []; visibility = []; limit = pos 0 }

list_public-IsPublic_example : All IsPublic (note ∷ [])
unfolding list_public community_feed graph MemoryStore.list_items MemoryStore.graph_from_items
    MemoryStore.backlinks clone_item lookup text_beq text_lt row_of feed_limit insert_stable
list_public-IsPublic_example =
    list_public-IsPublic shelf shelf_laws everything garden (note ∷ []) refl

community_feed_lem_example :
    (length (row_of (codes "") note ∷ []) ≤ 100)
    × IsSorted row_newer (row_of (codes "") note ∷ [])
    × (listed : List Item) × ((shelf.list_items (all_public (feed_limit (pos 0))) garden).0
        ≡ ok listed)
    × All (ShowsPublic (codes "") listed) (row_of (codes "") note ∷ [])
unfolding list_public community_feed graph MemoryStore.list_items MemoryStore.graph_from_items
    MemoryStore.backlinks clone_item lookup text_beq text_lt row_of feed_limit insert_stable
community_feed_lem_example =
    community_feed_lem shelf shelf_laws (pos 0) garden (row_of (codes "") note ∷ []) refl

-- What another user asks for.
abbrev intrusion : List Request
intrusion =
    update_item (codes "i1") (codes "bob") edit 5
    ∷ remove_item (codes "i1") (codes "bob")
    ∷ create_item (codes "bob") paper_input (codes "i3") 6 6
    ∷ []

intrusion-AreOfOthers : AreOfOthers ascii in_order (codes "alice") intrusion garden
unfolding run update Service.remove MemoryStore.find_by_id clone_item lookup text_beq trim_space
intrusion-AreOfOthers = ((λ e. cc), ((λ e. cc), (refl, tt)))

isolation_example : lookup (codes "i1") (run_all ascii shelf intrusion garden).items ≡ some note
unfolding lookup text_beq
isolation_example =
    isolation ascii in_order (codes "alice") (codes "i1") note refl intrusion garden
      garden-IsWellFormed intrusion-AreOfOthers refl
