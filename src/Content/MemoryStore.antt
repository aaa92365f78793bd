-- ===== src/Content/MemoryStore.antt =====
-- services/api/internal/content/store_memory.go. The mutex makes each method one step; a method
-- is an action on the two maps.
pub mod Invariant
pub mod Listing
pub mod Order
pub mod Graphs
use learning_garden_server.Prelude.{
  ℕ, ◌≡◌, Bool, true, false, not, ◌&&◌, ◌||◌, Option, none, some, List, [], ◌∷◌, ◌++◌, map, Perm,
  Text, text_eq, nat_eq, ◌==◌, is_empty, text_lt, ltb, if◌then◌else◌, any, keep, length, take, Exec,
  ok, err, not_found, conflict,
}
use learning_garden_server.Prelude.Int.{ℤ, pos, pos_part, ltb_ℤ}
use learning_garden_server.Prelude.Map.{Map, lookup, insert, delete}
use learning_garden_server.Prelude.Sort.{sort_stable}
use learning_garden_server.Content.Types.{
  Metadata, Item, ListFilter, Relation, Backlink, GraphNode, GraphEdge, Graph, visibility_public,
}

-- The order in which `range` visits a map, which Go leaves open: some order of its entries.
pub record Range : Type 1 where
  pub visit : (V : Type 0) → Map V → Map V
  pub perm : (V : Type 0) (m : Map V) → Perm (visit V m) m

pub record MemoryStore : Type 0 where
  pub items : Map Item
  pub relations : Map Relation

abbrev pub new_memory_store : MemoryStore
new_memory_store = record { items = []; relations = [] }

-- A copy of the map: as a value, the same entries. The copy of nil is an empty map.
unfoldable pub clone_metadata : Metadata → Metadata
clone_metadata none = some []
clone_metadata (some m) = some m

unfoldable pub clone_item : Item → Item
clone_item item = record item { metadata = clone_metadata item.metadata }

-- The test of the loops that look for a conflict.
unfoldable pub same_slot : Item → Item → Bool
same_slot existing item =
    existing.owner_id == item.owner_id && existing.kind == item.kind && existing.slug == item.slug

-- `_, ok := m[k]`
abbrev pub present {ℓ} : {V : Type ℓ} → Option V → Bool
present none = false
present (some v) = true

abbrev store_item : Item → MemoryStore → MemoryStore
store_item item s = record s { items = insert item.id (clone_item item) s.items }

-- The loop's answer does not depend on the order of its visits.
unfoldable pub create : Item → Exec MemoryStore Item
create item s =
    if any (λ e. same_slot e.1 item) s.items
    then (err conflict, s)
    else (ok (clone_item item), store_item item s)

unfoldable pub replace : Item → Exec MemoryStore Item
replace item s =
    if not (present (lookup item.id s.items))
    then (err not_found, s)
    else if any (λ e. not (e.1.id == item.id) && same_slot e.1 item) s.items
    then (err conflict, s)
    else (ok (clone_item item), store_item item s)

unfoldable pub touches : Text → Relation → Bool
touches id relation = relation.source_id == id || relation.target_id == id

unfoldable pub remove : Text → Exec MemoryStore (Unit {0})
remove id s = if not (present (lookup id s.items)) then (err not_found, s) else (
  ok tt,
  record { items = delete id s.items; relations = keep (λ e. not (touches id e.1)) s.relations },
)

abbrev found_item : Option Item → MemoryStore → Exec MemoryStore Item
found_item none s _ = (err not_found, s)
found_item (some item) s _ = (ok (clone_item item), s)

unfoldable pub find_by_id : Text → Exec MemoryStore Item
find_by_id id s = found_item (lookup id s.items) s s

unfoldable pub matches_filter : Item → ListFilter → Bool
matches_filter item filter =
    if not (is_empty filter.kind) && not (item.kind == filter.kind)
    then false
    else if not (is_empty filter.owner_id) && not (item.owner_id == filter.owner_id)
    then false
    else if not (is_empty filter.visibility) && not (item.visibility == filter.visibility)
    then false
    else true

-- Newest first, and by title among items of one time.
unfoldable pub item_less : Item → Item → Bool
item_less a b =
    if a.updated_at == b.updated_at then text_lt a.title b.title else ltb b.updated_at a.updated_at

unfoldable pub sort_items : List Item → List Item
unfolding item_less sort_stable
sort_items items = sort_stable item_less items

-- `if limit > 0 && len(items) > limit { items = items[:limit] }`
unfoldable pub limit_items {ℓ} : {A : Type ℓ} → ℤ → List A → List A
limit_items limit items =
    if ltb_ℤ (pos 0) limit && ltb_ℤ limit (pos (length items))
    then take (pos_part limit) items
    else items

abbrev pub values {ℓ} : {V : Type ℓ} → Map V → List V
values m = map (λ e. e.1) m

unfoldable pub relation_key : Relation → Text
relation_key r = r.source_id ++ 0 ∷ r.target_id ++ 0 ∷ r.type

unfoldable pub add_relation : Relation → Exec MemoryStore Relation
unfolding relation_key
add_relation relation s =
    if not (present (lookup relation.source_id s.items))
    then (err not_found, s)
    else if not (present (lookup relation.target_id s.items))
    then (err not_found, s)
    else (ok relation, record s { relations = insert (relation_key relation) relation s.relations })

-- One round of the loop of `Backlinks`; `none` is `continue`.
abbrev backlink_from : Relation → Option Item → Option Backlink
backlink_from relation none = none
backlink_from relation (some source) =
    if not (source.visibility == visibility_public)
    then none
    else some (record { relation = relation; source = clone_item source })

abbrev backlink_of : Text → Map Item → Relation → Option Backlink
backlink_of target_id items relation =
    if not (relation.target_id == target_id)
    then none
    else backlink_from relation (lookup relation.source_id items)

abbrev pub collect {ℓ κ} : {A : Type ℓ} {B : Type κ} → (A → Option B) → List A → List B
collect f [] = []
collect f (x ∷ xs) = let rest = collect f xs in elim (f x) [ none ↦ rest | some y ↦ y ∷ rest ]

unfoldable pub backlink_less : Backlink → Backlink → Bool
backlink_less a b = ltb b.source.updated_at a.source.updated_at

unfoldable pub node_of : Item → GraphNode
node_of item = record {
  id = item.id;
  kind = item.kind;
  title = item.title;
  visibility = item.visibility;
}

unfoldable pub node_less : GraphNode → GraphNode → Bool
node_less a b = text_lt a.title b.title

-- `edges[i]` before `edges[j]`
unfoldable pub edge_less : GraphEdge → GraphEdge → Bool
edge_less a b =
    if a.source_id == b.source_id
    then text_lt a.target_id b.target_id
    else text_lt a.source_id b.source_id

unfoldable pub edge_of : Relation → GraphEdge
edge_of r = record { source_id = r.source_id; target_id = r.target_id; type = r.type }

-- Both ends of the relation are among the nodes.
unfoldable pub joins : List GraphNode → Relation → Bool
joins nodes r = any (λ n. n.id == r.source_id) nodes && any (λ n. n.id == r.target_id) nodes

module _ (range : Range) where
  -- What `List` and `Graph` select: the copies that pass the filter, sorted and cut.
  unfoldable pub listing : ListFilter → MemoryStore → List Item
  unfolding sort_items limit_items matches_filter clone_item
  listing filter s =
      let items =
        map clone_item (keep (λ i. matches_filter i filter) (values (range.visit Item s.items))) in
      limit_items filter.limit (sort_items items)

  unfoldable pub list_items : ListFilter → Exec MemoryStore (List Item)
  unfolding listing
  list_items filter s = (ok (listing filter s), s)

  unfoldable pub backlinks : Text → Exec MemoryStore (List Backlink)
  unfolding backlink_less sort_stable lookup
  backlinks target_id s = (
    ok (
        sort_stable backlink_less
          (collect (backlink_of target_id s.items) (values (range.visit Relation s.relations)))),
    s,
  )

  unfoldable pub graph_from_items_locked : List Item → MemoryStore → Graph
  unfolding node_of node_less edge_of edge_less joins sort_stable
  graph_from_items_locked items s =
      let nodes = sort_stable node_less (map node_of items) in
      record {
        nodes = nodes;
        edges =
            sort_stable edge_less
              (map edge_of (keep (joins nodes) (values (range.visit Relation s.relations))));
      }

  unfoldable pub graph_from_items : List Item → Exec MemoryStore Graph
  unfolding graph_from_items_locked
  graph_from_items items s = (ok (graph_from_items_locked items s), s)

  unfoldable pub graph : ListFilter → Exec MemoryStore Graph
  unfolding graph_from_items_locked listing
  graph filter s = (ok (graph_from_items_locked (listing filter s) s), s)
