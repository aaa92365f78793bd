-- ===== src/Content/Service/Public.antt =====
-- The listings show public items only.
use learning_garden_server.Prelude.{
  ◌⊎◌, inl, inr, ◌∷◌, ◌≤◌, ◌<◌, ◌≡◌, refl, Bool, true, ◌||◌, List, [], arith, Text, text_eq, ◌==◌,
  is_empty, text_beq_iff, All, All-map, All-map_image, length, length-map, ok, codes, ltb,
}
use learning_garden_server.Prelude.Int.{ℤ, pos, negsuc, pos_part}
use learning_garden_server.Prelude.Actions.{bind-eq-ok}
use learning_garden_server.Prelude.Sort.{
  sort_stable, IsSorted, StrictWeak, sort_stable-IsSorted, sort_stable-All, IsSorted-map,
}
use learning_garden_server.Content.Types.{
  Item, ListFilter, Graph, CommunityFeedRow, visibility_public,
}
use learning_garden_server.Content.MemoryStore
use learning_garden_server.Content.MemoryStore.{
  Range, MemoryStore, matches_filter, limit_items, graph_from_items_locked, node_of,
}
use learning_garden_server.Content.MemoryStore.Listing.{
  limit_items-All, length-limit_items, limit_items-IsSorted,
}
use learning_garden_server.Content.MemoryStore.Graphs.{
  graph_nodes-All, graph_edges-IsJoined, IsJoined,
}
use learning_garden_server.Content.Store.{Store, StoreLaws}
use learning_garden_server.Content.Store.Memory.{memory_store, memory_store_laws}
use learning_garden_server.Content.Service.Queries.{
  list_public, graph, community_feed, feed_limit, feed_rows_for_items, newer, row_of,
}

abbrev pub IsPublic : Item → Type 0
IsPublic i = i.visibility ≡ visibility_public

-- The item is one of the list.
abbrev pub Listed : Item → List Item → Type 0
Listed i [] = ⊥
Listed i (j ∷ items) = (i ≡ j) ⊎ Listed i items

All-Listed : (items : List Item) → All (λ i. Listed i items) items
All-Listed [] = tt
All-Listed (i ∷ items) = (inl refl, All-map (λ j there. inr there) items (All-Listed items))

visible-IsPublic :
    (i : Item)
    → (is_empty visibility_public || i.visibility == visibility_public) ≡ true
    → IsPublic i
visible-IsPublic i h = ground (arith, text_beq_iff i.visibility visibility_public)

module _ (store : Store) (laws : StoreLaws store) where
  -- Over any lawful store: whatever filter is asked for, the public listing holds public items
  -- only.
  pub list_public-IsPublic :
      (f : ListFilter) (s : store.State) (items : List Item)
      → (list_public store f s).0 ≡ ok items
      → All IsPublic items
  unfolding list_public
  list_public-IsPublic f s items h =
      All-map visible-IsPublic items
        (laws.list_visible (record f { visibility = visibility_public }) s items h)

feed_limit_bounds :
    (limit : ℤ) → (0 < pos_part (feed_limit limit)) × (pos_part (feed_limit limit) ≤ 100)
unfolding feed_limit
feed_limit_bounds (negsuc n) = ground arith
feed_limit_bounds (pos n) = ground arith

newer-StrictWeak : StrictWeak newer
unfolding newer
newer-StrictWeak = record { asymm = λ a b h. ground arith; neg_trans = λ a b c h k. ground arith }

-- The first row was updated after the second.
abbrev pub row_newer : CommunityFeedRow → CommunityFeedRow → Bool
row_newer a b = ltb b.updated_at a.updated_at

-- The row shows a public item of those listed, under the actor's name.
abbrev pub ShowsPublic : Text → List Item → CommunityFeedRow → Type 0
ShowsPublic actor listed row = (i : Item) × Listed i listed × IsPublic i × (row ≡ row_of actor i)

Listed-ShowsPublic :
    (actor : Text) (listed items : List Item)
    → All (λ i. Listed i listed) items
    → All IsPublic items
    → All (λ i. ShowsPublic actor listed (row_of actor i)) items
Listed-ShowsPublic actor listed [] h k = tt
Listed-ShowsPublic actor listed (i ∷ items) (there, h) (p, k) =
    ((i, there, p, refl), Listed-ShowsPublic actor listed items h k)

-- Every item that is public, of whatever kind and owner, up to a number.
abbrev pub all_public : ℤ → ListFilter
all_public limit = record {
  kind = [];
  owner_id = [];
  visibility = visibility_public;
  limit = limit;
}

module _ (actor : Text) (items : List Item) (limit : ℤ) where
  abbrev rows : List CommunityFeedRow
  rows = feed_rows_for_items actor items limit

  -- Rows run from the newest to the oldest.
  pub feed_rows-IsSorted : IsSorted row_newer rows
  unfolding feed_rows_for_items newer row_of
  feed_rows-IsSorted =
      IsSorted-map newer row_newer (row_of actor) (λ a b. refl) _
        (limit_items-IsSorted newer limit _ (sort_stable-IsSorted newer-StrictWeak items))

  pub feed_rows-All :
      (P : CommunityFeedRow → Type 0) → All (λ i. P (row_of actor i)) items → All P rows
  unfolding feed_rows_for_items
  feed_rows-All P h =
      All-map_image P (row_of actor) _ (limit_items-All _ limit _ (sort_stable-All newer _ items h))

  pub length-feed_rows : 0 < pos_part limit → length rows ≤ pos_part limit
  unfolding feed_rows_for_items
  length-feed_rows h = omega (
    arith,
    length-map {0, 0} (row_of actor) (limit_items limit (sort_stable newer items)),
    length-limit_items {0} limit (sort_stable newer items),
  )

module _ (store : Store) (laws : StoreLaws store) where
  -- Over any lawful store: the community feed has at most a hundred rows, whatever limit is asked
  -- for, from the newest to the oldest, and each row shows a public item of those that the store
  -- lists where all public items are asked for.
  pub community_feed_lem :
      (limit : ℤ) (s : store.State) (rows : List CommunityFeedRow)
      → (community_feed store limit s).0 ≡ ok rows
      → (length rows ≤ 100)
        × IsSorted row_newer rows
        × (listed : List Item) × ((store.list_items (all_public (feed_limit limit)) s).0
            ≡ ok listed)
        × All (ShowsPublic (codes "") listed) rows
  unfolding community_feed list_public
  community_feed_lem limit s rows h =
      let filter = all_public (feed_limit limit) in
      let (items, listed, h1) = bind-eq-ok (list_public store filter) _ s rows h in
      let same : feed_rows_for_items (codes "") items (feed_limit limit) ≡ rows = cc in
      let (positive, most) = feed_limit_bounds limit in
      rw (← same) (
        omega (arith, length-feed_rows (codes "") items (feed_limit limit) positive),
        feed_rows-IsSorted (codes "") items (feed_limit limit),
        items,
        listed,
        feed_rows-All (codes "") items (feed_limit limit) (ShowsPublic (codes "") items) (
            Listed-ShowsPublic (codes "") items items (All-Listed items)
              (list_public-IsPublic store laws filter s items listed)),
      )

-- The public graph of the in-memory store: its nodes are public, and its edges join its nodes.
pub graph_public :
    (range : Range) (f : ListFilter) (s : MemoryStore) (g : Graph)
    → (graph (memory_store range) f s).0 ≡ ok g
    → All (λ n. n.visibility ≡ visibility_public) g.nodes × All (IsJoined g.nodes) g.edges
unfolding graph MemoryStore.graph_from_items MemoryStore.list_items node_of
graph_public range f s g h =
    let public : ListFilter = record f { visibility = visibility_public } in
    let (items, listed, h1) =
      bind-eq-ok (MemoryStore.list_items range public) (MemoryStore.graph_from_items range) s g h in
    let same : graph_from_items_locked range items s ≡ g = cc in
    rw (← same) (
      graph_nodes-All range items s (λ n. n.visibility ≡ visibility_public)
          (All-map visible-IsPublic items
            ((memory_store_laws range).list_visible public s items listed)),
      graph_edges-IsJoined range items s,
    )
