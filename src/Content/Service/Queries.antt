-- ===== src/Content/Service/Queries.antt =====
-- `Service` of services/api/internal/content/service.go: the listings, and what they compute from
-- the listed items.
use learning_garden_server.Prelude.{
  ℕ, ◌+◌, Bool, ◌&&◌, ◌||◌, Option, none, some, List, [], ◌∷◌, ◌++◌, map, Text, codes, text_eq,
  nat_eq, ◌==◌, is_empty, if◌then◌else◌, ltb, Exec, pure, ◌>>=◌,
}
use learning_garden_server.Prelude.Int.{ℤ, pos, leb_ℤ, ltb_ℤ}
use learning_garden_server.Prelude.Json.{Json, Elements, nil, cons, as_list, as_string}
use learning_garden_server.Prelude.Map.{Map, lookup, insert}
use learning_garden_server.Prelude.Sort.{sort_stable}
use learning_garden_server.Strings.{trim_space}
use learning_garden_server.Content.Types.{
  Kind, kind_track, kind_note, kind_paper, kind_experiment, visibility_public, Metadata, Item,
  ListFilter, Graph, Stats, PublicProfile, CommunityFeedRow, Portfolio,
}
use learning_garden_server.Content.MemoryStore.{clone_metadata, limit_items}
use learning_garden_server.Content.Store.{Store}

abbrev no_stats : Stats
no_stats = record { tracks = 0; notes = 0; papers = 0; experiments = 0 }

-- One round of the loop of `statsForItems`.
abbrev pub count_item : Stats → Kind → Stats
count_item stats k =
    if k == kind_track
    then record stats { tracks = stats.tracks + 1 }
    else if k == kind_note
    then record stats { notes = stats.notes + 1 }
    else if k == kind_paper
    then record stats { papers = stats.papers + 1 }
    else if k == kind_experiment
    then record stats { experiments = stats.experiments + 1 }
    else stats

unfoldable pub count_items : Stats → List Item → Stats
count_items stats [] = stats
count_items stats (item ∷ items) = count_items (count_item stats item.kind) items

unfoldable pub stats_for_items : List Item → Stats
unfolding count_items
stats_for_items items = count_items no_stats items

-- A missing key reads as zero.
abbrev pub count_at : Option ℕ → ℕ
count_at none = 0
count_at (some n) = n

-- The tag of a value, if it is a text with more than spaces.
abbrev pub tag_of : Option Text → Text
tag_of none = []
tag_of (some tag) = trim_space tag

abbrev pub add_topic : Map ℕ → Text → Map ℕ
add_topic topics tag =
    if is_empty tag then topics else insert tag (count_at (lookup tag topics) + 1) topics

unfoldable pub add_topics : Map ℕ → Elements → Map ℕ
unfolding trim_space lookup insert
add_topics topics nil = topics
add_topics topics (cons value raw) = add_topics (add_topic topics (tag_of (as_string value))) raw

abbrev pub raw_tags : Metadata → Option Json
raw_tags none = none
raw_tags (some m) = lookup (codes "tags") m

abbrev pub tag_values : Option Json → Elements
tag_values none = nil
tag_values (some value) = elim (as_list value) [ none ↦ nil | some raw ↦ raw ]

unfoldable pub topics_from : Map ℕ → List Item → Map ℕ
topics_from topics [] = topics
topics_from topics (item ∷ items) =
    topics_from (add_topics topics (tag_values (raw_tags item.metadata))) items

unfoldable pub topics_for_items : List Item → Map ℕ
unfolding topics_from add_topics
topics_for_items items = topics_from [] items

unfoldable pub newer : Item → Item → Bool
newer a b = ltb b.updated_at a.updated_at

unfoldable pub row_of : Text → Item → CommunityFeedRow
unfolding clone_metadata
row_of actor item = record {
  id = item.id;
  type = codes "content_published";
  actor = actor;
  title = item.title;
  summary = item.summary;
  kind = item.kind;
  created_at = item.created_at;
  updated_at = item.updated_at;
  metadata = clone_metadata item.metadata;
}

unfoldable pub feed_rows_for_items : Text → List Item → ℤ → List CommunityFeedRow
unfolding newer row_of sort_stable limit_items
feed_rows_for_items actor items limit =
    map (row_of actor) (limit_items limit (sort_stable newer items))

-- The items of a kind, if the map has it.
abbrev pub group_at : Option (List Item) → List Item
group_at none = []
group_at (some items) = items

-- `grouped[item.Kind] = append(grouped[item.Kind], item)`
unfoldable pub group_from : Map (List Item) → List Item → Map (List Item)
group_from grouped [] = grouped
group_from grouped (item ∷ items) =
    group_from (insert item.kind (group_at (lookup item.kind grouped) ++ item ∷ []) grouped) items

unfoldable pub group_items : List Item → Map (List Item)
unfolding group_from lookup insert
group_items items =
    group_from ((kind_track, []) ∷ (kind_note, []) ∷ (kind_paper, []) ∷ (kind_experiment, []) ∷ [])
      items

-- `stats == (Stats{})`
abbrev pub is_no_stats : Stats → Bool
is_no_stats s = s.tracks == 0 && s.notes == 0 && s.papers == 0 && s.experiments == 0

abbrev pub owned_by : Text → ℤ → ListFilter
owned_by owner limit = record { kind = []; owner_id = owner; visibility = []; limit = limit }

unfoldable pub portfolio_of : PublicProfile → List Item → Graph → Portfolio
unfolding stats_for_items group_items topics_for_items feed_rows_for_items
portfolio_of profile items graph =
    let stats = if is_no_stats profile.stats then stats_for_items items else profile.stats in
    record {
      profile = record profile { stats = stats };
      items = group_items items;
      graph = graph;
      stats = stats;
      topics = topics_for_items items;
      recent = feed_rows_for_items profile.display_name items (pos 8);
    }

-- `limit <= 0 || limit > 100` is replaced by 20.
unfoldable pub feed_limit : ℤ → ℤ
feed_limit limit = if leb_ℤ limit (pos 0) || ltb_ℤ (pos 100) limit then pos 20 else limit

module _ (store : Store) where
  open store use {State}

  unfoldable pub list_public : ListFilter → Exec State (List Item)
  list_public filter = store.list_items (record filter { visibility = visibility_public })

  unfoldable pub list_visible : ListFilter → Text → Exec State (List Item)
  unfolding list_public
  list_visible filter viewer_id =
      if is_empty (trim_space viewer_id) then list_public filter else store.list_items filter

  unfoldable pub graph : ListFilter → Exec State Graph
  graph filter = do
    items ← store.list_items (record filter { visibility = visibility_public })
    store.graph_from_items items

  unfoldable pub stats : Text → Exec State Stats
  unfolding list_public stats_for_items
  stats owner_id = do items ← list_public (owned_by owner_id (pos 0)); pure (stats_for_items items)

  unfoldable pub portfolio : PublicProfile → ℤ → Exec State Portfolio
  unfolding list_public portfolio_of
  portfolio profile limit = do
    items ← list_public (owned_by profile.id limit)
    graph ← store.graph_from_items items
    pure (portfolio_of profile items graph)

  unfoldable pub community_feed : ℤ → Exec State (List CommunityFeedRow)
  unfolding list_public feed_rows_for_items feed_limit
  community_feed limit = do
    items ←
        list_public (record { kind = []; owner_id = []; visibility = []; limit = feed_limit limit })
    pure (feed_rows_for_items (codes "") items (feed_limit limit))
