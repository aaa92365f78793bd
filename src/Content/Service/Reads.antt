-- ===== src/Content/Service/Reads.antt =====
-- The methods of services/api/internal/content/service.go that only read, over a lawful store.
use learning_garden_server.Prelude.{Text, List}
use learning_garden_server.Prelude.Int.{ℤ}
use learning_garden_server.Prelude.Actions.{IsReader, reader_rules}
use learning_garden_server.Content.Types.{Item, ListFilter, PublicProfile}
use learning_garden_server.Content.Store.{Store, StoreLaws}
use learning_garden_server.Content.Service.{find_visible, backlinks}
use learning_garden_server.Content.Service.Queries.{
  list_public, graph, stats, portfolio, community_feed,
}

module _ (store : Store) (laws : StoreLaws store) where
  find_by_id-IsReader : (id : Text) → IsReader (store.find_by_id id)
  find_by_id-IsReader id = record { at = laws.find_reads id }

  list_items-IsReader : (filter : ListFilter) → IsReader (store.list_items filter)
  list_items-IsReader filter = record { at = laws.list_reads filter }

  store_backlinks-IsReader : (id : Text) → IsReader (store.backlinks id)
  store_backlinks-IsReader id = record { at = laws.backlinks_reads id }

  graph_from_items-IsReader : (items : List Item) → IsReader (store.graph_from_items items)
  graph_from_items-IsReader items = record { at = laws.graph_reads items }

  ruleset read_rules = (
    reader_rules, find_by_id-IsReader, list_items-IsReader, store_backlinks-IsReader,
    graph_from_items-IsReader,
  )

  pub find_visible-IsReader : (id viewer : Text) → IsReader (find_visible store id viewer)
  unfolding find_visible
  find_visible-IsReader id viewer = search read_rules depth 8

  pub backlinks-IsReader : (id : Text) → IsReader (backlinks store id)
  unfolding backlinks
  backlinks-IsReader id = search read_rules depth 10

  pub list_public-IsReader : (filter : ListFilter) → IsReader (list_public store filter)
  unfolding list_public
  list_public-IsReader filter = search read_rules depth 4

  pub graph-IsReader : (filter : ListFilter) → IsReader (graph store filter)
  unfolding graph
  graph-IsReader filter = search read_rules depth 6

  pub stats-IsReader : (owner : Text) → IsReader (stats store owner)
  unfolding stats
  stats-IsReader owner = search read_rules depth 6

  pub portfolio-IsReader :
      (profile : PublicProfile) (limit : ℤ) → IsReader (portfolio store profile limit)
  unfolding portfolio
  portfolio-IsReader profile limit = search read_rules depth 8

  pub community_feed-IsReader : (limit : ℤ) → IsReader (community_feed store limit)
  unfolding community_feed
  community_feed-IsReader limit = search read_rules depth 6
