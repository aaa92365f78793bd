-- ===== src/ContentRepo/PostgresStore.antt =====
-- `PostgresContentStore` of services/api/internal/contentrepo/postgres_content.go: each method as
-- the statements it runs and what it makes of their answers.
use learning_garden_server.Prelude.{
  ℕ, suc, Option, none, some, List, [], ◌∷◌, map, Text, Result, ok, err, Exec, ◌>>=◌, not_found,
  failure,
}
use learning_garden_server.Content.Types.{
  Item, Metadata, ListFilter, Relation, Backlink, GraphNode, GraphEdge, Graph,
}
use learning_garden_server.Content.MemoryStore.{node_of}
use learning_garden_server.Content.Store.{Store}
use learning_garden_server.ContentRepo.{map_content_store_error, list_query}
use learning_garden_server.ContentRepo.Database.{Database, ItemRow, Tables}
use learning_garden_server.ContentRepo.Statements.{
  Reply, rows, fault, insert_item, update_item, delete_item, insert_relation,
}
use learning_garden_server.ContentRepo.Queries.{
  select_item, select_items, select_backlinks, select_edges,
}

-- `json.Unmarshal` failed, or the value is null, or it is a map.
abbrev read_metadata : Option Metadata → Metadata
read_metadata none = some []
read_metadata (some none) = some []
read_metadata (some (some m)) = some m

-- An error that is returned as it came is none of the sentinel errors.
abbrev pub returned {ℓ} : {A : Type ℓ} → Reply A → Result A
returned (rows a) = ok a
returned (fault e) = err failure

module _ (db : Database) where
  unfoldable pub decode_metadata : Text → Metadata
  decode_metadata [] = some []
  decode_metadata (c ∷ raw) = read_metadata (db.unmarshal (c ∷ raw))

  unfoldable pub item_of : ItemRow → Item
  unfolding decode_metadata
  item_of row = record {
    id = row.id;
    owner_id = row.owner_id;
    kind = row.kind;
    title = row.title;
    slug = row.slug;
    summary = row.summary;
    body = row.body;
    visibility = row.visibility;
    status = row.status;
    metadata = decode_metadata row.metadata;
    created_at = row.created_at;
    updated_at = row.updated_at;
  }

  unfoldable pub scan_content_item : Reply ItemRow → Result Item
  unfolding item_of map_content_store_error
  scan_content_item (rows row) = ok (item_of row)
  scan_content_item (fault e) = err (map_content_store_error e)

  unfoldable pub scan_relation : Reply Relation → Result Relation
  unfolding map_content_store_error
  scan_relation (rows relation) = ok relation
  scan_relation (fault e) = err (map_content_store_error e)

  abbrev pub insert_marshalled : Item → Option Text → Exec Tables Item
  insert_marshalled item none t = (err failure, t)
  insert_marshalled item (some metadata) t =
      let (reply, after) = insert_item db item metadata t in (scan_content_item reply, after)

  unfoldable pub create : Item → Exec Tables Item
  unfolding insert_item scan_content_item
  create item t = insert_marshalled item (db.marshal item.metadata) t

  -- An error that `scanContentItem` has mapped is no error of the database: mapping it again
  -- leaves it.
  abbrev pub update_marshalled : Item → Option Text → Exec Tables Item
  update_marshalled item none t = (err failure, t)
  update_marshalled item (some metadata) t =
      let (reply, after) = update_item db item metadata t in (scan_content_item reply, after)

  unfoldable pub replace : Item → Exec Tables Item
  unfolding update_item scan_content_item
  replace item t = update_marshalled item (db.marshal item.metadata) t

  -- `if tag.RowsAffected() == 0`
  abbrev pub affected : Reply ℕ → Result (Unit {0})
  affected (fault e) = err failure
  affected (rows ℕ.zero) = err not_found
  affected (rows (suc n)) = ok tt

  unfoldable pub remove : Text → Exec Tables (Unit {0})
  unfolding delete_item
  remove id t = let (reply, after) = delete_item db id t in (affected reply, after)

  unfoldable pub find_by_id : Text → Exec Tables Item
  unfolding select_item scan_content_item
  find_by_id id t = let (reply, after) = select_item db id t in (scan_content_item reply, after)

  abbrev pub listed : Reply (List ItemRow) → Result (List Item)
  listed (rows found) = ok (map item_of found)
  listed (fault e) = err failure

  unfoldable pub list_items : ListFilter → Exec Tables (List Item)
  unfolding list_query select_items item_of
  list_items filter t =
      let ((conditions, args), limit) = list_query filter in
      let (reply, after) = select_items db conditions args limit t in (listed reply, after)

  unfoldable pub add_relation : Relation → Exec Tables Relation
  unfolding insert_relation scan_relation
  add_relation relation t =
      let (reply, after) = insert_relation db relation t in (scan_relation reply, after)

  abbrev pub backlink_row : Relation × ItemRow → Backlink
  backlink_row (relation, row) = record { relation = relation; source = item_of row }

  abbrev pub linked : Reply (List (Relation × ItemRow)) → Result (List Backlink)
  linked (rows found) = ok (map backlink_row found)
  linked (fault e) = err failure

  unfoldable pub backlinks : Text → Exec Tables (List Backlink)
  unfolding select_backlinks item_of
  backlinks target_id t =
      let (reply, after) = select_backlinks db target_id t in (linked reply, after)

  abbrev pub drawn : List GraphNode → Reply (List GraphEdge) → Result Graph
  drawn nodes (rows edges) = ok (record { nodes = nodes; edges = edges })
  drawn nodes (fault e) = err failure

  -- With no node the statement is not run.
  unfoldable pub graph_from_items : List Item → Exec Tables Graph
  unfolding select_edges node_of
  graph_from_items [] t = (ok (record { nodes = []; edges = [] }), t)
  graph_from_items (item ∷ items) t =
      let (reply, after) = select_edges db (map (λ i. i.id) (item ∷ items)) t in
      (drawn (map node_of (item ∷ items)) reply, after)

  unfoldable pub graph : ListFilter → Exec Tables Graph
  unfolding list_items graph_from_items
  graph filter = list_items filter >>= graph_from_items

  abbrev pub postgres_store : Store
  postgres_store = record {
    State = Tables;
    create = create;
    replace = replace;
    remove = remove;
    find_by_id = find_by_id;
    list_items = list_items;
    add_relation = add_relation;
    backlinks = backlinks;
    graph = graph;
    graph_from_items = graph_from_items;
  }
