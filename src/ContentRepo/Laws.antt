-- ===== src/ContentRepo/Laws.antt =====
-- The Postgres store of services/api/internal/contentrepo/postgres_content.go meets the laws of
-- the interface `Store` that the content service relies on.
use learning_garden_server.Prelude.{
  ◌≡◌, refl, true, ◌||◌, some, none, Option, Option-cases, inl, inr, List, [], ◌∷◌, map, arith,
  Text, text_eq, ◌==◌, is_empty, All, All-map, All-map_image, keep-All, ok, Bool-cases, all,
}
use learning_garden_server.Prelude.Sort.{sort_stable-All}
use learning_garden_server.Content.Types.{Item, ListFilter, Relation}
use learning_garden_server.Content.MemoryStore.{values}
use learning_garden_server.Content.MemoryStore.Listing.{limit_items-All}
use learning_garden_server.Content.Store.{StoreLaws}
use learning_garden_server.ContentRepo.{list_query}
use learning_garden_server.ContentRepo.Database.{Database, ItemRow, Tables}
use learning_garden_server.ContentRepo.Database.Statement.{select_items_stmt}
use learning_garden_server.ContentRepo.Statements.{run}
use learning_garden_server.ContentRepo.Queries.{
  select_item, select_items, select_backlinks, select_edges, encodes, edge_rows, uuids, row_less,
}
use learning_garden_server.ContentRepo.PostgresStore.{
  create, replace, remove, find_by_id, list_items, add_relation, backlinks, graph_from_items,
  postgres_store, item_of, insert_marshalled, update_marshalled,
}
use learning_garden_server.ContentRepo.Consistency.{
  IsConsistent, insert_item-IsConsistent, update_item-IsConsistent, delete_item-IsConsistent,
  insert_relation-IsConsistent,
}
use learning_garden_server.ContentRepo.Selection.{
  chosen, asks, selected_rows-chosen, is_encodable, query-encodes,
}
use learning_garden_server.ContentRepo.Failures.{
  create_fails, replace_fails, remove_fails, add_relation_fails, IsSelect, IsSelect-run,
  IsSelect-with_uuid,
}

module _ (db : Database) where
  insert_marshalled-IsConsistent :
      (item : Item) (metadata : Option Text) {t : Tables}
      → IsConsistent t
      → IsConsistent (insert_marshalled db item metadata t).1
  insert_marshalled-IsConsistent item none v = v
  insert_marshalled-IsConsistent item (some metadata) {t} v =
      (insert_item-IsConsistent db item metadata).at t v

  update_marshalled-IsConsistent :
      (item : Item) (metadata : Option Text) {t : Tables}
      → IsConsistent t
      → IsConsistent (update_marshalled db item metadata t).1
  update_marshalled-IsConsistent item none v = v
  update_marshalled-IsConsistent item (some metadata) {t} v =
      (update_item-IsConsistent db item metadata).at t v

  select_item-IsSelect : (id : Text) → IsSelect (select_item db id)
  unfolding select_item
  select_item-IsSelect id =
      IsSelect-run db _ _ (IsSelect-with_uuid db _ _ (λ k. record { at = λ t. refl }))

  select_items-reads : (filter : ListFilter) (t : Tables) → (list_items db filter t).1 ≡ t
  unfolding list_items select_items
  select_items-reads filter t = (IsSelect-run db _ _ (record { at = λ s. ground arith })).at t

  select_backlinks-IsSelect : (id : Text) → IsSelect (select_backlinks db id)
  unfolding select_backlinks
  select_backlinks-IsSelect id =
      IsSelect-run db _ _ (IsSelect-with_uuid db _ _ (λ k. record { at = λ t. refl }))

  edge_rows-IsSelect : (ids : Option (List Text)) → IsSelect (edge_rows db ids)
  edge_rows-IsSelect none = record { at = λ t. refl }
  edge_rows-IsSelect (some ids) = record { at = λ t. refl }

  graph_from_items_reads : (items : List Item) (t : Tables) → (graph_from_items db items t).1 ≡ t
  unfolding graph_from_items select_edges
  graph_from_items_reads [] t = refl
  graph_from_items_reads (item ∷ items) t =
      (IsSelect-run db _ _ (edge_rows-IsSelect (uuids db (map (λ i. i.id) (item ∷ items))))).at t

  list_items-chosen :
      (filter : ListFilter) (t : Tables) (items : List Item)
      → (list_items db filter t).0 ≡ ok items
      → map (item_of db) (chosen db filter t) ≡ items
  unfolding list_items select_items run
  list_items-chosen filter t items h = elim (Option-cases (db.fault select_items_stmt t)) [
    | inr (e, failed) ↦ ground arith
    | inl running ↦
        elim (Bool-cases (all (encodes db (list_query filter).0.1) (list_query filter).0.0)) [
          | inr refused ↦ ground arith
          | inl encoded ↦ ground (arith, selected_rows-chosen db filter t)
        ]
  ]

  -- Where the database does not fail and the owner that is asked for, if any, is a UUID: `List`
  -- answers the items of the rows that are not deleted and pass each part of the filter, in order
  -- and cut at the limit, and leaves the tables.
  pub list_items_lem :
      (filter : ListFilter) (t : Tables)
      → db.fault select_items_stmt t ≡ none
      → is_encodable db filter ≡ true
      → list_items db filter t ≡ (ok (map (item_of db) (chosen db filter t)), t)
  unfolding list_items select_items run
  list_items_lem filter t running encoded = ground (
    arith,
    selected_rows-chosen db filter t,
    query-encodes db filter.kind filter.owner_id filter.visibility filter.limit,
  )

  -- Every chosen row passes what the filter asks.
  pub chosen-asks :
      (filter : ListFilter) (t : Tables)
      → All (λ row. asks db filter row ≡ true) (chosen db filter t)
  chosen-asks filter t = limit_items-All _ filter.limit _ (
      sort_stable-All (row_less db) _ _
        (keep-All (asks db filter) (values (db.scan.visit ItemRow t.items))))

  asks_visible :
      (filter : ListFilter) (row : ItemRow)
      → asks db filter row ≡ true
      → (is_empty filter.visibility || (item_of db row).visibility == filter.visibility) ≡ true
  unfolding item_of
  asks_visible filter row h = ground arith

  list_items_visible :
      (filter : ListFilter) (t : Tables) (items : List Item)
      → (list_items db filter t).0 ≡ ok items
      → All (λ i. (is_empty filter.visibility || i.visibility == filter.visibility) ≡ true) items
  list_items_visible filter t items h = rw (← list_items-chosen filter t items h) (
      All-map_image _ (item_of db) (chosen db filter t)
        (All-map (asks_visible filter) (chosen db filter t) (chosen-asks filter t)))

  pub create-IsConsistent :
      (item : Item) {t : Tables} → IsConsistent t → IsConsistent (create db item t).1
  unfolding create
  create-IsConsistent item v = insert_marshalled-IsConsistent item (db.marshal item.metadata) v

  pub replace-IsConsistent :
      (item : Item) {t : Tables} → IsConsistent t → IsConsistent (replace db item t).1
  unfolding replace
  replace-IsConsistent item v = update_marshalled-IsConsistent item (db.marshal item.metadata) v

  pub remove-IsConsistent :
      (id : Text) {t : Tables} → IsConsistent t → IsConsistent (remove db id t).1
  unfolding remove
  remove-IsConsistent id {t} v = (delete_item-IsConsistent db id).at t v

  pub add_relation-IsConsistent :
      (r : Relation) {t : Tables} → IsConsistent t → IsConsistent (add_relation db r t).1
  unfolding add_relation
  add_relation-IsConsistent r {t} v = (insert_relation-IsConsistent db r).at t v

  pub find_by_id_reads : (id : Text) (t : Tables) → (find_by_id db id t).1 ≡ t
  unfolding find_by_id
  find_by_id_reads id t = (select_item-IsSelect id).at t

  pub postgres_store_laws : StoreLaws (postgres_store db)
  unfolding backlinks
  postgres_store_laws = record {
    Inv = IsConsistent;
    create_keeps = create-IsConsistent;
    replace_keeps = replace-IsConsistent;
    remove_keeps = remove-IsConsistent;
    add_relation_keeps = λ r v. add_relation-IsConsistent r v;
    create_fails = create_fails db;
    replace_fails = replace_fails db;
    remove_fails = remove_fails db;
    add_relation_fails = add_relation_fails db;
    find_reads = find_by_id_reads;
    list_reads = select_items-reads;
    list_visible = list_items_visible;
    backlinks_reads = λ id t. (select_backlinks-IsSelect id).at t;
    graph_reads = graph_from_items_reads;
  }
