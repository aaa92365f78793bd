-- ===== src/ContentRepo/Refinement.antt =====
-- The Postgres store of services/api/internal/contentrepo/postgres_content.go does what the
-- in-memory store of services/api/internal/content/store_memory.go does, on what is not deleted.
pub mod Updates
pub mod Removals
pub mod Relations
pub mod Runs
use learning_garden_server.Prelude.{
  ◌≡◌, refl, Bool, true, false, not, ◌&&◌, ◌||◌, Option, none, some, List, [], ◌∷◌, arith, Text,
  text_eq, ◌==◌, text_beq, text_beq_iff, any, keep, keep-same, keep-keep, All, All-map, All-any,
  if◌then◌else◌, ap, ◌∙◌, sym, Option-cases, Bool-cases, inl, inr, Result, ok, err, codes, conflict,
  not_found,
}
use learning_garden_server.Prelude.Map.{
  Map, lookup, insert, delete, NodupKeys, lookup-insert, entries_found,
}
use learning_garden_server.Content.Types.{Item, Relation}
use learning_garden_server.Content.MemoryStore
use learning_garden_server.Content.MemoryStore.{
  MemoryStore, present, same_slot, clone_item, clone_metadata, touches,
}
use learning_garden_server.ContentRepo.{DbError, pg_error, map_content_store_error}
use learning_garden_server.ContentRepo.Database.{Database, ItemRow, Tables, Statement}
use learning_garden_server.ContentRepo.Database.Statement.{
  select_item_stmt, insert_item_stmt, update_item_stmt, delete_item_stmt, insert_relation_stmt,
}
use learning_garden_server.ContentRepo.Statements.{
  is_live, live_row, not_deleted_row, same_row_slot, put_row, known_kind, known_visibility, run,
  with_uuid, insert_row, update_row, Reply, rows, fault, insert_item, update_item, delete_item,
  insert_relation, insert_related, inserted_row, updated_row,
}
use learning_garden_server.ContentRepo.Queries.{select_item}
use learning_garden_server.ContentRepo.PostgresStore.{
  item_of, decode_metadata, create, replace, remove, find_by_id, add_relation, scan_content_item,
}
use learning_garden_server.ContentRepo.Consistency.{IsConsistent, live_row_lem}
use learning_garden_server.ContentRepo.View.{
  is_dead, ends_live, live_items, view, lookup-live_items, live_items-insert, live_items-delete,
  any-live_items, clone_item-item_of,
}

module _ (db : Database) where
  -- No statement fails for a reason outside the tables.
  abbrev pub IsHealthy : Tables → Type 0
  IsHealthy t = (name : Statement) → db.fault name t ≡ none

  -- The database gives the item back as it was: its ids are in their canonical form, its times
  -- have no more digits than the database stores, and its metadata survives JSON.
  pub record IsStorable (item : Item) : Type 0 where
    pub raw : Text
    pub id : db.parse_uuid item.id ≡ some item.id
    pub owner : db.parse_uuid item.owner_id ≡ some item.owner_id
    pub kind : known_kind item.kind ≡ true
    pub visibility : known_visibility item.visibility ≡ true
    pub marshalled : db.marshal item.metadata ≡ some raw
    pub metadata : decode_metadata db (db.jsonb raw) ≡ clone_metadata item.metadata
    pub created : db.stored_time item.created_at ≡ item.created_at
    pub updated : db.stored_time item.updated_at ≡ item.updated_at

  -- No deleted row has the item's owner, kind and slug.
  abbrev pub slot_not_deleted : Item → Tables → Bool
  slot_not_deleted item t = not (
      any
        (λ e.
          not (is_live e.1)
          && (e.1.owner_id == item.owner_id && e.1.kind == item.kind && e.1.slug == item.slug))
        t.items)

  module _ {A : Type 0} where
    pub run-healthy :
        (name : Statement) (statement : Tables → Reply A × Tables) {t : Tables}
        → db.fault name t ≡ none
        → run db name statement t ≡ statement t
    unfolding run
    run-healthy name statement h = ground (arith, h)

    pub with_uuid-canonical :
        {parsed : Option Text} {id : Text} (statement : Text → Tables → Reply A × Tables)
        {t : Tables}
        → parsed ≡ some id
        → with_uuid db parsed statement t ≡ statement id t
    unfolding with_uuid
    with_uuid-canonical statement h = ground (arith, h)

  pub find_by_id-view :
      (id : Text) {t : Tables}
      → IsConsistent t
      → IsHealthy t
      → db.parse_uuid id ≡ some id
      → (find_by_id db id t).0 ≡ (MemoryStore.find_by_id id (view db t)).0
  unfolding find_by_id select_item run with_uuid scan_content_item MemoryStore.find_by_id
      map_content_store_error
  find_by_id-view id {t} v healthy canonical = elim (Option-cases (live_row id t)) [
    | inl missing ↦
        ground (arith, healthy select_item_stmt, lookup-live_items db id t.items v.nodup_items)
    | inr (row, found) ↦ ground (
      arith,
      healthy select_item_stmt,
      lookup-live_items db id t.items v.nodup_items,
      clone_item-item_of db row,
    )
  ]

  -- The item is read back from its row.
  inserted-item_of :
      (item : Item) (h : IsStorable item)
      → item_of db (inserted_row db item h.raw item.id item.owner_id) ≡ clone_item item
  unfolding item_of clone_item
  inserted-item_of item h = rw (h.metadata, h.created, h.updated) refl

  pub live_present :
      (found : Option ItemRow)
      → present found ≡ true
      → is_dead found ≡ false
      → present (not_deleted_row found) ≡ true
  live_present none p h = cc
  live_present (some row) p h = elim (Option-cases row.deleted_at) [
    | inl here ↦ ground arith
    | inr (time, gone) ↦ ground arith
  ]

  -- Writing a live row where no deleted one stands changes no row's liveness but its own.
  live_row-put :
      (row : ItemRow) (t : Tables) (k : Text)
      → is_live row ≡ true
      → is_dead (lookup row.id t.items) ≡ false
      → present (lookup k t.items) ≡ true
      → present (live_row k (put_row row t)) ≡ present (live_row k t)
  live_row-put row t k live h p = elim (Bool-cases (row.id == k)) [
    | inr apart ↦ ground (arith, lookup-insert row.id k row t.items)
    | inl same ↦
        let at : row.id ≡ k = ground (arith, text_beq_iff row.id k) in
        let still : is_dead (lookup k t.items) ≡ false = rw (← at) h in
        let before = live_present (lookup k t.items) p still in
        let now : lookup k (insert row.id row t.items) ≡ some row =
          ground (arith, lookup-insert row.id k row t.items) in
        let after = live_present (some row) refl (ground arith) in rw (now, before) after
  ]

  relations_put :
      (row : ItemRow) {t : Tables}
      → IsConsistent t
      → is_live row ≡ true
      → is_dead (lookup row.id t.items) ≡ false
      → (view db (put_row row t)).relations ≡ (view db t).relations
  relations_put row {t} v live h = keep-same _ _ t.relations (
      All-map {A = Text × Relation} {Q = λ e. ends_live (put_row row t) e.1 ≡ ends_live t e.1}
        (λ (e : Text × Relation) found.
          rw
            (
              live_row-put row t e.1.source_id live h (v.source e.0 e.1 found),
              live_row-put row t e.1.target_id live h (v.target e.0 e.1 found),
            )
            refl)
        t.relations (entries_found t.relations v.nodup_relations))

  pub view-put :
      (row : ItemRow) (item : Item) {t : Tables}
      → IsConsistent t
      → is_live row ≡ true
      → is_dead (lookup row.id t.items) ≡ false
      → item_of db row ≡ item
      → view db (put_row row t)
        ≡ record (view db t) { items = insert row.id item (live_items db t.items) }
  view-put row item {t} v live h same =
      rw (relations_put row v live h, live_items-insert db row.id row t.items live h, same) refl

  abbrev pub row_for : (item : Item) → IsStorable item → ItemRow
  row_for item h = inserted_row db item h.raw item.id item.owner_id

  pub insert_item-row :
      (item : Item) {t : Tables} (h : IsStorable item)
      → IsHealthy t
      → insert_item db item h.raw t ≡ insert_row (row_for item h) t
  unfolding insert_item
  insert_item-row item {t} h healthy =
      run-healthy _ _ (healthy insert_item_stmt)
      ∙ with_uuid-canonical _ h.id
      ∙ with_uuid-canonical _ h.owner

  insert_row-taken :
      (row : ItemRow) (t : Tables)
      → (known_kind row.kind && known_visibility row.visibility) ≡ true
      → any (λ e. same_row_slot e.1 row) t.items ≡ true
      → insert_row row t ≡ (fault (pg_error (codes "23505")), t)
  unfolding insert_row
  insert_row-taken row t known taken = rw (known, taken) (ground arith)

  insert_row-free :
      (row : ItemRow) (t : Tables)
      → (known_kind row.kind && known_visibility row.visibility) ≡ true
      → lookup row.id t.items ≡ none
      → any (λ e. same_row_slot e.1 row) t.items ≡ false
      → any (λ u. u == row.owner_id) t.users ≡ true
      → insert_row row t ≡ (rows row, put_row row t)
  unfolding insert_row
  insert_row-free row t known fresh free owner = rw (known, fresh, free, owner) refl

  create-taken :
      (item : Item) (s : MemoryStore)
      → any (λ e. same_slot e.1 item) s.items ≡ true
      → MemoryStore.create item s ≡ (err conflict, s)
  unfolding MemoryStore.create
  create-taken item s taken = rw taken refl

  create-free :
      (item : Item) (s : MemoryStore)
      → any (λ e. same_slot e.1 item) s.items ≡ false
      → MemoryStore.create item s
        ≡ (ok (clone_item item), record s { items = insert item.id (clone_item item) s.items })
  unfolding MemoryStore.create
  create-free item s free = rw free refl

  create-runs :
      (item : Item) {t : Tables} (h : IsStorable item)
      → IsHealthy t
      → create db item t ≡ (
        scan_content_item db (insert_row (row_for item h) t).0,
        (insert_row (row_for item h) t).1,
      )
  unfolding create
  create-runs item {t} h healthy =
      rw h.marshalled (ap (λ r. (scan_content_item db r.0, r.1)) (insert_item-row item h healthy))

  -- `Create` of a new item: both stores answer the same, and hold the same after it.
  pub create-view :
      (item : Item) {t : Tables} (h : IsStorable item)
      → IsConsistent t
      → IsHealthy t
      → any (λ u. u == item.owner_id) t.users ≡ true
      → lookup item.id t.items ≡ none
      → slot_not_deleted item t ≡ true
      → ((create db item t).0 ≡ (MemoryStore.create item (view db t)).0)
        × (view db (create db item t).1 ≡ (MemoryStore.create item (view db t)).1)
  unfolding same_row_slot same_slot scan_content_item map_content_store_error item_of text_beq
  create-view item {t} h v healthy owner fresh slot =
      let row = row_for item h in
      let known : (known_kind item.kind && known_visibility item.visibility) ≡ true =
        rw (h.kind, h.visibility) refl in
      let conflicts : any (λ e. same_slot e.1 item) (live_items db t.items)
          ≡ any (λ e. same_row_slot e.1 row) t.items =
        any-live_items db (λ r. same_row_slot r row) (λ i. same_slot i item) t.items (λ r. refl)
          (ground arith) in
      rw (create-runs item h healthy)
        (elim (Bool-cases (any (λ e. same_row_slot e.1 row) t.items)) [
          | inl taken ↦
              rw
                (
                  insert_row-taken row t known taken,
                  create-taken item (view db t) (conflicts ∙ taken),
                )
                (refl, refl)
          | inr free ↦
              rw
                (
                  insert_row-free row t known fresh free owner,
                  create-free item (view db t) (conflicts ∙ free),
                )
                (
                  ap ok (inserted-item_of item h),
                  view-put row (clone_item item) v refl (rw fresh refl) (inserted-item_of item h),
                )
        ])
