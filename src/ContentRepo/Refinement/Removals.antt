-- ===== src/ContentRepo/Refinement/Removals.antt =====
-- `Delete` of the Postgres store of services/api/internal/contentrepo/postgres_content.go beside
-- that of the in-memory store.
use learning_garden_server.Prelude.{
  ◌≡◌, refl, false, not, ◌&&◌, none, some, arith, Text, text_eq, ◌==◌, text_beq_iff, keep,
  keep-same, keep-keep, All-any, ap, ◌∙◌, sym, Option-cases, Bool-cases, inl, inr, ok, err,
  not_found,
}
use learning_garden_server.Prelude.Map.{lookup, insert, delete, lookup-insert}
use learning_garden_server.Content.Types.{Item, Relation}
use learning_garden_server.Content.MemoryStore
use learning_garden_server.Content.MemoryStore.{
  MemoryStore, present, same_slot, clone_item, clone_metadata, touches, relation_key,
}
use learning_garden_server.ContentRepo.Database.{Database, ItemRow, Tables}
use learning_garden_server.ContentRepo.Database.Statement.{delete_item_stmt}
use learning_garden_server.ContentRepo.Statements.{
  is_live, live_row, put_row, delete_item, delete_found,
}
use learning_garden_server.ContentRepo.PostgresStore.{item_of, remove, affected}
use learning_garden_server.ContentRepo.Consistency.{IsConsistent, live_row_lem}
use learning_garden_server.ContentRepo.View.{ends_live, view, lookup-live_items, live_items-delete}
use learning_garden_server.ContentRepo.Refinement.{IsHealthy, run-healthy, with_uuid-canonical}

module _ (db : Database) where
  remove-found :
      (id : Text) {t : Tables}
      → IsHealthy db t
      → db.parse_uuid id ≡ some id
      → remove db id t
        ≡ (affected db (delete_found db (live_row id t) t).0, (delete_found db (live_row id t) t).1)
  unfolding remove delete_item
  remove-found id {t} healthy canonical =
      ap (λ r. (affected db r.0, r.1))
        (run-healthy db _ _ (healthy delete_item_stmt) ∙ with_uuid-canonical db _ canonical)

  memory_remove-missing :
      (id : Text) (s : MemoryStore)
      → lookup id s.items ≡ none
      → MemoryStore.remove id s ≡ (err not_found, s)
  unfolding MemoryStore.remove
  memory_remove-missing id s missing = rw missing refl

  memory_remove-found :
      (id : Text) (item : Item) (s : MemoryStore)
      → lookup id s.items ≡ some item
      → MemoryStore.remove id s ≡ (
        ok tt,
        record {
          items = delete id s.items;
          relations = keep (λ e. not (touches id e.1)) s.relations;
        },
      )
  unfolding MemoryStore.remove
  memory_remove-found id item s there = rw there refl

  -- A deleted row takes its relations out of the view.
  live_row-deleted :
      (row : ItemRow) (t : Tables) (k : Text)
      → is_live row ≡ false
      → present (live_row k (put_row row t)) ≡ (present (live_row k t) && not (k == row.id))
  live_row-deleted row t k gone = elim (Bool-cases (row.id == k)) [
    | inl same ↦
        let now : lookup k (insert row.id row t.items) ≡ some row =
          ground (arith, lookup-insert row.id k row t.items) in
        rw now (ground (arith, text_beq_iff row.id k, text_beq_iff k row.id))
    | inr apart ↦
        let now : lookup k (insert row.id row t.items) ≡ lookup k t.items =
          ground (arith, lookup-insert row.id k row t.items) in
        rw now (ground (arith, text_beq_iff row.id k, text_beq_iff k row.id))
  ]

  relations-deleted :
      (row : ItemRow) (t : Tables)
      → is_live row ≡ false
      → keep (λ e. ends_live (put_row row t) e.1) t.relations
        ≡ keep (λ e. not (touches row.id e.1)) (keep (λ e. ends_live t e.1) t.relations)
  unfolding touches
  relations-deleted row t gone =
      keep-same (λ e. ends_live (put_row row t) e.1)
        (λ e. ends_live t e.1 && not (touches row.id e.1)) t.relations
        (All-any
          (λ (e : Text × Relation).
            rw
              (live_row-deleted row t e.1.source_id gone, live_row-deleted row t e.1.target_id gone)
              (ground arith))
          t.relations)
      ∙ sym (keep-keep _ _ t.relations)

  -- `Delete`: both stores answer the same, and hold the same after it.
  pub remove-view :
      (id : Text) {t : Tables}
      → IsConsistent t
      → IsHealthy db t
      → db.parse_uuid id ≡ some id
      → ((remove db id t).0 ≡ (MemoryStore.remove id (view db t)).0)
        × (view db (remove db id t).1 ≡ (MemoryStore.remove id (view db t)).1)
  remove-view id {t} v healthy canonical =
      let read = lookup-live_items db id t.items v.nodup_items in
      rw (remove-found id healthy canonical) (elim (Option-cases (live_row id t)) [
        | inl missing ↦
            rw (missing, memory_remove-missing id (view db t) (rw read (rw missing refl)))
              (refl, refl)
        | inr (row, found) ↦
            let (there, live) = live_row_lem id row t found in
            let at : row.id ≡ id = v.row_key id row there in
            let gone : ItemRow = record row {
              deleted_at = some (db.now t);
              updated_at = db.now t;
            } in
            rw
              (found, memory_remove-found id (item_of db row) (view db t) (rw read (rw found refl)))
              (
                refl,
                rw
                    (
                      live_items-delete db row.id gone t.items refl v.nodup_items
                          (rw (at, there) refl),
                      relations-deleted gone t refl,
                      at,
                    )
                    refl,
              )
      ])
