-- ===== src/ContentRepo/Refinement/Updates.antt =====
-- `Replace` of the Postgres store of services/api/internal/contentrepo/postgres_content.go beside
-- that of the in-memory store.
use learning_garden_server.Prelude.{
  ◌≡◌, refl, true, false, not, ◌&&◌, none, some, arith, Text, text_eq, ◌==◌, text_beq, any,
  any-weaken, ap, ◌∙◌, Option-cases, Bool-cases, inl, inr, ok, err, codes, conflict, not_found,
}
use learning_garden_server.Prelude.Map.{lookup, insert}
use learning_garden_server.Content.Types.{Item}
use learning_garden_server.Content.MemoryStore
use learning_garden_server.Content.MemoryStore.{
  MemoryStore, present, same_slot, clone_item, clone_metadata, touches, relation_key,
}
use learning_garden_server.ContentRepo.{pg_error, map_content_store_error}
use learning_garden_server.ContentRepo.Database.{Database, ItemRow, Tables}
use learning_garden_server.ContentRepo.Database.Statement.{update_item_stmt}
use learning_garden_server.ContentRepo.Statements.{
  is_live, live_row, same_row_slot, put_row, known_visibility, update_row, rows, fault, update_item,
  updated_row, update_found,
}
use learning_garden_server.ContentRepo.PostgresStore.{item_of, replace, scan_content_item}
use learning_garden_server.ContentRepo.Consistency.{IsConsistent, live_row_lem}
use learning_garden_server.ContentRepo.View.{live_items, view, lookup-live_items, any-live_items}
use learning_garden_server.ContentRepo.Refinement.{
  IsHealthy, IsStorable, run-healthy, with_uuid-canonical, view-put, slot_not_deleted,
}

module _ (db : Database) where
  -- What a stored item never changes: its owner, its kind and the time of its creation.
  abbrev pub SameOrigin : Item → ItemRow → Type 0
  SameOrigin item row =
      (row.owner_id ≡ item.owner_id) × (row.kind ≡ item.kind) × (row.created_at ≡ item.created_at)

  update_item-found :
      (item : Item) {t : Tables} (h : IsStorable db item)
      → IsHealthy db t
      → update_item db item h.raw t ≡ update_found db item h.raw (live_row item.id t) t
  unfolding update_item
  update_item-found item h healthy =
      run-healthy db _ _ (healthy update_item_stmt) ∙ with_uuid-canonical db _ h.id

  replace-found :
      (item : Item) {t : Tables} (h : IsStorable db item)
      → IsHealthy db t
      → replace db item t ≡ (
        scan_content_item db (update_found db item h.raw (live_row item.id t) t).0,
        (update_found db item h.raw (live_row item.id t) t).1,
      )
  unfolding replace
  replace-found item {t} h healthy =
      rw h.marshalled (ap (λ r. (scan_content_item db r.0, r.1)) (update_item-found item h healthy))

  update_row-taken :
      (row : ItemRow) (t : Tables)
      → known_visibility row.visibility ≡ true
      → any (λ e. not (e.1.id == row.id) && same_row_slot e.1 row) t.items ≡ true
      → update_row row t ≡ (fault (pg_error (codes "23505")), t)
  unfolding update_row
  update_row-taken row t known taken = rw (known, taken) refl

  update_row-free :
      (row : ItemRow) (t : Tables)
      → known_visibility row.visibility ≡ true
      → any (λ e. not (e.1.id == row.id) && same_row_slot e.1 row) t.items ≡ false
      → update_row row t ≡ (rows row, put_row row t)
  unfolding update_row
  update_row-free row t known free = rw (known, free) refl

  memory_replace-missing :
      (item : Item) (s : MemoryStore)
      → lookup item.id s.items ≡ none
      → MemoryStore.replace item s ≡ (err not_found, s)
  unfolding MemoryStore.replace
  memory_replace-missing item s missing = rw missing refl

  memory_replace-taken :
      (item i : Item) (s : MemoryStore)
      → lookup item.id s.items ≡ some i
      → any (λ e. not (e.1.id == item.id) && same_slot e.1 item) s.items ≡ true
      → MemoryStore.replace item s ≡ (err conflict, s)
  unfolding MemoryStore.replace
  memory_replace-taken item i s there taken = rw (there, taken) refl

  memory_replace-free :
      (item i : Item) (s : MemoryStore)
      → lookup item.id s.items ≡ some i
      → any (λ e. not (e.1.id == item.id) && same_slot e.1 item) s.items ≡ false
      → MemoryStore.replace item s
        ≡ (ok (clone_item item), record s { items = insert item.id (clone_item item) s.items })
  unfolding MemoryStore.replace
  memory_replace-free item i s there free = rw (there, free) refl

  -- The item is read back from the row that it replaces.
  updated-item_of :
      (item : Item) (row : ItemRow) (h : IsStorable db item)
      → row.id ≡ item.id
      → SameOrigin item row
      → item_of db (updated_row db item h.raw row) ≡ clone_item item
  unfolding item_of clone_item
  updated-item_of item row h id (owner, kind, created) =
      rw (h.metadata, h.updated, id, owner, kind, created) refl

  -- The constraint sees the conflicts that the view has.
  update_conflicts :
      (item : Item) (t : Tables) (row : ItemRow) (raw : Text)
      → row.id ≡ item.id
      → SameOrigin item row
      → slot_not_deleted db item t ≡ true
      → any (λ e. not (e.1.id == item.id) && same_slot e.1 item) (live_items db t.items)
        ≡ any
            (λ e. not (e.1.id == row.id) && same_row_slot e.1 (updated_row db item raw row))
            t.items
  unfolding same_row_slot same_slot item_of
  update_conflicts item t row raw id (owner, kind, created) slot =
      let new = updated_row db item raw row in
      let free : any
            (λ e.
              not (is_live e.1)
              && (e.1.owner_id == item.owner_id && e.1.kind == item.kind && e.1.slug == item.slug))
            t.items
          ≡ false =
        ground arith in
      any-live_items db (λ r. not (r.id == row.id) && same_row_slot r new)
        (λ i. not (i.id == item.id) && same_slot i item) t.items (λ r. rw (id, owner, kind) refl)
        (any-weaken _ _ t.items (λ e. rw (owner, kind) (λ k. ground arith)) free)

  replace_row-view :
      (item : Item) (row : ItemRow) {t : Tables} (h : IsStorable db item)
      → IsConsistent t
      → live_row item.id t ≡ some row
      → SameOrigin item row
      → slot_not_deleted db item t ≡ true
      → (scan_content_item db (update_row (updated_row db item h.raw row) t).0
          ≡ (MemoryStore.replace item (view db t)).0)
        × (view db (update_row (updated_row db item h.raw row) t).1
            ≡ (MemoryStore.replace item (view db t)).1)
  unfolding scan_content_item map_content_store_error text_beq
  replace_row-view item row {t} h v found origin slot =
      let new = updated_row db item h.raw row in
      let (there, live) = live_row_lem item.id row t found in
      let id : row.id ≡ item.id = v.row_key item.id row there in
      let read = lookup-live_items db item.id t.items v.nodup_items in
      let viewed : lookup item.id (live_items db t.items) ≡ some (item_of db row) =
        rw read (rw found refl) in
      let conflicts = update_conflicts item t row h.raw id origin slot in
      let back = updated-item_of item row h id origin in
      elim (Bool-cases (any (λ e. not (e.1.id == row.id) && same_row_slot e.1 new) t.items)) [
        | inl taken ↦
            rw
              (
                update_row-taken new t h.visibility taken,
                memory_replace-taken item _ (view db t) viewed (conflicts ∙ taken),
              )
              (refl, refl)
        | inr free ↦
            rw
              (
                update_row-free new t h.visibility free,
                memory_replace-free item _ (view db t) viewed (conflicts ∙ free),
              )
              (
                ap ok back,
                view-put db new (clone_item item) v (rw live refl) (rw (id, there) (rw live refl))
                      back
                    ∙ ap
                        (λ k. record (view db t) {
                          items = insert k (clone_item item) (live_items db t.items);
                        })
                        id,
              )
      ]

  -- `Replace` of an item that keeps its origin: both stores answer the same, and hold the same
  -- after it.
  pub replace-view :
      (item : Item) {t : Tables}
      → IsStorable db item
      → IsConsistent t
      → IsHealthy db t
      → ((row : ItemRow) → live_row item.id t ≡ some row → SameOrigin item row)
      → slot_not_deleted db item t ≡ true
      → ((replace db item t).0 ≡ (MemoryStore.replace item (view db t)).0)
        × (view db (replace db item t).1 ≡ (MemoryStore.replace item (view db t)).1)
  unfolding same_row_slot same_slot scan_content_item map_content_store_error item_of text_beq
  replace-view item {t} h v healthy origin slot =
      let read = lookup-live_items db item.id t.items v.nodup_items in
      rw (replace-found item h healthy) (elim (Option-cases (live_row item.id t)) [
        | inl missing ↦
            rw (missing, memory_replace-missing item (view db t) (rw read (rw missing refl)))
              (refl, refl)
        | inr (row, found) ↦ rw found (replace_row-view item row h v found (origin row found) slot)
      ])
