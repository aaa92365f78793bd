-- ===== src/ContentRepo/Refinement/Relations.antt =====
-- `AddRelation` of the Postgres store of services/api/internal/contentrepo/postgres_content.go beside
-- that of the in-memory store.
use learning_garden_server.Prelude.{
  ◌≡◌, refl, true, false, some, arith, Text, text_eq, text_beq, ap, ◌∙◌, Option-cases, Bool-cases,
  inl, inr,
}
use learning_garden_server.Prelude.Map.{lookup, insert, keep-insert}
use learning_garden_server.Content.Types.{Relation}
use learning_garden_server.Content.MemoryStore
use learning_garden_server.Content.MemoryStore.{
  MemoryStore, present, same_slot, clone_item, clone_metadata, touches, relation_key,
}
use learning_garden_server.ContentRepo.{map_content_store_error}
use learning_garden_server.ContentRepo.Database.{Database, Tables}
use learning_garden_server.ContentRepo.Database.Statement.{insert_relation_stmt}
use learning_garden_server.ContentRepo.Statements.{insert_relation, insert_related}
use learning_garden_server.ContentRepo.PostgresStore.{add_relation, scan_relation}
use learning_garden_server.ContentRepo.Consistency.{IsConsistent}
use learning_garden_server.ContentRepo.View.{
  is_dead, ends_live, live_items, view, lookup-live_items,
}
use learning_garden_server.ContentRepo.Refinement.{
  IsHealthy, run-healthy, with_uuid-canonical, live_present,
}

module _ (db : Database) where
  insert_relation-related :
      (r : Relation) {t : Tables}
      → IsHealthy db t
      → db.parse_uuid r.source_id ≡ some r.source_id
      → db.parse_uuid r.target_id ≡ some r.target_id
      → db.stored_time r.created_at ≡ r.created_at
      → insert_relation db r t ≡ insert_related r t
  unfolding insert_relation
  insert_relation-related r {t} healthy source target created =
      run-healthy db _ _ (healthy insert_relation_stmt)
      ∙ with_uuid-canonical db _ source
      ∙ with_uuid-canonical db _ target
      ∙ ap (λ time. insert_related (record r { created_at = time }) t) created

  -- Where neither end is a deleted row, both stores find the same ends.
  ends_viewed :
      (k : Text) (t : Tables)
      → IsConsistent t
      → is_dead (lookup k t.items) ≡ false
      → present (lookup k (live_items db t.items)) ≡ present (lookup k t.items)
  ends_viewed k t v h =
      rw (lookup-live_items db k t.items v.nodup_items) (elim (Option-cases (lookup k t.items)) [
        | inl missing ↦ rw missing refl
        | inr (row, there) ↦ rw there (elim (Option-cases row.deleted_at) [
          | inl live ↦ rw live refl
          | inr (time, gone) ↦ ground arith
        ])
      ])

  -- A relation between live rows is in the view.
  related_view :
      (r : Relation) (t : Tables)
      → present (lookup r.source_id t.items) ≡ true
      → present (lookup r.target_id t.items) ≡ true
      → is_dead (lookup r.source_id t.items) ≡ false
      → is_dead (lookup r.target_id t.items) ≡ false
      → ((old : Relation)
          → lookup (relation_key r) t.relations ≡ some old
          → (old.source_id ≡ r.source_id) × (old.target_id ≡ r.target_id))
      → view db (record t { relations = insert (relation_key r) r t.relations })
        ≡ record (view db t) { relations = insert (relation_key r) r (view db t).relations }
  related_view r t a b s d same =
      let both : ends_live t r ≡ true =
        rw
          (
            live_present db (lookup r.source_id t.items) a s,
            live_present db (lookup r.target_id t.items) b d,
          )
          refl in
      ap (λ rels. record (view db t) { relations = rels })
        (keep-insert (λ e. ends_live t e.1) (relation_key r) r t.relations both
          (λ o e. let (p, q) = same o e in rw (p, q) both))

  -- `AddRelation` between items that are not deleted: both stores answer the same, and hold the
  -- same after it.
  pub add_relation-view :
      (r : Relation) {t : Tables}
      → IsConsistent t
      → IsHealthy db t
      → db.parse_uuid r.source_id ≡ some r.source_id
      → db.parse_uuid r.target_id ≡ some r.target_id
      → db.stored_time r.created_at ≡ r.created_at
      → is_dead (lookup r.source_id t.items) ≡ false
      → is_dead (lookup r.target_id t.items) ≡ false
      → ((old : Relation)
          → lookup (relation_key r) t.relations ≡ some old
          → (old.source_id ≡ r.source_id) × (old.target_id ≡ r.target_id))
      → ((add_relation db r t).0 ≡ (MemoryStore.add_relation r (view db t)).0)
        × (view db (add_relation db r t).1 ≡ (MemoryStore.add_relation r (view db t)).1)
  unfolding add_relation insert_related MemoryStore.add_relation scan_relation
      map_content_store_error text_beq
  add_relation-view r {t} v healthy source target created s d same =
      let from = ends_viewed r.source_id t v s in
      let to = ends_viewed r.target_id t v d in
      let both =
        λ (a : present (lookup r.source_id t.items) ≡ true)
            (b : present (lookup r.target_id t.items) ≡ true).
          related_view r t a b s d same in
      rw (insert_relation-related r healthy source target created)
        (elim (Bool-cases (present (lookup r.source_id t.items))) [
          | inr no_source ↦ rw (no_source, from ∙ no_source) (refl, refl)
          | inl a ↦ elim (Bool-cases (present (lookup r.target_id t.items))) [
            | inr no_target ↦ rw (a, no_target, from ∙ a, to ∙ no_target) (refl, refl)
            | inl b ↦ rw (a, b, from ∙ a, to ∙ b) (refl, both a b)
          ]
        ])
