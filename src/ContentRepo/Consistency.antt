-- ===== src/ContentRepo/Consistency.antt =====
-- What the statements of services/api/internal/contentrepo/postgres_content.go keep of the tables.
use learning_garden_server.Prelude.{
  ◌≡◌, true, false, not, ◌&&◌, Option, none, some, arith, Text, text_eq, ◌==◌, Bool-cases,
  Option-cases, inl, inr, text_beq_iff, any, if◌then◌else◌,
}
use learning_garden_server.Prelude.Map.{
  Map, lookup, insert, NodupKeys, lookup-insert, insert-NodupKeys, any-lookup,
}
use learning_garden_server.Content.Types.{Item, Relation}
use learning_garden_server.Content.MemoryStore.{present, relation_key}
use learning_garden_server.ContentRepo.Database.{Database, ItemRow, Tables, Statement}
use learning_garden_server.ContentRepo.Statements.{
  same_row_slot, insert_row, update_row, insert_related, put_row, live_row, insert_item,
  update_item, delete_item, insert_relation, inserted_row, updated_row, update_found, delete_found,
  stored_relation, Reply, run, with_uuid,
}

-- A row stands under its id, no two rows share owner, kind and slug, deleted ones included, and
-- both ends of a relation are rows, deleted or not.
pub record IsConsistent (t : Tables) : Type 0 where
  pub nodup_items : NodupKeys t.items
  pub row_key : (k : Text) (row : ItemRow) → lookup k t.items ≡ some row → row.id ≡ k
  pub unique :
      (j k : Text) (a b : ItemRow)
      → lookup j t.items ≡ some a
      → lookup k t.items ≡ some b
      → same_row_slot a b ≡ true
      → j ≡ k
  pub nodup_relations : NodupKeys t.relations
  pub source :
      (k : Text) (r : Relation)
      → lookup k t.relations ≡ some r
      → present (lookup r.source_id t.items) ≡ true
  pub target :
      (k : Text) (r : Relation)
      → lookup k t.relations ≡ some r
      → present (lookup r.target_id t.items) ≡ true

-- Every run of the statement keeps `P`, whatever it answers.
pub record Preserves {A : Type 0} (P : Tables → Type 0) (statement : Tables → Reply A × Tables)
    : Type 0 where
  pub at : (t : Tables) → P t → P (statement t).1

same_row_slot_comm : (a b : ItemRow) → same_row_slot a b ≡ same_row_slot b a
unfolding same_row_slot
same_row_slot_comm a b = ground (
  arith,
  text_beq_iff a.owner_id b.owner_id,
  text_beq_iff b.owner_id a.owner_id,
  text_beq_iff a.kind b.kind,
  text_beq_iff b.kind a.kind,
  text_beq_iff a.slug b.slug,
  text_beq_iff b.slug a.slug,
)

-- A row whose slot no other row has may be written.
module _ (row : ItemRow) {t : Tables} (v : IsConsistent t)
    (free : (k : Text) (r : ItemRow)
      → lookup k t.items ≡ some r
      → same_row_slot r row ≡ true
      → k ≡ row.id) where
  abbrev written : Map ItemRow
  written = insert row.id row t.items

  lookup-written :
      (k : Text) → lookup k written ≡ (if row.id == k then some row else lookup k t.items)
  lookup-written k = lookup-insert row.id k row t.items

  written_unique :
      (j k : Text) (a b : ItemRow)
      → lookup j written ≡ some a
      → lookup k written ≡ some b
      → same_row_slot a b ≡ true
      → j ≡ k
  written_unique j k a b e f h = ground (
    arith,
    lookup-written j,
    lookup-written k,
    text_beq_iff row.id j,
    text_beq_iff row.id k,
    v.unique j k a b,
    free j a,
    free k b,
    same_row_slot_comm a b,
    same_row_slot_comm row b,
  )

  written-present :
      (k : Text) → present (lookup k t.items) ≡ true → present (lookup k written) ≡ true
  written-present k h = ground (arith, lookup-written k)

  put_row-IsConsistent : IsConsistent (put_row row t)
  put_row-IsConsistent = record {
    nodup_items = insert-NodupKeys row.id row t.items v.nodup_items;
    row_key = λ k r e. ground (arith, lookup-written k, text_beq_iff row.id k, v.row_key k r);
    unique = written_unique;
    nodup_relations = v.nodup_relations;
    source = λ k r e. written-present r.source_id (v.source k r e);
    target = λ k r e. written-present r.target_id (v.target k r e);
  }

slot_free :
    (row : ItemRow) (t : Tables)
    → any (λ e. same_row_slot e.1 row) t.items ≡ false
    → (k : Text) (r : ItemRow) → lookup k t.items ≡ some r
    → same_row_slot r row ≡ true
    → k ≡ row.id
slot_free row t h k r e f = cc (any-lookup (λ x. same_row_slot x.1 row) k r t.items h e)

insert_row-IsConsistent :
    (row : ItemRow) {t : Tables} → IsConsistent t → IsConsistent (insert_row row t).1
unfolding insert_row
insert_row-IsConsistent row {t} v = elim (Bool-cases (any (λ e. same_row_slot e.1 row) t.items)) [
  | inl taken ↦ ground (arith, taken)
  | inr fresh ↦ ground (arith, put_row-IsConsistent row v (slot_free row t fresh))
]

other_slot_free :
    (row : ItemRow) {t : Tables}
    → IsConsistent t
    → any (λ e. not (e.1.id == row.id) && same_row_slot e.1 row) t.items ≡ false
    → (k : Text) (r : ItemRow) → lookup k t.items ≡ some r
    → same_row_slot r row ≡ true
    → k ≡ row.id
other_slot_free row {t} v h k r e f = ground (
  arith,
  any-lookup (λ x. not (x.1.id == row.id) && same_row_slot x.1 row) k r t.items h e,
  text_beq_iff r.id row.id,
  v.row_key k r e,
)

update_row-IsConsistent :
    (row : ItemRow) {t : Tables} → IsConsistent t → IsConsistent (update_row row t).1
unfolding update_row
update_row-IsConsistent row {t} v =
    elim (Bool-cases (any (λ e. not (e.1.id == row.id) && same_row_slot e.1 row) t.items)) [
      | inl taken ↦ ground (arith, taken)
      | inr fresh ↦ ground (arith, put_row-IsConsistent row v (other_slot_free row v fresh))
    ]

pub live_row_lem :
    (k : Text) (row : ItemRow) (t : Tables)
    → live_row k t ≡ some row
    → (lookup k t.items ≡ some row) × (row.deleted_at ≡ none)
live_row_lem k row t h = elim (Option-cases (lookup k t.items)) [
  | inl missing ↦ ground arith
  | inr (r, found) ↦ elim (Option-cases r.deleted_at) [
    | inl live ↦ ground arith
    | inr (time, gone) ↦ ground arith
  ]
]

insert_related-IsConsistent :
    (r : Relation) {t : Tables} → IsConsistent t → IsConsistent (insert_related r t).1
unfolding insert_related
insert_related-IsConsistent r {t} v =
    elim (Bool-cases
      (present (lookup r.source_id t.items) && present (lookup r.target_id t.items))) [
        | inr missing ↦ rw missing v
        | inl there ↦ rw there (
            let at = λ (k : Text). lookup-insert (relation_key r) k r t.relations in
            record {
              nodup_items = v.nodup_items;
              row_key = v.row_key;
              unique = v.unique;
              nodup_relations = insert-NodupKeys (relation_key r) r t.relations v.nodup_relations;
              source = λ k x e. ground (arith, at k, v.source k x);
              target = λ k x e. ground (arith, at k, v.target k x);
            })
      ]

module _ (db : Database) where
  delete_found-IsConsistent :
      (k : Text) {t : Tables} → IsConsistent t → IsConsistent (delete_found db (live_row k t) t).1
  unfolding same_row_slot
  delete_found-IsConsistent k {t} v = elim (Option-cases (live_row k t)) [
    | inl missing ↦ rw missing v
    | inr (row, found) ↦
        let (there, live) = live_row_lem k row t found in
        rw found (
          put_row-IsConsistent (record row { deleted_at = some (db.now t); updated_at = db.now t })
            v (λ j r e h. v.unique j row.id r row e (cc (v.row_key k row there)) h))
  ]

  -- What a statement keeps it also keeps under a fault and with a text that is no UUID.
  module _ {A : Type 0} (P : Tables → Type 0) where
    Preserves-run :
        (name : Statement) (statement : Tables → Reply A × Tables)
        → Preserves P statement
        → Preserves P (run db name statement)
    unfolding run
    Preserves-run name statement h = record { at = λ t before. ground (arith, h.at t before) }

    Preserves-with_uuid :
        (id : Option Text) (statement : Text → Tables → Reply A × Tables)
        → ((k : Text) → Preserves P (statement k))
        → Preserves P (with_uuid db id statement)
    unfolding with_uuid
    Preserves-with_uuid none statement h = record { at = λ t before. before }
    Preserves-with_uuid (some k) statement h = h k

  pub insert_item-IsConsistent :
      (item : Item) (metadata : Text) → Preserves IsConsistent (insert_item db item metadata)
  unfolding insert_item
  insert_item-IsConsistent item metadata = Preserves-run IsConsistent _ _ (
      Preserves-with_uuid IsConsistent _ _ (λ id. Preserves-with_uuid IsConsistent _ _ (λ owner.
        record { at = λ t. insert_row-IsConsistent (inserted_row db item metadata id owner) })))

  update_found-IsConsistent :
      (item : Item) (metadata : Text) (found : Option ItemRow) {t : Tables}
      → IsConsistent t
      → IsConsistent (update_found db item metadata found t).1
  update_found-IsConsistent item metadata none v = v
  update_found-IsConsistent item metadata (some row) v =
      update_row-IsConsistent (updated_row db item metadata row) v

  pub update_item-IsConsistent :
      (item : Item) (metadata : Text) → Preserves IsConsistent (update_item db item metadata)
  unfolding update_item
  update_item-IsConsistent item metadata = Preserves-run IsConsistent _ _ (
      Preserves-with_uuid IsConsistent _ _
        (λ id. record { at = λ t. update_found-IsConsistent item metadata (live_row id t) }))

  pub delete_item-IsConsistent : (id : Text) → Preserves IsConsistent (delete_item db id)
  unfolding delete_item
  delete_item-IsConsistent id =
      Preserves-run IsConsistent _ _ (
        Preserves-with_uuid IsConsistent _ _
          (λ k. record { at = λ t. delete_found-IsConsistent k }))

  pub insert_relation-IsConsistent : (r : Relation) → Preserves IsConsistent (insert_relation db r)
  unfolding insert_relation
  insert_relation-IsConsistent r = Preserves-run IsConsistent _ _ (
      Preserves-with_uuid IsConsistent _ _ (λ source.
        Preserves-with_uuid IsConsistent _ _ (λ target. record {
          at = λ t. insert_related-IsConsistent (stored_relation db r source target);
        })))
