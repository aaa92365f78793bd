-- ===== src/ContentRepo/Failures.antt =====
-- What a statement that fails, or only reads, leaves of the tables of
-- services/api/internal/contentrepo/postgres_content.go.
use learning_garden_server.Prelude.{
  ◌≡◌, refl, some, none, Option, Option-cases, inl, inr, arith, Text, text_eq, err, Error,
}
use learning_garden_server.Content.Types.{Item, Relation}
use learning_garden_server.ContentRepo.{DbError}
use learning_garden_server.ContentRepo.Database.{Database, ItemRow, Tables, Statement}
use learning_garden_server.ContentRepo.Statements.{
  Reply, rows, fault, run, with_uuid, insert_item, insert_row, update_item, update_row, delete_item,
  insert_relation, insert_related, live_row, update_found, delete_found, inserted_row,
  stored_relation,
}
use learning_garden_server.ContentRepo.PostgresStore.{
  create, replace, remove, add_relation, scan_content_item, scan_relation, affected,
}

-- The statement leaves the tables when it answers an error.
pub record IsSafe {A : Type 0} (statement : Tables → Reply A × Tables) : Type 0 where
  pub at : (t : Tables) (e : DbError) → (statement t).0 ≡ fault e → (statement t).1 ≡ t

-- The statement never changes the tables.
pub record IsSelect {A : Type 0} (statement : Tables → Reply A × Tables) : Type 0 where
  pub at : (t : Tables) → (statement t).1 ≡ t

module _ (db : Database) where
  module _ {A : Type 0} where
    IsSafe-run :
        (name : Statement) (statement : Tables → Reply A × Tables)
        → IsSafe statement
        → IsSafe (run db name statement)
    unfolding run
    IsSafe-run name statement h = record { at = λ t e failed. ground (arith, h.at t e) }

    IsSafe-with_uuid :
        (id : Option Text) (statement : Text → Tables → Reply A × Tables)
        → ((k : Text) → IsSafe (statement k))
        → IsSafe (with_uuid db id statement)
    unfolding with_uuid
    IsSafe-with_uuid none statement h = record { at = λ t e failed. refl }
    IsSafe-with_uuid (some k) statement h = h k

    pub IsSelect-run :
        (name : Statement) (statement : Tables → Reply A × Tables)
        → IsSelect statement
        → IsSelect (run db name statement)
    unfolding run
    IsSelect-run name statement h = record { at = λ t. ground (arith, h.at t) }

    pub IsSelect-with_uuid :
        (id : Option Text) (statement : Text → Tables → Reply A × Tables)
        → ((k : Text) → IsSelect (statement k))
        → IsSelect (with_uuid db id statement)
    unfolding with_uuid
    IsSelect-with_uuid none statement h = record { at = λ t. refl }
    IsSelect-with_uuid (some k) statement h = h k

  insert_row-IsSafe : (row : ItemRow) → IsSafe (insert_row row)
  unfolding insert_row
  insert_row-IsSafe row = record { at = λ t e failed. ground arith }

  update_found-IsSafe :
      (item : Item) (metadata : Text) (found : Option ItemRow) (t : Tables) (e : DbError)
      → (update_found db item metadata found t).0 ≡ fault e
      → (update_found db item metadata found t).1 ≡ t
  unfolding update_row
  update_found-IsSafe item metadata none t e h = refl
  update_found-IsSafe item metadata (some row) t e h = ground arith

  insert_related-IsSafe : (r : Relation) → IsSafe (insert_related r)
  unfolding insert_related
  insert_related-IsSafe r = record { at = λ t e failed. ground arith }

  insert_item-IsSafe : (item : Item) (metadata : Text) → IsSafe (insert_item db item metadata)
  unfolding insert_item
  insert_item-IsSafe item metadata = IsSafe-run _ _ (
      IsSafe-with_uuid _ _ (λ id.
        IsSafe-with_uuid _ _ (λ owner. insert_row-IsSafe (inserted_row db item metadata id owner))))

  update_item-IsSafe : (item : Item) (metadata : Text) → IsSafe (update_item db item metadata)
  unfolding update_item
  update_item-IsSafe item metadata = IsSafe-run _ _ (
      IsSafe-with_uuid _ _
        (λ id. record { at = λ t. update_found-IsSafe item metadata (live_row id t) t }))

  insert_relation-IsSafe : (r : Relation) → IsSafe (insert_relation db r)
  unfolding insert_relation
  insert_relation-IsSafe r = IsSafe-run _ _ (
      IsSafe-with_uuid _ _ (λ source.
        IsSafe-with_uuid _ _
          (λ target. insert_related-IsSafe (stored_relation db r source target))))

  delete_found_fails :
      (found : Option ItemRow) (t : Tables) (e : Error)
      → affected db (delete_found db found t).0 ≡ err e
      → (delete_found db found t).1 ≡ t
  delete_found_fails none t e h = refl
  delete_found_fails (some row) t e h = cc

  pub remove_fails :
      (id : Text) (t : Tables) (e : Error) → (remove db id t).0 ≡ err e → (remove db id t).1 ≡ t
  unfolding remove delete_item run with_uuid
  remove_fails id t e h = elim (Option-cases (db.parse_uuid id)) [
    | inl invalid ↦ ground arith
    | inr (k, valid) ↦ ground (arith, delete_found_fails (live_row k t) t e)
  ]

  scanned_fails :
      (reply : Reply ItemRow) (e : Error)
      → scan_content_item db reply ≡ err e
      → (c : DbError) × (reply ≡ fault c)
  unfolding scan_content_item
  scanned_fails (rows row) e h = cc
  scanned_fails (fault c) e h = (c, refl)

  pub create_fails :
      (item : Item) (t : Tables) (e : Error)
      → (create db item t).0 ≡ err e
      → (create db item t).1 ≡ t
  unfolding create
  create_fails item t e h = elim (Option-cases (db.marshal item.metadata)) [
    | inl unmarshalled ↦ rw unmarshalled refl
    | inr (metadata, marshalled) ↦
        let (c, failed) = scanned_fails (insert_item db item metadata t).0 e (cc) in
        rw marshalled ((insert_item-IsSafe item metadata).at t c failed)
  ]

  pub replace_fails :
      (item : Item) (t : Tables) (e : Error)
      → (replace db item t).0 ≡ err e
      → (replace db item t).1 ≡ t
  unfolding replace
  replace_fails item t e h = elim (Option-cases (db.marshal item.metadata)) [
    | inl unmarshalled ↦ rw unmarshalled refl
    | inr (metadata, marshalled) ↦
        let (c, failed) = scanned_fails (update_item db item metadata t).0 e cc in
        rw marshalled ((update_item-IsSafe item metadata).at t c failed)
  ]

  scanned_relation_fails :
      (reply : Reply Relation) (e : Error)
      → scan_relation db reply ≡ err e
      → (c : DbError) × (reply ≡ fault c)
  unfolding scan_relation
  scanned_relation_fails (rows r) e h = cc
  scanned_relation_fails (fault c) e h = (c, refl)

  pub add_relation_fails :
      (r : Relation) (t : Tables) (e : Error)
      → (add_relation db r t).0 ≡ err e
      → (add_relation db r t).1 ≡ t
  unfolding add_relation
  add_relation_fails r t e h =
      let (c, failed) = scanned_relation_fails (insert_relation db r t).0 e h in
      (insert_relation-IsSafe r).at t c failed
