-- ===== src/ContentRepo/Statements.antt =====
-- The writing SQL statements of services/api/internal/contentrepo/postgres_content.go, each as a
-- function on the tables: what it answers, and the tables after it.
use learning_garden_server.Prelude.{
  ℕ, Bool, not, ◌&&◌, ◌||◌, Option, none, some, Text, codes, text_eq, nat_eq, ◌==◌, if◌then◌else◌,
  any,
}
use learning_garden_server.Prelude.Map.{lookup, insert}
use learning_garden_server.Content.Types.{Item, Relation}
use learning_garden_server.Content.MemoryStore.{present, relation_key}
use learning_garden_server.ContentRepo.{DbError, no_rows, pg_error, other}
use learning_garden_server.ContentRepo.Database.{Database, ItemRow, Tables, Statement}
use learning_garden_server.ContentRepo.Database.Statement.{
  insert_item_stmt, update_item_stmt, delete_item_stmt, insert_relation_stmt,
}

-- What a statement answers: its rows, or an error.
pub data Reply {ℓ} (A : Type ℓ) : Type ℓ where
  rows : A → Reply A
  fault : DbError → Reply A

abbrev pub Query : Type 0 → Type 0
Query A = Tables → Reply A × Tables

-- The checks of the columns `kind` and `visibility`
abbrev pub known_kind : Text → Bool
known_kind kind =
    kind == codes "track"
    || kind == codes "note"
    || kind == codes "paper"
    || kind == codes "experiment"

abbrev pub known_visibility : Text → Bool
known_visibility visibility =
    visibility == codes "private" || visibility == codes "public" || visibility == codes "unlisted"

-- `UNIQUE (owner_id, kind, slug)`, which a deleted row takes part in.
unfoldable pub same_row_slot : ItemRow → ItemRow → Bool
same_row_slot existing row =
    existing.owner_id == row.owner_id && existing.kind == row.kind && existing.slug == row.slug

abbrev pub not_deleted_row : Option ItemRow → Option ItemRow
not_deleted_row none = none
not_deleted_row (some row) = elim row.deleted_at [ none ↦ some row | some time ↦ none ]

-- The row that `WHERE id = $1 AND deleted_at IS NULL` selects.
abbrev pub live_row : Text → Tables → Option ItemRow
live_row id t = not_deleted_row (lookup id t.items)

abbrev pub put_row : ItemRow → Tables → Tables
put_row row t = record t { items = insert row.id row t.items }

-- The constraints of the table at an inserted row, in the order in which they are tested.
unfoldable pub insert_row : ItemRow → Query ItemRow
insert_row row t =
    if not (known_kind row.kind && known_visibility row.visibility)
    then (fault (pg_error (codes "23514")), t)
    else if present (lookup row.id t.items)
    then (fault (pg_error (codes "23505")), t)
    else if any (λ e. same_row_slot e.1 row) t.items
    then (fault (pg_error (codes "23505")), t)
    else if not (any (λ u. u == row.owner_id) t.users)
    then (fault (pg_error (codes "23503")), t)
    else (rows row, put_row row t)

unfoldable pub update_row : ItemRow → Query ItemRow
update_row row t =
    if not (known_visibility row.visibility)
    then (fault (pg_error (codes "23514")), t)
    else if any (λ e. not (e.1.id == row.id) && same_row_slot e.1 row) t.items
    then (fault (pg_error (codes "23505")), t)
    else (rows row, put_row row t)

-- Both ends must be rows, deleted or not; the ends of a stored relation are.
unfoldable pub insert_related : Relation → Query Relation
unfolding relation_key
insert_related relation t =
    if not
      (present (lookup relation.source_id t.items) && present (lookup relation.target_id t.items))
    then (fault (pg_error (codes "23503")), t)
    else (
      rows relation,
      record t { relations = insert (relation_key relation) relation t.relations },
    )

abbrev pub is_live : ItemRow → Bool
is_live row = not (present row.deleted_at)

module _ (db : Database) where
  -- A statement that fails outside the tables has no effect.
  unfoldable pub run {ℓ} :
      {A : Type ℓ} → Statement → (Tables → Reply A × Tables) → Tables → Reply A × Tables
  run name statement t = elim (db.fault name t) [ none ↦ statement t | some e ↦ (fault e, t) ]

  -- A text that pgx cannot encode as a UUID is an error before the statement is sent.
  unfoldable pub with_uuid {ℓ} :
      {A : Type ℓ} → Option Text → (Text → Tables → Reply A × Tables) → Tables → Reply A × Tables
  with_uuid none statement t = (fault other, t)
  with_uuid (some id) statement t = statement id t

  abbrev pub inserted_row : Item → (metadata id owner : Text) → ItemRow
  inserted_row item metadata id owner = record {
    id = id;
    owner_id = owner;
    kind = item.kind;
    title = item.title;
    slug = item.slug;
    summary = item.summary;
    body = item.body;
    visibility = item.visibility;
    status = item.status;
    metadata = db.jsonb metadata;
    created_at = db.stored_time item.created_at;
    updated_at = db.stored_time item.updated_at;
    deleted_at = none;
  }

  -- `INSERT INTO content_items … RETURNING …`
  unfoldable pub insert_item : Item → (metadata : Text) → Query ItemRow
  unfolding insert_row
  insert_item item metadata = run insert_item_stmt (
      with_uuid (db.parse_uuid item.id) (λ id.
        with_uuid (db.parse_uuid item.owner_id)
          (λ owner. insert_row (inserted_row item metadata id owner))))

  abbrev pub updated_row : Item → (metadata : Text) → ItemRow → ItemRow
  updated_row item metadata row = record row {
    title = item.title;
    slug = item.slug;
    summary = item.summary;
    body = item.body;
    visibility = item.visibility;
    status = item.status;
    metadata = db.jsonb metadata;
    updated_at = db.stored_time item.updated_at;
  }

  abbrev pub update_found : Item → (metadata : Text) → Option ItemRow → Query ItemRow
  update_found item metadata none t = (fault no_rows, t)
  update_found item metadata (some row) t = update_row (updated_row item metadata row) t

  -- `UPDATE content_items SET title = $2, … WHERE id = $1 AND deleted_at IS NULL RETURNING …`
  unfoldable pub update_item : Item → (metadata : Text) → Query ItemRow
  unfolding update_row
  update_item item metadata =
      run update_item_stmt
        (with_uuid (db.parse_uuid item.id) (λ id t. update_found item metadata (live_row id t) t))

  abbrev pub delete_found : Option ItemRow → Query ℕ
  delete_found none t = (rows 0, t)
  delete_found (some row) t =
      (rows 1, put_row (record row { deleted_at = some (db.now t); updated_at = db.now t }) t)

  -- `UPDATE content_items SET deleted_at = now(), updated_at = now() WHERE …`: how many rows
  unfoldable pub delete_item : Text → Query ℕ
  delete_item id =
      run delete_item_stmt (with_uuid (db.parse_uuid id) (λ k t. delete_found (live_row k t) t))

  abbrev pub stored_relation : Relation → (source target : Text) → Relation
  stored_relation relation source target = record {
    source_id = source;
    target_id = target;
    type = relation.type;
    created_at = db.stored_time relation.created_at;
  }

  -- `INSERT INTO content_relations … ON CONFLICT … DO UPDATE SET created_at = EXCLUDED.created_at`
  unfoldable pub insert_relation : Relation → Query Relation
  unfolding insert_related
  insert_relation relation = run insert_relation_stmt (
      with_uuid (db.parse_uuid relation.source_id) (λ source.
        with_uuid (db.parse_uuid relation.target_id)
          (λ target. insert_related (stored_relation relation source target))))
