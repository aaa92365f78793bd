-- ===== src/ContentRepo/Queries.antt =====
-- The `SELECT` statements of services/api/internal/contentrepo/postgres_content.go, each as a
-- function on the tables.
use learning_garden_server.Prelude.{
  ℕ, Bool, true, false, not, ◌&&◌, Option, none, some, List, [], ◌∷◌, map, Text, text_eq, nat_eq,
  ◌==◌, if◌then◌else◌, any, all, keep, take, text_lt, ltb,
}
use learning_garden_server.Prelude.Int.{pos_part}
use learning_garden_server.Prelude.Sort.{sort_stable}
use learning_garden_server.Content.Types.{Relation, GraphEdge, visibility_public}
use learning_garden_server.Content.MemoryStore.{present, values, collect, edge_of}
use learning_garden_server.ContentRepo.{
  no_rows, other, Column, kind_column, owner_column, visibility_column, Arg, text_arg, int_arg,
  Condition, not_deleted, equals, arg_at, equals_arg,
}
use learning_garden_server.ContentRepo.Database.{Database, ItemRow, Tables}
use learning_garden_server.ContentRepo.Database.Statement.{
  select_item_stmt, select_items_stmt, select_backlinks_stmt, select_edges_stmt,
}
use learning_garden_server.ContentRepo.Statements.{
  Reply, rows, fault, Query, run, with_uuid, live_row, is_live,
}

abbrev pub limit_arg : Option Arg → List ItemRow → List ItemRow
limit_arg (some (int_arg limit)) found = take (pos_part limit) found
limit_arg _ found = found

-- `LIMIT $n`, where there is one
abbrev pub limit_rows : List Arg → Option ℕ → List ItemRow → List ItemRow
limit_rows args none found = found
limit_rows args (some n) found = limit_arg (arg_at n args) found

module _ (db : Database) where
  abbrev pub found_row : Option ItemRow → Reply ItemRow
  found_row none = fault no_rows
  found_row (some row) = rows row

  -- `SELECT … WHERE id = $1 AND deleted_at IS NULL`
  unfoldable pub select_item : Text → Query ItemRow
  select_item id =
      run db select_item_stmt
        (with_uuid db (db.parse_uuid id) (λ k t. (found_row (live_row k t), t)))

  -- The column `owner_id` is a UUID, so its argument is read as one.
  abbrev pub equals_uuid : Text → Option Arg → Bool
  equals_uuid value (some (text_arg v)) = elim (db.parse_uuid v) [
    | none ↦ false
    | some id ↦ value == id
  ]
  equals_uuid value _ = false

  abbrev pub column_holds : List Arg → ItemRow → Column → ℕ → Bool
  column_holds args row kind_column n = equals_arg row.kind (arg_at n args)
  column_holds args row owner_column n = equals_uuid row.owner_id (arg_at n args)
  column_holds args row visibility_column n = equals_arg row.visibility (arg_at n args)

  abbrev pub row_holds : List Arg → ItemRow → Condition → Bool
  row_holds args row not_deleted = is_live row
  row_holds args row (equals column n) = column_holds args row column n

  -- Whether pgx can encode the arguments
  abbrev pub encodes_uuid : Option Arg → Bool
  encodes_uuid (some (text_arg v)) = present (db.parse_uuid v)
  encodes_uuid _ = false

  abbrev pub encodes : List Arg → Condition → Bool
  encodes args not_deleted = true
  encodes args (equals kind_column n) = true
  encodes args (equals owner_column n) = encodes_uuid (arg_at n args)
  encodes args (equals visibility_column n) = true

  -- `ORDER BY updated_at DESC, title ASC`
  unfoldable pub row_less : ItemRow → ItemRow → Bool
  row_less a b =
      if a.updated_at == b.updated_at
      then db.less a.title b.title
      else ltb b.updated_at a.updated_at

  -- The rows that pass the conditions, in order, cut at the limit.
  abbrev pub selected_rows : List Condition → List Arg → Option ℕ → Tables → List ItemRow
  selected_rows conditions args limit t =
      let found =
        keep (λ row. all (row_holds args row) conditions)
          (values (db.scan.visit ItemRow t.items)) in
      limit_rows args limit (sort_stable row_less found)

  -- `SELECT … FROM content_items WHERE … ORDER BY updated_at DESC, title ASC LIMIT …`
  unfoldable pub select_items : List Condition → List Arg → Option ℕ → Query (List ItemRow)
  unfolding row_less sort_stable
  select_items conditions args limit = run db select_items_stmt (λ t.
      if all (encodes args) conditions
      then (rows (selected_rows conditions args limit t), t)
      else (fault other, t))

  abbrev pub public_source : Relation → Option ItemRow → Option (Relation × ItemRow)
  public_source relation none = none
  public_source relation (some row) =
      if row.visibility == visibility_public then some (relation, row) else none

  -- `JOIN content_items i ON i.id = r.source_id WHERE …`
  abbrev pub joined_source : Text → Tables → Relation → Option (Relation × ItemRow)
  joined_source target t relation =
      if relation.target_id == target
      then public_source relation (live_row relation.source_id t)
      else none

  -- `SELECT … FROM content_relations r JOIN content_items i … ORDER BY …`
  unfoldable pub select_backlinks : Text → Query (List (Relation × ItemRow))
  unfolding row_less sort_stable
  select_backlinks target_id = run db select_backlinks_stmt (
      with_uuid db (db.parse_uuid target_id) (λ target t. (
        rows (
            sort_stable (λ a b. row_less a.1 b.1)
              (collect (joined_source target t) (values (db.scan.visit Relation t.relations)))),
        t,
      )))

  -- `ORDER BY source_id, target_id, relation_type`
  unfoldable pub edge_row_less : GraphEdge → GraphEdge → Bool
  edge_row_less a b =
      if not (a.source_id == b.source_id)
      then text_lt a.source_id b.source_id
      else if not (a.target_id == b.target_id)
      then text_lt a.target_id b.target_id
      else db.less a.type b.type

  -- `$1::uuid[]`
  abbrev pub uuids : List Text → Option (List Text)
  uuids [] = some []
  uuids (id ∷ ids) =
      let rest = uuids ids in
      elim (db.parse_uuid id) [
        | none ↦ none
        | some k ↦ elim rest [ none ↦ none | some ks ↦ some (k ∷ ks) ]
      ]

  abbrev pub edges_among : List Text → Tables → List GraphEdge
  edges_among ids t = map edge_of (
      keep (λ r. any (λ id. id == r.source_id) ids && any (λ id. id == r.target_id) ids)
        (values (db.scan.visit Relation t.relations)))

  abbrev pub edge_rows : Option (List Text) → Query (List GraphEdge)
  edge_rows none t = (fault other, t)
  edge_rows (some ids) t = (rows (sort_stable edge_row_less (edges_among ids t)), t)

  -- `contentGraphRelationsSQL`
  unfoldable pub select_edges : List Text → Query (List GraphEdge)
  unfolding edge_row_less sort_stable edge_of
  select_edges node_ids = run db select_edges_stmt (edge_rows (uuids node_ids))
