-- ===== src/ContentRepo/Selection.antt =====
-- What the statement of `List` in services/api/internal/contentrepo/postgres_content.go selects.
use learning_garden_server.Prelude.{
  ℕ, suc, ◌≡◌, refl, Bool, true, false, ◌&&◌, ◌||◌, none, some, List, [], ◌∷◌, arith, Text, text_eq,
  ◌==◌, is_empty, keep, keep-same, All-any, all, length, take, ◌+◌, ◌≤◌, ap, ◌∙◌, ◌++◌,
}
use learning_garden_server.Prelude.Int.{ℤ, pos, negsuc}
use learning_garden_server.Prelude.Sort.{StrictWeak, sort_stable}
use learning_garden_server.Content.Types.{ListFilter}
use learning_garden_server.Content.MemoryStore.{values, limit_items, present}
use learning_garden_server.ContentRepo.{
  content_filter_sql, list_query, arg_at, filter_by, limited, Filter, int_arg, Arg,
}
use learning_garden_server.ContentRepo.Database.{Database, ItemRow, Tables}
use learning_garden_server.ContentRepo.Statements.{is_live}
use learning_garden_server.ContentRepo.Queries.{
  row_holds, row_less, limit_rows, selected_rows, encodes,
}

arg_at-last : (a : Arg) (args : List Arg) → arg_at (suc (length args)) (args ++ a ∷ []) ≡ some a
unfolding arg_at
arg_at-last a [] = refl
arg_at-last a (b ∷ []) = refl
arg_at-last a (b ∷ (c ∷ args)) = arg_at-last a (c ∷ args)

take_all : {A : Type 0} (n : ℕ) (xs : List A) → length xs ≤ n → take n xs ≡ xs
take_all ℕ.zero [] h = refl
take_all (suc n) [] h = refl
take_all ℕ.zero (x ∷ xs) h = absurd (omega arith)
take_all (suc n) (x ∷ xs) h = ap (λ ys. x ∷ ys) (take_all n xs (omega arith))

-- The limit's argument is the number that the filter gives.
limit_rows-limited :
    (limit : ℤ) (filter : Filter) (found : List ItemRow)
    → limit_rows (limited limit filter).0.1 (limited limit filter).1 found ≡ limit_items limit found
unfolding limit_items
limit_rows-limited (pos n) (conditions, args) found =
    let next : length args + 1 ≡ suc (length args) = omega arith in
    rw next (ground (arith, arg_at-last (int_arg (pos n)) args, take_all n found))
limit_rows-limited (negsuc n) (conditions, args) found = ground arith

module _ (db : Database) where
  -- A field that is empty asks for nothing; an owner is compared as a UUID.
  abbrev pub asks_owner : Text → ItemRow → Bool
  asks_owner [] row = true
  asks_owner (c ∷ owner) row = elim (db.parse_uuid (c ∷ owner)) [
    | none ↦ false
    | some id ↦ row.owner_id == id
  ]

  -- What a filter asks of a row, said without the statement.
  abbrev pub asks : ListFilter → ItemRow → Bool
  asks filter row =
      is_live row
      && ((is_empty filter.kind || row.kind == filter.kind)
          && (asks_owner filter.owner_id row
              && (is_empty filter.visibility || row.visibility == filter.visibility)))

  holds_asks :
      (kind owner visibility : Text) (limit : ℤ) (row : ItemRow)
      → all
          (row_holds db (list_query (filter_by kind owner visibility limit)).0.1 row)
          (list_query (filter_by kind owner visibility limit)).0.0
        ≡ asks (filter_by kind owner visibility limit) row
  unfolding content_filter_sql list_query arg_at
  holds_asks [] [] [] limit row = ground arith
  holds_asks [] [] (e ∷ v) limit row = ground arith
  holds_asks [] (d ∷ o) [] limit row = ground arith
  holds_asks [] (d ∷ o) (e ∷ v) limit row = ground arith
  holds_asks (c ∷ k) [] [] limit row = ground arith
  holds_asks (c ∷ k) [] (e ∷ v) limit row = ground arith
  holds_asks (c ∷ k) (d ∷ o) [] limit row = ground arith
  holds_asks (c ∷ k) (d ∷ o) (e ∷ v) limit row = ground arith

  -- An owner that is asked for is a UUID.
  abbrev pub is_encodable : ListFilter → Bool
  is_encodable filter = is_empty filter.owner_id || present (db.parse_uuid filter.owner_id)

  pub query-encodes :
      (kind owner visibility : Text) (limit : ℤ)
      → all
          (encodes db (list_query (filter_by kind owner visibility limit)).0.1)
          (list_query (filter_by kind owner visibility limit)).0.0
        ≡ is_encodable (filter_by kind owner visibility limit)
  unfolding content_filter_sql list_query arg_at
  query-encodes [] [] [] limit = ground arith
  query-encodes [] [] (e ∷ v) limit = ground arith
  query-encodes [] (d ∷ o) [] limit = ground arith
  query-encodes [] (d ∷ o) (e ∷ v) limit = ground arith
  query-encodes (c ∷ k) [] [] limit = ground arith
  query-encodes (c ∷ k) [] (e ∷ v) limit = ground arith
  query-encodes (c ∷ k) (d ∷ o) [] limit = ground arith
  query-encodes (c ∷ k) (d ∷ o) (e ∷ v) limit = ground arith

  row_less-StrictWeak : StrictWeak db.less → StrictWeak (row_less db)
  unfolding row_less
  row_less-StrictWeak order = record {
    asymm = λ a b h. ground (arith, order.asymm a.title b.title);
    neg_trans = λ a b c h k. ground (arith, order.neg_trans a.title b.title c.title);
  }

  -- What `List` selects, said without the statement.
  abbrev pub chosen : ListFilter → Tables → List ItemRow
  chosen filter t =
      limit_items filter.limit
        (sort_stable (row_less db) (keep (asks filter) (values (db.scan.visit ItemRow t.items))))

  pub selected_rows-chosen :
      (filter : ListFilter) (t : Tables)
      → selected_rows db (list_query filter).0.0 (list_query filter).0.1 (list_query filter).1 t
        ≡ chosen filter t
  unfolding list_query
  selected_rows-chosen filter t =
      limit_rows-limited filter.limit (content_filter_sql filter) _
      ∙ ap (λ found. limit_items filter.limit (sort_stable (row_less db) found))
          (keep-same _ _ (values (db.scan.visit ItemRow t.items)) (
            All-any
              (λ row. holds_asks filter.kind filter.owner_id filter.visibility filter.limit row)
              (values (db.scan.visit ItemRow t.items))))
