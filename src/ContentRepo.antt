-- ===== src/ContentRepo.antt =====
-- Two parts of services/api/internal/contentrepo/postgres_content.go that only compute: the filter of
-- `List` with its numbered arguments, and the mapping of database errors. A condition of the
-- statement is data, with the number of its argument.
pub mod Database
pub mod Statements
pub mod Queries
pub mod PostgresStore
pub mod Consistency
pub mod Selection
pub mod Failures
pub mod Laws
pub mod View
pub mod Refinement
mod Tests
use learning_garden_server.Prelude.{
  ℕ, suc, ◌+◌, ◌≡◌, Bool, true, false, Option, none, some, List, [], ◌∷◌, ◌++◌, Text, codes,
  text_eq, ◌==◌, is_empty, length, all, if◌then◌else◌, arith, Error, not_found, conflict, failure,
}
use learning_garden_server.Prelude.Int.{ℤ, pos, ltb_ℤ}
use learning_garden_server.Content.Types.{Item, ListFilter}
use learning_garden_server.Content.MemoryStore.{matches_filter}

pub data Column : Type 0 where
  kind_column owner_column visibility_column : Column

pub data Arg : Type 0 where
  text_arg : Text → Arg
  int_arg : ℤ → Arg

-- `deleted_at IS NULL`, or `column = $n`
pub data Condition : Type 0 where
  not_deleted : Condition
  equals : Column → ℕ → Condition

abbrev pub Filter : Type 0
Filter = List Condition × List Arg

-- `if value != "" { args = append(…); conditions = append(…) }`
abbrev add_condition : Column → Text → Filter → Filter
add_condition column value (conditions, args) =
    if is_empty value
    then (conditions, args)
    else (conditions ++ equals column (length args + 1) ∷ [], args ++ text_arg value ∷ [])

unfoldable pub content_filter_sql : ListFilter → Filter
content_filter_sql filter =
    let start : Filter = (not_deleted ∷ [], []) in
    let by_kind = add_condition kind_column filter.kind start in
    let by_owner = add_condition owner_column filter.owner_id by_kind in
    add_condition visibility_column filter.visibility by_owner

-- The arguments of `List`, and the number of the limit's if there is one.
abbrev pub limited : ℤ → Filter → Filter × Option ℕ
limited limit (conditions, args) =
    if ltb_ℤ (pos 0) limit
    then ((conditions, args ++ int_arg limit ∷ []), some (length args + 1))
    else ((conditions, args), none)

unfoldable pub list_query : ListFilter → Filter × Option ℕ
unfolding content_filter_sql
list_query filter = limited filter.limit (content_filter_sql filter)

-- `$n`, where the arguments are numbered from one.
unfoldable pub arg_at : ℕ → List Arg → Option Arg
arg_at (suc (suc n)) (a ∷ args) = arg_at (suc n) args
arg_at (suc ℕ.zero) (a ∷ args) = some a
arg_at _ _ = none

abbrev column_of : Column → Item → Text
column_of kind_column item = item.kind
column_of owner_column item = item.owner_id
column_of visibility_column item = item.visibility

abbrev pub equals_arg : Text → Option Arg → Bool
equals_arg value (some (text_arg v)) = value == v
equals_arg value _ = false

-- The database's test of a condition at a row that is not deleted.
abbrev pub holds : List Arg → Item → Condition → Bool
holds args item not_deleted = true
holds args item (equals column n) = equals_arg (column_of column item) (arg_at n args)

abbrev filter_by : (kind owner visibility : Text) → ℤ → ListFilter
filter_by kind owner visibility limit = record {
  kind = kind;
  owner_id = owner;
  visibility = visibility;
  limit = limit;
}

-- By which of the three fields are empty.
passes_as_filter :
    (kind owner visibility : Text) (limit : ℤ) (item : Item)
    → (all
          (holds (content_filter_sql (filter_by kind owner visibility limit)).1 item)
          (content_filter_sql (filter_by kind owner visibility limit)).0
        ≡ matches_filter item (filter_by kind owner visibility limit))
      × (all
            (holds (list_query (filter_by kind owner visibility limit)).0.1 item)
            (list_query (filter_by kind owner visibility limit)).0.0
          ≡ matches_filter item (filter_by kind owner visibility limit))
unfolding content_filter_sql list_query matches_filter arg_at
passes_as_filter [] [] [] limit item = ground arith
passes_as_filter [] [] (e ∷ v) limit item = ground arith
passes_as_filter [] (d ∷ o) [] limit item = ground arith
passes_as_filter [] (d ∷ o) (e ∷ v) limit item = ground arith
passes_as_filter (c ∷ k) [] [] limit item = ground arith
passes_as_filter (c ∷ k) [] (e ∷ v) limit item = ground arith
passes_as_filter (c ∷ k) (d ∷ o) [] limit item = ground arith
passes_as_filter (c ∷ k) (d ∷ o) (e ∷ v) limit item = ground arith

-- A row that is not deleted passes the statement's conditions, with the arguments that go with
-- it, exactly when the in-memory store's filter lets its item pass; so it does where the limit is
-- another argument.
pub content_filter_sql-matches :
    (filter : ListFilter) (item : Item)
    → (all (holds (content_filter_sql filter).1 item) (content_filter_sql filter).0
        ≡ matches_filter item filter)
      × (all (holds (list_query filter).0.1 item) (list_query filter).0.0
          ≡ matches_filter item filter)
content_filter_sql-matches filter item =
    passes_as_filter filter.kind filter.owner_id filter.visibility filter.limit item

-- An error of the database: no row, an error with a code, or any other.
pub data DbError : Type 0 where
  no_rows : DbError
  pg_error : (code : Text) → DbError
  other : DbError

-- `mapContentStoreError`; an error that is not mapped stays what it is.
unfoldable pub map_content_store_error : DbError → Error
map_content_store_error no_rows = not_found
map_content_store_error (pg_error code) =
    if code == codes "23505" then conflict else if code == codes "23503" then not_found else failure
map_content_store_error other = failure
