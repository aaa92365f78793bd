-- ===== src/ContentRepo/Database.antt =====
-- What the Postgres content store relies on outside the program: the rows of the two tables of
-- services/api/db/migrations/0002_content.sql, and the parts of Postgres, pgx and encoding/json
-- that decide what a statement answers.
use learning_garden_server.Prelude.{Bool, Option, List, Text}
use learning_garden_server.Prelude.Map.{Map}
use learning_garden_server.Content.Types.{Time, Metadata, Relation}
use learning_garden_server.Content.MemoryStore.{Range}
use learning_garden_server.ContentRepo.{DbError}

-- A row of `content_items`. Ids are in the canonical form that `id::text` prints.
pub record ItemRow : Type 0 where
  pub id : Text
  pub owner_id : Text
  pub kind : Text
  pub title : Text
  pub slug : Text
  pub summary : Text
  pub body : Text
  pub visibility : Text
  pub status : Text
  pub metadata : Text
  pub created_at : Time
  pub updated_at : Time
  pub deleted_at : Option Time

-- The tables, by their primary keys, and the ids in the table `users`, which this store only
-- refers to. The key of a relation is its three columns, which hold no zero, with a zero between.
pub record Tables : Type 0 where
  pub users : List Text
  pub items : Map ItemRow
  pub relations : Map Relation

pub data Statement : Type 0 where
  insert_item_stmt update_item_stmt delete_item_stmt select_item_stmt select_items_stmt : Statement
  insert_relation_stmt select_backlinks_stmt select_edges_stmt : Statement

-- `fault` is the error of a statement that fails for a reason outside the tables, such as a lost
-- connection; such a statement has no effect. `less` is the order of the database's collation,
-- `scan` the order in which rows are read, which a sort keeps among equals. `jsonb` is the text
-- in which a JSON text comes back from a column of that type.
pub record Database : Type 1 where
  pub parse_uuid : Text → Option Text
  pub stored_time : Time → Time
  pub less : Text → Text → Bool
  pub now : Tables → Time
  pub scan : Range
  pub fault : Statement → Tables → Option DbError
  pub marshal : Metadata → Option Text
  pub jsonb : Text → Text
  pub unmarshal : Text → Option Metadata
