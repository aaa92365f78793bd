-- ===== src/ContentRepo/Refinement/Runs.antt =====
-- Runs of the Postgres store of services/api/internal/contentrepo/postgres_content.go beside runs
-- of the in-memory store.
use learning_garden_server.Prelude.{
  ◌≡◌, true, false, some, none, List, [], ◌∷◌, Text, text_eq, ◌==◌, any, Result,
}
use learning_garden_server.Prelude.Map.{lookup}
use learning_garden_server.Content.Types.{Item, Relation}
use learning_garden_server.Content.MemoryStore
use learning_garden_server.Content.MemoryStore.{MemoryStore, relation_key}
use learning_garden_server.Content.Store.Memory.{find_by_id_reads as memory_reads}
use learning_garden_server.ContentRepo.Database.{Database, ItemRow, Tables}
use learning_garden_server.ContentRepo.Statements.{live_row}
use learning_garden_server.ContentRepo.PostgresStore
use learning_garden_server.ContentRepo.Consistency.{IsConsistent}
use learning_garden_server.ContentRepo.Laws.{
  create-IsConsistent, replace-IsConsistent, remove-IsConsistent, add_relation-IsConsistent,
  find_by_id_reads,
}
use learning_garden_server.ContentRepo.View.{is_dead}
use learning_garden_server.ContentRepo.Refinement.{IsHealthy, IsStorable, slot_not_deleted}
use learning_garden_server.ContentRepo.Refinement.Updates.{SameOrigin}

-- A call of the store.
pub data Call : Type 0 where
  create_call replace_call : Item → Call
  remove_call find_call : Text → Call
  relate_call : Relation → Call

pub data Answer : Type 0 where
  item_answer : Result Item → Answer
  done_answer : Result (Unit {0}) → Answer
  relation_answer : Result Relation → Answer

abbrev pub postgres_call : Database → Call → Tables → Answer × Tables
postgres_call db (create_call item) t =
    let (r, after) = PostgresStore.create db item t in (item_answer r, after)
postgres_call db (replace_call item) t =
    let (r, after) = PostgresStore.replace db item t in (item_answer r, after)
postgres_call db (remove_call id) t =
    let (r, after) = PostgresStore.remove db id t in (done_answer r, after)
postgres_call db (find_call id) t =
    let (r, after) = PostgresStore.find_by_id db id t in (item_answer r, after)
postgres_call db (relate_call relation) t =
    let (r, after) = PostgresStore.add_relation db relation t in (relation_answer r, after)

abbrev pub memory_call : Call → MemoryStore → Answer × MemoryStore
memory_call (create_call item) s =
    let (r, after) = MemoryStore.create item s in (item_answer r, after)
memory_call (replace_call item) s =
    let (r, after) = MemoryStore.replace item s in (item_answer r, after)
memory_call (remove_call id) s = let (r, after) = MemoryStore.remove id s in (done_answer r, after)
memory_call (find_call id) s =
    let (r, after) = MemoryStore.find_by_id id s in (item_answer r, after)
memory_call (relate_call relation) s =
    let (r, after) = MemoryStore.add_relation relation s in (relation_answer r, after)

-- The calls, one after the other, with their answers.
abbrev pub run_calls {ℓ} : {S : Type ℓ} → (Call → S → Answer × S) → List Call → S → List Answer × S
run_calls call [] s = ([], s)
run_calls call (c ∷ cs) s =
    let (answer, next) = call c s in
    let (answers, last) = run_calls call cs next in (answer ∷ answers, last)

module _ (db : Database) where
  -- What the calls of the content service keep to. The database knows the ids and gives items
  -- back as they were, an item that is created has a new id and a known owner, one that is
  -- replaced keeps its origin, and neither takes the slot of a deleted row; a relation is not
  -- between deleted rows, and one with its key has its ends.
  abbrev pub Fits : Tables → Call → Type 0
  Fits t (create_call item) =
      IsStorable db item
      × (any (λ u. u == item.owner_id) t.users ≡ true)
      × (lookup item.id t.items ≡ none)
      × (slot_not_deleted db item t ≡ true)
  Fits t (replace_call item) =
      IsStorable db item
      × ((row : ItemRow) → live_row item.id t ≡ some row → SameOrigin db item row)
      × (slot_not_deleted db item t ≡ true)
  Fits t (remove_call id) = db.parse_uuid id ≡ some id
  Fits t (find_call id) = db.parse_uuid id ≡ some id
  Fits t (relate_call r) =
      (db.parse_uuid r.source_id ≡ some r.source_id)
      × (db.parse_uuid r.target_id ≡ some r.target_id)
      × (db.stored_time r.created_at ≡ r.created_at)
      × (is_dead (lookup r.source_id t.items) ≡ false)
      × (is_dead (lookup r.target_id t.items) ≡ false)
      × ((old : Relation)
          → lookup (relation_key r) t.relations ≡ some old
          → (old.source_id ≡ r.source_id) × (old.target_id ≡ r.target_id))

  -- Each call fits the tables that it meets, in which no statement fails.
  abbrev pub AllFit : List Call → Tables → Type 0
  AllFit [] t = Unit
  AllFit (c ∷ cs) t = IsHealthy db t × Fits t c × AllFit cs (postgres_call db c t).1

  -- Every call keeps the constraints of the tables, whatever it answers.
  pub call-IsConsistent :
      (c : Call) {t : Tables} → IsConsistent t → IsConsistent (postgres_call db c t).1
  call-IsConsistent (create_call item) v = create-IsConsistent db item v
  call-IsConsistent (replace_call item) v = replace-IsConsistent db item v
  call-IsConsistent (remove_call id) v = remove-IsConsistent db id v
  call-IsConsistent (find_call id) {t} v = rw (find_by_id_reads db id t) v
  call-IsConsistent (relate_call r) v = add_relation-IsConsistent db r v
