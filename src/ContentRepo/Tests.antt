-- ===== src/ContentRepo/Tests.antt =====
-- The theorems on the Postgres content store, at a database that evaluates.
use learning_garden_server.Prelude.{
  ok, ◌≡◌, refl, none, some, List, [], ◌∷◌, codes, text_lt, text_beq, map,
}
use learning_garden_server.Prelude.Int.{pos}
use learning_garden_server.Prelude.Json.{Json}
use learning_garden_server.Prelude.Map.{Map, lookup, insert}
use learning_garden_server.Prelude.Sort.{insert_stable}
use learning_garden_server.Content.Types.{Item, Metadata, ListFilter, visibility_public}
use learning_garden_server.Content.MemoryStore
use learning_garden_server.ContentRepo.{arg_at}
use learning_garden_server.ContentRepo.Database.{Database, Tables}
use learning_garden_server.ContentRepo.Statements.{run, with_uuid}
use learning_garden_server.ContentRepo.PostgresStore
use learning_garden_server.ContentRepo.PostgresStore.{item_of}
use learning_garden_server.ContentRepo.Laws.{list_items_lem}
use learning_garden_server.ContentRepo.Selection.{chosen}
use learning_garden_server.ContentRepo.Refinement.Runs.{
  Call, create_call, replace_call, relate_call, remove_call, find_call,
}
use learning_garden_server.Content.MemoryStore.{limit_items}
use learning_garden_server.Prelude.Sort.{sort_stable}
use learning_garden_server.Samples.{in_order}
use learning_garden_server.Samples.Codec.{encode, decode, finish}
use learning_garden_server.Samples.Garden.{note, paper, cites}

abbrev entries : Metadata → Map Json
entries none = []
entries (some m) = m

abbrev database : Database
database = record {
  parse_uuid = λ t. some t;
  stored_time = λ t. t;
  less = text_lt;
  now = λ t. 9;
  scan = in_order;
  fault = λ statement t. none;
  marshal = λ m. encode (entries m);
  jsonb = λ t. t;
  unmarshal = λ t. some (some (finish (decode t)));
}

abbrev empty_tables : Tables
empty_tables = record { users = codes "alice" ∷ []; items = []; relations = [] }

-- The note, with another title
abbrev renamed : Item
renamed = record note { title = codes "Notes"; slug = codes "notes"; updated_at = 5 }

abbrev calls : List Call
calls =
    create_call note
    ∷ create_call paper
    ∷ replace_call renamed
    ∷ relate_call cites
    ∷ find_call (codes "i1")
    ∷ remove_call (codes "i1")
    ∷ find_call (codes "i1")
    ∷ []

abbrev public_filter : ListFilter
public_filter = record { kind = []; owner_id = []; visibility = visibility_public; limit = pos 1 }

abbrev one_note : Tables
one_note = (PostgresStore.create database note empty_tables).1

chosen_test : map (item_of database) (chosen database public_filter one_note) ≡ note ∷ []
unfolding run arg_at PostgresStore.create encode with_uuid text_beq lookup insert insert_stable
    limit_items sort_stable
chosen_test = refl

list_items_lem_example :
    PostgresStore.list_items database public_filter one_note
    ≡ (ok (map (item_of database) (chosen database public_filter one_note)), one_note)
list_items_lem_example = list_items_lem database public_filter one_note refl refl
