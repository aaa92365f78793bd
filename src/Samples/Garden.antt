-- ===== src/Samples/Garden.antt =====
-- A garden of two items of one owner, the second private and citing the first, as requests make it.
use learning_garden_server.Prelude.{
  ◌≡◌, refl, none, some, [], ◌∷◌, List, codes, text_eq, ◌++◌, text_beq, nat_eq,
}
use learning_garden_server.Prelude.Map.{lookup, insert}
use learning_garden_server.Content.Types.{
  Item, Relation, CreateItemInput, UpdateItemInput, kind_note, kind_paper, visibility_public,
  visibility_private,
}
use learning_garden_server.Content.MemoryStore
use learning_garden_server.Content.MemoryStore.{
  MemoryStore, new_memory_store, same_slot, clone_item,
}
use learning_garden_server.Content.Normalize.{
  normalize_slug, normalize_relation_type, valid_item, valid_kind, valid_visibility, can_view,
}
use learning_garden_server.Content.Service
use learning_garden_server.Content.Service.{find_visible, new_item, new_relation}
use learning_garden_server.Content.Store.{Store, StoreLaws}
use learning_garden_server.Content.Store.Memory.{memory_store, memory_store_laws}
use learning_garden_server.Content.Service.Requests.{Request, create_item, relate, run, run_all}
use learning_garden_server.Samples.{ascii, in_order}

abbrev pub shelf : Store
shelf = memory_store in_order

abbrev pub shelf_laws : StoreLaws shelf
shelf_laws = memory_store_laws in_order

abbrev pub note_input : CreateItemInput
note_input = record {
  kind = kind_note;
  title = codes "Go notes";
  slug = [];
  summary = [];
  body = codes "text";
  visibility = visibility_public;
  status = [];
  metadata = none;
}

abbrev pub paper_input : CreateItemInput
paper_input = record {
  kind = kind_paper;
  title = codes "Draft";
  slug = [];
  summary = [];
  body = [];
  visibility = [];
  status = [];
  metadata = none;
}

-- What the store holds of them.
abbrev pub note : Item
note = record {
  id = codes "i1";
  owner_id = codes "alice";
  kind = kind_note;
  title = codes "Go notes";
  slug = codes "go-notes";
  summary = [];
  body = codes "text";
  visibility = visibility_public;
  status = codes "draft";
  metadata = some [];
  created_at = 1;
  updated_at = 1;
}

abbrev pub paper : Item
paper = record {
  id = codes "i2";
  owner_id = codes "alice";
  kind = kind_paper;
  title = codes "Draft";
  slug = codes "draft";
  summary = [];
  body = [];
  visibility = visibility_private;
  status = codes "draft";
  metadata = some [];
  created_at = 2;
  updated_at = 2;
}

abbrev pub cites : Relation
cites = record {
  source_id = codes "i2";
  target_id = codes "i1";
  type = codes "cites";
  created_at = 3;
}

abbrev pub planting : List Request
planting =
    create_item (codes "alice") note_input (codes "i1") 1 1
    ∷ create_item (codes " alice ") paper_input (codes "i2") 2 2
    ∷ relate (codes "i2") (codes "alice") (codes "i1") (codes "Cites") 3
    ∷ []

abbrev pub garden : MemoryStore
garden = record {
  items = (codes "i1", note) ∷ (codes "i2", paper) ∷ [];
  relations = (codes "i2" ++ 0 ∷ codes "i1" ++ 0 ∷ codes "cites", cites) ∷ [];
}

-- The requests make this garden.
pub garden-planted : run_all ascii shelf planting new_memory_store ≡ garden
unfolding run_all run Service.create Service.add_relation find_visible new_item new_relation
    normalize_slug normalize_relation_type valid_item valid_kind valid_visibility can_view
    MemoryStore.create MemoryStore.find_by_id MemoryStore.add_relation same_slot clone_item lookup
    insert text_beq
garden-planted = refl

abbrev pub edit : UpdateItemInput
edit = record {
  title = some (codes "Go notes 2");
  slug = none;
  summary = none;
  body = none;
  visibility = none;
  status = none;
  metadata = none;
}
