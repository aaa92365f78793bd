-- ===== src/Content/StoreTests.antt =====
-- The theorems on what the content store holds and lists, at the sample garden.
use learning_garden_server.Prelude.{
  ◌≡◌, refl, none, some, List, [], ◌∷◌, All, Text, codes, text_eq, ◌==◌, text_beq, if◌then◌else◌,
  ok,
}
use learning_garden_server.Prelude.Map.{lookup, insert, delete}
use learning_garden_server.Prelude.Json.{str, arr, cons, nil}
use learning_garden_server.Strings.{trim_space}
use learning_garden_server.Strings.Trim.{HeadKept, LastKept}
use learning_garden_server.Content.Types.{Item}
use learning_garden_server.Content.MemoryStore
use learning_garden_server.Content.MemoryStore.{
  MemoryStore, same_slot, clone_item, touches, matches_filter, item_less, listing, backlink_less,
}
use learning_garden_server.Content.Normalize.{
  normalize_slug, valid_item, valid_kind, valid_visibility, can_view, is_dash,
}
use learning_garden_server.Content.Normalize.Slug.{IsSlugRune, normalize_slug_lem}
use learning_garden_server.Content.Service
use learning_garden_server.Content.Service.{find_visible, update, new_item, edit_item}
use learning_garden_server.Content.Service.Queries.{topics_for_items}
use learning_garden_server.Content.Service.RoundTrip.{
  unless_touching, find-create, find-update, find-remove,
}
use learning_garden_server.Content.Tests.{garden-IsWellFormed}
use learning_garden_server.Samples.{ascii, in_order}
use learning_garden_server.Samples.Garden.{shelf, paper_input, note, paper, garden, edit}

abbrev second_paper : Item
second_paper = record paper {
  id = codes "i3";
  owner_id = codes "bob";
  created_at = 4;
  updated_at = 4;
}

find-create_example :
    find_visible shelf
      (codes "i3")
      (codes "bob")
      (Service.create ascii shelf (codes "bob") paper_input (codes "i3") 4 4 garden).1
    ≡ (
      ok second_paper,
      (Service.create ascii shelf (codes "bob") paper_input (codes "i3") 4 4 garden).1,
    )
unfolding Service.create update Service.remove find_visible new_item edit_item normalize_slug
    valid_item valid_kind valid_visibility can_view MemoryStore.create MemoryStore.replace
    MemoryStore.remove MemoryStore.find_by_id same_slot clone_item touches lookup insert delete
    text_beq trim_space
find-create_example =
    find-create ascii in_order (codes "bob") (codes "i3") paper_input 4 4 garden second_paper refl
      refl

abbrev edited : Item
edited = record note { title = codes "Go notes 2"; updated_at = 5 }

find-update_example :
    ((k : Text)
      → lookup k (update ascii shelf (codes " i1") (codes "alice") edit 5 garden).1.items
        ≡ (if trim_space (codes " i1") == k then some edited else lookup k garden.items))
    × (edited.id ≡ note.id)
    × (edited.owner_id ≡ note.owner_id)
    × (edited.kind ≡ note.kind)
    × (edited.created_at ≡ note.created_at)
unfolding Service.create update Service.remove find_visible new_item edit_item normalize_slug
    valid_item valid_kind valid_visibility can_view MemoryStore.create MemoryStore.replace
    MemoryStore.remove MemoryStore.find_by_id same_slot clone_item touches lookup insert delete
    text_beq trim_space
find-update_example =
    find-update ascii in_order (codes " i1") (codes "alice") edit 5 garden note edited
      garden-IsWellFormed.store_valid refl refl

find-remove_example :
    ((k : Text)
      → lookup k (Service.remove shelf (codes "i1") (codes "alice") garden).1.items
        ≡ (if trim_space (codes "i1") == k then none else lookup k garden.items))
    × ((k : Text)
        → lookup k (Service.remove shelf (codes "i1") (codes "alice") garden).1.relations
          ≡ unless_touching (trim_space (codes "i1")) (lookup k garden.relations))
unfolding Service.create update Service.remove find_visible new_item edit_item normalize_slug
    valid_item valid_kind valid_visibility can_view MemoryStore.create MemoryStore.replace
    MemoryStore.remove MemoryStore.find_by_id same_slot clone_item touches lookup insert delete
    text_beq trim_space
find-remove_example =
    find-remove ascii in_order (codes "i1") (codes "alice") garden garden-IsWellFormed.store_valid
      refl

normalize_slug_lem_example :
    All (IsSlugRune ascii) (normalize_slug ascii (codes " -Go Notes_2/x- "))
    × HeadKept is_dash (normalize_slug ascii (codes " -Go Notes_2/x- "))
    × LastKept is_dash (normalize_slug ascii (codes " -Go Notes_2/x- "))
normalize_slug_lem_example = normalize_slug_lem ascii (codes " -Go Notes_2/x- ")

normalize_slug_test : normalize_slug ascii (codes " -Go Notes_2/x- ") ≡ codes "go-notes-2-x"
unfolding normalize_slug
normalize_slug_test = refl

abbrev listed : List Item
listed =
    record note {
      metadata = some ((codes "tags", arr (cons (str (codes " go ")) (cons (str []) nil))) ∷ []);
    }
    ∷ paper
    ∷ []

topics_for_items_test : topics_for_items listed ≡ (codes "go", 1) ∷ []
unfolding topics_for_items text_beq
topics_for_items_test = refl
