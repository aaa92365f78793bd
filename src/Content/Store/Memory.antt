-- ===== src/Content/Store/Memory.antt =====
-- The in-memory store behind the interface of the service, and the laws that it meets.
use learning_garden_server.Prelude.{
  ◌≡◌, refl, true, ◌||◌, List, arith, Text, text_eq, ◌==◌, is_empty, All, All-map, ok, err, Error,
  Option-cases, inl, inr,
}
use learning_garden_server.Prelude.Map.{lookup}
use learning_garden_server.Content.Types.{Item, ListFilter, Relation}
use learning_garden_server.Content.MemoryStore
use learning_garden_server.Content.MemoryStore.{Range, matches_filter, clone_item}
use learning_garden_server.Content.MemoryStore.Invariant.{
  IsValid, create-IsValid, replace-IsValid, remove-IsValid, add_relation-IsValid,
}
use learning_garden_server.Content.MemoryStore.Listing.{listing-matches}
use learning_garden_server.Content.Store.{Store, StoreLaws}

pub find_by_id-id :
    (id : Text) (i : Item) {s : MemoryStore.MemoryStore}
    → IsValid s
    → (MemoryStore.find_by_id id s).0 ≡ ok i
    → i.id ≡ id
unfolding MemoryStore.find_by_id clone_item
find_by_id-id id i {s} v e = elim (Option-cases (lookup id s.items)) [
  | inl missing ↦ ground arith
  | inr (j, found) ↦ ground (arith, v.item_key id j found)
]

pub find_by_id_reads :
    (id : Text) (s : MemoryStore.MemoryStore) → (MemoryStore.find_by_id id s).1 ≡ s
unfolding MemoryStore.find_by_id
find_by_id_reads id s = ground arith

-- Each write tests before it writes.
create_fails :
    (i : Item) (s : MemoryStore.MemoryStore) (e : Error)
    → (MemoryStore.create i s).0 ≡ err e
    → (MemoryStore.create i s).1 ≡ s
unfolding MemoryStore.create
create_fails i s e h = ground arith

replace_fails :
    (i : Item) (s : MemoryStore.MemoryStore) (e : Error)
    → (MemoryStore.replace i s).0 ≡ err e
    → (MemoryStore.replace i s).1 ≡ s
unfolding MemoryStore.replace
replace_fails i s e h = ground arith

remove_fails :
    (id : Text) (s : MemoryStore.MemoryStore) (e : Error)
    → (MemoryStore.remove id s).0 ≡ err e
    → (MemoryStore.remove id s).1 ≡ s
unfolding MemoryStore.remove
remove_fails id s e h = ground arith

add_relation_fails :
    (r : Relation) (s : MemoryStore.MemoryStore) (e : Error)
    → (MemoryStore.add_relation r s).0 ≡ err e
    → (MemoryStore.add_relation r s).1 ≡ s
unfolding MemoryStore.add_relation
add_relation_fails r s e h = ground arith

module _ (range : Range) where
  list_items-matches :
      (f : ListFilter) (s : MemoryStore.MemoryStore) (items : List Item)
      → (MemoryStore.list_items range f s).0 ≡ ok items
      → All (λ i. matches_filter i f ≡ true) items
  unfolding MemoryStore.list_items
  list_items-matches f s items e =
      let same : MemoryStore.listing range f s ≡ items = cc in
      rw (← same) (listing-matches range f s)

  list_items_visible :
      (f : ListFilter) (s : MemoryStore.MemoryStore) (items : List Item)
      → (MemoryStore.list_items range f s).0 ≡ ok items
      → All (λ i. (is_empty f.visibility || i.visibility == f.visibility) ≡ true) items
  unfolding matches_filter
  list_items_visible f s items e =
      All-map (λ i (m : matches_filter i f ≡ true). ground arith) items
        (list_items-matches f s items e)

  abbrev pub memory_store : Store
  memory_store = record {
    State = MemoryStore.MemoryStore;
    create = MemoryStore.create;
    replace = MemoryStore.replace;
    remove = MemoryStore.remove;
    find_by_id = MemoryStore.find_by_id;
    list_items = MemoryStore.list_items range;
    add_relation = MemoryStore.add_relation;
    backlinks = MemoryStore.backlinks range;
    graph = MemoryStore.graph range;
    graph_from_items = MemoryStore.graph_from_items range;
  }

  pub memory_store_laws : StoreLaws memory_store
  unfolding MemoryStore.list_items MemoryStore.backlinks MemoryStore.graph_from_items
  memory_store_laws = record {
    Inv = IsValid;
    create_keeps = create-IsValid;
    replace_keeps = replace-IsValid;
    remove_keeps = remove-IsValid;
    add_relation_keeps = λ r v. add_relation-IsValid r v;
    create_fails = create_fails;
    replace_fails = replace_fails;
    remove_fails = remove_fails;
    add_relation_fails = add_relation_fails;
    find_reads = find_by_id_reads;
    list_reads = λ f s. refl;
    list_visible = list_items_visible;
    backlinks_reads = λ id s. refl;
    graph_reads = λ items s. refl;
  }
