-- ===== src/Content/Store.antt =====
-- The interface `Store` of services/api/internal/content/service.go, and the laws that the
-- service relies on.
pub mod Memory
use learning_garden_server.Prelude.{
  ◌≡◌, true, ◌||◌, List, Text, text_eq, ◌==◌, is_empty, All, Exec, ok, err, Error,
}
use learning_garden_server.Content.Types.{Item, ListFilter, Relation, Backlink, Graph}

pub record Store : Type 1 where
  pub State : Type 0
  pub create : Item → Exec State Item
  pub replace : Item → Exec State Item
  pub remove : Text → Exec State (Unit {0})
  pub find_by_id : Text → Exec State Item
  pub list_items : ListFilter → Exec State (List Item)
  pub add_relation : Relation → Exec State Relation
  pub backlinks : Text → Exec State (List Backlink)
  pub graph : ListFilter → Exec State Graph
  pub graph_from_items : List Item → Exec State Graph

-- Reads change nothing, writes keep the store's invariant, a write that fails changes nothing, and
-- a listing by visibility holds items of that visibility.
pub record StoreLaws (store : Store) : Type 1 where
  pub Inv : store.State → Type 0
  pub create_keeps : (i : Item) {s : store.State} → Inv s → Inv (store.create i s).1
  pub replace_keeps : (i : Item) {s : store.State} → Inv s → Inv (store.replace i s).1
  pub remove_keeps : (id : Text) {s : store.State} → Inv s → Inv (store.remove id s).1
  pub add_relation_keeps : (r : Relation) {s : store.State} → Inv s → Inv (store.add_relation r s).1
  pub create_fails :
      (i : Item) (s : store.State) (e : Error)
      → (store.create i s).0 ≡ err e
      → (store.create i s).1 ≡ s
  pub replace_fails :
      (i : Item) (s : store.State) (e : Error)
      → (store.replace i s).0 ≡ err e
      → (store.replace i s).1 ≡ s
  pub remove_fails :
      (id : Text) (s : store.State) (e : Error)
      → (store.remove id s).0 ≡ err e
      → (store.remove id s).1 ≡ s
  pub add_relation_fails :
      (r : Relation) (s : store.State) (e : Error)
      → (store.add_relation r s).0 ≡ err e
      → (store.add_relation r s).1 ≡ s
  pub find_reads : (id : Text) (s : store.State) → (store.find_by_id id s).1 ≡ s
  pub list_reads : (f : ListFilter) (s : store.State) → (store.list_items f s).1 ≡ s
  pub list_visible :
      (f : ListFilter) (s : store.State) (items : List Item)
      → (store.list_items f s).0 ≡ ok items
      → All (λ i. (is_empty f.visibility || i.visibility == f.visibility) ≡ true) items
  pub backlinks_reads : (id : Text) (s : store.State) → (store.backlinks id s).1 ≡ s
  pub graph_reads : (items : List Item) (s : store.State) → (store.graph_from_items items s).1 ≡ s
