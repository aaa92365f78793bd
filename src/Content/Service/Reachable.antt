-- ===== src/Content/Service/Reachable.antt =====
-- Every state that requests lead to from the empty in-memory store.
use learning_garden_server.Prelude.{◌≡◌, refl, true, some, List, Text, text_eq, arith}
use learning_garden_server.Prelude.Actions.{Keeps}
use learning_garden_server.Prelude.Map.{lookup, lookup-insert, lookup-delete}
use learning_garden_server.Strings.{Unicode}
use learning_garden_server.Content.Types.{Item, Relation}
use learning_garden_server.Content.Normalize.{valid_item}
use learning_garden_server.Content.MemoryStore
use learning_garden_server.Content.MemoryStore.{Range, MemoryStore, new_memory_store, clone_item}
use learning_garden_server.Content.MemoryStore.Invariant.{
  IsValid, new_memory_store-IsValid, create-IsValid, replace-IsValid, remove-IsValid,
  add_relation-IsValid,
}
use learning_garden_server.Content.Store.Memory.{memory_store, memory_store_laws}
use learning_garden_server.Content.Service.Requests.{
  Request, run, run_all, run-Keeps, run_all-keeps,
}

-- The store's invariant, and every stored item passes `validateItem`.
pub record IsWellFormed (s : MemoryStore) : Type 0 where
  pub store_valid : IsValid s
  pub items_valid : (k : Text) (i : Item) → lookup k s.items ≡ some i → valid_item i ≡ true

valid_item-clone_item : (i : Item) → valid_item (clone_item i) ≡ valid_item i
unfolding valid_item clone_item
valid_item-clone_item i = refl

create_items_valid :
    (item : Item) (s : MemoryStore)
    → valid_item item ≡ true
    → ((k : Text) (i : Item) → lookup k s.items ≡ some i → valid_item i ≡ true)
    → (k : Text) (i : Item) → lookup k (MemoryStore.create item s).1.items ≡ some i
    → valid_item i ≡ true
unfolding MemoryStore.create
create_items_valid item s v h k i e =
    ground
      (arith, valid_item-clone_item item, h k i, lookup-insert item.id k (clone_item item) s.items)

replace_items_valid :
    (item : Item) (s : MemoryStore)
    → valid_item item ≡ true
    → ((k : Text) (i : Item) → lookup k s.items ≡ some i → valid_item i ≡ true)
    → (k : Text) (i : Item) → lookup k (MemoryStore.replace item s).1.items ≡ some i
    → valid_item i ≡ true
unfolding MemoryStore.replace
replace_items_valid item s v h k i e =
    ground
      (arith, valid_item-clone_item item, h k i, lookup-insert item.id k (clone_item item) s.items)

remove_items_valid :
    (id : Text) (s : MemoryStore)
    → ((k : Text) (i : Item) → lookup k s.items ≡ some i → valid_item i ≡ true)
    → (k : Text) (i : Item) → lookup k (MemoryStore.remove id s).1.items ≡ some i
    → valid_item i ≡ true
unfolding MemoryStore.remove
remove_items_valid id s h k i e = ground (arith, h k i, lookup-delete id k s.items)

pub items-add_relation :
    (r : Relation) (s : MemoryStore) → (MemoryStore.add_relation r s).1.items ≡ s.items
unfolding MemoryStore.add_relation
items-add_relation r s = ground arith

pub create-Keeps : (i : Item) → valid_item i ≡ true → Keeps IsWellFormed (MemoryStore.create i)
create-Keeps i v = record {
  at = λ s h. record {
    store_valid = create-IsValid i h.store_valid;
    items_valid = create_items_valid i s v h.items_valid;
  };
}

pub replace-Keeps : (i : Item) → valid_item i ≡ true → Keeps IsWellFormed (MemoryStore.replace i)
replace-Keeps i v = record {
  at = λ s h. record {
    store_valid = replace-IsValid i h.store_valid;
    items_valid = replace_items_valid i s v h.items_valid;
  };
}

pub remove-Keeps : (id : Text) → Keeps IsWellFormed (MemoryStore.remove id)
remove-Keeps id = record {
  at = λ s h. record {
    store_valid = remove-IsValid id h.store_valid;
    items_valid = remove_items_valid id s h.items_valid;
  };
}

pub add_relation-Keeps : (r : Relation) → Keeps IsWellFormed (MemoryStore.add_relation r)
add_relation-Keeps r = record {
  at = λ s h. record {
    store_valid = add_relation-IsValid r h.store_valid;
    items_valid = rw (items-add_relation r s) h.items_valid;
  };
}

pub new_memory_store-IsWellFormed : IsWellFormed new_memory_store
unfolding lookup
new_memory_store-IsWellFormed = record {
  store_valid = new_memory_store-IsValid;
  items_valid = λ k i e. cc;
}

-- Whatever requests come, in whatever order and whoever makes them, the in-memory store that they
-- lead to from the empty one is well formed: items stand under their ids, no two share owner, kind
-- and slug, each passes the check of an item, and both ends of every relation are stored.
pub reachable-IsWellFormed :
    (u : Unicode) (range : Range) (requests : List Request)
    → IsWellFormed (run_all u (memory_store range) requests new_memory_store)
reachable-IsWellFormed u range requests =
    run_all-keeps u (memory_store range) (memory_store_laws range) IsWellFormed create-Keeps
      replace-Keeps remove-Keeps add_relation-Keeps requests new_memory_store
      new_memory_store-IsWellFormed

-- Each request keeps the store well formed.
pub run-IsWellFormed :
    (u : Unicode) (range : Range) (r : Request) (s : MemoryStore)
    → IsWellFormed s
    → IsWellFormed (run u (memory_store range) r s).1
run-IsWellFormed u range r s h =
    (run-Keeps u (memory_store range) (memory_store_laws range) IsWellFormed create-Keeps
        replace-Keeps remove-Keeps add_relation-Keeps r).at
      s h
