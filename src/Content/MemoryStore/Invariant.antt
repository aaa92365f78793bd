-- ===== src/Content/MemoryStore/Invariant.antt =====
-- The invariant of the in-memory content store, and every operation that keeps it.
use learning_garden_server.Prelude.{
  ◌≡◌, true, false, not, ◌&&◌, some, arith, Text, text_eq, ◌==◌, Bool-cases, inl, inr, text_beq_iff,
  any, keep, if◌then◌else◌,
}
use learning_garden_server.Prelude.Map.{
  Map, lookup, insert, delete, NodupKeys, lookup-insert, lookup-delete, insert-NodupKeys,
  delete-NodupKeys, any-lookup, lookup-keep, keep-NodupKeys,
}
use learning_garden_server.Content.Types.{Item, Relation}
use learning_garden_server.Content.MemoryStore.{
  MemoryStore, new_memory_store, present, same_slot, clone_item, create, replace, touches, remove,
  add_relation, relation_key,
}

-- An item stands under its own id, and no two items share owner, kind and slug; a relation stands
-- under its key, and both its ends are stored.
pub record IsValid (s : MemoryStore) : Type 0 where
  pub nodup_items : NodupKeys s.items
  pub nodup_relations : NodupKeys s.relations
  pub item_key : (k : Text) (i : Item) → lookup k s.items ≡ some i → i.id ≡ k
  pub unique :
      (j k : Text) (a b : Item)
      → lookup j s.items ≡ some a
      → lookup k s.items ≡ some b
      → same_slot a b ≡ true
      → j ≡ k
  pub key : (k : Text) (r : Relation) → lookup k s.relations ≡ some r → relation_key r ≡ k
  pub source :
      (k : Text) (r : Relation)
      → lookup k s.relations ≡ some r
      → present (lookup r.source_id s.items) ≡ true
  pub target :
      (k : Text) (r : Relation)
      → lookup k s.relations ≡ some r
      → present (lookup r.target_id s.items) ≡ true

pub new_memory_store-IsValid : IsValid new_memory_store
unfolding lookup
new_memory_store-IsValid = record {
  nodup_items = tt;
  nodup_relations = tt;
  item_key = λ k i e. cc;
  unique = λ j k a b e f h. cc;
  key = λ k r e. cc;
  source = λ k r e. cc;
  target = λ k r e. cc;
}

same_slot_comm : (a b : Item) → same_slot a b ≡ same_slot b a
unfolding same_slot
same_slot_comm a b = ground (
  arith,
  text_beq_iff a.owner_id b.owner_id,
  text_beq_iff b.owner_id a.owner_id,
  text_beq_iff a.kind b.kind,
  text_beq_iff b.kind a.kind,
  text_beq_iff a.slug b.slug,
  text_beq_iff b.slug a.slug,
)

-- Storing an item whose slot is free of other items keeps the invariant, whether its id is new or
-- stands already.
module _ (item : Item) {s : MemoryStore} (v : IsValid s)
    (free : (k : Text) (i : Item)
      → lookup k s.items ≡ some i
      → same_slot i item ≡ true
      → k ≡ item.id) where
  abbrev stored : Map Item
  stored = insert item.id (clone_item item) s.items

  lookup-stored :
      (k : Text)
      → lookup k stored ≡ (if item.id == k then some (clone_item item) else lookup k s.items)
  lookup-stored k = lookup-insert item.id k (clone_item item) s.items

  stored-item_key : (k : Text) (i : Item) → lookup k stored ≡ some i → i.id ≡ k
  unfolding clone_item
  stored-item_key k i e = ground (arith, lookup-stored k, text_beq_iff item.id k, v.item_key k i)

  stored_unique :
      (j k : Text) (a b : Item)
      → lookup j stored ≡ some a
      → lookup k stored ≡ some b
      → same_slot a b ≡ true
      → j ≡ k
  unfolding clone_item same_slot
  stored_unique j k a b e f h = ground (
    arith,
    lookup-stored j,
    lookup-stored k,
    text_beq_iff item.id j,
    text_beq_iff item.id k,
    v.unique j k a b,
    free j a,
    free k b,
    same_slot_comm a b,
    same_slot_comm item b,
  )

  stored-present : (k : Text) → present (lookup k s.items) ≡ true → present (lookup k stored) ≡ true
  stored-present k h = ground (arith, lookup-stored k)

  stored-IsValid : IsValid (record s { items = stored })
  stored-IsValid = record {
    nodup_items = insert-NodupKeys item.id (clone_item item) s.items v.nodup_items;
    nodup_relations = v.nodup_relations;
    item_key = stored-item_key;
    unique = stored_unique;
    key = v.key;
    source = λ k r e. stored-present r.source_id (v.source k r e);
    target = λ k r e. stored-present r.target_id (v.target k r e);
  }

-- The conflict tests of `Create` and `Replace` leave the slot free.
conflict_free :
    (item : Item) (s : MemoryStore)
    → any (λ e. same_slot e.1 item) s.items ≡ false
    → (k : Text) (i : Item) → lookup k s.items ≡ some i
    → same_slot i item ≡ false
conflict_free item s h k i e = any-lookup (λ x. same_slot x.1 item) k i s.items h e

other_conflict_free :
    (item : Item) {s : MemoryStore}
    → IsValid s
    → any (λ e. not (e.1.id == item.id) && same_slot e.1 item) s.items ≡ false
    → (k : Text) (i : Item) → lookup k s.items ≡ some i
    → same_slot i item ≡ true
    → k ≡ item.id
other_conflict_free item {s} v h k i e f = ground (
  arith,
  any-lookup (λ x. not (x.1.id == item.id) && same_slot x.1 item) k i s.items h e,
  text_beq_iff i.id item.id,
  v.item_key k i e,
)

pub create-IsValid : (item : Item) {s : MemoryStore} → IsValid s → IsValid (create item s).1
unfolding create
create-IsValid item {s} v = elim (Bool-cases (any (λ e. same_slot e.1 item) s.items)) [
  | inl taken ↦ rw taken v
  | inr fresh ↦ rw fresh (stored-IsValid item v (λ k i e f. cc (conflict_free item s fresh k i e)))
]

pub replace-IsValid : (item : Item) {s : MemoryStore} → IsValid s → IsValid (replace item s).1
unfolding replace
replace-IsValid item {s} v = elim (Bool-cases (present (lookup item.id s.items))) [
  | inr missing ↦ rw missing v
  | inl there ↦
      rw there
        (elim (Bool-cases (any (λ e. not (e.1.id == item.id) && same_slot e.1 item) s.items)) [
          | inl taken ↦ rw taken v
          | inr fresh ↦ rw fresh (stored-IsValid item v (other_conflict_free item v fresh))
        ])
]

-- After a deletion the relations that are left touch other items only.
module _ (id : Text) {s : MemoryStore} (v : IsValid s) where
  abbrev left : Map Relation
  left = keep (λ e. not (touches id e.1)) s.relations

  left-lookup :
      (k : Text) (r : Relation)
      → lookup k left ≡ some r
      → (lookup k s.relations ≡ some r) × (touches id r ≡ false)
  left-lookup k r e =
      ground (arith, lookup-keep (λ e. not (touches id e.1)) k s.relations v.nodup_relations)

  delete-present :
      (k : Text)
      → (k == id) ≡ false
      → present (lookup k s.items) ≡ true
      → present (lookup k (delete id s.items)) ≡ true
  delete-present k n p =
      ground (arith, lookup-delete id k s.items, text_beq_iff id k, text_beq_iff k id)

  removed-IsValid : IsValid (record { items = delete id s.items; relations = left })
  unfolding touches
  removed-IsValid = record {
    nodup_items = delete-NodupKeys id s.items v.nodup_items;
    nodup_relations = keep-NodupKeys (λ e. not (touches id e.1)) s.relations v.nodup_relations;
    item_key = λ k i e. ground (arith, lookup-delete id k s.items, v.item_key k i);
    unique = λ j k a b e f h.
        ground (arith, lookup-delete id j s.items, lookup-delete id k s.items, v.unique j k a b);
    key = λ k r e. v.key k r (left-lookup k r e).0;
    source = λ k r e.
        let (old, apart) = left-lookup k r e in
        delete-present r.source_id (ground arith) (v.source k r old);
    target = λ k r e.
        let (old, apart) = left-lookup k r e in
        delete-present r.target_id (ground arith) (v.target k r old);
  }

pub remove-IsValid : (id : Text) {s : MemoryStore} → IsValid s → IsValid (remove id s).1
unfolding remove
remove-IsValid id {s} v = elim (Bool-cases (present (lookup id s.items))) [
  | inr missing ↦ rw missing v
  | inl there ↦ rw there (removed-IsValid id v)
]

module _ (r : Relation) {s : MemoryStore} (v : IsValid s) where
  abbrev related : Map Relation
  related = insert (relation_key r) r s.relations

  related-IsValid :
      present (lookup r.source_id s.items) ≡ true
      → present (lookup r.target_id s.items) ≡ true
      → IsValid (record s { relations = related })
  related-IsValid p q =
      let at = λ (k : Text). lookup-insert (relation_key r) k r s.relations in
      record {
        nodup_items = v.nodup_items;
        nodup_relations = insert-NodupKeys (relation_key r) r s.relations v.nodup_relations;
        item_key = v.item_key;
        unique = v.unique;
        key = λ k x e. ground (arith, at k, text_beq_iff (relation_key r) k, v.key k x);
        source = λ k x e. ground (arith, at k, v.source k x);
        target = λ k x e. ground (arith, at k, v.target k x);
      }

  pub add_relation-IsValid : IsValid (add_relation r s).1
  unfolding add_relation
  add_relation-IsValid = elim (Bool-cases (present (lookup r.source_id s.items))) [
    | inr missing ↦ rw missing v
    | inl from ↦ rw from (elim (Bool-cases (present (lookup r.target_id s.items))) [
      | inr missing ↦ rw missing v
      | inl to ↦ rw to (related-IsValid from to)
    ])
  ]
