-- ===== src/Content/Service/RoundTrip.antt =====
-- What is written is what is read back, over the in-memory store.
use learning_garden_server.Prelude.{
  ◌≡◌, refl, ◌∙◌, sym, ap, true, false, not, Option, none, some, [], ◌∷◌, Text, text_eq, ◌==◌,
  is_empty, text_beq_iff, arith, ok, keep, if◌then◌else◌,
}
use learning_garden_server.Prelude.Map.{
  Map, lookup, insert, delete, lookup-insert, lookup-delete, NodupKeys, lookup-keep, pass_or_none,
}
use learning_garden_server.Strings.{Unicode, trim_space}
use learning_garden_server.Strings.Lower.{trim_space-nil}
use learning_garden_server.Content.Types.{Time, Item, Relation, CreateItemInput, UpdateItemInput}
use learning_garden_server.Content.Normalize.{can_view}
use learning_garden_server.Content.MemoryStore
use learning_garden_server.Content.MemoryStore.{
  Range, MemoryStore, clone_metadata, clone_item, touches, present,
}
use learning_garden_server.Content.MemoryStore.Invariant.{IsValid}
use learning_garden_server.Content.Store.Memory.{memory_store, memory_store_laws, find_by_id-id}
use learning_garden_server.Content.Service.{
  new_item, edit_item, create, update, remove, find_visible,
}
use learning_garden_server.Content.Service.Authorization.{create-eq-ok, update-eq-ok, remove-eq-ok}

clone_item_idem : (i : Item) → clone_item (clone_item i) ≡ clone_item i
unfolding clone_item clone_metadata
clone_item_idem i = ground arith

-- What a successful write of the store answers and leaves.
pub store-create :
    (item i : Item) (s : MemoryStore)
    → (MemoryStore.create item s).0 ≡ ok i
    → (i ≡ clone_item item)
      × ((MemoryStore.create item s).1 ≡ record s { items = insert item.id i s.items })
unfolding MemoryStore.create
store-create item i s h = ground arith

store-replace :
    (item i : Item) (s : MemoryStore)
    → (MemoryStore.replace item s).0 ≡ ok i
    → (i ≡ clone_item item)
      × ((MemoryStore.replace item s).1 ≡ record s { items = insert item.id i s.items })
unfolding MemoryStore.replace
store-replace item i s h = ground arith

store-remove :
    (id : Text) (s : MemoryStore)
    → (MemoryStore.remove id s).0 ≡ ok tt
    → (MemoryStore.remove id s).1 ≡ record {
      items = delete id s.items;
      relations = keep (λ e. not (touches id e.1)) s.relations;
    }
unfolding MemoryStore.remove
store-remove id s h = ground arith

-- A stored relation, unless it is from or to the item.
abbrev pub unless_touching : Text → Option Relation → Option Relation
unless_touching id none = none
unless_touching id (some r) = if touches id r then none else some r

lookup-untouching :
    (id key : Text) (m : Map Relation)
    → NodupKeys m
    → lookup key (keep (λ e. not (touches id e.1)) m) ≡ unless_touching id (lookup key m)
lookup-untouching id key m u =
    lookup-keep (λ e. not (touches id e.1)) key m u ∙ passed (lookup key m)
  where
    passed :
        (o : Option Relation)
        → pass_or_none (λ e. not (touches id e.1)) key o ≡ unless_touching id o
    passed none = refl
    passed (some r) = ground arith

find-insert :
    (id : Text) (i : Item) (m : Map Item) (s : MemoryStore)
    → clone_item i ≡ i
    → MemoryStore.find_by_id id (record s { items = insert id i m })
      ≡ (ok i, record s { items = insert id i m })
unfolding MemoryStore.find_by_id
find-insert id i m s c = ground (arith, lookup-insert id id i m, text_beq_iff id id)

can_view_own :
    (i : Item) (owner : Text)
    → i.owner_id ≡ trim_space owner
    → is_empty (trim_space owner) ≡ false
    → can_view i owner ≡ true
unfolding can_view
can_view_own i [] e n = cc (rw trim_space-nil at n)
can_view_own i (c ∷ o) e n = ground (arith, text_beq_iff i.owner_id (trim_space (c ∷ o)))

owner_id-new_item :
    (u : Unicode) (owner id : Text) (input : CreateItemInput) (created updated : Time)
    → (clone_item (new_item u owner input id created updated)).owner_id ≡ owner
unfolding clone_item new_item
owner_id-new_item u owner id input created updated = refl

pub id-new_item :
    (u : Unicode) (owner id : Text) (input : CreateItemInput) (created updated : Time)
    → (new_item u owner input id created updated).id ≡ id
unfolding new_item
id-new_item u owner id input created updated = refl

-- Neither an edit nor a copy changes these fields.
kept-edit_item :
    (u : Unicode) (item : Item) (input : UpdateItemInput) (now : Time)
    → ((clone_item (edit_item u item input now)).id ≡ item.id)
      × ((clone_item (edit_item u item input now)).owner_id ≡ item.owner_id)
      × ((clone_item (edit_item u item input now)).kind ≡ item.kind)
      × ((clone_item (edit_item u item input now)).created_at ≡ item.created_at)
      × ((edit_item u item input now).id ≡ item.id)
unfolding clone_item edit_item
kept-edit_item u item input now = (refl, refl, refl, refl, refl)

module _ (u : Unicode) (range : Range) where
  -- Who creates an item reads it back as it was answered, under the id that it was given, if that
  -- id has no space around it.
  pub find-create :
      (owner id : Text) (input : CreateItemInput) (created updated : Time) (s : MemoryStore)
      (item : Item)
      → trim_space id ≡ id
      → (create u (memory_store range) owner input id created updated s).0 ≡ ok item
      → find_visible
          (memory_store range)
          id
          owner
          (create u (memory_store range) owner input id created updated s).1
        ≡ (ok item, (create u (memory_store range) owner input id created updated s).1)
  unfolding find_visible
  find-create owner id input created updated s item t h =
      let store = memory_store range in
      let new = new_item u (trim_space owner) input id created updated in
      let (named, valid, same) =
        create-eq-ok u store (memory_store_laws range) owner id input created updated s item h in
      let (answer, after) = store-create new item s (ap (λ r. r.0) (sym same) ∙ h) in
      let mine : item.owner_id ≡ trim_space owner =
        ap (λ (i : Item). i.owner_id) answer
        ∙ owner_id-new_item u (trim_space owner) id input created updated in
      let copy : clone_item item ≡ item = ap clone_item answer ∙ clone_item_idem new ∙ sym answer in
      rw (
        same,
        after,
        id-new_item u (trim_space owner) id input created updated,
        t,
        find-insert id item s.items s copy,
        can_view_own item owner mine named,
      )

  -- In a valid in-memory store, a successful update leaves the answered item under its id, and
  -- what stands under any other id as it was; the item keeps its id, owner, kind and time of
  -- creation.
  pub find-update :
      (id actor : Text) (input : UpdateItemInput) (now : Time) (s : MemoryStore) (old item : Item)
      → IsValid s
      → (MemoryStore.find_by_id (trim_space id) s).0 ≡ ok old
      → (update u (memory_store range) id actor input now s).0 ≡ ok item
      → ((k : Text)
          → lookup k (update u (memory_store range) id actor input now s).1.items
            ≡ (if trim_space id == k then some item else lookup k s.items))
        × (item.id ≡ old.id)
        × (item.owner_id ≡ old.owner_id)
        × (item.kind ≡ old.kind)
        × (item.created_at ≡ old.created_at)
  find-update id actor input now s old item v there h =
      let store = memory_store range in
      let (found, there', mine, valid, same) =
        update-eq-ok u store (memory_store_laws range) id actor s input now item h in
      let one : found ≡ old = cc in
      let new = edit_item u found input now in
      let (answer, after) = store-replace new item s (ap (λ r. r.0) (sym same) ∙ h) in
      let at : found.id ≡ trim_space id = find_by_id-id (trim_space id) found v there' in
      let (i, o, k, c, e) = kept-edit_item u found input now in
      (
        λ key. rw (same, after, e, at) (lookup-insert (trim_space id) key item s.items),
        ap (λ (x : Item). x.id) answer ∙ i ∙ ap (λ (x : Item). x.id) one,
        ap (λ (x : Item). x.owner_id) answer ∙ o ∙ ap (λ (x : Item). x.owner_id) one,
        ap (λ (x : Item). x.kind) answer ∙ k ∙ ap (λ (x : Item). x.kind) one,
        ap (λ (x : Item). x.created_at) answer ∙ c ∙ ap (λ (x : Item). x.created_at) one,
      )

  -- In a valid in-memory store, a successful deletion leaves no item under the id and no relation
  -- from or to it; what stands under any other id, and every other relation, stays as it was, and
  -- nothing is added.
  pub find-remove :
      (id actor : Text) (s : MemoryStore)
      → IsValid s
      → (remove (memory_store range) id actor s).0 ≡ ok tt
      → ((k : Text)
          → lookup k (remove (memory_store range) id actor s).1.items
            ≡ (if trim_space id == k then none else lookup k s.items))
        × ((k : Text)
            → lookup k (remove (memory_store range) id actor s).1.relations
              ≡ unless_touching (trim_space id) (lookup k s.relations))
  find-remove id actor s v h =
      let store = memory_store range in
      let (found, there, mine, same) =
        remove-eq-ok u store (memory_store_laws range) id actor s h in
      let at : found.id ≡ trim_space id = find_by_id-id (trim_space id) found v there in
      let after = store-remove found.id s (ap (λ r. r.0) (sym same) ∙ h) in
      (
        λ key. rw (same, after, at) (lookup-delete (trim_space id) key s.items),
        λ key.
            rw (same, after, at)
              (lookup-untouching (trim_space id) key s.relations v.nodup_relations),
      )
