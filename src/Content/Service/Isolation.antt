-- ===== src/Content/Service/Isolation.antt =====
-- What the requests of others do to an owner's items, over the in-memory store.
use learning_garden_server.Prelude.{
  ◌≡◌, ◌≢◌, ◌∙◌, sym, ap, false, none, some, List, [], ◌∷◌, Text, text_eq, ◌==◌, text_beq_iff,
  arith, ok, Result-cases, Bool-cases, inl, inr,
}
use learning_garden_server.Prelude.Actions.{map_state, Keeps, Keeps-pure, Keeps-bind, Keeps-refuse}
use learning_garden_server.Prelude.Map.{lookup, lookup-insert}
use learning_garden_server.Strings.{Unicode, trim_space}
use learning_garden_server.Content.Types.{Time, Item, CreateItemInput, UpdateItemInput, Relation}
use learning_garden_server.Content.MemoryStore
use learning_garden_server.Content.MemoryStore.{Range, MemoryStore, clone_item}
use learning_garden_server.Content.MemoryStore.Invariant.{IsValid}
use learning_garden_server.Content.Store.Memory.{memory_store, memory_store_laws}
use learning_garden_server.Content.Service.{new_item, create, update, remove, add_relation}
use learning_garden_server.Content.Service.Authorization.{create-eq-ok, update-eq-ok, remove-eq-ok}
use learning_garden_server.Content.Service.RoundTrip.{
  store-create, id-new_item, find-update, find-remove,
}
use learning_garden_server.Content.Service.Requests.{
  Request, create_item, update_item, remove_item, relate, an_item, a_relation, done, run, run_all,
  create_request-IsAtomic, update_request-IsAtomic, remove_request-IsAtomic,
}
use learning_garden_server.Content.Service.Reachable.{
  IsWellFormed, run-IsWellFormed, items-add_relation,
}

-- The request is made by someone else than the owner, and what it creates has an id of its own.
abbrev pub IsOfOther : Text → Request → MemoryStore → Type 0
IsOfOther owner (create_item creator input id created updated) s = lookup id s.items ≡ none
IsOfOther owner (update_item id actor input now) s = trim_space actor ≢ owner
IsOfOther owner (remove_item id actor) s = trim_space actor ≢ owner
IsOfOther owner (relate source actor target type now) s = Unit

-- The item stands under the key.
abbrev Stands : Text → Item → MemoryStore → Type 0
Stands k i s = lookup k s.items ≡ some i

owner_of_found :
    (id : Text) (s : MemoryStore) (i found : Item)
    → lookup id s.items ≡ some i
    → (MemoryStore.find_by_id id s).0 ≡ ok found
    → found.owner_id ≡ i.owner_id
unfolding MemoryStore.find_by_id clone_item
owner_of_found id s i found there h = ground arith

-- Each request of the run is by someone else than the owner, in the state in which it comes.
abbrev pub AreOfOthers : Unicode → Range → Text → List Request → MemoryStore → Type 0
AreOfOthers u range owner [] s = Unit
AreOfOthers u range owner (r ∷ rs) s =
    IsOfOther owner r s × AreOfOthers u range owner rs (run u (memory_store range) r s).1

module _ (u : Unicode) (range : Range) (owner k : Text) (i : Item) (mine : i.owner_id ≡ owner) where
  create-Stands :
      (creator id : Text) (input : CreateItemInput) (created updated : Time) (s : MemoryStore)
      → lookup id s.items ≡ none
      → Stands k i s
      → Stands k i (create u (memory_store range) creator input id created updated s).1
  create-Stands creator id input created updated s fresh there =
      let store = memory_store range in
      elim (Result-cases (create u store creator input id created updated s).0) [
        | inr (e, failed) ↦
            rw
              ((create_request-IsAtomic u store (memory_store_laws range) creator input id created
                  updated).at
                s e failed)
              there
        | inl (item, h) ↦
            let new = new_item u (trim_space creator) input id created updated in
            let (named, valid, same) =
              create-eq-ok u store (memory_store_laws range) creator id input created updated s item
                h in
            let (answer, after) = store-create new item s (ap (λ r. r.0) (sym same) ∙ h) in
            let at = lookup-insert id k item s.items in
            let moved : id ≡ k → lookup id s.items ≡ lookup k s.items =
              λ e. ap (λ j. lookup j s.items) e in
            rw (same, after, id-new_item u (trim_space creator) id input created updated)
              (ground (arith, at, text_beq_iff id k, moved))
      ]

  -- An item that is found by someone else stands under another key.
  elsewhere :
      (id actor : Text) (s : MemoryStore) (found : Item)
      → trim_space actor ≢ owner
      → Stands k i s
      → (MemoryStore.find_by_id id s).0 ≡ ok found
      → found.owner_id ≡ trim_space actor
      → (id == k) ≡ false
  elsewhere id actor s found other there h owned = elim (Bool-cases (id == k)) [
    | inr apart ↦ apart
    | inl same ↦
        let here : lookup id s.items ≡ some i =
          ap (λ j. lookup j s.items) ((text_beq_iff id k).0 same) ∙ there in
        absurd (other (sym owned ∙ owner_of_found id s i found here h ∙ mine))
  ]

  update-Stands :
      (id actor : Text) (input : UpdateItemInput) (now : Time) (s : MemoryStore)
      → IsValid s
      → trim_space actor ≢ owner
      → Stands k i s
      → Stands k i (update u (memory_store range) id actor input now s).1
  update-Stands id actor input now s v other there =
      let store = memory_store range in
      elim (Result-cases (update u store id actor input now s).0) [
        | inr (e, failed) ↦
            rw
              ((update_request-IsAtomic u store (memory_store_laws range) id actor input now).at s e
                failed)
              there
        | inl (item, h) ↦
            let (found, seen, owned, valid, same) =
              update-eq-ok u store (memory_store_laws range) id actor s input now item h in
            let at = (find-update u range id actor input now s found item v seen h).0 in
            let apart = elsewhere (trim_space id) actor s found other there seen owned in
            at k ∙ rw apart there
      ]

  remove-Stands :
      (id actor : Text) (s : MemoryStore)
      → IsValid s
      → trim_space actor ≢ owner
      → Stands k i s
      → Stands k i (remove (memory_store range) id actor s).1
  remove-Stands id actor s v other there =
      let store = memory_store range in
      elim (Result-cases (remove store id actor s).0) [
        | inr (e, failed) ↦
            rw ((remove_request-IsAtomic u store (memory_store_laws range) id actor).at s e failed)
              there
        | inl (_, h) ↦
            let (found, seen, owned, same) =
              remove-eq-ok u store (memory_store_laws range) id actor s h in
            let at = (find-remove u range id actor s v h).0 in
            let apart = elsewhere (trim_space id) actor s found other there seen owned in
            at k ∙ rw apart there
      ]

  find-Stands : (id : Text) → Keeps (Stands k i) (MemoryStore.find_by_id id)
  find-Stands id = record { at = λ s h. rw ((memory_store_laws range).find_reads id s) h }

  add_relation-Stands : (r : Relation) → Keeps (Stands k i) (MemoryStore.add_relation r)
  add_relation-Stands r = record { at = λ s h. rw (items-add_relation r s) h }

  ruleset stands_rules = (Keeps-pure, Keeps-bind, Keeps-refuse, find-Stands, add_relation-Stands)

  relate-Stands :
      (source actor target type : Text) (now : Time)
      → Keeps (Stands k i) (add_relation u (memory_store range) source actor target type now)
  unfolding add_relation
  relate-Stands source actor target type now = search stands_rules depth 12

  run-Stands :
      (r : Request) (s : MemoryStore)
      → IsValid s
      → IsOfOther owner r s
      → Stands k i s
      → Stands k i (run u (memory_store range) r s).1
  unfolding run
  run-Stands (create_item creator input id created updated) s v fresh there =
      rw (map_state (create u (memory_store range) creator input id created updated) an_item s)
        (create-Stands creator id input created updated s fresh there)
  run-Stands (update_item id actor input now) s v other there =
      rw (map_state (update u (memory_store range) id actor input now) an_item s)
        (update-Stands id actor input now s v other there)
  run-Stands (remove_item id actor) s v other there =
      rw (map_state (remove (memory_store range) id actor) (λ _. done) s)
        (remove-Stands id actor s v other there)
  run-Stands (relate source actor target type now) s v _ there =
      rw (map_state (add_relation u (memory_store range) source actor target type now) a_relation s)
        ((relate-Stands source actor target type now).at s there)

  -- Whatever updates, deletions and relations others ask for, and whatever they or the owner
  -- create under ids that are not in use, in whatever order: an item of the owner that stands in
  -- a well-formed in-memory store stands there afterwards as it was.
  pub isolation :
      (rs : List Request) (s : MemoryStore)
      → IsWellFormed s
      → AreOfOthers u range owner rs s
      → lookup k s.items ≡ some i
      → lookup k (run_all u (memory_store range) rs s).items ≡ some i
  unfolding run_all
  isolation [] s v h there = there
  isolation (r ∷ rs) s v (other, others) there =
      isolation rs (run u (memory_store range) r s).1 (run-IsWellFormed u range r s v) others
        (run-Stands r s v.store_valid other there)
