-- ===== src/Content/Service/Requests.antt =====
-- The writes of the content service as requests, and runs of them.
use learning_garden_server.Prelude.{
  ◌≡◌, refl, Bool, true, false, not, List, [], ◌∷◌, Text, text_eq, err, Error, Exec, pure, ◌>>=◌,
  ◌>>◌,
}
use learning_garden_server.Prelude.Actions.{
  IsReader, IsAtomic, Keeps, IsAtomic-map, Keeps-pure, Keeps-bind, Keeps-refuse, atomic_rules,
}
use learning_garden_server.Strings.{Unicode}
use learning_garden_server.Content.Types.{Time, Item, CreateItemInput, UpdateItemInput, Relation}
use learning_garden_server.Content.Normalize.{valid_item}
use learning_garden_server.Content.Store.{Store, StoreLaws}
use learning_garden_server.Content.Service.{create, update, remove, add_relation}

-- A call of a writing method with its arguments: the id that `newID` gives and the clock's times
-- included.
pub data Request : Type 0 where
  create_item : (owner : Text) → CreateItemInput → (id : Text) (created updated : Time) → Request
  update_item : (id actor : Text) → UpdateItemInput → (now : Time) → Request
  remove_item : (id actor : Text) → Request
  relate : (source actor target type : Text) (now : Time) → Request

pub data Reply : Type 0 where
  an_item : Item → Reply
  a_relation : Relation → Reply
  done : Reply

module _ (u : Unicode) (store : Store) where
  open store use {State}

  unfoldable pub run : Request → Exec State Reply
  run (create_item owner input id created updated) = do
    item ← create u store owner input id created updated
    pure (an_item item)
  run (update_item id actor input now) = do
    item ← update u store id actor input now
    pure (an_item item)
  run (remove_item id actor) = do remove store id actor; pure done
  run (relate source actor target type now) = do
    relation ← add_relation u store source actor target type now
    pure (a_relation relation)

  -- The states that a run goes through; an error ends only its own request.
  unfoldable pub run_all : List Request → State → State
  run_all [] s = s
  run_all (r ∷ rs) s = run_all rs (run r s).1

module _ (u : Unicode) (store : Store) (laws : StoreLaws store) where
  find_by_id-IsReader : (id : Text) → IsReader (store.find_by_id id)
  find_by_id-IsReader id = record { at = laws.find_reads id }

  create-IsAtomic : (i : Item) → IsAtomic (store.create i)
  create-IsAtomic i = record { at = laws.create_fails i }

  replace-IsAtomic : (i : Item) → IsAtomic (store.replace i)
  replace-IsAtomic i = record { at = laws.replace_fails i }

  remove-IsAtomic : (id : Text) → IsAtomic (store.remove id)
  remove-IsAtomic id = record { at = laws.remove_fails id }

  add_relation-IsAtomic : (r : Relation) → IsAtomic (store.add_relation r)
  add_relation-IsAtomic r = record { at = laws.add_relation_fails r }

  ruleset store_rules = (
    atomic_rules, find_by_id-IsReader, create-IsAtomic, replace-IsAtomic, remove-IsAtomic,
    add_relation-IsAtomic,
  )

  pub create_request-IsAtomic :
      (owner : Text) (input : CreateItemInput) (id : Text) (created updated : Time)
      → IsAtomic (create u store owner input id created updated)
  unfolding create
  create_request-IsAtomic owner input id created updated = search store_rules depth 8

  pub update_request-IsAtomic :
      (id actor : Text) (input : UpdateItemInput) (now : Time)
      → IsAtomic (update u store id actor input now)
  unfolding update
  update_request-IsAtomic id actor input now = search store_rules depth 8

  pub remove_request-IsAtomic : (id actor : Text) → IsAtomic (remove store id actor)
  unfolding remove
  remove_request-IsAtomic id actor = search store_rules depth 8

  relate_request-IsAtomic :
      (source actor target type : Text) (now : Time)
      → IsAtomic (add_relation u store source actor target type now)
  unfolding add_relation
  relate_request-IsAtomic source actor target type now = search store_rules depth 12

  run-IsAtomic : (r : Request) → IsAtomic (run u store r)
  unfolding run
  run-IsAtomic (create_item owner input id created updated) =
      IsAtomic-map _ an_item (create_request-IsAtomic owner input id created updated)
  run-IsAtomic (update_item id actor input now) =
      IsAtomic-map _ an_item (update_request-IsAtomic id actor input now)
  run-IsAtomic (remove_item id actor) =
      IsAtomic-map _ (λ _. done) (remove_request-IsAtomic id actor)
  run-IsAtomic (relate source actor target type now) =
      IsAtomic-map _ a_relation (relate_request-IsAtomic source actor target type now)

  -- Over any lawful store: a creation, update, deletion or new relation that answers an error,
  -- whichever it is, has left the store as it was.
  pub failed_request_changes_nothing :
      (r : Request) (s : store.State) (e : Error)
      → (run u store r s).0 ≡ err e
      → (run u store r s).1 ≡ s
  failed_request_changes_nothing r s e h = (run-IsAtomic r).at s e h

passed : (b : Bool) → not b ≡ false → b ≡ true
passed true h = refl
passed false h = cc

-- What the store's writes keep of valid items, every request keeps.
module _ (u : Unicode) (store : Store) (laws : StoreLaws store) (P : store.State → Type 0)
    (create_keeps : (i : Item) → valid_item i ≡ true → Keeps P (store.create i))
    (replace_keeps : (i : Item) → valid_item i ≡ true → Keeps P (store.replace i))
    (remove_keeps : (id : Text) → Keeps P (store.remove id))
    (add_relation_keeps : (r : Relation) → Keeps P (store.add_relation r)) where
  find_by_id-Keeps : (id : Text) → Keeps P (store.find_by_id id)
  find_by_id-Keeps id = record { at = λ s h. rw (laws.find_reads id s) h }

  ruleset keeps_rules = (Keeps-pure, Keeps-refuse, Keeps-bind, find_by_id-Keeps, passed)

  pub create-Keeps :
      (owner : Text) (input : CreateItemInput) (id : Text) (created updated : Time)
      → Keeps P (create u store owner input id created updated)
  unfolding create
  create-Keeps owner input id created updated = search (keeps_rules, create_keeps) depth 8

  pub update-Keeps :
      (id actor : Text) (input : UpdateItemInput) (now : Time)
      → Keeps P (update u store id actor input now)
  unfolding update
  update-Keeps id actor input now = search (keeps_rules, replace_keeps) depth 8

  pub remove-Keeps : (id actor : Text) → Keeps P (remove store id actor)
  unfolding remove
  remove-Keeps id actor = search (keeps_rules, remove_keeps) depth 8

  pub add_relation-Keeps :
      (source actor target type : Text) (now : Time)
      → Keeps P (add_relation u store source actor target type now)
  unfolding add_relation
  add_relation-Keeps source actor target type now =
      search (keeps_rules, add_relation_keeps) depth 12

  pub run-Keeps : (r : Request) → Keeps P (run u store r)
  unfolding run
  run-Keeps (create_item owner input id created updated) =
      Keeps-bind P _ (λ i. pure (an_item i)) (create-Keeps owner input id created updated)
        λ i. Keeps-pure P _
  run-Keeps (update_item id actor input now) =
      Keeps-bind P _ (λ i. pure (an_item i)) (update-Keeps id actor input now) λ i. Keeps-pure P _
  run-Keeps (remove_item id actor) =
      Keeps-bind P _ (λ i. pure done) (remove-Keeps id actor) λ i. Keeps-pure P _
  run-Keeps (relate source actor target type now) =
      Keeps-bind P _ (λ r. pure (a_relation r)) (add_relation-Keeps source actor target type now)
        λ i. Keeps-pure P _

  pub run_all-keeps : (rs : List Request) (s : store.State) → P s → P (run_all u store rs s)
  unfolding run_all
  run_all-keeps [] s h = h
  run_all-keeps (r ∷ rs) s h = run_all-keeps rs (run u store r s).1 ((run-Keeps r).at s h)
