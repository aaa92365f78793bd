-- ===== src/Content/Service/Authorization.antt =====
-- Who may change an item: the methods of the content service that write, on every branch.
use learning_garden_server.Prelude.{
  ◌≡◌, true, false, not, Text, text_eq, ◌==◌, is_empty, text_beq_iff, arith, ok, err, forbidden,
  invalid_input, Result, ◌>>◌, refuse,
}
use learning_garden_server.Prelude.Actions.{bind-eq-ok, refuse-eq-ok}
use learning_garden_server.Strings.{Unicode, trim_space}
use learning_garden_server.Content.Types.{Time, Item, CreateItemInput, UpdateItemInput}
use learning_garden_server.Content.Normalize.{valid_item}
use learning_garden_server.Content.Store.{Store, StoreLaws}
use learning_garden_server.Content.Service.{
  new_item, edit_item, create, update, remove, add_relation,
}

module _ (u : Unicode) (store : Store) (laws : StoreLaws store) where
  module _ (id actor : Text) (s : store.State) where
    -- The item that the methods find under the trimmed id.
    abbrev pub found : Result Item
    found = (store.find_by_id (trim_space id) s).0

    -- Over any lawful store: someone who does not own the item that is found gets `ErrForbidden`
    -- from the update, the deletion and a new relation, and the store is as it was.
    pub non_owner_changes_nothing :
        (item : Item) (input : UpdateItemInput) (target type : Text) (now : Time)
        → found ≡ ok item
        → (item.owner_id == trim_space actor) ≡ false
        → (update u store id actor input now s ≡ (err forbidden, s))
          × (remove store id actor s ≡ (err forbidden, s))
          × (add_relation u store id actor target type now s ≡ (err forbidden, s))
    unfolding update remove add_relation
    non_owner_changes_nothing item input target type now e o =
        (rw (e, laws.find_reads, o), rw (e, laws.find_reads, o), rw (e, laws.find_reads, o))

    -- Over any lawful store: a successful update was made by the owner of the item found, passed
    -- the check of the edited item, and is the store's replacement of the item by its edit.
    pub update-eq-ok :
        (input : UpdateItemInput) (now : Time) (result : Item)
        → (update u store id actor input now s).0 ≡ ok result
        → (item : Item) × (found ≡ ok item)
          × (item.owner_id ≡ trim_space actor)
          × (valid_item (edit_item u item input now) ≡ true)
          × (update u store id actor input now s ≡ store.replace (edit_item u item input now) s)
    unfolding update
    update-eq-ok input now result h =
        let (item, there, h1) = bind-eq-ok (store.find_by_id (trim_space id)) _ s result h in
        let (owner, h2) = refuse-eq-ok (not (item.owner_id == trim_space actor)) _ _ _ result h1 in
        let (valid, h3) =
          refuse-eq-ok (not (valid_item (edit_item u item input now))) _ _ _ result h2 in
        let mine : (item.owner_id == trim_space actor) ≡ true = ground arith in
        let good : valid_item (edit_item u item input now) ≡ true = ground arith in
        (
          item,
          there,
          (text_beq_iff item.owner_id (trim_space actor)).0 mine,
          good,
          rw (there, laws.find_reads, mine, good),
        )

    -- A successful deletion was made by the owner, and is the store's deletion of the item found.
    pub remove-eq-ok :
        (remove store id actor s).0 ≡ ok tt
        → (item : Item) × (found ≡ ok item)
          × (item.owner_id ≡ trim_space actor)
          × (remove store id actor s ≡ store.remove item.id s)
    unfolding remove
    remove-eq-ok h =
        let (item, there, h1) = bind-eq-ok (store.find_by_id (trim_space id)) _ s tt h in
        let (owner, h2) = refuse-eq-ok (not (item.owner_id == trim_space actor)) _ _ _ tt h1 in
        let mine : (item.owner_id == trim_space actor) ≡ true = ground arith in
        (
          item,
          there,
          (text_beq_iff item.owner_id (trim_space actor)).0 mine,
          rw (there, laws.find_reads, mine),
        )

  -- A successful creation names an owner, passed the check of the new item, and is the store's
  -- creation of it.
  pub create-eq-ok :
      (owner id : Text) (input : CreateItemInput) (created updated : Time) (s : store.State)
      (result : Item)
      → (create u store owner input id created updated s).0 ≡ ok result
      → (is_empty (trim_space owner) ≡ false)
        × (valid_item (new_item u (trim_space owner) input id created updated) ≡ true)
        × (create u store owner input id created updated s
            ≡ store.create (new_item u (trim_space owner) input id created updated) s)
  unfolding create
  create-eq-ok owner id input created updated s result h =
      let item = new_item u (trim_space owner) input id created updated in
      let (named, h1) =
        refuse-eq-ok (is_empty (trim_space owner)) forbidden
          (refuse (not (valid_item item)) invalid_input >> store.create item) s result h in
      let (valid, h2) =
        refuse-eq-ok (not (valid_item item)) invalid_input (store.create item) s result h1 in
      let good : valid_item item ≡ true = ground arith in (named, good, rw (named, good))
