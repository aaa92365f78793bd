-- ===== src/Content/Service/Privacy.antt =====
-- What a reader sees of the items of others.
use learning_garden_server.Prelude.{
  ◌≡◌, ◌≢◌, ◌⊎◌, ◌↔◌, true, false, not, [], Text, text_eq, text_beq_iff, arith, ok, err, not_found,
}
use learning_garden_server.Prelude.Actions.{bind-eq-ok, refuse-eq-ok}
use learning_garden_server.Strings.{trim_space}
use learning_garden_server.Content.Types.{Item, visibility_public, visibility_unlisted}
use learning_garden_server.Content.Normalize.{can_view}
use learning_garden_server.Content.Store.{Store, StoreLaws}
use learning_garden_server.Content.Service.{find_visible}

-- Who may read an item: everybody where it is public or unlisted, else its owner.
abbrev pub MayRead : Item → Text → Type 0
MayRead item viewer =
    ((item.visibility ≡ visibility_public) ⊎ (item.visibility ≡ visibility_unlisted))
    ⊎ ((item.owner_id ≡ trim_space viewer) × (viewer ≢ []))

can_view-MayRead : (item : Item) (viewer : Text) → can_view item viewer ≡ true → MayRead item viewer
unfolding can_view
can_view-MayRead item viewer h = ground (
  arith,
  text_beq_iff item.visibility visibility_public,
  text_beq_iff item.visibility visibility_unlisted,
  text_beq_iff item.owner_id (trim_space viewer),
)

MayRead-can_view : (item : Item) (viewer : Text) → MayRead item viewer → can_view item viewer ≡ true
unfolding can_view
MayRead-can_view item viewer h = ground (
  arith,
  text_beq_iff item.visibility visibility_public,
  text_beq_iff item.visibility visibility_unlisted,
  text_beq_iff item.owner_id (trim_space viewer),
)

module _ (store : Store) (id viewer : Text) (s : store.State) where
  -- Over any store: a viewer is answered an item exactly when the store has it under the trimmed
  -- id and the viewer may read it.
  pub find_visible-eq-ok_iff :
      (item : Item)
      → ((find_visible store id viewer s).0 ≡ ok item)
        ↔ (((store.find_by_id (trim_space id) s).0 ≡ ok item) × MayRead item viewer)
  unfolding find_visible
  find_visible-eq-ok_iff item = (to, from)
    where
      to :
          (find_visible store id viewer s).0 ≡ ok item
          → ((store.find_by_id (trim_space id) s).0 ≡ ok item) × MayRead item viewer
      to h =
          let (i, there, h1) = bind-eq-ok (store.find_by_id (trim_space id)) _ s item h in
          let (seen, h2) = refuse-eq-ok (not (can_view i viewer)) _ _ _ item h1 in
          let same : i ≡ item = cc in
          let view : can_view i viewer ≡ true = ground arith in
          (rw (← same) there, rw (← same) (can_view-MayRead i viewer view))

      from :
          ((store.find_by_id (trim_space id) s).0 ≡ ok item) × MayRead item viewer
          → (find_visible store id viewer s).0 ≡ ok item
      from (there, may) = rw (there, MayRead-can_view item viewer may)

  -- Over any lawful store: an item that the viewer may not read is answered as a missing one, and
  -- nothing changes.
  pub hidden-eq-missing :
      (laws : StoreLaws store) (item : Item)
      → (store.find_by_id (trim_space id) s).0 ≡ ok item
      → ¬ MayRead item viewer
      → find_visible store id viewer s ≡ (err not_found, s)
  unfolding find_visible
  hidden-eq-missing laws item there hidden =
      let shut : can_view item viewer ≡ false =
        ground
          (arith, λ (h : can_view item viewer ≡ true). hidden (can_view-MayRead item viewer h)) in
      rw (there, laws.find_reads, shut)
