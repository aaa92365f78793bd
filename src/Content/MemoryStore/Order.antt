-- ===== src/Content/MemoryStore/Order.antt =====
-- The listing of the in-memory store, whatever order Go visits its map in.
use learning_garden_server.Prelude.{
  ◌≡◌, refl, sym, ap, ◌∙◌, inl, inr, some, List, map, arith, Text, text_eq, All, All-map, All-keep,
  All-map_image, keep, Bool-cases,
}
use mathlib.Core.List.Permᴰ
use mathlib.Core.Logic.{∥∥₁_elim}
use learning_garden_server.Prelude.Order.{text_lt_connex}
use learning_garden_server.Prelude.Map.{lookup, NodupKeys, entries_found}
use learning_garden_server.Prelude.Permute.{Apart, sort_stable-Permᴰ, map-Permᴰ, keep-Permᴰ}
use learning_garden_server.Content.Types.{Item, ListFilter}
use learning_garden_server.Content.MemoryStore.{
  Range, MemoryStore, clone_item, matches_filter, item_less, sort_items, limit_items, listing,
  values,
}
use learning_garden_server.Content.MemoryStore.Listing.{item_less-StrictWeak}

-- A listed copy of a stored item.
abbrev IsCopy : MemoryStore → Item → Type 0
IsCopy s i =
    (k : Text) × (stored : Item) × (lookup k s.items ≡ some stored) × (clone_item stored ≡ i)

module _ (s : MemoryStore) (distinct : NodupKeys s.items)
    (apart : (j k : Text) (a b : Item)
      → lookup j s.items ≡ some a
      → lookup k s.items ≡ some b
      → a.updated_at ≡ b.updated_at
      → a.title ≡ b.title
      → a ≡ b) where
  copies-Apart : (a b : Item) → IsCopy s a → IsCopy s b → Apart item_less-StrictWeak a b
  unfolding item_less clone_item
  copies-Apart a b (j, x, there, copy) (k, y, there', copy') =
      rw (← copy, ← copy')
        (elim (Bool-cases (item_less (clone_item x) (clone_item y))) [
          | inl before ↦ inl (inl before)
          | inr before ↦ elim (Bool-cases (item_less (clone_item y) (clone_item x))) [
            | inl after ↦ inl (inr after)
            | inr after ↦
                let time : x.updated_at ≡ y.updated_at = ground arith in
                let title : x.title ≡ y.title = ground (arith, text_lt_connex x.title y.title) in
                inr (ap clone_item (apart j k x y there there' time title))
          ]
        ])

  selected_copies :
      (f : ListFilter)
      → All (IsCopy s) (map clone_item (keep (λ i. matches_filter i f) (values s.items)))
  selected_copies f = All-map_image (IsCopy s) clone_item _ (
      All-keep _ (λ i. matches_filter i f) (values s.items)
        (All-map_image _ (λ e. e.1) s.items
          (All-map (λ e there. (e.0, e.1, there, refl)) s.items (entries_found s.items distinct))))

  items_set : IsSet (List Item)
  items_set = hlevel

  sorted_unordered :
      (f : ListFilter) (range : Range)
      → sort_items
          (map clone_item (keep (λ i. matches_filter i f) (values (range.visit Item s.items))))
        ≡ sort_items (map clone_item (keep (λ i. matches_filter i f) (values s.items)))
  unfolding sort_items
  sorted_unordered f range = ∥∥₁_elim (range.perm Item s.items) (items_set _ _) λ d. sym (
      sort_stable-Permᴰ item_less-StrictWeak (IsCopy s) copies-Apart
        (map-Permᴰ clone_item
          (keep-Permᴰ (λ i. matches_filter i f) (map-Permᴰ (λ e. e.1) (Permᴰ.symm d))))
        (selected_copies f))

  -- In a store with distinct keys, in which stored items with one title and one time of update are
  -- the same, the in-memory listing is the same for every order in which the map is visited.
  pub listing_unordered :
      (f : ListFilter) (range range' : Range) → listing range f s ≡ listing range' f s
  unfolding listing
  listing_unordered f range range' =
      ap (limit_items f.limit) (sorted_unordered f range ∙ sym (sorted_unordered f range'))
