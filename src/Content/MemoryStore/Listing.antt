-- ===== src/Content/MemoryStore/Listing.antt =====
-- `List`, `Backlinks` and the graph of the in-memory store.
use learning_garden_server.Prelude.{
  ℕ, ◌≤◌, ◌<◌, ◌≡◌, Bool, true, List, [], ◌∷◌, map, arith, All, All-take, All-map_image, keep,
  keep-All, length, length-take, take,
}
use learning_garden_server.Prelude.Int.{ℤ, pos, negsuc, pos_part}
use learning_garden_server.Prelude.Order.{text_lt_asymm, text_lt_neg_trans}
use learning_garden_server.Prelude.Sort.{
  sort_stable, IsSorted, StrictWeak, sort_stable-IsSorted, sort_stable-All,
}
use learning_garden_server.Content.Types.{Item, ListFilter}
use learning_garden_server.Content.MemoryStore.{
  Range, MemoryStore, clone_item, matches_filter, item_less, sort_items, limit_items, listing,
  values,
}

-- The order of `sortItems` is one that `sort.SliceStable` accepts.
pub item_less-StrictWeak : StrictWeak item_less
unfolding item_less
item_less-StrictWeak = record {
  asymm = λ a b h. ground (arith, text_lt_asymm a.title b.title);
  neg_trans = λ a b c h k. ground (arith, text_lt_neg_trans a.title b.title c.title);
}

module _ {ℓ} {A : Type ℓ} where
  pub limit_items-All {κ} :
      (P : A → Type κ) (limit : ℤ) (items : List A) → All P items → All P (limit_items limit items)
  unfolding limit_items
  limit_items-All P (pos n) items h = ground (arith, All-take P n items h)
  limit_items-All P (negsuc n) items h = ground arith

  -- A positive limit bounds the length.
  pub length-limit_items :
      (limit : ℤ) (items : List A)
      → 0 < pos_part limit
      → length (limit_items limit items) ≤ pos_part limit
  unfolding limit_items
  length-limit_items (pos n) items h = ground (arith, length-take n items)
  length-limit_items (negsuc n) items h = absurd (omega arith)

  take-IsSorted :
      (less : A → A → Bool) (n : ℕ) (xs : List A) → IsSorted less xs → IsSorted less (take n xs)
  take-IsSorted less ℕ.zero xs h = tt
  take-IsSorted less (ℕ.suc n) [] h = tt
  take-IsSorted less (ℕ.suc n) (x ∷ xs) (p, h) = (All-take _ n xs p, take-IsSorted less n xs h)

  pub limit_items-IsSorted :
      (less : A → A → Bool) (limit : ℤ) (xs : List A)
      → IsSorted less xs
      → IsSorted less (limit_items limit xs)
  unfolding limit_items
  limit_items-IsSorted less (pos n) xs h = ground (arith, take-IsSorted less n xs h)
  limit_items-IsSorted less (negsuc n) xs h = ground arith

module _ (range : Range) (f : ListFilter) (s : MemoryStore) where
  abbrev selected : List Item
  selected = map clone_item (keep (λ i. matches_filter i f) (values (range.visit Item s.items)))

  selected-matches : All (λ i. matches_filter i f ≡ true) selected
  unfolding matches_filter clone_item
  selected-matches =
      All-map_image (λ i. matches_filter i f ≡ true) clone_item _
        (keep-All (λ i. matches_filter i f) (values (range.visit Item s.items)))

  -- Every listed item passes the filter.
  pub listing-matches : All (λ i. matches_filter i f ≡ true) (listing range f s)
  unfolding listing sort_items
  listing-matches =
      limit_items-All _ f.limit (sort_stable item_less selected)
        (sort_stable-All item_less _ selected selected-matches)

  -- The in-memory listing runs from the newest item to the oldest, by title among items of one
  -- time.
  pub listing-IsSorted : IsSorted item_less (listing range f s)
  unfolding listing sort_items
  listing-IsSorted =
      limit_items-IsSorted item_less f.limit (sort_stable item_less selected)
        (sort_stable-IsSorted item_less-StrictWeak selected)
