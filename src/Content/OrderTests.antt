-- ===== src/Content/OrderTests.antt =====
-- The listing of the sample garden in two orders of its map.
use learning_garden_server.Prelude.{◌≡◌, some, [], arith, Text, text_eq}
use mathlib.Core.List.{reverse, reverse_perm}
use learning_garden_server.Prelude.Map.{lookup}
use learning_garden_server.Prelude.Int.{pos}
use learning_garden_server.Content.Types.{Item, ListFilter}
use learning_garden_server.Content.MemoryStore.{Range, listing}
use learning_garden_server.Content.MemoryStore.Order.{listing_unordered}
use learning_garden_server.Content.Tests.{garden-IsWellFormed}
use learning_garden_server.Samples.{in_order}
use learning_garden_server.Samples.Garden.{garden}

-- Maps are visited from their last entry to the first.
abbrev backwards : Range
backwards = record { visit = λ V m. reverse m; perm = λ V m. reverse_perm m }

abbrev everything : ListFilter
everything = record { kind = []; owner_id = []; visibility = []; limit = pos 0 }

garden_apart :
    (j k : Text) (a b : Item)
    → lookup j garden.items ≡ some a
    → lookup k garden.items ≡ some b
    → a.updated_at ≡ b.updated_at
    → a.title ≡ b.title
    → a ≡ b
unfolding lookup
garden_apart j k a b h h' time title = ground arith

listing_unordered_example : listing in_order everything garden ≡ listing backwards everything garden
listing_unordered_example =
    listing_unordered garden garden-IsWellFormed.store_valid.nodup_items garden_apart everything
      in_order backwards
