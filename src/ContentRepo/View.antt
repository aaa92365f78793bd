-- ===== src/ContentRepo/View.antt =====
-- The content that the tables of the Postgres store hold, as the in-memory store of
-- services/api/internal/content/store_memory.go holds it: what is not deleted.
use learning_garden_server.Prelude.{
  ◌≡◌, refl, Bool, true, false, not, ◌&&◌, Option, none, some, [], ◌∷◌, arith, Text, text_eq, ◌==◌,
  text_beq_iff, any, keep, if◌then◌else◌, ap, Option-cases, Bool-cases, inl, inr,
}
use learning_garden_server.Prelude.Map.{Map, lookup, insert, delete, NodupKeys, delete-none}
use learning_garden_server.Content.Types.{Item, Relation}
use learning_garden_server.Content.MemoryStore.{MemoryStore, present, clone_item, clone_metadata}
use learning_garden_server.ContentRepo.Database.{Database, ItemRow, Tables}
use learning_garden_server.ContentRepo.Statements.{is_live, live_row, not_deleted_row}
use learning_garden_server.ContentRepo.PostgresStore.{item_of, decode_metadata}

abbrev pub is_dead : Option ItemRow → Bool
is_dead none = false
is_dead (some row) = not (is_live row)

abbrev pub ends_live : Tables → Relation → Bool
ends_live t r = present (live_row r.source_id t) && present (live_row r.target_id t)

module _ (db : Database) where
  abbrev pub live_items : Map ItemRow → Map Item
  live_items [] = []
  live_items ((k, row) ∷ m) =
      let rest = live_items m in if is_live row then (k, item_of db row) ∷ rest else rest

  -- Items that are not deleted, and the relations between them.
  abbrev pub view : Tables → MemoryStore
  view t = record {
    items = live_items t.items;
    relations = keep (λ e. ends_live t e.1) t.relations;
  }

  abbrev pub read_row : Option ItemRow → Option Item
  read_row none = none
  read_row (some row) = some (item_of db row)

  live_items-none :
      (k : Text) (m : Map ItemRow) → lookup k m ≡ none → lookup k (live_items m) ≡ none
  unfolding lookup
  live_items-none k [] h = refl
  live_items-none k ((j, row) ∷ m) h = ground (arith, live_items-none k m)

  pub lookup-live_items :
      (k : Text) (m : Map ItemRow)
      → NodupKeys m
      → lookup k (live_items m) ≡ read_row (not_deleted_row (lookup k m))
  unfolding lookup
  lookup-live_items k [] u = refl
  lookup-live_items k ((j, row) ∷ m) (fresh, u) = elim (Option-cases row.deleted_at) [
    | inl live ↦ rw live (ground (arith, lookup-live_items k m u))
    | inr (time, gone) ↦ rw gone (
        ground (
          arith,
          lookup-live_items k m u,
          live_items-none j m fresh,
          text_beq_iff j k,
          λ (same : j ≡ k). ap (λ i. lookup i (live_items m)) same,
        ))
  ]

  -- Writing a live row where no deleted one stands.
  pub live_items-insert :
      (k : Text) (row : ItemRow) (m : Map ItemRow)
      → is_live row ≡ true
      → is_dead (lookup k m) ≡ false
      → live_items (insert k row m) ≡ insert k (item_of db row) (live_items m)
  unfolding lookup insert
  live_items-insert k row [] live h = ground arith
  live_items-insert k row ((j, old) ∷ m) live h = elim (Option-cases old.deleted_at) [
    | inl here ↦ ground (arith, live_items-insert k row m live)
    | inr (time, gone) ↦ ground (arith, live_items-insert k row m live)
  ]

  -- Writing a deleted row over a live one.
  pub live_items-delete :
      (k : Text) (row : ItemRow) (m : Map ItemRow)
      → is_live row ≡ false
      → NodupKeys m
      → present (lookup k m) ≡ true
      → live_items (insert k row m) ≡ delete k (live_items m)
  unfolding lookup insert delete
  live_items-delete k row [] gone u h = cc
  live_items-delete k row ((j, old) ∷ m) gone (fresh, u) h = elim (Bool-cases (j == k)) [
    | inl same ↦
        let at : j ≡ k = ground (arith, text_beq_iff j k) in
        let missing : lookup k m ≡ none = cc in
        ground (arith, delete-none k (live_items m) (live_items-none k m missing))
    | inr apart ↦ ground (arith, live_items-delete k row m gone u)
  ]

  -- Where no deleted row has the slot, the constraint sees the conflicts that the view has.
  pub any-live_items :
      (p : ItemRow → Bool) (q : Item → Bool) (m : Map ItemRow)
      → ((row : ItemRow) → q (item_of db row) ≡ p row)
      → any (λ e. not (is_live e.1) && p e.1) m ≡ false
      → any (λ e. q e.1) (live_items m) ≡ any (λ e. p e.1) m
  any-live_items p q [] same h = refl
  any-live_items p q ((k, row) ∷ m) same h = elim (Option-cases row.deleted_at) [
    | inl here ↦ ground (arith, any-live_items p q m same, same row)
    | inr (time, gone) ↦ ground (arith, any-live_items p q m same)
  ]

  clone_metadata-decode_metadata :
      (raw : Text) → clone_metadata (decode_metadata db raw) ≡ decode_metadata db raw
  unfolding clone_metadata decode_metadata
  clone_metadata-decode_metadata [] = refl
  clone_metadata-decode_metadata (c ∷ raw) = ground arith

  pub clone_item-item_of : (row : ItemRow) → clone_item (item_of db row) ≡ item_of db row
  unfolding clone_item item_of
  clone_item-item_of row = rw (clone_metadata-decode_metadata row.metadata) refl
