-- ===== src/Content/Service.antt =====
-- `Service` of services/api/internal/content/service.go: the methods that change the store and
-- those that read single items. What the source draws from the clock and from `newID` are
-- arguments, in the order of the calls.
pub mod Queries
pub mod Public
pub mod Aggregates
pub mod RoundTrip
pub mod Authorization
pub mod Privacy
pub mod Requests
pub mod Reads
pub mod Reachable
pub mod Isolation
use learning_garden_server.Prelude.{
  ◌≡◌, Bool, true, false, not, Option, none, some, List, Text, codes, text_eq, ◌==◌, is_empty,
  if◌then◌else◌, Exec, raise, pure, refuse, ◌>>=◌, ◌>>◌, not_found, forbidden, invalid_input,
}
use learning_garden_server.Strings.{Unicode, trim_space}
use learning_garden_server.Content.Types.{
  Time, visibility_private, Metadata, Item, CreateItemInput, UpdateItemInput, Relation, Backlink,
}
use learning_garden_server.Content.MemoryStore.{clone_metadata}
use learning_garden_server.Content.Normalize.{
  normalize_slug, normalize_relation_type, valid_item, can_view,
}
use learning_garden_server.Content.Store.{Store}

-- `if field == "" { field = value }`
abbrev pub or_else : Text → Text → Text
or_else field value = if is_empty field then value else field

-- `if input != nil { field = f(*input) }`
abbrev pub assign {ℓ κ} : {A : Type ℓ} {B : Type κ} → Option A → (A → B) → B → B
assign none f field = field
assign (some a) f field = f a

module _ (u : Unicode) where
  -- The item that `Create` builds, with its defaults.
  unfoldable pub new_item : Text → CreateItemInput → Text → Time → Time → Item
  unfolding clone_metadata
  new_item owner_id input id created updated =
      let title = trim_space input.title in
      record {
        id = id;
        owner_id = owner_id;
        kind = input.kind;
        title = title;
        slug = or_else (normalize_slug u input.slug) (normalize_slug u title);
        summary = trim_space input.summary;
        body = trim_space input.body;
        visibility = or_else input.visibility visibility_private;
        status = or_else (trim_space input.status) (codes "draft");
        metadata = clone_metadata input.metadata;
        created_at = created;
        updated_at = updated;
      }

  -- The assignments of `Update`.
  unfoldable pub edit_item : Item → UpdateItemInput → Time → Item
  unfolding clone_metadata
  edit_item item input now =
      let title = assign input.title trim_space item.title in
      let slug = assign input.slug (normalize_slug u) item.slug in
      record {
        id = item.id;
        owner_id = item.owner_id;
        kind = item.kind;
        title = title;
        slug = or_else slug (normalize_slug u title);
        summary = assign input.summary trim_space item.summary;
        body = assign input.body trim_space item.body;
        visibility = assign input.visibility (λ v. v) item.visibility;
        status = assign input.status trim_space item.status;
        metadata = assign input.metadata clone_metadata item.metadata;
        created_at = item.created_at;
        updated_at = now;
      }

  unfoldable pub new_relation : Item → Item → Text → Time → Relation
  new_relation source target relation_type now = record {
    source_id = source.id;
    target_id = target.id;
    type = normalize_relation_type u relation_type;
    created_at = now;
  }

module _ (store : Store) where
  open store use {State}

  unfoldable pub find_visible : Text → Text → Exec State Item
  find_visible id viewer_id = do
    item ← store.find_by_id (trim_space id)
    refuse (not (can_view item viewer_id)) not_found
    pure item

  unfoldable pub remove : Text → Text → Exec State (Unit {0})
  remove id actor_id = do
    item ← store.find_by_id (trim_space id)
    refuse (not (item.owner_id == trim_space actor_id)) forbidden
    store.remove item.id

  unfoldable pub backlinks : Text → Exec State (List Backlink)
  unfolding find_visible
  backlinks target_id = do target ← find_visible target_id (codes ""); store.backlinks target.id

module _ (u : Unicode) (store : Store) where
  open store use {State}

  unfoldable pub create :
      Text → CreateItemInput → (id : Text) (created updated : Time) → Exec State Item
  create owner_id input id created updated =
      let owner = trim_space owner_id in
      let item = new_item u owner input id created updated in
      do
        refuse (is_empty owner) forbidden
        refuse (not (valid_item item)) invalid_input
        store.create item

  unfoldable pub update : Text → Text → UpdateItemInput → (now : Time) → Exec State Item
  update id actor_id input now = do
    item ← store.find_by_id (trim_space id)
    refuse (not (item.owner_id == trim_space actor_id)) forbidden
    let edited = edit_item u item input now
    refuse (not (valid_item edited)) invalid_input
    store.replace edited

  unfoldable pub add_relation : Text → Text → Text → Text → (now : Time) → Exec State Relation
  unfolding find_visible
  add_relation source_id actor_id target_id relation_type now = do
    source ← store.find_by_id (trim_space source_id)
    refuse (not (source.owner_id == trim_space actor_id)) forbidden
    target ← find_visible store target_id actor_id
    let relation = new_relation u source target relation_type now
    refuse (is_empty relation.type) invalid_input
    store.add_relation relation
