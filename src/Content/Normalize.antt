-- ===== src/Content/Normalize.antt =====
-- The helpers of services/api/internal/content/service.go: normalised slugs and relation types,
-- and the check of an item before it is stored.
pub mod Slug
use learning_garden_server.Prelude.{
  ℕ, Bool, true, false, not, ◌&&◌, ◌||◌, map, Text, nat_eq, text_eq, ◌==◌, is_empty, if◌then◌else◌,
}
use learning_garden_server.Strings.{Unicode, to_lower, trim_space, trim, replace_all}
use learning_garden_server.Content.Types.{
  Kind, kind_track, kind_note, kind_paper, kind_experiment, Visibility, visibility_private,
  visibility_public, visibility_unlisted, Item,
}

-- The replacer of `normalizeSlug`: a space, `_`, `/` and `\` become a dash.
unfoldable pub dash_rune : ℕ → ℕ
dash_rune c = if c == b' ' || c == b'_' || c == b'/' || c == 92 then b'-' else c

abbrev pub is_dash : ℕ → Bool
is_dash c = c == b'-'

unfoldable pub normalize_slug : Unicode → Text → Text
unfolding dash_rune trim to_lower trim_space
normalize_slug u value =
    let value = to_lower u (trim_space value) in
    let value = map dash_rune value in trim is_dash value

unfoldable pub normalize_relation_type : Unicode → Text → Text
unfolding replace_all to_lower trim_space
normalize_relation_type u value =
    let value = to_lower u (trim_space value) in replace_all b' ' b'_' value

unfoldable pub valid_kind : Kind → Bool
valid_kind k = k == kind_track || k == kind_note || k == kind_paper || k == kind_experiment

unfoldable pub valid_visibility : Visibility → Bool
valid_visibility v = v == visibility_private || v == visibility_public || v == visibility_unlisted

-- `validateItem(item) == nil`; its only error is `ErrInvalidInput`.
unfoldable pub valid_item : Item → Bool
valid_item item =
    if not (valid_kind item.kind) || not (valid_visibility item.visibility)
    then false
    else if is_empty (trim_space item.owner_id)
        || is_empty (trim_space item.title)
        || is_empty (trim_space item.slug)
    then false
    else true

-- `canView`
unfoldable pub can_view : Item → Text → Bool
can_view item viewer_id =
    if item.visibility == visibility_public || item.visibility == visibility_unlisted
    then true
    else item.owner_id == trim_space viewer_id && not (is_empty viewer_id)
