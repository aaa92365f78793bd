-- ===== src/Content/Normalize/Slug.antt =====
-- What a normalised slug looks like, and when normalising it again changes nothing.
use learning_garden_server.Prelude.{
  ℕ, ◌≡◌, ◌≢◌, refl, ◌⊎◌, inl, inr, false, [], ◌∷◌, map, arith, Text, All, All-map, All-map_image,
}
use learning_garden_server.Strings.{Unicode, is_space, lower_rune, to_lower, trim_space}
use learning_garden_server.Strings.Trim.{
  HeadKept, LastKept, trim-HeadKept, trim-LastKept, trim-fixed, trim-All, trim-All_kept,
}
use learning_garden_server.Strings.Lower.{
  IsLower, to_lower-IsLower, to_lower-fixed, lower_rune_small, is_space-dash, is_space-lower_rune,
}
use learning_garden_server.Content.Normalize.{dash_rune, is_dash, normalize_slug}

-- The character is none of those that the slug replaces, and lower case leaves it alone.
abbrev pub IsSlugRune : Unicode → ℕ → Type 0
IsSlugRune u c = (c ≢ b' ') × (c ≢ b'_') × (c ≢ b'/') × (c ≢ 92) × IsLower u c

dash_rune-IsSlugRune : (u : Unicode) (c : ℕ) → IsLower u c → IsSlugRune u (dash_rune c)
unfolding dash_rune
dash_rune-IsSlugRune u c h = ground (arith, h, lower_rune_small u b'-')

dash_rune-fixed : (u : Unicode) (c : ℕ) → IsSlugRune u c → dash_rune c ≡ c
unfolding dash_rune
dash_rune-fixed u c h = ground arith

map-dash_rune-fixed : (u : Unicode) (s : Text) → All (IsSlugRune u) s → map dash_rune s ≡ s
map-dash_rune-fixed u [] h = refl
map-dash_rune-fixed u (c ∷ s) (p, h) = rw (dash_rune-fixed u c p, map-dash_rune-fixed u s h)

-- Every slug is lower case, holds no space, `_`, `/` or `\`, and neither begins nor ends with a
-- dash.
pub normalize_slug_lem :
    (u : Unicode) (value : Text)
    → All (IsSlugRune u) (normalize_slug u value)
      × HeadKept is_dash (normalize_slug u value)
      × LastKept is_dash (normalize_slug u value)
unfolding normalize_slug
normalize_slug_lem u value =
    let lowered = to_lower u (trim_space value) in
    (
      trim-All is_dash (IsSlugRune u) (map dash_rune lowered) (
          All-map_image (IsSlugRune u) dash_rune lowered
            (All-map (dash_rune-IsSlugRune u) lowered (to_lower-IsLower u (trim_space value)))),
      trim-HeadKept is_dash (map dash_rune lowered),
      trim-LastKept is_dash (map dash_rune lowered),
    )

-- A character that is no space, but for the blank itself.
abbrev pub IsPlain : ℕ → Type 0
IsPlain c = (is_space c ≡ false) ⊎ (c ≡ b' ')

dash_rune-unspaced :
    (u : Unicode) (c : ℕ) → IsPlain c → is_space (dash_rune (lower_rune u c)) ≡ false
unfolding dash_rune
dash_rune-unspaced u c (inl h) = ground (arith, is_space-dash, is_space-lower_rune u c)
dash_rune-unspaced u c (inr h) = ground (arith, is_space-dash, lower_rune_small u c)

slug-unspaced :
    (u : Unicode) (value : Text)
    → All IsPlain value
    → All (λ c. is_space c ≡ false) (normalize_slug u value)
unfolding normalize_slug trim_space to_lower
slug-unspaced u value h = trim-All is_dash _ _ (
    All-map_image _ dash_rune _ (
      All-map_image _ (lower_rune u) _
        (All-map (dash_rune-unspaced u) _ (trim-All is_space IsPlain value h))))

trim_space-unspaced : (s : Text) → All (λ c. is_space c ≡ false) s → trim_space s ≡ s
unfolding trim_space
trim_space-unspaced s h = trim-All_kept is_space s h

-- Where the value's only spaces are blanks, a slug is its own slug.
pub normalize_slug_idem :
    (u : Unicode) (value : Text)
    → All IsPlain value
    → normalize_slug u (normalize_slug u value) ≡ normalize_slug u value
normalize_slug_idem u value h =
    let slug = normalize_slug u value in
    let (runes, first, last) = normalize_slug_lem u value in
    slug_fixed slug runes first last (slug-unspaced u value h)
  where
    slug_fixed :
        (s : Text)
        → All (IsSlugRune u) s
        → HeadKept is_dash s
        → LastKept is_dash s
        → All (λ c. is_space c ≡ false) s
        → normalize_slug u s ≡ s
    slug_fixed s runes first last unspaced =
        unfold normalize_slug in
        rw
          (
            trim_space-unspaced s unspaced,
            to_lower-fixed u s (All-map (λ c p. p.4) s runes),
            map-dash_rune-fixed u s runes,
          )
          (trim-fixed is_dash s first last)
