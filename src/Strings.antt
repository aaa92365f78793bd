-- ===== src/Strings.antt =====
-- The functions of Go's `strings` and `unicode` packages that the program calls, over code points.
pub mod Trim
pub mod Lower
pub mod Split
use learning_garden_server.Prelude.{
  ℕ, ◌+◌, ◌<◌, ◌≤◌, ◌≡◌, ◌⊎◌, Bool, true, false, ◌&&◌, ◌||◌, List, [], ◌∷◌, ◌++◌, map, leb, ltb,
  nat_eq, ◌==◌, if◌then◌else◌, Text, is_empty,
}

-- `unicode.IsSpace`
unfoldable pub is_space : ℕ → Bool
is_space c =
    (leb 9 c && leb c 13)
    || c == 32
    || c == 0x85
    || c == 0xA0
    || c == 0x1680
    || (leb 0x2000 c && leb c 0x200a)
    || c == 0x2028
    || c == 0x2029
    || c == 0x202f
    || c == 0x205f
    || c == 0x3000

-- The table of `unicode.ToLower` above ASCII. It only moves letters, to lower-case letters.
pub record Unicode : Type 0 where
  pub lower : ℕ → ℕ
  pub letters :
      (c : ℕ)
      → 128 ≤ c
      → (lower c ≡ c) ⊎ ((96 < lower c) × (is_space (lower c) ≡ false) × (is_space c ≡ false))
  pub idem : (c : ℕ) → 128 ≤ c → 128 ≤ lower c → lower (lower c) ≡ lower c

-- `unicode.ToLower`
pub lower_rune : Unicode → ℕ → ℕ
lower_rune u c = if ltb c 128 then (if leb 65 c && leb c 90 then c + 32 else c) else u.lower c

-- `strings.ToLower`
unfoldable pub to_lower : Unicode → Text → Text
unfolding lower_rune
to_lower u s = map (lower_rune u) s

module _ (p : ℕ → Bool) where
  -- `strings.TrimLeftFunc`, `strings.TrimRightFunc` and `strings.TrimFunc`
  unfoldable pub trim_left : Text → Text
  trim_left [] = []
  trim_left (c ∷ s) = let rest = trim_left s in if p c then rest else c ∷ s

  unfoldable pub trim_right : Text → Text
  trim_right [] = []
  trim_right (c ∷ s) = let rest = trim_right s in if p c && is_empty rest then [] else c ∷ rest

  unfoldable pub trim : Text → Text
  unfolding trim_left trim_right
  trim s = trim_right (trim_left s)

-- `strings.TrimSpace`
unfoldable pub trim_space : Text → Text
unfolding trim is_space
trim_space = trim is_space

-- `strings.ReplaceAll` of one character by another
abbrev pub replace_rune : ℕ → ℕ → ℕ → ℕ
replace_rune old new c = if c == old then new else c

unfoldable pub replace_all : ℕ → ℕ → Text → Text
replace_all old new s = map (replace_rune old new) s

-- `strings.HasPrefix` with `strings.TrimPrefix`: what follows the prefix, if it is there.
unfoldable pub has_prefix : Text → Text → Bool
has_prefix s [] = true
has_prefix [] (c ∷ p) = false
has_prefix (d ∷ s) (c ∷ p) = d == c && has_prefix s p

abbrev drop_text : Text → Text → Text
drop_text s [] = s
drop_text [] (c ∷ p) = []
drop_text (d ∷ s) (c ∷ p) = drop_text s p

unfoldable pub trim_prefix : Text → Text → Text
unfolding has_prefix
trim_prefix s p = if has_prefix s p then drop_text s p else s

abbrev pub push_first : ℕ → List Text → List Text
push_first c [] = (c ∷ []) ∷ []
push_first c (w ∷ ws) = (c ∷ w) ∷ ws

-- `strings.Split` at one character
unfoldable pub split : ℕ → Text → List Text
split sep [] = [] ∷ []
split sep (c ∷ s) = let rest = split sep s in if c == sep then [] ∷ rest else push_first c rest

-- `strings.SplitN(s, sep, 2)`
unfoldable pub split_pair : ℕ → Text → List Text
split_pair sep [] = [] ∷ []
split_pair sep (c ∷ s) =
    let rest = split_pair sep s in if c == sep then [] ∷ s ∷ [] else push_first c rest

-- `strings.Join`
unfoldable pub join : Text → List Text → Text
join sep [] = []
join sep (w ∷ []) = w
join sep (w ∷ v ∷ ws) = w ++ sep ++ join sep (v ∷ ws)
