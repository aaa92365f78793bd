-- ===== src/Strings/Lower.antt =====
-- Lower case: applying it twice changes nothing, and it makes and moves no space.
use learning_garden_server.Prelude.{ℕ, ◌≡◌, refl, ◌<◌, ◌⊎◌, false, [], ◌∷◌, arith, Text, All}
use learning_garden_server.Strings.{is_space, Unicode, lower_rune, to_lower, trim_space}
use learning_garden_server.Strings.Trim.{trim-map}

-- Neither A to Z nor a space stands between 14 and 31 or 33 and 127.
is_space_graphic : (c : ℕ) → 32 < c → c < 128 → is_space c ≡ false
unfolding is_space
is_space_graphic c h k = ground arith

-- A code point that lower case leaves alone.
abbrev pub IsLower : Unicode → ℕ → Type 0
IsLower u c = lower_rune u c ≡ c

module _ (u : Unicode) where
  lower_rune-IsLower : (c : ℕ) → IsLower u (lower_rune u c)
  unfolding lower_rune
  lower_rune-IsLower c = ground (arith, u.letters c, u.idem c)

  pub is_space-lower_rune : (c : ℕ) → is_space (lower_rune u c) ≡ is_space c
  unfolding lower_rune
  is_space-lower_rune c =
      ground (arith, u.letters c, is_space_graphic c, is_space_graphic (lower_rune u c))

  -- Above the capitals, or unchanged.
  pub lower_rune_cases : (c : ℕ) → (lower_rune u c ≡ c) ⊎ (96 < lower_rune u c)
  unfolding lower_rune
  lower_rune_cases c = ground (arith, u.letters c)

  pub to_lower-IsLower : (s : Text) → All (IsLower u) (to_lower u s)
  unfolding to_lower
  to_lower-IsLower [] = tt
  to_lower-IsLower (c ∷ s) = (lower_rune-IsLower c, to_lower-IsLower s)

  pub to_lower-fixed : (s : Text) → All (IsLower u) s → to_lower u s ≡ s
  unfolding to_lower
  to_lower-fixed [] h = refl
  to_lower-fixed (c ∷ s) (l, h) = rw (l, to_lower-fixed s h)

  pub trim_space-to_lower : (s : Text) → trim_space (to_lower u s) ≡ to_lower u (trim_space s)
  unfolding trim_space to_lower
  trim_space-to_lower s = trim-map is_space (lower_rune u) is_space-lower_rune s

-- Below the capitals nothing changes.
pub lower_rune_small : (u : Unicode) (c : ℕ) → c < 65 → lower_rune u c ≡ c
unfolding lower_rune
lower_rune_small u c h = ground arith

-- A dash is no space.
pub is_space-dash : is_space b'-' ≡ false
unfolding is_space
is_space-dash = refl

pub trim_space-nil : trim_space [] ≡ []
unfolding trim_space
trim_space-nil = refl
