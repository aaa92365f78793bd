-- ===== src/Strings/Split.antt =====
-- Splitting at a separator that the parts do not hold.
use learning_garden_server.Prelude.{ℕ, ◌≡◌, ◌≢◌, refl, [], ◌∷◌, ◌++◌, arith, Text, All}
use learning_garden_server.Strings.{split, split_pair}

-- The text does not hold the separator.
abbrev pub Free : ℕ → Text → Type 0
Free sep s = All (λ c. c ≢ sep) s

module _ (sep : ℕ) where
  pub split-Free : (s : Text) → Free sep s → split sep s ≡ s ∷ []
  unfolding split
  split-Free [] h = refl
  split-Free (c ∷ s) (n, h) = ground (arith, split-Free s h)

  pub split-append : (s t : Text) → Free sep s → split sep (s ++ sep ∷ t) ≡ s ∷ split sep t
  unfolding split
  split-append [] t h = ground arith
  split-append (c ∷ s) t (n, h) = ground (arith, split-append s t h)

  pub split_pair-append : (s t : Text) → Free sep s → split_pair sep (s ++ sep ∷ t) ≡ s ∷ t ∷ []
  unfolding split_pair
  split_pair-append [] t h = ground arith
  split_pair-append (c ∷ s) t (n, h) = ground (arith, split_pair-append s t h)
