-- ===== src/Strings/Trim.antt =====
-- What trimming leaves: neither end passes the test, and trimming again changes nothing.
use learning_garden_server.Prelude.{
  ℕ, ◌≡◌, refl, Bool, false, [], ◌∷◌, map, arith, Text, All, Bool-cases, inl, inr,
}
use learning_garden_server.Strings.{trim_left, trim_right, trim}

module _ (p : ℕ → Bool) where
  abbrev pub HeadKept : Text → Type 0
  HeadKept [] = Unit
  HeadKept (c ∷ s) = p c ≡ false

  abbrev pub LastKept : Text → Type 0
  LastKept [] = Unit
  LastKept (c ∷ []) = p c ≡ false
  LastKept (c ∷ d ∷ s) = LastKept (d ∷ s)

  trim_left-HeadKept : (s : Text) → HeadKept (trim_left p s)
  unfolding trim_left
  trim_left-HeadKept [] = tt
  trim_left-HeadKept (c ∷ s) = ground (arith, trim_left-HeadKept s)

  trim_right-HeadKept : (s : Text) → HeadKept s → HeadKept (trim_right p s)
  unfolding trim_right
  trim_right-HeadKept [] h = tt
  trim_right-HeadKept (c ∷ s) h = ground arith

  LastKept-cons : (c : ℕ) (r : Text) → LastKept r → (r ≡ [] → p c ≡ false) → LastKept (c ∷ r)
  LastKept-cons c [] h k = k refl
  LastKept-cons c (d ∷ r) h k = h

  trim_right-LastKept : (s : Text) → LastKept (trim_right p s)
  unfolding trim_right
  trim_right-LastKept [] = tt
  trim_right-LastKept (c ∷ s) =
      ground (arith, trim_right-LastKept s, LastKept-cons c (trim_right p s))

  pub trim-HeadKept : (s : Text) → HeadKept (trim p s)
  unfolding trim
  trim-HeadKept s = trim_right-HeadKept (trim_left p s) (trim_left-HeadKept s)

  pub trim-LastKept : (s : Text) → LastKept (trim p s)
  unfolding trim
  trim-LastKept s = trim_right-LastKept (trim_left p s)

  trim_left-fixed : (s : Text) → HeadKept s → trim_left p s ≡ s
  unfolding trim_left
  trim_left-fixed [] h = refl
  trim_left-fixed (c ∷ s) h = rw h

  trim_right-fixed : (s : Text) → LastKept s → trim_right p s ≡ s
  unfolding trim_right
  trim_right-fixed [] h = refl
  trim_right-fixed (c ∷ []) h = rw h
  trim_right-fixed (c ∷ d ∷ s) h = ground (arith, trim_right-fixed (d ∷ s) h)

  -- A text with neither end to trim is left as it is.
  pub trim-fixed : (s : Text) → HeadKept s → LastKept s → trim p s ≡ s
  unfolding trim
  trim-fixed s h k = rw (trim_left-fixed s h) (trim_right-fixed s k)

  pub trim_idem : (s : Text) → trim p (trim p s) ≡ trim p s
  trim_idem s = trim-fixed (trim p s) (trim-HeadKept s) (trim-LastKept s)

  trim_left-All {κ} : (P : ℕ → Type κ) (s : Text) → All P s → All P (trim_left p s)
  unfolding trim_left
  trim_left-All P [] h = tt
  trim_left-All P (c ∷ s) (q, h) = ground (arith, trim_left-All P s h)

  trim_right-All {κ} : (P : ℕ → Type κ) (s : Text) → All P s → All P (trim_right p s)
  unfolding trim_right
  trim_right-All P [] h = tt
  trim_right-All P (c ∷ s) (q, h) = ground (arith, trim_right-All P s h)

  -- Trimming takes nothing in.
  pub trim-All {κ} : (P : ℕ → Type κ) (s : Text) → All P s → All P (trim p s)
  unfolding trim
  trim-All P s h = trim_right-All P (trim_left p s) (trim_left-All P s h)

module _ (p : ℕ → Bool) (f : ℕ → ℕ) (same : (c : ℕ) → p (f c) ≡ p c) where
  trim_left-map : (s : Text) → trim_left p (map f s) ≡ map f (trim_left p s)
  unfolding trim_left
  trim_left-map [] = refl
  trim_left-map (c ∷ s) = ground (arith, same c, trim_left-map s)

  trim_right-map : (s : Text) → trim_right p (map f s) ≡ map f (trim_right p s)
  unfolding trim_right
  trim_right-map [] = refl
  trim_right-map (c ∷ s) = elim (Bool-cases (p c)) [
    | inl cut ↦ ground (arith, same c, trim_right-map s)
    | inr kept ↦ ground (arith, same c, trim_right-map s)
  ]

  -- Trimming commutes with a change of characters that the test does not see.
  pub trim-map : (s : Text) → trim p (map f s) ≡ map f (trim p s)
  unfolding trim
  trim-map s = rw (trim_left-map s) (trim_right-map (trim_left p s))

module _ (p : ℕ → Bool) where
  -- Where no character passes the test, trimming changes nothing.
  All-HeadKept : (s : Text) → All (λ c. p c ≡ false) s → HeadKept p s
  All-HeadKept [] h = tt
  All-HeadKept (c ∷ s) (q, h) = q

  All-LastKept : (s : Text) → All (λ c. p c ≡ false) s → LastKept p s
  All-LastKept [] h = tt
  All-LastKept (c ∷ []) (q, h) = q
  All-LastKept (c ∷ d ∷ s) (q, h) = All-LastKept (d ∷ s) h

  pub trim-All_kept : (s : Text) → All (λ c. p c ≡ false) s → trim p s ≡ s
  trim-All_kept s h = trim-fixed p s (All-HeadKept s h) (All-LastKept s h)
