-- ===== src/Prelude/Map.antt =====
-- Go's `map[string]V` as an association list, by its laws.
use mathlib.Core.Path.{◌≡◌, refl, ap}
use mathlib.Core.Bool.{Bool, true, false}
use mathlib.Core.Logic.{inl, inr}
use mathlib.Core.Option.{Option, none, some}
use mathlib.Core.List.{List, [], ◌∷◌}
use native.Mathlib.Omega.{arith}
use learning_garden_server.Prelude.Tests.{◌==◌, if◌then◌else◌, Bool-cases}
use learning_garden_server.Prelude.Texts.{Text, text_eq, text_beq_iff}
use learning_garden_server.Prelude.Lists.{keep, any, All, All-map}

abbrev pub Map {ℓ} : Type ℓ → Type ℓ
Map V = List (Text × V)

module _ {ℓ} {V : Type ℓ} where
  -- `v, ok := m[k]`
  unfoldable pub lookup : Text → Map V → Option V
  lookup k [] = none
  lookup k ((j, v) ∷ m) = if j == k then some v else lookup k m

  -- `m[k] = v`
  unfoldable pub insert : Text → V → Map V → Map V
  insert key new [] = (key, new) ∷ []
  insert key new ((j, old) ∷ rest) =
      if j == key then (key, new) ∷ rest else (j, old) ∷ insert key new rest

  -- `delete(m, k)`. Every entry of the key goes; a Go map has at most one.
  unfoldable pub delete : Text → Map V → Map V
  delete k [] = []
  delete k ((j, w) ∷ m) = let rest = delete k m in if j == k then rest else (j, w) ∷ rest

  -- Each key stands once.
  abbrev pub NodupKeys : Map V → Type ℓ
  NodupKeys [] = Unit
  NodupKeys ((k, _) ∷ m) = (lookup k m ≡ none) × NodupKeys m

  pub lookup-insert :
      (k j : Text) (v : V) (m : Map V)
      → lookup j (insert k v m) ≡ (if k == j then some v else lookup j m)
  unfolding lookup insert
  lookup-insert k j v [] = refl
  lookup-insert k j v ((i, old) ∷ rest) =
      ground (arith, lookup-insert k j v rest, text_beq_iff i j, text_beq_iff i k, text_beq_iff k j)

  pub lookup-delete :
      (k j : Text) (m : Map V) → lookup j (delete k m) ≡ (if k == j then none else lookup j m)
  unfolding lookup delete
  lookup-delete k j [] = ground arith
  lookup-delete k j ((i, w) ∷ m) =
      ground (arith, text_beq_iff k j, text_beq_iff i k, text_beq_iff i j, lookup-delete k j m)

  pub insert-NodupKeys : (k : Text) (v : V) (m : Map V) → NodupKeys m → NodupKeys (insert k v m)
  unfolding insert lookup
  insert-NodupKeys k v [] _ = (refl, tt)
  insert-NodupKeys k v ((j, w) ∷ m) (fresh, u) =
      ground
        (arith, insert-NodupKeys k v m u, lookup-insert k j v m, text_beq_iff j k, text_beq_iff k j)

  pub delete-NodupKeys : (k : Text) (m : Map V) → NodupKeys m → NodupKeys (delete k m)
  unfolding delete
  delete-NodupKeys k [] _ = tt
  delete-NodupKeys k ((j, w) ∷ m) (fresh, u) =
      ground (arith, delete-NodupKeys k m u, lookup-delete k j m)

  -- A test that fails at every entry fails at each value that a lookup finds.
  pub any-lookup :
      (p : Text × V → Bool) (k : Text) (v : V) (m : Map V)
      → any p m ≡ false
      → lookup k m ≡ some v
      → p (k, v) ≡ false
  unfolding lookup
  any-lookup p k v [] h e = cc
  any-lookup p k v ((j, w) ∷ m) h e = ground (arith, text_beq_iff j k, any-lookup p k v m)

module _ {ℓ} {V : Type ℓ} where
  pub entries_found : (m : Map V) → NodupKeys m → All (λ e. lookup e.0 m ≡ some e.1) m
  unfolding lookup
  entries_found [] h = tt
  entries_found ((k, i) ∷ m) (fresh, h) = (
    ground (arith, text_beq_iff k k),
    All-map
        (λ e there.
          ground (arith, text_beq_iff k e.0, λ (same : k ≡ e.0). ap (λ j. lookup j m) same))
        m (entries_found m h),
  )

  -- Deleting a key that is not there changes nothing.
  pub delete-none : (k : Text) (m : Map V) → lookup k m ≡ none → delete k m ≡ m
  unfolding lookup delete
  delete-none k [] h = refl
  delete-none k ((j, v) ∷ m) h = ground (arith, delete-none k m)

-- The law for a loop that deletes the entries that fail a test.
module _ {ℓ} {V : Type ℓ} (t : Text × V → Bool) where
  lookup-keep-none : (k : Text) (m : Map V) → lookup k m ≡ none → lookup k (keep t m) ≡ none
  unfolding lookup
  lookup-keep-none k [] h = refl
  lookup-keep-none k ((j, v) ∷ m) h = ground (arith, lookup-keep-none k m)

  abbrev pub pass_or_none : Text → Option V → Option V
  pass_or_none k none = none
  pass_or_none k (some v) = if t (k, v) then some v else none

  pub lookup-keep :
      (k : Text) (m : Map V) → NodupKeys m → lookup k (keep t m) ≡ pass_or_none k (lookup k m)
  unfolding lookup
  lookup-keep k [] u = refl
  lookup-keep k ((j, v) ∷ m) (fresh, u) =
      ground (arith, lookup-keep k m u, lookup-keep-none j m fresh, text_beq_iff j k)

  pub keep-NodupKeys : (m : Map V) → NodupKeys m → NodupKeys (keep t m)
  keep-NodupKeys [] u = tt
  keep-NodupKeys ((j, v) ∷ m) (fresh, u) =
      ground (arith, keep-NodupKeys m u, lookup-keep-none j m fresh)

  -- Writing an entry that passes where none that fails stands.
  pub keep-insert :
      (k : Text) (v : V) (m : Map V)
      → t (k, v) ≡ true
      → ((old : V) → lookup k m ≡ some old → t (k, old) ≡ true)
      → keep t (insert k v m) ≡ insert k v (keep t m)
  unfolding lookup insert
  keep-insert k v [] h old = ground arith
  keep-insert k v ((j, w) ∷ m) h old = elim (Bool-cases (j == k)) [
    | inl same ↦
        let at : j ≡ k = ground (arith, text_beq_iff j k) in
        let passes : t (k, w) ≡ true = old w (ground arith) in
        rw at (ground (arith, passes, text_beq_iff k k))
    | inr apart ↦
        let rest = keep-insert k v m h (λ o e. old o (ground arith)) in ground (arith, rest)
  ]
