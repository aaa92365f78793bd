-- ===== src/Prelude/Sort.antt =====
-- Go's `sort.SliceStable`: the stable order by a strict weak order, as an insertion sort.
use mathlib.Core.Path.{◌≡◌, ◌∙◌}
use mathlib.Core.Bool.{Bool, true, false}
use mathlib.Core.List.{List, [], ◌∷◌, map, Perm}
use mathlib.Core.List.Perm
use native.Mathlib.Omega.{arith}
use learning_garden_server.Prelude.Tests.{if◌then◌else◌, Bool-cases}
use learning_garden_server.Prelude.Lists.{All, All-map}
use mathlib.Core.Logic.{inl, inr}

module _ {ℓ} {A : Type ℓ} (less : A → A → Bool) where
  -- What comes first in the input stands before its equals.
  unfoldable pub insert_stable : A → List A → List A
  insert_stable x [] = x ∷ []
  insert_stable x (y ∷ ys) =
      let rest = insert_stable x ys in if less y x then y ∷ rest else x ∷ y ∷ ys

  unfoldable pub sort_stable : List A → List A
  sort_stable [] = []
  sort_stable (x ∷ xs) = insert_stable x (sort_stable xs)

  -- No element is less than an earlier one.
  abbrev pub IsSorted : List A → Type 0
  IsSorted [] = Unit
  IsSorted (x ∷ xs) = All (λ y. less y x ≡ false) xs × IsSorted xs

  pub insert_stable-perm : (x : A) (xs : List A) → Perm (insert_stable x xs) (x ∷ xs)
  unfolding insert_stable
  insert_stable-perm x [] = Perm.refl _
  insert_stable-perm x (y ∷ ys) = elim (Bool-cases (less y x)) [
    | inl before ↦ rw before (Perm.trans (Perm.cons y (insert_stable-perm x ys)) (Perm.swap x y ys))
    | inr after ↦ rw after (Perm.refl _)
  ]

  pub sort_stable-perm : (xs : List A) → Perm (sort_stable xs) xs
  unfolding sort_stable
  sort_stable-perm [] = Perm.refl _
  sort_stable-perm (x ∷ xs) =
      Perm.trans (insert_stable-perm x (sort_stable xs)) (Perm.cons x (sort_stable-perm xs))

  pub insert_stable-All {κ} :
      (P : A → Type κ) (x : A) (xs : List A) → P x → All P xs → All P (insert_stable x xs)
  unfolding insert_stable
  insert_stable-All P x [] p h = (p, tt)
  insert_stable-All P x (y ∷ ys) p (q, h) = ground (arith, insert_stable-All P x ys p h)

  pub sort_stable-All {κ} : (P : A → Type κ) (xs : List A) → All P xs → All P (sort_stable xs)
  unfolding sort_stable
  sort_stable-All P [] h = tt
  sort_stable-All P (x ∷ xs) (p, h) =
      insert_stable-All P x (sort_stable xs) p (sort_stable-All P xs h)

  insert_stable-All_inv {κ} :
      (P : A → Type κ) (x : A) (xs : List A) → All P (insert_stable x xs) → P x × All P xs
  unfolding insert_stable
  insert_stable-All_inv P x [] h = h
  insert_stable-All_inv P x (y ∷ ys) h = elim (Bool-cases (less y x)) [
    | inl before ↦
        let (q, rest) = rw before at h in
        let (p, all) = insert_stable-All_inv P x ys rest in (p, (q, all))
    | inr after ↦ rw after at h
  ]

  -- What holds of the sorted elements holds of all.
  pub sort_stable-All_inv {κ} : (P : A → Type κ) (xs : List A) → All P (sort_stable xs) → All P xs
  unfolding sort_stable
  sort_stable-All_inv P [] h = tt
  sort_stable-All_inv P (x ∷ xs) h =
      let (p, rest) = insert_stable-All_inv P x (sort_stable xs) h in
      (p, sort_stable-All_inv P xs rest)

-- What `sort.SliceStable` asks of `less`.
pub record StrictWeak {ℓ} {A : Type ℓ} (less : A → A → Bool) : Type ℓ where
  pub asymm : (x y : A) → less x y ≡ true → less y x ≡ false
  pub neg_trans : (x y z : A) → less x y ≡ false → less y z ≡ false → less x z ≡ false

module _ {ℓ} {A : Type ℓ} {less : A → A → Bool} (w : StrictWeak less) where
  insert_stable-IsSorted :
      (x : A) (xs : List A) → IsSorted less xs → IsSorted less (insert_stable less x xs)
  unfolding insert_stable
  insert_stable-IsSorted x [] h = (tt, tt)
  insert_stable-IsSorted x (y ∷ ys) (below, h) = elim (Bool-cases (less y x)) [
    | inl before ↦
        rw before
          (insert_stable-All less _ x ys (w.asymm y x before) below, insert_stable-IsSorted x ys h)
    | inr after ↦
        rw after ((after, All-map (λ z p. w.neg_trans z y x p after) ys below), (below, h))
  ]

  pub sort_stable-IsSorted : (xs : List A) → IsSorted less (sort_stable less xs)
  unfolding sort_stable
  sort_stable-IsSorted [] = tt
  sort_stable-IsSorted (x ∷ xs) =
      insert_stable-IsSorted x (sort_stable less xs) (sort_stable-IsSorted xs)

-- A map that keeps the order keeps a list sorted.
module _ {ℓ} {A B : Type ℓ} (less : A → A → Bool) (below : B → B → Bool) (f : A → B)
    (same : (a b : A) → below (f a) (f b) ≡ less a b) where
  map-All_below :
      (a : A) (xs : List A)
      → All (λ y. less y a ≡ false) xs
      → All (λ y. below y (f a) ≡ false) (map f xs)
  map-All_below a [] h = tt
  map-All_below a (x ∷ xs) (p, h) = (same x a ∙ p, map-All_below a xs h)

  pub IsSorted-map : (xs : List A) → IsSorted less xs → IsSorted below (map f xs)
  IsSorted-map [] h = tt
  IsSorted-map (x ∷ xs) (p, h) = (map-All_below x xs p, IsSorted-map xs h)
