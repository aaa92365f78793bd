-- ===== src/Prelude/Permute.antt =====
-- Sorting a list in another order, where no two of its elements tie.
use mathlib.Core.Path.{◌≡◌, refl, sym, ap, ◌∙◌, subst}
use mathlib.Core.Logic.{◌⊎◌, inl, inr}
use mathlib.Core.Bool.{Bool, true}
use mathlib.Core.List.{List, [], ◌∷◌, map}
use mathlib.Core.List.{Permᴰ}
use mathlib.Core.List.Permᴰ
use native.Mathlib.Omega.{arith}
use learning_garden_server.Prelude.Tests.{Bool-cases}
use learning_garden_server.Prelude.Lists.{All, keep}
use learning_garden_server.Prelude.Sort.{insert_stable, sort_stable, StrictWeak}

module _ {ℓ} {A : Type ℓ} {less : A → A → Bool} (w : StrictWeak less) where
  -- One comes before the other, or they are the same.
  abbrev pub Apart : A → A → Type ℓ
  Apart a b = ((less a b ≡ true) ⊎ (less b a ≡ true)) ⊎ (a ≡ b)

  insert_comm :
      (x y : A) (zs : List A)
      → less x y ≡ true
      → insert_stable less x (insert_stable less y zs)
        ≡ insert_stable less y (insert_stable less x zs)
  unfolding insert_stable
  insert_comm x y [] h = ground (arith, w.asymm x y h)
  insert_comm x y (z ∷ zs) h =
      ground (arith, w.asymm x y h, insert_comm x y zs h, w.neg_trans z y x)

  insert-Apart :
      (x y : A) (zs : List A)
      → Apart x y
      → insert_stable less x (insert_stable less y zs)
        ≡ insert_stable less y (insert_stable less x zs)
  insert-Apart x y zs (inl (inl h)) = insert_comm x y zs h
  insert-Apart x y zs (inl (inr h)) = sym (insert_comm y x zs h)
  insert-Apart x y zs (inr e) = rw e

  All-Permᴰ {κ} : (P : A → Type κ) {xs ys : List A} → Permᴰ xs ys → All P xs → All P ys
  All-Permᴰ P Permᴰ.nil h = h
  All-Permᴰ P (Permᴰ.cons e p) (pa, h) = (subst P e pa, All-Permᴰ P p h)
  All-Permᴰ P (Permᴰ.swap e f) (pa, (pb, h)) = (subst P f pb, (subst P e pa, h))
  All-Permᴰ P (Permᴰ.trans p q) h = All-Permᴰ P q (All-Permᴰ P p h)

  pub sort_stable-Permᴰ {κ} :
      (P : A → Type κ)
      → ((a b : A) → P a → P b → Apart a b)
      → {xs ys : List A} → Permᴰ xs ys
      → All P xs
      → sort_stable less xs ≡ sort_stable less ys
  unfolding sort_stable
  sort_stable-Permᴰ P apart Permᴰ.nil h = refl
  sort_stable-Permᴰ P apart (Permᴰ.cons e p) (pa, h) = rw (e, sort_stable-Permᴰ P apart p h)
  sort_stable-Permᴰ P apart (Permᴰ.swap {a} {b} e f) (pa, (pb, h)) =
      rw (← e, ← f) (insert-Apart a b _ (apart a b pa pb))
  sort_stable-Permᴰ P apart (Permᴰ.trans p q) h =
      sort_stable-Permᴰ P apart p h ∙ sort_stable-Permᴰ P apart q (All-Permᴰ P p h)

module _ {ℓ κ} {A : Type ℓ} {B : Type κ} where
  pub map-Permᴰ : (f : A → B) {xs ys : List A} → Permᴰ xs ys → Permᴰ (map f xs) (map f ys)
  map-Permᴰ f Permᴰ.nil = Permᴰ.nil
  map-Permᴰ f (Permᴰ.cons e p) = Permᴰ.cons (ap f e) (map-Permᴰ f p)
  map-Permᴰ f (Permᴰ.swap e g) = Permᴰ.swap (ap f e) (ap f g)
  map-Permᴰ f (Permᴰ.trans p q) = Permᴰ.trans (map-Permᴰ f p) (map-Permᴰ f q)

pub keep-Permᴰ {ℓ} :
    {A : Type ℓ} (t : A → Bool) {xs ys : List A} → Permᴰ xs ys → Permᴰ (keep t xs) (keep t ys)
keep-Permᴰ t Permᴰ.nil = Permᴰ.nil
keep-Permᴰ t (Permᴰ.cons {a} {b} e p) = elim (Bool-cases (t a)) [
  | inl kept ↦ rw (← e, kept) (Permᴰ.cons refl (keep-Permᴰ t p))
  | inr left ↦ rw (← e, left) (keep-Permᴰ t p)
]
keep-Permᴰ t (Permᴰ.swap {a} {b} e g) = elim (Bool-cases (t a)) [
  | inl first ↦ elim (Bool-cases (t b)) [
    | inl second ↦ rw (← e, ← g, first, second) (Permᴰ.swap refl refl)
    | inr second ↦ rw (← e, ← g, first, second) (Permᴰ.refl _)
  ]
  | inr first ↦ rw (← e, ← g, first) (Permᴰ.refl _)
]
keep-Permᴰ t (Permᴰ.trans p q) = Permᴰ.trans (keep-Permᴰ t p) (keep-Permᴰ t q)
