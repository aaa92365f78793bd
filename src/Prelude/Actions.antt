-- ===== src/Prelude/Actions.antt =====
-- Actions that read only, that fail without a trace, and that keep an invariant: one rule for
-- each way to build an action.
use mathlib.Core.Path.{◌≡◌, refl, ◌∙◌}
use mathlib.Core.Bool.{Bool, true, false}
use learning_garden_server.Prelude.Effects.{
  Error, Result, ok, err, Exec, pure, refuse, continue, ◌>>=◌, ◌>>◌,
}
use learning_garden_server.Prelude.Tests.{if◌then◌else◌}

-- The action leaves the state as it was, whatever it answers.
pub record IsReader {ℓ} {S A : Type ℓ} (m : Exec S A) : Type ℓ where
  pub at : (s : S) → (m s).1 ≡ s

-- The action leaves the state as it was when it answers an error.
pub record IsAtomic {ℓ} {S A : Type ℓ} (m : Exec S A) : Type ℓ where
  pub at : (s : S) (e : Error) → (m s).0 ≡ err e → (m s).1 ≡ s

-- The action keeps `P`, whatever it answers.
pub record Keeps {ℓ} {S A : Type ℓ} (Inv : S → Type ℓ) (action : Exec S A) : Type ℓ where
  pub at : (before : S) → Inv before → Inv (action before).1

module _ {ℓ} {S A : Type ℓ} where
  pub IsReader-pure : (a : A) → IsReader (pure {S = S} a)
  IsReader-pure a = record { at = λ s. refl }

  pub IsAtomic-pure : (a : A) → IsAtomic (pure {S = S} a)
  IsAtomic-pure a = record { at = λ s e h. refl }

  pub Keeps-pure : (P : S → Type ℓ) (a : A) → Keeps P (pure a)
  Keeps-pure P a = record { at = λ s h. h }

  pub IsReader-if :
      (b : Bool) (m n : Exec S A) → IsReader m → IsReader n → IsReader (if b then m else n)
  IsReader-if true m n h k = h
  IsReader-if false m n h k = k

module _ {ℓ} {S B : Type ℓ} where
  pub IsReader-refuse :
      (b : Bool) (e : Error) (m : Exec S B) → IsReader m → IsReader (refuse b e >> m)
  IsReader-refuse true e m h = record { at = λ s. refl }
  IsReader-refuse false e m h = record { at = λ s. h.at s }

  pub IsAtomic-refuse :
      (b : Bool) (e : Error) (m : Exec S B) → IsAtomic m → IsAtomic (refuse b e >> m)
  IsAtomic-refuse true e m h = record { at = λ s x k. refl }
  IsAtomic-refuse false e m h = record { at = λ s x k. h.at s x k }

  -- What follows the check may use that it passed.
  pub Keeps-refuse :
      (P : S → Type ℓ) (b : Bool) (e : Error) (m : Exec S B)
      → (b ≡ false → Keeps P m)
      → Keeps P (refuse b e >> m)
  Keeps-refuse P true e m h = record { at = λ s k. k }
  Keeps-refuse P false e m h = record { at = λ s k. (h refl).at s k }

  pub refuse-eq-ok :
      (b : Bool) (e : Error) (m : Exec S B) (s : S) (r : B)
      → ((refuse b e >> m) s).0 ≡ ok r
      → (b ≡ false) × ((m s).0 ≡ ok r)
  refuse-eq-ok true e m s r h = cc
  refuse-eq-ok false e m s r h = (refl, h)

module _ {ℓ} {S A B : Type ℓ} where
  continue_reads :
      (f : A → Exec S B) (r : Result A) (s : S)
      → ((a : A) → IsReader (f a))
      → (continue r f s).1 ≡ s
  continue_reads f (ok a) s h = (h a).at s
  continue_reads f (err e) s h = refl

  continue_fails :
      (f : A → Exec S B) (r : Result A) (s : S) (e : Error)
      → ((a : A) → IsAtomic (f a))
      → (continue r f s).0 ≡ err e
      → (continue r f s).1 ≡ s
  continue_fails f (ok a) s e h k = (h a).at s e k
  continue_fails f (err c) s e h k = refl

  continue_keeps :
      (P : S → Type ℓ) (f : A → Exec S B) (r : Result A) (s : S)
      → ((a : A) → Keeps P (f a))
      → P s
      → P (continue r f s).1
  continue_keeps P f (ok a) s h p = (h a).at s p
  continue_keeps P f (err e) s h p = p

  pub IsReader-bind :
      (m : Exec S A) (f : A → Exec S B)
      → IsReader m
      → ((a : A) → IsReader (f a))
      → IsReader (m >>= f)
  IsReader-bind m f h k = record { at = λ s. continue_reads f (m s).0 (m s).1 k ∙ h.at s }

  pub IsAtomic-bind :
      (m : Exec S A) (f : A → Exec S B)
      → IsReader m
      → ((a : A) → IsAtomic (f a))
      → IsAtomic (m >>= f)
  IsAtomic-bind m f h k = record { at = λ s e x. continue_fails f (m s).0 (m s).1 e k x ∙ h.at s }

  -- Wrapping an answer leaves the state alone.
  pub map_state : (m : Exec S A) (g : A → B) (s : S) → ((m >>= λ a. pure (g a)) s).1 ≡ (m s).1
  map_state m g s = wrapped (m s).0 (m s).1
    where
      wrapped : (r : Result A) (t : S) → (continue r (λ a. pure (g a)) t).1 ≡ t
      wrapped (ok a) t = refl
      wrapped (err e) t = refl

  -- An answer may be wrapped after a write.
  pub IsAtomic-map : (m : Exec S A) (g : A → B) → IsAtomic m → IsAtomic (m >>= λ a. pure (g a))
  IsAtomic-map m g h = record { at = λ s e x. map_fails (m s).0 (m s).1 s e (h.at s) x }
    where
      map_fails :
          (r : Result A) (t s : S) (e : Error)
          → ((c : Error) → r ≡ err c → t ≡ s)
          → (continue r (λ a. pure (g a)) t).0 ≡ err e
          → (continue r (λ a. pure (g a)) t).1 ≡ s
      map_fails (ok a) t s e k x = cc
      map_fails (err c) t s e k x = k c refl

  pub Keeps-bind :
      (P : S → Type ℓ) (first : Exec S A) (rest : A → Exec S B)
      → Keeps P first
      → ((answer : A) → Keeps P (rest answer))
      → Keeps P (first >>= rest)
  Keeps-bind P m f h k = record { at = λ s p. continue_keeps P f (m s).0 (m s).1 k (h.at s p) }

  continue-eq-ok :
      (f : A → Exec S B) (r : Result A) (s : S) (b : B)
      → (continue r f s).0 ≡ ok b
      → (a : A) × (r ≡ ok a) × ((f a s).0 ≡ ok b)
  continue-eq-ok f (ok a) s b h = (a, refl, h)
  continue-eq-ok f (err e) s b h = cc

  -- A successful sequence: its first action succeeded, and so did what follows it.
  pub bind-eq-ok :
      (m : Exec S A) (f : A → Exec S B) (s : S) (b : B)
      → ((m >>= f) s).0 ≡ ok b
      → (a : A) × ((m s).0 ≡ ok a) × ((f a (m s).1).0 ≡ ok b)
  bind-eq-ok m f s b h = continue-eq-ok f (m s).0 (m s).1 b h

pub ruleset reader_rules = (IsReader-pure, IsReader-if, IsReader-refuse, IsReader-bind)

pub ruleset atomic_rules = (reader_rules, IsAtomic-pure, IsAtomic-refuse, IsAtomic-bind)
