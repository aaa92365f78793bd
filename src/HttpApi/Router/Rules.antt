-- ===== src/HttpApi/Router/Rules.antt =====
-- What a handler of services/api/internal/httpapi does for sure: it keeps an invariant, an error
-- that it writes has a status between 400 and 599, and what it answers meets a predicate.
use learning_garden_server.Prelude.{
  ◌≡◌, refl, ◌&&◌, leb, ltb, Bool, true, false, Option, none, some, Error, Result, ok, err, Exec,
  if◌then◌else◌, arith,
}
use learning_garden_server.Prelude.Actions.{Keeps, IsReader}
use learning_garden_server.HttpApi.Answers.{
  AppError, Outcome, value, refused, panics, Handler, answer, write_error, outcome_of, after, ◌>>=◌,
  ◌>>◌, refuse,
}
use learning_garden_server.HttpApi.Errors.{auth_app_error, content_app_error}
use learning_garden_server.HttpApi.AuthHandlers.{decode_json, call_auth}
use learning_garden_server.HttpApi.ContentHandlers.{on_auth, on_content}
use learning_garden_server.HttpApi.Router.Dispatch.{on_first}

abbrev pub IsErrorStatus : AppError → Type 0
IsErrorStatus e = (leb 400 e.http_code && ltb e.http_code 600) ≡ true

abbrev pub Settles : {A : Type 0} → (A → Type 0) → Outcome A → Type 0
Settles P (value a) = P a
Settles P (refused e) = IsErrorStatus e
Settles P panics = Unit

pub record Safe {W A : Type 0} (Inv : W → Type 0) (P : A → Type 0) (handler : Handler W A)
    : Type 0 where
  pub at : (w : W) → Inv w → Settles P (handler w).0 × Inv (handler w).1

abbrev pub Anything : {A : Type 0} → A → Type 0
Anything a = Unit

pub auth_app_error-IsErrorStatus : (e : Error) → IsErrorStatus (auth_app_error e)
unfolding auth_app_error
auth_app_error-IsErrorStatus e = ground arith

pub content_app_error-IsErrorStatus : (e : Error) → IsErrorStatus (content_app_error e)
unfolding content_app_error
content_app_error-IsErrorStatus e = ground arith

module _ {W A : Type 0} (Inv : W → Type 0) (P : A → Type 0) where
  pub Safe-answer : (a : A) → P a → Safe Inv P (answer a)
  Safe-answer a p = record { at = λ w h. (p, h) }

  pub Safe-write_error : (e : AppError) → IsErrorStatus e → Safe Inv P (write_error e)
  Safe-write_error e p = record { at = λ w h. (p, h) }

  pub Safe-refuse :
      (b : Bool) (e : AppError) (rest : Handler W A)
      → IsErrorStatus e
      → Safe Inv P rest
      → Safe Inv P (refuse b e >> rest)
  Safe-refuse true e rest p h = record { at = λ w i. (p, i) }
  Safe-refuse false e rest p h = record { at = λ w i. h.at w i }

  pub Safe-if :
      (b : Bool) (m n : Handler W A) → Safe Inv P m → Safe Inv P n → Safe Inv P (if b then m else n)
  Safe-if true m n h k = h
  Safe-if false m n h k = k

  pub Safe-decode_json : (body : Option A) → ((a : A) → P a) → Safe Inv P (decode_json body)
  Safe-decode_json none p = record { at = λ w h. (refl, h) }
  Safe-decode_json (some a) p = record { at = λ w h. (p a, h) }

module _ {W A B : Type 0} (Inv : W → Type 0) (P : B → Type 0) where
  after_safe :
      (r : Outcome A) (rest : A → Handler W B) (w : W)
      → Settles Anything r
      → ((a : A) → Safe Inv P (rest a))
      → Inv w
      → Settles P (after r rest w).0 × Inv (after r rest w).1
  after_safe (value a) rest w settled h i = (h a).at w i
  after_safe (refused e) rest w settled h i = (settled, i)
  after_safe panics rest w settled h i = (tt, i)

  pub Safe-bind :
      (first : Handler W A) (rest : A → Handler W B)
      → Safe Inv Anything first
      → ((a : A) → Safe Inv P (rest a))
      → Safe Inv P (first >>= rest)
  Safe-bind first rest h k = record {
    at = λ w i.
        let (settled, kept) = h.at w i in after_safe (first w).0 rest (first w).1 settled k kept;
  }

outcome-Settles :
    {A : Type 0} (f : Error → AppError) (r : Result A)
    → ((e : Error) → IsErrorStatus (f e))
    → Settles Anything (outcome_of f r)
outcome-Settles f (ok a) h = tt
outcome-Settles f (err e) h = h e

-- The state of the content store is the second one.
abbrev pub OnContent : {S T : Type 0} → (T → Type 0) → S × T → Type 0
OnContent J w = J w.1

module _ {S T A : Type 0} (J : T → Type 0) where
  pub Safe-on_auth :
      (there : Bool) (f : Error → AppError) (m : Exec S A)
      → ((e : Error) → IsErrorStatus (f e))
      → Safe (OnContent {S = S} J) Anything (on_auth there f m)
  Safe-on_auth false f m h = record { at = λ w i. (tt, i) }
  Safe-on_auth true f m h = record { at = λ w i. (outcome-Settles f (m w.0).0 h, i) }

  pub Safe-on_content :
      (there : Bool) (f : Error → AppError) (m : Exec T A)
      → ((e : Error) → IsErrorStatus (f e))
      → Keeps J m
      → Safe (OnContent {S = S} J) Anything (on_content there f m)
  Safe-on_content false f m h k = record { at = λ w i. (tt, i) }
  Safe-on_content true f m h k = record { at = λ w i. (outcome-Settles f (m w.1).0 h, k.at w.1 i) }

  pub Safe-on_first :
      (P : A → Type 0) (m : Handler S A) → Safe (λ s. Unit) P m → Safe (OnContent J) P (on_first m)
  Safe-on_first P m h = record { at = λ w i. ((h.at w.0 tt).0, i) }

-- Without a state to keep, a call of the auth service settles.
pub Safe-call_auth : {S A : Type 0} (m : Exec S A) → Safe (λ s. Unit {0}) Anything (call_auth m)
Safe-call_auth m = record {
  at = λ w i. (outcome-Settles auth_app_error (m w).0 auth_app_error-IsErrorStatus, tt);
}

pub Keeps-reader : {S A : Type 0} (J : S → Type 0) (m : Exec S A) → IsReader m → Keeps J m
Keeps-reader J m h = record { at = λ s i. rw (h.at s) i }
