-- ===== src/HttpApi/Answers.antt =====
-- `AppError`, `writeAppError` and `writeJSON` of services/api/internal/httpapi, and what a handler
-- does: it reads and changes the services' state, and writes one response or panics.
use learning_garden_server.Prelude.{
  ℕ, Bool, true, false, Option, none, List, Text, codes, is_empty, nat_eq, ◌==◌, if◌then◌else◌,
  Error, Result, ok, err,
}
use learning_garden_server.Auth.Types.{Time, User, Session}
use learning_garden_server.Content.Types.{
  Item, Relation, Backlink, Graph, PublicProfile, Portfolio, CommunityFeedRow,
}

pub record AppError : Type 0 where
  pub code : Text
  pub http_code : ℕ
  pub message : Text
  pub cause : Option Error

-- The data that a handler has encoded. The encoding leaves out a session's refresh token and a
-- user's password hash.
pub data Payload : Type 0 where
  a_session : Session → Payload
  a_user : User → Payload
  an_item : Item → Payload
  items : List Item → Payload
  a_relation : Relation → Payload
  links : List Backlink → Payload
  a_profile : PublicProfile → Payload
  a_portfolio : Portfolio → Payload
  a_graph : Graph → Payload
  a_feed : List CommunityFeedRow → Payload
  health : (is_ok : Bool) → Payload

pub data Body : Type 0 where
  no_body : Body
  data_body : Payload → Body
  error_body : (code message : Text) → Body

-- A cookie with an expiry, or with `MaxAge: -1`.
pub data Cookie : Type 0 where
  cookie : (value : Text) (expires : Time) (secure : Bool) → Cookie
  clear_cookie : (secure : Bool) → Cookie

pub record Response : Type 0 where
  pub status : ℕ
  pub set_cookie : Option Cookie
  pub body : Body

abbrev pub write_json : ℕ → Payload → Response
write_json status payload = record { status = status; set_cookie = none; body = data_body payload }

-- `writeAppError`, with its defaults
unfoldable pub write_app_error : AppError → Response
write_app_error e = record {
  status = if e.http_code == 0 then 500 else e.http_code;
  set_cookie = none;
  body =
      error_body (if is_empty e.code then codes "INTERNAL" else e.code)
        (if is_empty e.message then codes "internal server error" else e.message);
}

-- `appError`
abbrev pub app_error : ℕ → Text → Text → AppError
app_error http_code code message = record {
  code = code;
  http_code = http_code;
  message = message;
  cause = none;
}

-- A step of a handler goes on with a value, writes an error and returns, or panics.
pub data Outcome (A : Type 0) : Type 0 where
  value : A → Outcome A
  refused : AppError → Outcome A
  panics : Outcome A

abbrev pub Handler : Type 0 → Type 0 → Type 0
Handler W A = W → Outcome A × W

module _ {W A : Type 0} where
  abbrev pub answer : A → Handler W A
  answer a w = (value a, w)

  abbrev pub write_error : AppError → Handler W A
  write_error e w = (refused e, w)

module _ {W A B : Type 0} where
  abbrev pub after : Outcome A → (A → Handler W B) → Handler W B
  after (value a) f w = f a w
  after (refused e) f w = (refused e, w)
  after panics f w = (panics, w)

  infixl 10 ◌>>=◌ ◌>>◌
  abbrev pub ◌>>=◌ : Handler W A → (A → Handler W B) → Handler W B
  ◌>>=◌ m f w = let (r, w') = m w in after r f w'

  abbrev pub ◌>>◌ : Handler W A → Handler W B → Handler W B
  m >> n = m >>= λ _. n

-- `if test { writeAppError; return }`
abbrev pub refuse : {W : Type 0} → Bool → AppError → Handler W (Unit {0})
refuse true e w = (refused e, w)
refuse false e w = (value tt, w)

-- `if err != nil { writeAppError(w, f(err)); return }`
abbrev pub outcome_of : {A : Type 0} → (Error → AppError) → Result A → Outcome A
outcome_of f (ok a) = value a
outcome_of f (err e) = refused (f e)

-- The response that the client gets; `recoveryMiddleware` writes it after a panic.
abbrev pub response_of : Outcome Response → Response
response_of (value r) = r
response_of (refused e) = write_app_error e
response_of panics =
    write_app_error (app_error 500 (codes "INTERNAL") (codes "internal server error"))
