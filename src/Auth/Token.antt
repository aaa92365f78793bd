-- ===== src/Auth/Token.antt =====
-- services/api/internal/auth/token.go.
pub mod RoundTrip
pub mod Refusals
use learning_garden_server.Prelude.{
  ℕ, ◌+◌, ◌*◌, ◌/◌, Bool, true, false, not, ◌||◌, Option, none, some, List, [], ◌∷◌, ◌++◌, Text,
  codes, text_eq, ◌==◌, ltb, if◌then◌else◌, Result, ok, err, unauthorized, failure,
}
use learning_garden_server.Prelude.Int.{ℤ, pos, negsuc}
use learning_garden_server.Prelude.Json.{Json, num, str, as_string}
use learning_garden_server.Prelude.Map.{Map, lookup}
use learning_garden_server.Strings.{split}
use learning_garden_server.Strconv.{parse_int}
use learning_garden_server.Auth.Types.{Time, second, User}
use learning_garden_server.Auth.Crypto.{Crypto}

-- The expiry is in seconds, as `time.Unix` takes it.
pub record AccessClaims : Type 0 where
  pub user_id : Text
  pub email : Text
  pub handle : Text
  pub role : Text
  pub expiry : ℤ

-- `t.Unix()`
abbrev pub unix : Time → ℕ
unix t = t / second

-- The payload of `signAccessToken`.
unfoldable pub payload : User → (now ttl : Time) → Map Json
payload user now ttl =
    (codes "sub", str user.id)
    ∷ (codes "email", str user.email)
    ∷ (codes "handle", str user.handle)
    ∷ (codes "role", str user.role)
    ∷ (codes "exp", num (pos (unix (now + ttl))))
    ∷ (codes "iat", num (pos (unix now)))
    ∷ []

abbrev pub header : Map Json
header = (codes "alg", str (codes "HS256")) ∷ (codes "typ", str (codes "JWT")) ∷ []

-- `value, _ := v.(string)`
abbrev pub string_claim : Option Json → Text
string_claim none = []
string_claim (some v) = elim (as_string v) [ none ↦ [] | some s ↦ s ]

-- Without `UseNumber` the decoder makes no `json.Number`. A missing claim is nil.
unfoldable pub unix_claim : Option Json → Option ℤ
unfolding parse_int
unix_claim none = none
unix_claim (some (num n)) = some n
unix_claim (some (str s)) = parse_int s
unix_claim (some _) = none

-- `now.Before(time.Unix(seconds, 0))`
abbrev pub before : Time → ℤ → Bool
before now (pos n) = ltb now (n * second)
before now (negsuc n) = false

module _ (c : Crypto) where
  -- The three parts, where the two texts are those of `json.Marshal`.
  abbrev signed : Text → Option Text → Option Text → Result Text
  signed secret none _ = err failure
  signed secret (some h) none = err failure
  signed secret (some h) (some p) =
      let unsigned = c.url_encode h ++ b'.' ∷ c.url_encode p in
      ok (unsigned ++ b'.' ∷ c.url_encode (c.hmac secret unsigned))

  unfoldable pub sign_access_token : Text → User → (now ttl : Time) → Result Text
  unfolding payload
  sign_access_token secret user now ttl =
      signed secret (c.marshal header) (c.marshal (payload user now ttl))

  abbrev claims_of : Map Json → ℤ → AccessClaims
  claims_of p expiry = record {
    user_id = string_claim (lookup (codes "sub") p);
    email = string_claim (lookup (codes "email") p);
    handle = string_claim (lookup (codes "handle") p);
    role = string_claim (lookup (codes "role") p);
    expiry = expiry;
  }

  abbrev check_expiry : Map Json → Time → Option ℤ → Result AccessClaims
  check_expiry p now none = err unauthorized
  check_expiry p now (some expiry) =
      if not (before now expiry) then err unauthorized else ok (claims_of p expiry)

  abbrev check_payload : Time → Option (Map Json) → Result AccessClaims
  check_payload now none = err unauthorized
  check_payload now (some p) = check_expiry p now (unix_claim (lookup (codes "exp") p))

  abbrev decode_payload : Time → Option Text → Result AccessClaims
  decode_payload now none = err unauthorized
  decode_payload now (some json) = check_payload now (c.unmarshal json)

  abbrev check_signature : Option Text → Text → Result AccessClaims → Result AccessClaims
  check_signature none want rest = err unauthorized
  check_signature (some got) want rest = if not (got == want) then err unauthorized else rest

  abbrev parse_parts : Text → List Text → Time → Result AccessClaims
  parse_parts secret (h ∷ p ∷ s ∷ []) now =
      let want = c.hmac secret (h ++ b'.' ∷ p) in
      check_signature (c.url_decode s) want (decode_payload now (c.url_decode p))
  parse_parts secret _ now = err unauthorized

  unfoldable pub parse_access_token : Text → Text → Time → Result AccessClaims
  unfolding split
  parse_access_token secret token now = parse_parts secret (split b'.' token) now

  -- `newRefreshToken`, where the random source gives the bytes, or fails
  unfoldable pub new_refresh_token : Option (List ℕ) → Result Text
  new_refresh_token none = err failure
  new_refresh_token (some raw) = ok (c.url_encode raw)
