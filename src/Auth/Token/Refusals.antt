-- ===== src/Auth/Token/Refusals.antt =====
-- The one error of `parseAccessToken` of services/api/internal/auth/token.go.
use learning_garden_server.Prelude.{
  ◌≡◌, refl, Option, none, some, List, [], ◌∷◌, Text, text_eq, ◌==◌, Error, Result, ok, err,
  unauthorized, Bool-cases, inl, inr,
}
use learning_garden_server.Prelude.Map.{Map}
use learning_garden_server.Prelude.Int.{ℤ}
use learning_garden_server.Prelude.Json.{Json}
use learning_garden_server.Strings.{split}
use learning_garden_server.Auth.Types.{Time}
use learning_garden_server.Auth.Crypto.{Crypto}
use learning_garden_server.Auth.Token.{
  AccessClaims, before, parse_access_token, check_expiry, check_payload, decode_payload,
  check_signature, parse_parts,
}

-- If it is an error, it is that of a missing authorization.
abbrev pub IsAuthorization {ℓ} : {A : Type ℓ} → Result A → Type 0
IsAuthorization (ok a) = Unit
IsAuthorization (err e) = e ≡ unauthorized

pub IsAuthorization-err :
    {A : Type 0} (r : Result A) (e : Error) → IsAuthorization r → r ≡ err e → e ≡ unauthorized
IsAuthorization-err (ok a) e h same = cc
IsAuthorization-err (err d) e h same = cc

module _ (c : Crypto) where
  expiry-IsAuthorization :
      (p : Map Json) (now : Time) (expiry : Option ℤ)
      → IsAuthorization (check_expiry c p now expiry)
  expiry-IsAuthorization p now none = refl
  expiry-IsAuthorization p now (some expiry) = elim (Bool-cases (before now expiry)) [
    | inl early ↦ rw early tt
    | inr late ↦ rw late refl
  ]

  payload-IsAuthorization :
      (now : Time) (p : Option (Map Json)) → IsAuthorization (check_payload c now p)
  payload-IsAuthorization now none = refl
  payload-IsAuthorization now (some p) = expiry-IsAuthorization p now _

  decoded-IsAuthorization :
      (now : Time) (json : Option Text) → IsAuthorization (decode_payload c now json)
  decoded-IsAuthorization now none = refl
  decoded-IsAuthorization now (some json) = payload-IsAuthorization now (c.unmarshal json)

  signature-IsAuthorization :
      (got : Option Text) (want : Text) (rest : Result AccessClaims)
      → IsAuthorization rest
      → IsAuthorization (check_signature c got want rest)
  signature-IsAuthorization none want rest h = refl
  signature-IsAuthorization (some got) want rest h = elim (Bool-cases (got == want)) [
    | inl same ↦ rw same h
    | inr other ↦ rw other refl
  ]

  parts-IsAuthorization :
      (secret : Text) (parts : List Text) (now : Time)
      → IsAuthorization (parse_parts c secret parts now)
  parts-IsAuthorization secret [] now = refl
  parts-IsAuthorization secret (h ∷ []) now = refl
  parts-IsAuthorization secret (h ∷ (p ∷ [])) now = refl
  parts-IsAuthorization secret (h ∷ (p ∷ (s ∷ []))) now =
      signature-IsAuthorization (c.url_decode s) _ _ (decoded-IsAuthorization now (c.url_decode p))
  parts-IsAuthorization secret (h ∷ (p ∷ (s ∷ (t ∷ rest)))) now = refl

  pub parse-IsAuthorization :
      (secret token : Text) (now : Time) → IsAuthorization (parse_access_token c secret token now)
  unfolding parse_access_token
  parse-IsAuthorization secret token now = parts-IsAuthorization secret (split b'.' token) now
