-- ===== src/Auth/Token/RoundTrip.antt =====
-- Signed tokens are accepted until they expire, and accepted tokens are signed.
use learning_garden_server.Prelude.{
  ℕ, ◌+◌, ◌*◌, ◌^◌, ◌<◌, ◌≡◌, refl, sym, ap, ◌∙◌, true, Option, none, some, List, [], ◌∷◌, ◌++◌,
  Text, codes, text_eq, text_beq, text_beq_iff, ltb, if◌then◌else◌, arith, All, Result, ok, err,
  unauthorized, Option-cases, Bool-cases, inl, inr,
}
use mathlib.Core.List.{append_assoc}
use learning_garden_server.Prelude.Int.{ℤ, pos}
use learning_garden_server.Prelude.Json.{Json, num, str}
use learning_garden_server.Prelude.Map.{Map, lookup}
use learning_garden_server.Strings.{split}
use learning_garden_server.Strings.Split.{split-Free, split-append}
use learning_garden_server.Auth.Types.{Time, second, User}
use learning_garden_server.Auth.Crypto.{Crypto, IsExact}
use learning_garden_server.Auth.Token.{
  AccessClaims, unix, payload, header, before, unix_claim, check_expiry, check_payload,
  decode_payload, check_signature, parse_parts, sign_access_token, parse_access_token,
}

-- The claims that a token of the user carries.
abbrev pub claims_for : User → ℕ → AccessClaims
claims_for user seconds = record {
  user_id = user.id;
  email = user.email;
  handle = user.handle;
  role = user.role;
  expiry = pos seconds;
}

module _ (c : Crypto) (secret : Text) where
  split_parts :
      (a b d : Text)
      → split b'.' ((c.url_encode a ++ b'.' ∷ c.url_encode b) ++ b'.' ∷ c.url_encode d)
        ≡ c.url_encode a ∷ c.url_encode b ∷ c.url_encode d ∷ []
  split_parts a b d = rw (
    append_assoc,
    split-append b'.' (c.url_encode a) _ (c.url_encode-Free a),
    split-append b'.' (c.url_encode b) _ (c.url_encode-Free b),
    split-Free b'.' (c.url_encode d) (c.url_encode-Free d),
  )

  payload-IsExact :
      (user : User) (issued ttl : Time)
      → unix (issued + ttl) < 2 ^ 53
      → All IsExact (payload user issued ttl)
  unfolding payload
  payload-IsExact user issued ttl h = omega arith

  -- What the payload holds under the keys that the parser reads.
  payload_claims :
      (user : User) (issued ttl : Time)
      → (lookup (codes "sub") (payload user issued ttl) ≡ some (str user.id))
        × (lookup (codes "email") (payload user issued ttl) ≡ some (str user.email))
        × (lookup (codes "handle") (payload user issued ttl) ≡ some (str user.handle))
        × (lookup (codes "role") (payload user issued ttl) ≡ some (str user.role))
        × (lookup (codes "exp") (payload user issued ttl) ≡ some (num (pos (unix (issued + ttl)))))
  unfolding payload lookup text_beq
  payload_claims user issued ttl = (refl, refl, refl, refl, refl)

  sign-eq-ok :
      (user : User) (issued ttl : Time) (t : Text)
      → sign_access_token c secret user issued ttl ≡ ok t
      → (h : Text) × (p : Text) × (c.marshal (payload user issued ttl) ≡ some p)
        × (t
            ≡ (c.url_encode h ++ b'.' ∷ c.url_encode p)
              ++ b'.' ∷ c.url_encode (c.hmac secret (c.url_encode h ++ b'.' ∷ c.url_encode p)))
  unfolding sign_access_token
  sign-eq-ok user issued ttl t e = elim (Option-cases (c.marshal header)) [
    | inl failed ↦ cc (rw failed at e)
    | inr (h, eh) ↦ elim (Option-cases (c.marshal (payload user issued ttl))) [
      | inl failed ↦ cc (rw (eh, failed) at e)
      | inr (p, ep) ↦ (h, p, ep, ground (arith, eh, ep))
    ]
  ]

  -- A token that was signed with the secret, whose expiry is below 2 ^ 53 seconds, is accepted
  -- before the second in which it expires, with the claims of its user, and refused from then on.
  pub parse-sign :
      (user : User) (issued ttl now : Time) (t : Text)
      → unix (issued + ttl) < 2 ^ 53
      → sign_access_token c secret user issued ttl ≡ ok t
      → parse_access_token c secret t now ≡ (
          if ltb now (unix (issued + ttl) * second)
          then ok (claims_for user (unix (issued + ttl)))
          else err unauthorized)
  unfolding parse_access_token unix_claim
  parse-sign user issued ttl now t small e =
      let (h, p, ep, et) = sign-eq-ok user issued ttl t e in
      let unsigned = c.url_encode h ++ b'.' ∷ c.url_encode p in
      let (n, en, same) =
        c.unmarshal-marshal (payload user issued ttl) p (payload-IsExact user issued ttl small)
          ep in
      let (sub, email, handle, role, exp) = payload_claims user issued ttl in
      let own : text_beq (c.hmac secret unsigned) (c.hmac secret unsigned) ≡ true =
        (text_beq_iff _ _).1 refl in
      rw
        (
          et,
          split_parts h p (c.hmac secret unsigned),
          c.url_decode-url_encode (c.hmac secret unsigned),
          own,
          c.url_decode-url_encode p,
          en,
          same (codes "exp"),
          exp,
          same (codes "sub"),
          sub,
          same (codes "email"),
          email,
          same (codes "handle"),
          handle,
          same (codes "role"),
          role,
        )
        (ground arith)

  check_expiry-before :
      (p : Map Json) (now : Time) (o : Option ℤ) (claims : AccessClaims)
      → check_expiry c p now o ≡ ok claims
      → before now claims.expiry ≡ true
  check_expiry-before p now none claims e = cc
  check_expiry-before p now (some x) claims e = elim (Bool-cases (before now x)) [
    | inr late ↦ cc (rw late at e)
    | inl early ↦ ap (λ r. before now (expiry_of x r)) (sym (rw early at e)) ∙ early
  ]
    where
      expiry_of : ℤ → Result AccessClaims → ℤ
      expiry_of x (ok claims) = claims.expiry
      expiry_of x (err e) = x

  check_payload-before :
      (now : Time) (o : Option (Map Json)) (claims : AccessClaims)
      → check_payload c now o ≡ ok claims
      → before now claims.expiry ≡ true
  check_payload-before now none claims e = cc
  check_payload-before now (some p) claims e =
      check_expiry-before p now (unix_claim (lookup (codes "exp") p)) claims e

  decode_payload-before :
      (now : Time) (o : Option Text) (claims : AccessClaims)
      → decode_payload c now o ≡ ok claims
      → before now claims.expiry ≡ true
  decode_payload-before now none claims e = cc
  decode_payload-before now (some json) claims e =
      check_payload-before now (c.unmarshal json) claims e

  check_signature-eq-ok :
      (o : Option Text) (want : Text) (rest : Result AccessClaims) (claims : AccessClaims)
      → check_signature c o want rest ≡ ok claims
      → (o ≡ some want) × (rest ≡ ok claims)
  check_signature-eq-ok none want rest claims e = cc
  check_signature-eq-ok (some got) want rest claims e = ground (arith, text_beq_iff got want)

  -- The parts hold a signature of the first two, and the claims expire later.
  abbrev IsAccepted : List Text → Time → AccessClaims → Type 0
  IsAccepted parts now claims =
      (h : Text) × (p : Text) × (s : Text) × (parts ≡ h ∷ p ∷ s ∷ [])
      × (c.url_decode s ≡ some (c.hmac secret (h ++ b'.' ∷ p)))
      × (before now claims.expiry ≡ true)

  parse_parts-eq-ok :
      (parts : List Text) (now : Time) (claims : AccessClaims)
      → parse_parts c secret parts now ≡ ok claims
      → IsAccepted parts now claims
  parse_parts-eq-ok [] now claims e = cc
  parse_parts-eq-ok (h ∷ []) now claims e = cc
  parse_parts-eq-ok (h ∷ p ∷ []) now claims e = cc
  parse_parts-eq-ok (h ∷ p ∷ s ∷ []) now claims e =
      let (signed, rest) = check_signature-eq-ok (c.url_decode s) _ _ claims e in
      (h, p, s, refl, signed, decode_payload-before now (c.url_decode p) claims rest)
  parse_parts-eq-ok (h ∷ p ∷ s ∷ x ∷ r) now claims e = cc

  -- A token that is accepted has three parts, of which the third is the signature of the first
  -- two, and expires later.
  pub parse-eq-ok :
      (token : Text) (now : Time) (claims : AccessClaims)
      → parse_access_token c secret token now ≡ ok claims
      → (h : Text) × (p : Text) × (s : Text) × (split b'.' token ≡ h ∷ p ∷ s ∷ [])
        × (c.url_decode s ≡ some (c.hmac secret (h ++ b'.' ∷ p)))
        × (before now claims.expiry ≡ true)
  unfolding parse_access_token
  parse-eq-ok token now claims e = parse_parts-eq-ok (split b'.' token) now claims e
