-- ===== src/Auth/Crypto.antt =====
-- What the program takes from cryptography and codecs: the library golang.org/x/crypto/argon2, and
-- HMAC-SHA256, base64 and JSON as operations with their documented laws.
use learning_garden_server.Prelude.{ℕ, ◌^◌, ◌<◌, ◌≡◌, Option, some, Text, All, length}
use learning_garden_server.Prelude.Int.{pos, negsuc}
use learning_garden_server.Prelude.Json.{Json, num}
use learning_garden_server.Prelude.Map.{Map, lookup}
use learning_garden_server.Strings.Split.{Free}

-- The number is one that a JSON number, read as a float64, holds exactly.
abbrev pub IsExact : Text × Json → Type 0
IsExact (k, num (pos n)) = n < 2 ^ 53
IsExact (k, num (negsuc n)) = n < 2 ^ 53
IsExact (k, v) = Unit

pub record Crypto : Type 0 where
  -- `hmacSHA256`
  pub hmac : (secret value : Text) → Text
  -- `argon2.IDKey(password, salt, time, memory, threads, keyLen)`. It panics where time or threads
  -- are 0, which they are in no hash that `hashPassword` makes.
  pub id_key : (password salt : Text) (time memory threads key_len : ℕ) → Text
  pub length-id_key :
      (password salt : Text) (time memory threads key_len : ℕ)
      → length (id_key password salt time memory threads key_len) ≡ key_len
  -- `base64.RawURLEncoding`
  pub url_encode : Text → Text
  pub url_decode : Text → Option Text
  pub url_decode-url_encode : (s : Text) → url_decode (url_encode s) ≡ some s
  pub url_encode-Free : (s : Text) → Free b'.' (url_encode s)
  -- `base64.RawStdEncoding`
  pub std_encode : Text → Text
  pub std_decode : Text → Option Text
  pub std_decode-std_encode : (s : Text) → std_decode (std_encode s) ≡ some s
  pub std_encode-Free : (s : Text) → Free b'$' (std_encode s)
  -- `json.Marshal` of a `map[string]any`, and `json.Unmarshal` into one
  pub marshal : Map Json → Option Text
  pub unmarshal : Text → Option (Map Json)
  pub unmarshal-marshal :
      (m : Map Json) (t : Text)
      → All IsExact m
      → marshal m ≡ some t
      → (n : Map Json) × (unmarshal t ≡ some n) × ((k : Text) → lookup k n ≡ lookup k m)
