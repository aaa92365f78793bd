-- ===== src/Auth/Password.antt =====
-- services/api/internal/auth/password.go.
use learning_garden_server.Prelude.{
  ℕ, ◌≡◌, refl, ◌∙◌, Bool, true, false, not, Option, none, some, List, [], ◌∷◌, ◌++◌, Text, codes,
  text_eq, ◌==◌, text_beq, text_beq_iff, length, if◌then◌else◌, Result, ok, err, failure,
}
use learning_garden_server.Prelude.Map.{Map, lookup, insert}
use learning_garden_server.Strings.{split, split_pair}
use learning_garden_server.Strings.Split.{split-Free, split-append}
use learning_garden_server.Strconv.{parse_uint}
use learning_garden_server.Auth.Crypto.{Crypto}

abbrev pub argon_time : ℕ
argon_time = 1

abbrev pub argon_memory : ℕ
argon_memory = 65_536

abbrev pub argon_threads : ℕ
argon_threads = 4

abbrev pub argon_key_len : ℕ
argon_key_len = 32

-- `$argon2id$v=19$m=%d,t=%d,p=%d$` at the constants
abbrev pub hash_prefix : Text
hash_prefix = codes "$argon2id$v=19$m=65536,t=1,p=4$"

abbrev add_param : Map Text → List Text → Map Text
add_param params (k ∷ v ∷ []) = insert k v params
add_param params _ = params

-- The loop that reads the parameters.
unfoldable pub read_params : Map Text → List Text → Map Text
read_params params [] = params
read_params params (p ∷ ps) = read_params (add_param params (split_pair b'=' p)) ps

-- A missing key reads as the empty text.
abbrev text_at : Option Text → Text
text_at none = []
text_at (some v) = v

module _ (c : Crypto) where
  -- `hashPassword`, where the random source gives the salt, or fails
  unfoldable pub hash_password : Text → Option Text → Result Text
  hash_password password none = err failure
  hash_password password (some salt) =
      let key = c.id_key password salt argon_time argon_memory argon_threads argon_key_len in
      ok (hash_prefix ++ c.std_encode salt ++ b'$' ∷ c.std_encode key)

  abbrev compare_key : Text → Option ℕ → Option ℕ → Option ℕ → Option Text → Option Text → Bool
  compare_key password (some memory) (some time) (some threads) (some salt) (some expected) =
      c.id_key password salt time memory threads (length expected) == expected
  compare_key password _ _ _ _ _ = false

  abbrev verify_parts : Text → List Text → Bool
  verify_parts password (x ∷ alg ∷ v ∷ params ∷ salt ∷ key ∷ []) =
      let m = read_params [] (split b',' params) in
      if not (alg == codes "argon2id")
      then false
      else compare_key password (parse_uint 32 (text_at (lookup (codes "m") m)))
          (parse_uint 32 (text_at (lookup (codes "t") m)))
          (parse_uint 8 (text_at (lookup (codes "p") m))) (c.std_decode salt) (c.std_decode key)
  verify_parts password _ = false

  unfoldable pub verify_password : (password encoded : Text) → Bool
  verify_password password encoded = verify_parts password (split b'$' encoded)

  split-hash_prefix :
      (rest : Text)
      → split b'$' (hash_prefix ++ rest)
        ≡ [] ∷ codes "argon2id" ∷ codes "v=19" ∷ codes "m=65536,t=1,p=4" ∷ split b'$' rest
  unfolding split
  split-hash_prefix rest = refl

  split-hash :
      (salt key : Text)
      → split b'$' (c.std_encode salt ++ b'$' ∷ c.std_encode key)
        ≡ c.std_encode salt ∷ c.std_encode key ∷ []
  split-hash salt key = rw (
    split-append b'$' (c.std_encode salt) _ (c.std_encode-Free salt),
    split-Free b'$' (c.std_encode key) (c.std_encode-Free key),
  )

  -- The parameters that the prefix holds are the constants.
  verify_parts-hash :
      (other salt key : Text)
      → verify_parts other (
          []
          ∷ codes "argon2id"
          ∷ codes "v=19"
          ∷ codes "m=65536,t=1,p=4"
          ∷ c.std_encode salt
          ∷ c.std_encode key
          ∷ [])
        ≡ compare_key other
            (some argon_memory)
            (some argon_time)
            (some argon_threads)
            (c.std_decode (c.std_encode salt))
            (c.std_decode (c.std_encode key))
  unfolding read_params parse_uint lookup insert split split_pair text_beq
  verify_parts-hash other salt key = refl

  -- A hash that was made with a salt accepts the passwords whose key is that of the hashed one,
  -- and no others.
  pub verify-hash :
      (password other salt encoded : Text)
      → hash_password password (some salt) ≡ ok encoded
      → verify_password other encoded ≡ (
          c.id_key other salt argon_time argon_memory argon_threads argon_key_len
          == c.id_key password salt argon_time argon_memory argon_threads argon_key_len)
  unfolding hash_password verify_password
  verify-hash password other salt encoded h =
      let key = c.id_key password salt argon_time argon_memory argon_threads argon_key_len in
      let same : hash_prefix ++ c.std_encode salt ++ b'$' ∷ c.std_encode key ≡ encoded = cc in
      rw (
        ← same,
        split-hash_prefix (c.std_encode salt ++ b'$' ∷ c.std_encode key),
        split-hash salt key,
        verify_parts-hash other salt key,
        c.std_decode-std_encode salt,
        c.std_decode-std_encode key,
        c.length-id_key password salt argon_time argon_memory argon_threads argon_key_len,
      )

  -- The password that was hashed is accepted.
  pub verify-hash_self :
      (password salt encoded : Text)
      → hash_password password (some salt) ≡ ok encoded
      → verify_password password encoded ≡ true
  verify-hash_self password salt encoded h =
      verify-hash password password salt encoded h ∙ (text_beq_iff _ _).1 refl
