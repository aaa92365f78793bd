-- ===== src/Auth/Tests.antt =====
-- The theorems of the auth service, at accounts in the in-memory stores.
use learning_garden_server.Prelude.{
  ◌+◌, ◌*◌, ◌≡◌, refl, true, some, [], ◌∷◌, ◌++◌, arith, Text, codes, text_eq, ◌==◌, ltb,
  if◌then◌else◌, ok, err, unauthorized,
}
use learning_garden_server.Prelude.Map.{lookup}
use learning_garden_server.Strings.{split}
use learning_garden_server.Auth.Types.{second, Config, User, CreateUserInput}
use learning_garden_server.Auth.Token.{unix, before, sign_access_token, parse_access_token}
use learning_garden_server.Auth.Token.RoundTrip.{claims_for, parse-sign, parse-eq-ok}
use learning_garden_server.Auth.Password.{
  hash_password, verify_password, verify-hash, argon_time, argon_memory, argon_threads,
  argon_key_len,
}
use learning_garden_server.Auth.UserStore.{
  MemoryUserStore, new_memory_user_store, new_user, create_user,
}
use learning_garden_server.Auth.UserStore.Invariant.{
  IsIndexed, new_memory_user_store-IsIndexed, create_user-IsIndexed,
}
use learning_garden_server.Samples.{ascii}
use learning_garden_server.Samples.Codec.{toy_crypto, encode}

abbrev pub config : Config
config = record {
  access_token_ttl = 60 * second;
  refresh_token_ttl = 3600 * second;
  jwt_secret = codes "s";
}

abbrev pub alice_input : CreateUserInput
alice_input = record {
  id = codes "u1";
  email = codes " Alice@x.org";
  handle = codes "Alice";
  display_name = codes "Alice";
  password_hash = codes "h";
}

abbrev pub alice : User
alice = record {
  id = codes "u1";
  email = codes "alice@x.org";
  handle = codes "alice";
  display_name = codes "Alice";
  password_hash = codes "h";
  role = codes "user";
  status = codes "active";
  created_at = 7;
}

abbrev pub one_user : MemoryUserStore
one_user = (create_user ascii alice_input [] 7 new_memory_user_store).1

create_user-IsIndexed_example : IsIndexed one_user
unfolding new_user lookup
create_user-IsIndexed_example =
    create_user-IsIndexed ascii alice_input [] 7 new_memory_user_store
      new_memory_user_store-IsIndexed refl

-- A token that was signed at time 0.
abbrev token : Text
token = elim (sign_access_token toy_crypto (codes "s") alice 0 (60 * second)) [
  | ok t ↦ t
  | err e ↦ []
]

parse-sign_example : parse_access_token toy_crypto (codes "s") token (5 * second) ≡ (
    if ltb (5 * second) (unix (0 + 60 * second) * second)
    then ok (claims_for alice (unix (0 + 60 * second)))
    else err unauthorized)
unfolding sign_access_token encode
parse-sign_example =
    parse-sign toy_crypto (codes "s") alice 0 (60 * second) (5 * second) token (omega arith) refl

accepted : parse_access_token toy_crypto (codes "s") token (5 * second) ≡ ok (claims_for alice 60)
unfolding sign_access_token encode
accepted =
    parse-sign toy_crypto (codes "s") alice 0 (60 * second) (5 * second) token (omega arith) refl

parse-eq-ok_example :
    (h : Text) × (p : Text) × (s : Text) × (split b'.' token ≡ h ∷ p ∷ s ∷ [])
    × (toy_crypto.url_decode s ≡ some (toy_crypto.hmac (codes "s") (h ++ b'.' ∷ p)))
    × (before (5 * second) (claims_for alice 60).expiry ≡ true)
unfolding sign_access_token encode
parse-eq-ok_example =
    parse-eq-ok toy_crypto (codes "s") token (5 * second) (claims_for alice 60) accepted

abbrev hash_of : Text → Text
hash_of password = elim (hash_password toy_crypto password (some (codes "salt"))) [
  | ok h ↦ h
  | err e ↦ []
]

verify-hash_example : verify_password toy_crypto (codes "guess") (hash_of (codes "pw")) ≡ (
    toy_crypto.id_key
      (codes "guess")
      (codes "salt")
      argon_time
      argon_memory
      argon_threads
      argon_key_len
    == toy_crypto.id_key
        (codes "pw")
        (codes "salt")
        argon_time
        argon_memory
        argon_threads
        argon_key_len)
unfolding hash_password
verify-hash_example =
    verify-hash toy_crypto (codes "pw") (codes "guess") (codes "salt") (hash_of (codes "pw")) refl
